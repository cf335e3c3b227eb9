-- ===== src/EventLog.antt =====
-- The domain event log of apps/gateway/src/domainEventCore.ts and domainEvents.ts: the tables
-- that it reads and writes, and the operations of `DomainEventStore` on the log.
-- A table is the list of its rows in the order of insertion; a timestamp is its number of
-- milliseconds, which orders the ISO texts of the columns.
pub mod Triggers
pub mod Gapless
pub mod Paging
use family_ai_platform.Common.{
  ℕ, suc, ◌+◌, min, max, String, Bool, true, false, not, ◌&&◌, ◌||◌, Option, none, some, List, [],
  ◌∷◌, ◌++◌, Outcome, ok, err, thrown, constraint_failed, Op, settle, ◌==◌, eqb, leb, ltb, is_text,
  if◌then◌else◌, length, take, select, first, exists_in, last_of, order_by,
}
use family_ai_platform.Json.{Fields}

pub record PersonRow : Type 0 where
  pub person_ref : String
  pub active : Bool

pub record ThreadRow : Type 0 where
  pub thread_ref : String
  pub person_ref : String
  pub created_at : ℕ

pub record StreamRow : Type 0 where
  pub home_chat_stream_ref : String
  pub person_ref : String
  pub agent_ref : Option String

pub record WorkRow : Type 0 where
  pub work_conversation_ref : String
  pub person_ref : String
  pub thread_ref : String
  pub agent_ref : Option String
  pub status : String

pub record AssignmentRow : Type 0 where
  pub person_ref : String
  pub agent_ref : String
  pub active : Bool

-- `person_event_sequences`.
pub record SequenceRow : Type 0 where
  pub person_ref : String
  pub last_sequence : ℕ
  pub updated_at : ℕ

-- `domain_events`, and the `DomainEvent` that `mapEvent` reads from a row.
pub record EventRow : Type 0 where
  pub event_ref : String
  pub person_ref : String
  pub event_sequence : ℕ
  pub event_type : String
  pub aggregate_type : String
  pub aggregate_ref : String
  pub thread_ref : Option String
  pub payload : Fields
  pub occurred_at : ℕ
  pub created_at : ℕ

pub data OutboxStatus : Type 0 where
  pending claimed published : OutboxStatus

-- `outbox_events`; `last_error` is the stored public error's code.
pub record OutboxRow : Type 0 where
  pub event_ref : String
  pub status : OutboxStatus
  pub attempt_count : ℕ
  pub available_at : ℕ
  pub claimed_by : Option String
  pub claimed_until : Option ℕ
  pub published_at : Option ℕ
  pub last_error : Option String
  pub updated_at : ℕ

-- `device_sync_cursors`.
pub record CursorRow : Type 0 where
  pub device_ref : String
  pub person_ref : String
  pub acknowledged_sequence : ℕ
  pub created_at : ℕ
  pub updated_at : ℕ

pub record EventDb : Type 0 where
  pub persons : List PersonRow
  pub threads : List ThreadRow
  pub streams : List StreamRow
  pub works : List WorkRow
  pub assignments : List AssignmentRow
  pub sequences : List SequenceRow
  pub events : List EventRow
  pub outbox : List OutboxRow
  pub cursors : List CursorRow

-- `INSERT INTO person_event_sequences … ON CONFLICT DO UPDATE SET last_sequence + 1`.
unfoldable pub bump : String → ℕ → List SequenceRow → List SequenceRow
bump p now [] = record { person_ref = p; last_sequence = 1; updated_at = now } ∷ []
bump p now (r ∷ rs) =
    if r.person_ref == p
    then record r { last_sequence = r.last_sequence + 1; updated_at = now } ∷ rs
    else r ∷ bump p now rs

-- `SELECT last_sequence FROM person_event_sequences WHERE person_ref = ?`, 0 for no row.
unfoldable pub last_sequence : String → List SequenceRow → ℕ
last_sequence p [] = 0
last_sequence p (r ∷ rs) = if r.person_ref == p then r.last_sequence else last_sequence p rs

-- The `CHECK (aggregate_type IN (…))` of `domain_events`.
abbrev pub aggregate_allowed : String → Bool
aggregate_allowed t =
    t == "home_chat"
    || t == "work"
    || t == "thread_message"
    || t == "chat_work_conversion"
    || t == "work_progress"
    || t == "provider_turn"

abbrev pub thread_exists : Option String → List ThreadRow → Bool
thread_exists none ts = true
thread_exists (some t) ts = exists_in (λ r. r.thread_ref == t) ts

-- Primary keys, the unique index on person and sequence, the checks and the foreign keys that an
-- insertion into `domain_events` and `outbox_events` meets.
unfoldable pub accepts : EventDb → EventRow → Bool
accepts db e =
    not (exists_in (λ x. x.event_ref == e.event_ref) db.events)
    && not (
        exists_in (λ x. x.person_ref == e.person_ref && eqb x.event_sequence e.event_sequence)
          db.events)
    && not (exists_in (λ x. x.event_ref == e.event_ref) db.outbox)
    && aggregate_allowed e.aggregate_type
    && exists_in (λ x. x.person_ref == e.person_ref) db.persons
    && thread_exists e.thread_ref db.threads

-- What `append` and each trigger put into the log; the rest of the row is computed.
pub record Draft : Type 0 where
  pub person_ref : String
  pub event_type : String
  pub aggregate_type : String
  pub aggregate_ref : String
  pub thread_ref : Option String
  pub payload : Fields
  pub occurred_at : ℕ
  pub created_at : ℕ

abbrev pub event_of : Draft → String → ℕ → EventRow
event_of d ref n = record {
  event_ref = ref;
  person_ref = d.person_ref;
  event_sequence = n;
  event_type = d.event_type;
  aggregate_type = d.aggregate_type;
  aggregate_ref = d.aggregate_ref;
  thread_ref = d.thread_ref;
  payload = d.payload;
  occurred_at = d.occurred_at;
  created_at = d.created_at;
}

abbrev pub outbox_of : EventRow → OutboxRow
outbox_of e = record {
  event_ref = e.event_ref;
  status = pending;
  attempt_count = 0;
  available_at = e.created_at;
  claimed_by = none;
  claimed_until = none;
  published_at = none;
  last_error = none;
  updated_at = e.created_at;
}

-- The row that a draft becomes: it takes the person's next number. `ref` is the random reference.
unfoldable pub drafted : Draft → String → EventDb → EventRow
drafted d ref db =
    event_of d ref (last_sequence d.person_ref (bump d.person_ref d.created_at db.sequences))

unfoldable pub logged : Draft → String → EventDb → EventDb
logged d ref db = record db {
  sequences = bump d.person_ref d.created_at db.sequences;
  events = db.events ++ drafted d ref db ∷ [];
  outbox = db.outbox ++ outbox_of (drafted d ref db) ∷ [];
}

-- The three insertions that `append` and every trigger make: the person's sequence goes up, the
-- event takes it, and the outbox gets a pending row.
unfoldable pub record_event : Draft → String → Op EventDb EventRow
record_event d ref db =
    if accepts db (drafted d ref db)
    then (ok (drafted d ref db), logged d ref db)
    else (err constraint_failed, db)

abbrev pub person_active : EventDb → String → Bool
person_active db p = exists_in (λ r. r.person_ref == p && r.active) db.persons

abbrev pub thread_of_person : EventDb → String → String → Bool
thread_of_person db t p = exists_in (λ r. r.thread_ref == t && r.person_ref == p) db.threads

-- `if (input.threadRef)` and the check under it: an empty text counts as absent.
abbrev pub thread_ok : EventDb → Draft → Bool
thread_ok db d = elim d.thread_ref [
  | none ↦ true
  | some t ↦ t == "" || thread_of_person db t d.person_ref
]

-- `DomainEventStore.append`; `d.created_at` is the clock.
unfoldable pub append : Draft → String → Op EventDb EventRow
append d ref db = settle db (
    if not (person_active db d.person_ref)
    then (err (thrown "DOMAIN_EVENT_PERSON_NOT_FOUND"), db)
    else if not (thread_ok db d)
    then (err (thrown "DOMAIN_EVENT_THREAD_NOT_FOUND"), db)
    else record_event d ref db)

-- The rows of one person, in the order of insertion.
abbrev pub events_of : String → List EventRow → List EventRow
events_of p es = select (λ e. e.person_ref == p) es

abbrev pub sequence_le : EventRow → EventRow → Bool
sequence_le a b = leb a.event_sequence b.event_sequence

pub record Page : Type 0 where
  pub events : List EventRow
  pub next_after_sequence : Option ℕ

abbrev pub clamp_limit : Option ℕ → ℕ
clamp_limit none = 100
clamp_limit (some n) = min (max n 1) 200

abbrev pub after_cursor : EventDb → String → ℕ → List EventRow
after_cursor db p after =
    order_by sequence_le (select (λ e. e.person_ref == p && ltb after e.event_sequence) db.events)

-- The sequence of the last event of a page that is not empty.
abbrev pub last_sequence_of : List EventRow → Option ℕ
last_sequence_of [] = none
last_sequence_of (e ∷ es) = some (last_of e es).event_sequence

abbrev pub page_of : ℕ → List EventRow → Page
page_of limit rows = record {
  events = take limit rows;
  next_after_sequence =
      if ltb limit (length rows) then last_sequence_of (take limit rows) else none;
}

-- `DomainEventStore.listPersonEvents`; the cursor defaults to 0, and a cursor is not negative.
unfoldable pub list_person_events : EventDb → String → ℕ → Option ℕ → Page
list_person_events db p after limit =
    let n = clamp_limit limit in page_of n (take (suc n) (after_cursor db p after))

abbrev pub max_sequence : List EventRow → ℕ
max_sequence [] = 0
max_sequence (e ∷ es) = max e.event_sequence (max_sequence es)

-- `DomainEventStore.getLatestPersonSequence`.
unfoldable pub latest_person_sequence : EventDb → String → ℕ
latest_person_sequence db p = max_sequence (events_of p db.events)

-- `DomainEventStore.findPersonEvent`.
unfoldable pub find_person_event : EventDb → String → ℕ → String → Option EventRow
find_person_event db p n ref =
    first (λ e. e.person_ref == p && eqb e.event_sequence n && e.event_ref == ref) db.events

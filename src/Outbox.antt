-- ===== src/Outbox.antt =====
-- The outbox of apps/gateway/src/domainEventCore.ts: `claimOutboxBatch`, `markPublished` and
-- `markFailed`. Times are milliseconds; the leases that come in are well-formed timestamps.
pub mod Leases
use Prim.Native.Nat.{Ordering}
use Prim.Native.String.{compare}
use family_ai_platform.Common.{
  ℕ, zero, suc, ◌+◌, String, Bool, true, false, not, ◌&&◌, ◌||◌, Option, none, some, List, [], ◌∷◌,
  Outcome, ok, err, thrown, Op, ◌==◌, eqb, leb, ltb, is_text, if◌then◌else◌, take, select, first,
  exists_in, update, changes, order_by, map,
}
use family_ai_platform.EventLog.{
  EventDb, EventRow, OutboxRow, OutboxStatus, pending, claimed, published, clamp_limit,
}

abbrev pub is_pending : OutboxStatus → Bool
is_pending pending = true
is_pending claimed = false
is_pending published = false

abbrev pub is_claimed : OutboxStatus → Bool
is_claimed pending = false
is_claimed claimed = true
is_claimed published = false

abbrev pub mem_text : String → List String → Bool
mem_text s xs = exists_in (λ x. x == s) xs

-- `claimed_until <= now`, and not where the column is NULL.
abbrev pub until_le : Option ℕ → ℕ → Bool
until_le none now = false
until_le (some u) now = leb u now

-- `claimed_until > now`, and not where the column is NULL.
abbrev pub until_gt : Option ℕ → ℕ → Bool
until_gt none now = false
until_gt (some u) now = ltb now u

-- The order of SQLite's default collation on texts.
abbrev pub text_before : String → String → Bool
text_before a b = elim (compare a b) [ Ordering.lt ↦ true | _ ↦ false ]

-- An outbox row joined with its event.
pub record Joined : Type 0 where
  pub entry : OutboxRow
  pub event : EventRow

abbrev pub join_row : OutboxRow → Option EventRow → List Joined → List Joined
join_row o none rest = rest
join_row o (some e) rest = record { entry = o; event = e } ∷ rest

abbrev pub join_events : List EventRow → List OutboxRow → List Joined
join_events es [] = []
join_events es (o ∷ os) =
    join_row o (first (λ e. e.event_ref == o.event_ref) es) (join_events es os)

-- `ORDER BY e.person_ref, e.event_sequence`.
abbrev pub event_le : EventRow → EventRow → Bool
event_le a b =
    text_before a.person_ref b.person_ref
    || (a.person_ref == b.person_ref && leb a.event_sequence b.event_sequence)

-- `ORDER BY o.available_at, e.person_ref, e.event_sequence`.
abbrev pub dispatch_le : Joined → Joined → Bool
dispatch_le a b =
    ltb a.entry.available_at b.entry.available_at
    || (eqb a.entry.available_at b.entry.available_at && event_le a.event b.event)

pub record Claim : Type 0 where
  pub worker_ref : String
  pub now : ℕ
  pub claimed_until : ℕ
  pub limit : Option ℕ

pub record Delivery : Type 0 where
  pub event : EventRow
  pub attempt_count : ℕ
  pub claimed_by : Option String
  pub claimed_until : Option ℕ

abbrev pub lapsed : ℕ → OutboxRow → Bool
lapsed now r = is_claimed r.status && until_le r.claimed_until now

abbrev pub released : ℕ → OutboxRow → OutboxRow
released now r = record r {
  status = pending;
  claimed_by = none;
  claimed_until = none;
  updated_at = now;
}

-- The claims whose lease has run out become pending again.
unfoldable pub release_lapsed : ℕ → List OutboxRow → List OutboxRow
release_lapsed now rows = update (lapsed now) (released now) rows

abbrev pub ready : ℕ → Joined → Bool
ready now j = is_pending j.entry.status && leb j.entry.available_at now

unfoldable pub candidates : Claim → List EventRow → List OutboxRow → List String
candidates c es rows =
    map (λ j. j.entry.event_ref)
      (take (clamp_limit c.limit)
        (order_by dispatch_le (select (ready c.now) (join_events es rows))))

abbrev pub claimable : String → OutboxRow → Bool
claimable ref r = r.event_ref == ref && is_pending r.status

abbrev pub taken : Claim → OutboxRow → OutboxRow
taken c r = record r {
  status = claimed;
  attempt_count = r.attempt_count + 1;
  claimed_by = some c.worker_ref;
  claimed_until = some c.claimed_until;
  updated_at = c.now;
}

-- The loop over the candidates: the table and the references whose update changed one row.
unfoldable pub claim_each : Claim → List String → List OutboxRow → List OutboxRow × List String
claim_each c [] rows = (rows, [])
claim_each c (ref ∷ refs) rows =
    let rest = claim_each c refs (update (claimable ref) (taken c) rows) in
    (rest.0, if eqb (changes (claimable ref) rows) 1 then ref ∷ rest.1 else rest.1)

abbrev pub delivery_of : Joined → Delivery
delivery_of j = record {
  event = j.event;
  attempt_count = j.entry.attempt_count;
  claimed_by = j.entry.claimed_by;
  claimed_until = j.entry.claimed_until;
}

unfoldable pub deliveries : List String → List EventRow → List OutboxRow → List Delivery
deliveries refs es rows = map delivery_of (
    order_by (λ a b. event_le a.event b.event)
      (select (λ j. mem_text j.entry.event_ref refs) (join_events es rows)))

unfoldable pub claim_outbox_batch : Claim → Op EventDb (List Delivery)
claim_outbox_batch c db =
    if leb c.claimed_until c.now
    then (err (thrown "OUTBOX_LEASE_INVALID"), db)
    else let rows = release_lapsed c.now db.outbox in
      let result = claim_each c (candidates c db.events rows) rows in
      (ok (deliveries result.1 db.events result.0), record db { outbox = result.0 })

-- The lease of a worker on an event, not yet run out at a time.
abbrev pub holds : String → String → ℕ → OutboxRow → Bool
holds ref worker at r =
    r.event_ref == ref
    && is_claimed r.status
    && is_text r.claimed_by worker
    && until_gt r.claimed_until at

abbrev pub settle_claim : String → String → ℕ → (OutboxRow → OutboxRow) → Op EventDb (Unit {0})
settle_claim ref worker at f db = (
  if eqb (changes (holds ref worker at) db.outbox) 1
      then ok tt
      else err (thrown "OUTBOX_CLAIM_INVALID"),
  record db { outbox = update (holds ref worker at) f db.outbox },
)

abbrev pub as_published : ℕ → OutboxRow → OutboxRow
as_published at r = record r {
  status = published;
  claimed_by = none;
  claimed_until = none;
  published_at = some at;
  last_error = none;
  updated_at = at;
}

unfoldable pub mark_published : String → String → ℕ → Op EventDb (Unit {0})
mark_published ref worker at db = settle_claim ref worker at (as_published at) db

abbrev pub as_failed : String → ℕ → ℕ → OutboxRow → OutboxRow
as_failed error available_at at r = record r {
  status = pending;
  available_at = available_at;
  claimed_by = none;
  claimed_until = none;
  published_at = none;
  last_error = some error;
  updated_at = at;
}

unfoldable pub mark_failed : String → String → String → ℕ → ℕ → Op EventDb (Unit {0})
mark_failed ref worker error available_at at db =
    settle_claim ref worker at (as_failed error available_at at) db

-- ===== src/Chat/Messages.antt =====
-- The messages of a thread: `appendThreadMessage` and `listThreadMessages` of
-- apps/gateway/src/chatWorkDomain.ts. Two fingerprints are compared by their parts, since their
-- JSON texts are canonical; the defaults of a call's optional fields are filled in.
use family_ai_platform.Common.{
  ℕ, ◌+◌, String, Bool, true, false, not, ◌&&◌, ◌||◌, Option, none, some, List, [], ◌∷◌, ◌++◌, map,
  Outcome, ok, err, thrown, constraint_failed, Failure, validation, conflict, Op, pure, gets,
  modify, require, refuse_if, transaction, ◌>>=◌, ◌>>◌, ◌==◌, same_text, is_text, is_some, eqb, leb,
  ltb, if◌then◌else◌, length, first, exists_in, all_in, select, order_by,
}
use family_ai_platform.SyncContract.Formats.{codes, white}
use family_ai_platform.EventLog.{EventDb}
use family_ai_platform.EventLog.Triggers.{MessageRow, message_created}
use family_ai_platform.Pairing.{mobile_error}
use family_ai_platform.Attachments.{
  AttachmentDb, AttachmentRow, attachment_not_found, attachment_not_ready, is_state, ready,
  is_stored, family_member, attachment_by_ref,
}
use family_ai_platform.Attachments.Uploads.{attach}
use family_ai_platform.Chat.{
  ChatDb, Actor, person, assistant, agent, system, Message, MessageAttachment, Access,
  require_thread, take_sequence, mark_episodes,
}

-- An operation on the attachments, or on the event log, inside one on the threads.
abbrev pub in_files : {A : Type 0} → Op AttachmentDb A → Op ChatDb A
in_files m db = let (o, files') = m db.files in (o, record db { files = files' })

abbrev pub in_log : {A : Type 0} → Op EventDb A → Op ChatDb A
in_log m db = let (o, log') = m db.log in (o, record db { log = log' })

abbrev pub actor_type : Actor → String
actor_type (person p) = "person"
actor_type (assistant a g v) = "assistant"
actor_type (agent g v) = "agent"
actor_type (system s) = "system"

abbrev pub trigger_row : Message → MessageRow
trigger_row m = record {
  message_ref = m.message_ref;
  thread_ref = m.thread_ref;
  thread_sequence = m.thread_sequence;
  actor_type = actor_type m.actor;
  client_message_id = m.client_message_id;
  occurred_at = m.occurred_at;
  created_at = m.created_at;
}

-- The keys and checks of `thread_messages`.
abbrev pub message_clashes : Message → Message → Bool
message_clashes m x =
    x.message_ref == m.message_ref
    || (x.thread_ref == m.thread_ref
        && (eqb x.thread_sequence m.thread_sequence || x.client_message_id == m.client_message_id))

abbrev pub message_fits : ChatDb → Message → Bool
message_fits db m =
    not (exists_in (message_clashes m) db.messages) && leb (length (codes m.body)) 12000

-- An `INSERT` into `thread_messages`, with the event that its trigger adds.
unfoldable pub insert_message : Message → String → Op ChatDb (Unit {0})
insert_message m event_ref = do
  fits ← gets (λ db. message_fits db m)
  refuse_if (not fits) constraint_failed
  modify (λ db. record db { messages = db.messages ++ m ∷ [] })
  e ← in_log (message_created (trigger_row m) event_ref)
  pure tt

pub record NewMessage : Type 0 where
  pub access : Access
  pub attachment_family_ref : Option String
  pub thread_ref : String
  pub client_message_id : String
  pub actor : Actor
  pub device_ref : Option String
  pub connection_ref : Option String
  pub entry_audience : String
  pub body : String
  pub language : Option String
  pub attachment_refs : List String
  pub occurred_at : ℕ

-- `ThreadMessage`: a row with its attachments.
pub record Posted : Type 0 where
  pub message : Message
  pub attachments : List AttachmentRow

abbrev pub message_invalid : Failure
message_invalid = mobile_error "THREAD_MESSAGE_INVALID" 400 validation

abbrev pub message_conflict : Failure
message_conflict = mobile_error "THREAD_MESSAGE_CONFLICT" 409 conflict

abbrev pub is_blank : String → Bool
is_blank s = all_in white (codes s)

abbrev pub no_repeats : List String → Bool
no_repeats [] = true
no_repeats (x ∷ xs) = not (exists_in (λ y. y == x) xs) && no_repeats xs

abbrev no_refs : List String → Bool
no_refs [] = true
no_refs (x ∷ xs) = false

-- The refusals of `appendThreadMessage` before its transaction.
abbrev pub content_ok : NewMessage → Bool
content_ok i =
    leb (length i.attachment_refs) 10
    && no_repeats i.attachment_refs
    && not (is_blank i.body && no_refs i.attachment_refs)

abbrev pub device_serves : ChatDb → String → String → Bool
device_serves db p device =
    exists_in (λ d. d.device_ref == device && d.active) db.devices
    && exists_in
        (λ b.
          b.device_ref == device
          && b.active
          && (is_text b.person_ref p
              || (not (is_some b.person_ref) && family_member db.files b.family_ref p)))
        db.device_bindings

abbrev pub assignment_serves : ChatDb → String → String → String → String → Bool
assignment_serves db p a g v =
    exists_in
      (λ m.
        m.assignment_ref == a
        && m.person_ref == p
        && m.agent_ref == g
        && m.provider_profile_ref == v
        && m.active)
      db.mounts

abbrev pub person_device_ok : ChatDb → String → String → Option String → Bool
person_device_ok db p q none = false
person_device_ok db p q (some d) = q == p && not (d == "") && device_serves db p d

-- `validateMessageProvenance`.
abbrev pub provenance_ok : ChatDb → String → Actor → Option String → String → Bool
provenance_ok db p (person q) device audience = person_device_ok db p q device
provenance_ok db p (assistant a g v) device audience = assignment_serves db p a g v
provenance_ok db p (agent g v) device audience = true
provenance_ok db p (system s) device audience = audience == "system"

abbrev pub by_client_id : ChatDb → String → String → Option Message
by_client_id db ref id = first (λ m. m.thread_ref == ref && m.client_message_id == id) db.messages

abbrev order_le : MessageAttachment → MessageAttachment → Bool
order_le a b = leb a.attachment_order b.attachment_order

abbrev pub with_file : Option AttachmentRow → List AttachmentRow → List AttachmentRow
with_file none rs = rs
with_file (some r) rs = r ∷ rs

abbrev pub files_for : ChatDb → List MessageAttachment → List AttachmentRow
files_for db [] = []
files_for db (a ∷ rest) =
    with_file (attachment_by_ref db.files a.attachment_ref) (files_for db rest)

-- `attachmentsForMessageRefs` for one message.
abbrev pub attachments_of : ChatDb → String → List AttachmentRow
attachments_of db ref =
    files_for db (order_by order_le (select (λ a. a.message_ref == ref) db.message_attachments))

abbrev pub posted : ChatDb → Message → Posted
posted db m = record { message = m; attachments = attachments_of db m.message_ref }

abbrev pub eq_actor : Actor → Actor → Bool
eq_actor (person p) (person q) = p == q
eq_actor (assistant a g v) (assistant b h w) = a == b && g == h && v == w
eq_actor (agent g v) (agent h w) = g == h && v == w
eq_actor (system s) (system t) = s == t
eq_actor _ _ = false

abbrev pub eq_texts : List String → List String → Bool
eq_texts [] [] = true
eq_texts [] (y ∷ ys) = false
eq_texts (x ∷ xs) [] = false
eq_texts (x ∷ xs) (y ∷ ys) = x == y && eq_texts xs ys

-- The language that `mapThreadMessage` reads: the empty text is dropped.
abbrev pub language_of : Option String → Option String
language_of none = none
language_of (some l) = if l == "" then none else some l

-- `logicalMessageFingerprint` of a message and of an input are the same.
abbrev pub same_fingerprint : Posted → NewMessage → Bool
same_fingerprint x i =
    eq_actor x.message.actor i.actor
    && x.message.body == i.body
    && same_text (language_of x.message.language) i.language
    && eqb x.message.occurred_at i.occurred_at
    && eq_texts (map (λ (r : AttachmentRow). r.attachment_ref) x.attachments) i.attachment_refs

abbrev pub max_message_attachment_bytes : ℕ
max_message_attachment_bytes = 2147483648

-- The row of an attachment that the loop of `appendThreadMessage` reads, in a family if one is
-- known.
abbrev pub in_family : Option String → AttachmentRow → Bool
in_family none r = true
in_family (some f) r = r.family_ref == f

abbrev pub usable_file : AttachmentDb → String → Option String → String → Option AttachmentRow
usable_file files p f ref =
    first
      (λ r.
        r.attachment_ref == ref
        && r.owner_person_ref == p
        && in_family f r
        && family_member files r.family_ref p)
      files.attachments

abbrev pub with_total : ℕ → Outcome ℕ → Outcome ℕ
with_total n (ok m) = ok (n + m)
with_total n (err e) = err e

abbrev pub use_file : AttachmentRow → Outcome ℕ → Outcome ℕ
use_file r rest =
    if not (is_state r.state ready) || not (is_stored r)
    then err attachment_not_ready
    else with_total r.size_bytes rest

-- That loop, for the total size; the first attachment fixes the family.
unfoldable pub attachment_total : AttachmentDb → String → Option String → List String → Outcome ℕ
attachment_total files p f [] = ok 0
attachment_total files p f (ref ∷ refs) = elim (usable_file files p f ref) [
  | none ↦ err attachment_not_found
  | some r ↦ use_file r (attachment_total files p (some r.family_ref) refs)
]

abbrev pub answer : {A S : Type 0} → Outcome A → Op S A
answer o s = (o, s)

-- The loop that takes the attachments into the message.
unfoldable pub attach_each : String → String → ℕ → ℕ → List String → Op ChatDb (Unit {0})
attach_each p message now n [] = pure tt
attach_each p message now n (ref ∷ refs) = do
  u ← in_files (attach p ref now)
  modify (λ db. record db {
    message_attachments =
        db.message_attachments
        ++ record { message_ref = message; attachment_ref = ref; attachment_order = n } ∷ [];
  })
  attach_each p message now (n + 1) refs

abbrev pub message_of : NewMessage → String → ℕ → ℕ → Message
message_of i ref n now = record {
  message_ref = ref;
  thread_ref = i.thread_ref;
  thread_sequence = n;
  client_message_id = i.client_message_id;
  actor = i.actor;
  device_ref = i.device_ref;
  connection_ref = i.connection_ref;
  entry_audience = i.entry_audience;
  body = i.body;
  language = i.language;
  occurred_at = i.occurred_at;
  created_at = now;
}

abbrev pub attachment_family : NewMessage → Option String
attachment_family i = elim i.attachment_family_ref [ none ↦ i.access.family_ref | some f ↦ some f ]

abbrev pub message_by_ref : ChatDb → String → Option Message
message_by_ref db ref = first (λ m. m.message_ref == ref) db.messages

-- What `appendThreadMessage` writes for a message that is new.
unfoldable pub append_new : NewMessage → String → String → ℕ → Op ChatDb Posted
unfolding take_sequence insert_message attachment_total attach_each
append_new i ref event_ref now = do
  files ← gets (λ db. db.files)
  total ←
      answer (attachment_total files i.access.person_ref (attachment_family i) i.attachment_refs)
  refuse_if (ltb max_message_attachment_bytes total) message_invalid
  n ← take_sequence i.thread_ref i.access.person_ref now
  u ← insert_message (message_of i ref n now) event_ref
  v ← attach_each i.access.person_ref ref now 0 i.attachment_refs
  modify (mark_episodes i.thread_ref n)
  stored ← gets (λ db. message_by_ref db ref)
  m ← require stored (thrown "Thread Message was not readable after creation")
  gets (λ db. posted db m)

abbrev pub append_found : NewMessage → String → String → ℕ → Option Message → Op ChatDb Posted
append_found i ref event_ref now none = append_new i ref event_ref now
append_found i ref event_ref now (some m) = do
  x ← gets (λ db. posted db m)
  refuse_if (not (same_text m.device_ref i.device_ref)) message_conflict
  refuse_if (not (same_fingerprint x i)) message_conflict
  pure x

-- `appendThreadMessage`; the references of the message and of its event are drawn.
unfoldable pub append_message : NewMessage → String → String → ℕ → Op ChatDb Posted
unfolding require_thread append_new
append_message i ref event_ref now = do
  refuse_if (not (content_ok i)) message_invalid
  transaction (do
    t ← require_thread i.access i.thread_ref
    serves ← gets (λ db. provenance_ok db i.access.person_ref i.actor i.device_ref i.entry_audience)
    refuse_if (not serves) message_invalid
    existing ← gets (λ db. by_client_id db i.thread_ref i.client_message_id)
    append_found i ref event_ref now existing)

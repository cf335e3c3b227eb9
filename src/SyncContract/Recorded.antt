-- ===== src/SyncContract/Recorded.antt =====
-- What the triggers of apps/gateway/src/domainEventCore.ts put into the log, against the contract of
-- packages/contracts/src/sync.ts: the events of messages and of provider turns.
use family_ai_platform.Common.{
  suc, String, ◌≡◌, ap, sym, ◌∙◌, Bool, true, false, some, arith, ◌==◌, ok, err, constraint_failed,
  ok_or, Bool-cases, inl, inr,
}
use family_ai_platform.EventLog.{
  EventDb, EventRow, Draft, event_of, drafted, last_sequence, record_event, accepts, logged,
}
use family_ai_platform.EventLog.Gapless.{last_sequence-bump_self}
use family_ai_platform.EventLog.Triggers.{
  MessageRow, TurnRow, TurnStatus, turn_failed, turn_succeeded, is_status, message_draft,
  turn_failed_draft, turn_succeeded_draft, message_created, provider_turn_updated, thread_owner,
  emit_for,
}
use family_ai_platform.SyncContract.Formats.{
  fixed_ref, sequence_ok, client_message_id_ok, error_code_ok, error_category_ok,
}
use family_ai_platform.SyncContract.Events.{sync_event_ok, actor_type_ok}
use family_ai_platform.SyncContract.Emitted.{
  IsKeyed, error_fields, message_draft_accepted, turn_failed_draft_accepted,
  turn_succeeded_draft_accepted,
}

-- An event that is recorded has the person's next number.
recorded_event :
    (d : Draft) (ref : String) (db : EventDb) {db' : EventDb} {e : EventRow}
    → record_event d ref db ≡ (ok e, db')
    → e ≡ event_of d ref (suc (last_sequence d.person_ref db.sequences))
unfolding record_event drafted
recorded_event d ref db h = elim (Bool-cases (accepts db (drafted d ref db))) [
  | inl may ↦
      let done : (ok (drafted d ref db), logged d ref db) ≡ (ok _, _) = rw may at h in
      ap (λ t. ok_or (drafted d ref db) t.0) (sym done)
      ∙ ap (event_of d ref) (last_sequence-bump_self d.person_ref d.created_at db.sequences)
  | inr may_not ↦
      absurd
        (let failed : (err constraint_failed, db) ≡ (ok _, _) = rw may_not at h in ground arith)
]

-- The facts about a message that the code keeps: the formats of its references and of its client's
-- identifier.
pub record IsMessage (m : MessageRow) : Type 0 where
  pub message : fixed_ref "message:" m.message_ref ≡ true
  pub thread : fixed_ref "thread:" m.thread_ref ≡ true
  pub sequence : sequence_ok m.thread_sequence ≡ true
  pub actor : actor_type_ok m.actor_type ≡ true
  pub client : client_message_id_ok m.client_message_id ≡ true

-- The facts about a turn that the code keeps.
pub record IsTurn (t : TurnRow) : Type 0 where
  pub user : fixed_ref "message:" t.user_message_ref ≡ true
  pub thread : fixed_ref "thread:" t.thread_ref ≡ true
  pub agent : fixed_ref "agent:" t.agent_ref ≡ true
  pub attempts : sequence_ok t.attempt_count ≡ true

-- The event that the trigger records for a message of a person's thread is one that the contract
-- accepts, if the references, the actor's type and the client's identifier have their formats and
-- the person's next number is a safe integer.
pub message_created_accepted :
    (m : MessageRow) (ref person : String) (db : EventDb) {db' : EventDb} {e : EventRow}
    → thread_owner db m.thread_ref ≡ some person
    → IsMessage m
    → IsKeyed ref person (suc (last_sequence person db.sequences))
    → message_created m ref db ≡ (ok e, db')
    → sync_event_ok e ≡ true
unfolding message_created
message_created_accepted m ref person db owned g k h =
    ap sync_event_ok (
      recorded_event (message_draft m person) ref db
        (sym (ap (λ o. emit_for o (message_draft m) ref db) owned) ∙ h))
    ∙ message_draft_accepted m ref person (suc (last_sequence person db.sequences)) k g.message
        g.thread g.sequence g.actor g.client

-- The event that the trigger records for a provider turn that fails is one that the contract
-- accepts, if the turn keeps the public error that the code stores, its message included, and its
-- references and count have their formats.
pub turn_failed_accepted :
    (old : TurnStatus) (t : TurnRow) (code category message ref person : String) (retryable : Bool)
    (db : EventDb) {db' : EventDb} {e : EventRow}
    → thread_owner db t.thread_ref ≡ some person
    → IsTurn t
    → t.status ≡ turn_failed
    → t.error ≡ error_fields code category message retryable
    → error_code_ok code ≡ true
    → error_category_ok category ≡ true
    → IsKeyed ref person (suc (last_sequence person db.sequences))
    → provider_turn_updated old t ref db ≡ some (ok e, db')
    → sync_event_ok e ≡ true
unfolding provider_turn_updated
turn_failed_accepted old t code category message ref person retryable db {db'} {e} owned g s stored
      c cat k h =
    ap sync_event_ok (
      recorded_event (turn_failed_draft t person) ref db
        (sym (ap (λ o. emit_for o (turn_failed_draft t) ref db) owned) ∙ fired))
    ∙ turn_failed_draft_accepted t code category message ref person retryable
        (suc (last_sequence person db.sequences)) k stored c cat g.user g.thread g.agent g.attempts
  where
    fired : emit_for (thread_owner db t.thread_ref) (turn_failed_draft t) ref db ≡ (ok e, db')
    fired = elim (Bool-cases (is_status old turn_failed)) [
      | inl again ↦ absurd (ground arith)
      | inr first_time ↦ ground arith
    ]

-- The event that the trigger records for a provider turn that succeeds is one that the contract
-- accepts, if the turn names the assistant's message, another than the user's, and its references
-- and count have their formats.
pub turn_succeeded_accepted :
    (old : TurnStatus) (t : TurnRow) (assistant ref person : String) (db : EventDb) {db' : EventDb}
    {e : EventRow}
    → thread_owner db t.thread_ref ≡ some person
    → IsTurn t
    → t.status ≡ turn_succeeded
    → t.assistant_message_ref ≡ some assistant
    → fixed_ref "message:" assistant ≡ true
    → (assistant == t.user_message_ref) ≡ false
    → IsKeyed ref person (suc (last_sequence person db.sequences))
    → provider_turn_updated old t ref db ≡ some (ok e, db')
    → sync_event_ok e ≡ true
unfolding provider_turn_updated
turn_succeeded_accepted old t assistant ref person db {db'} {e} owned g s named a other k h =
    ap sync_event_ok (
      recorded_event (turn_succeeded_draft t person) ref db
        (sym (ap (λ o. emit_for o (turn_succeeded_draft t) ref db) owned) ∙ fired))
    ∙ turn_succeeded_draft_accepted t assistant ref person (suc (last_sequence person db.sequences))
        k named g.user a g.thread g.agent g.attempts other
  where
    fired : emit_for (thread_owner db t.thread_ref) (turn_succeeded_draft t) ref db ≡ (ok e, db')
    fired = elim (Bool-cases (is_status old turn_succeeded)) [
      | inl again ↦ absurd (ground arith)
      | inr first_time ↦ ground arith
    ]

-- ===== src/Chat/Answered.antt =====
-- The provider's answer: `commitTurnSucceeded` of apps/gateway/src/chatWorkProvider.ts, and
-- `sendForContext` of apps/gateway/src/chatWorkMessageService.ts from the answer on.
use family_ai_platform.Common.{
  ◌&&◌, ℕ, String, true, not, Option, none, some, ◌≡◌, ◌∙◌, refl, ap, ok, thrown, arith, Bool-cases,
  inl, inr, ◌==◌, pure, require, refuse_if, Gives, gives_of, then-Gives, require-Gives,
  refuse-Gives, settle-Gives, Keeps-Gives, changes, eqb, constraint_failed, first-update,
}
use family_ai_platform.EventLog.Triggers.{is_status, turn_pending, turn_succeeded}
use family_ai_platform.Chat.{ChatDb, Turn, take_sequence}
use family_ai_platform.Chat.Messages.{NewMessage, Posted, insert_message, in_log}
use family_ai_platform.Chat.Requests.{Request}
use family_ai_platform.Chat.Turns.{
  Prepared, read_turn, end_turn, is_pending_turn, turn_not_found, update_turns, turn_event,
}
use family_ai_platform.Chat.Commits.{
  Reply, CommitDraws, commit_turn, commit_writes, commit_or_repeat, given_reply, same_facts,
  succeeded, reply_actor, reply_message, is_used_context,
}
use family_ai_platform.Chat.Sending.{
  Answer, threw, unreadable, result, ProviderResult, finish_send, finish_result, commit_reply,
  reply_from, invalid_response, unavailable, error_or, is_success, clear_if_lost, failure_status,
}
use family_ai_platform.Chat.Final.{HasTurn, inserts_spare}
use family_ai_platform.Chat.Asked.{fails}

-- The turn of a message has succeeded with a reply.
abbrev pub IsAnswered : String → String → ChatDb → Type 0
IsAnswered m id db =
    (t : Turn) × (read_turn db m ≡ some t)
    × (is_status t.status turn_succeeded ≡ true)
    × (t.assistant_message_ref ≡ some id)

sequence_spares :
    (ref p : String) (now : ℕ) (m : String) (t : Turn) (db : ChatDb)
    → HasTurn m t db
    → HasTurn m t (take_sequence ref p now db).1
unfolding take_sequence
sequence_spares ref p now m t db h = ground arith

pub updated_turn :
    (m : String) (t : Turn) (f : Turn → Turn) (db : ChatDb)
    → ((t : Turn) → (f t).user_message_ref ≡ t.user_message_ref)
    → is_status t.status turn_pending ≡ true
    → HasTurn m t db
    → HasTurn m (f t) (update_turns (is_pending_turn m) f db)
updated_turn m t f db same pending h =
    first-update (λ y. y.user_message_ref == m) (λ y. is_status y.status turn_pending) f
      (λ y. ap (λ r. r == m) (same y)) db.turns t h
    ∙ rw pending refl

-- An update of the pending turn of a message.
pub pending_ends :
    (m : String) (t : Turn) (f : Turn → Turn) (ref : String) (db : ChatDb)
    → ((t : Turn) → (f t).user_message_ref ≡ t.user_message_ref)
    → is_status t.status turn_pending ≡ true
    → HasTurn m t db
    → Gives
        (λ n s. HasTurn m (f t) s × (n ≡ changes (is_pending_turn m) db.turns))
        (end_turn m f ref db)
unfolding end_turn
pending_ends m t f ref db same pending h =
    let updated = updated_turn m t f db same pending h in
    elim (Bool-cases (eqb (changes (is_pending_turn m) db.turns) 0)) [
      | inl none_changed ↦ rw none_changed (record { given = (updated, refl) })
      | inr some_changed ↦ rw some_changed (
          then-Gives (λ u s. HasTurn m (f t) s)
            (in_log
              (turn_event turn_pending (read_turn (update_turns (is_pending_turn m) f db) m) ref))
            (λ u. pure (changes (is_pending_turn m) db.turns))
            (update_turns (is_pending_turn m) f db)
            (Keeps-Gives (HasTurn m (f t)) _ (record { holds = updated }))
            (λ u y q. record { given = (q, refl) }))
    ]

given :
    (t : Turn) (id : String)
    → given_reply t ≡ some id
    → (is_status t.status turn_succeeded ≡ true) × (t.assistant_message_ref ≡ some id)
given t id e = ground arith

writes_answer :
    (p m ref : String) (turn : Prepared) (t : Turn) (r : Reply) (d : CommitDraws) (now : ℕ)
    (db : ChatDb)
    → is_status t.status turn_pending ≡ true
    → HasTurn m t db
    → Gives (IsAnswered m) (commit_writes p m ref turn t r d now db)
unfolding commit_writes
writes_answer p m ref turn t r d now db pending h =
    then-Gives (λ n s. HasTurn m t s) (take_sequence ref p r.completed_at) _ db
      (Keeps-Gives (HasTurn m t) _
        (record { holds = sequence_spares ref p r.completed_at m t db h }))
      (λ n s q.
        then-Gives (λ a s. HasTurn m t s)
          (require (reply_actor turn.turn.audience t) constraint_failed) _ s
          (require-Gives _ _ s (λ a e. q))
          (λ actor s1 q1.
            let x = reply_message turn.turn.audience m ref actor r d.message_ref n now in
            then-Gives (λ u s. HasTurn m t s) (insert_message x d.message_event_ref) _ s1
              (Keeps-Gives (HasTurn m t) _
                (record { holds = inserts_spare x d.message_event_ref m t s1 q1 }))
              (λ u s2 q2.
                let used : ℕ = changes (is_used_context p ref turn.turn.audience t) s2.contexts in
                then-Gives (λ v s. HasTurn m t s)
                  (refuse_if (not (eqb used 1))
                    (thrown "Thread Provider Context changed before success commit"))
                  _ _ (refuse-Gives _ _ _ (λ f. q2))
                  (λ v s3 q3.
                    then-Gives
                      (λ k s.
                        HasTurn m (succeeded d.message_ref r.completed_at t) s
                        × (k ≡ changes (is_pending_turn m) s3.turns))
                      (end_turn m (succeeded d.message_ref r.completed_at) d.turn_event_ref) _ s3
                      (pending_ends m t (succeeded d.message_ref r.completed_at) d.turn_event_ref s3
                        (λ y. refl) pending q3)
                      (λ j s4 q4.
                        then-Gives (λ w s. HasTurn m (succeeded d.message_ref r.completed_at t) s)
                          (refuse_if (not (eqb j 1))
                            (thrown "Provider Turn was not marked succeeded"))
                          _ s4 (refuse-Gives _ _ s4 (λ f. q4.0))
                          (λ w s5 q5. record {
                            given = (succeeded d.message_ref r.completed_at t, q5, refl, refl);
                          }))))))

repeat_answer :
    (id : Option String) (p m ref : String) (turn : Prepared) (t : Turn) (r : Reply)
    (d : CommitDraws) (now : ℕ) (db : ChatDb)
    → given_reply t ≡ id
    → HasTurn m t db
    → Gives (IsAnswered m) (commit_or_repeat id p m ref turn t r d now db)
repeat_answer (some id) p m ref turn t r d now db e h =
    let (done, reply) = given t id e in record { given = (t, h, done, reply) }
repeat_answer none p m ref turn t r d now db e h =
    then-Gives (λ u s. HasTurn m t s × (is_status t.status turn_pending ≡ true))
      (refuse_if (not (is_status t.status turn_pending)) (thrown "Provider Turn cannot succeed")) _
      db (refuse-Gives _ _ db (λ f. (h, ground arith)))
      (λ u s q.
        then-Gives (λ v s. HasTurn m t s)
          (refuse_if (not (same_facts t turn))
            (thrown "Provider Turn facts changed before success commit"))
          _ s (refuse-Gives _ _ s (λ f. q.0))
          (λ v s1 q1. writes_answer p m ref turn t r d now s1 q.1 q1))

pub commit_answers :
    (p m ref : String) (turn : Prepared) (r : Reply) (d : CommitDraws) (now : ℕ) (db : ChatDb)
    → Gives (IsAnswered m) (commit_turn p m ref turn r d now db)
unfolding commit_turn
commit_answers p m ref turn r d now db = settle-Gives db _ (
    then-Gives (λ t s. HasTurn m t s) (require (read_turn db m) turn_not_found) _ db
      (require-Gives _ _ db (λ t e. e))
      (λ t s q.
        then-Gives (λ u s. HasTurn m t s) (refuse_if (not (t.thread_ref == ref)) turn_not_found) _ s
          (refuse-Gives _ _ s (λ f. q))
          (λ u s1 q1. repeat_answer (given_reply t) p m ref turn t r d now s1 refl q1)))

reply_answers :
    (i : NewMessage) (m : String) (t : Prepared) (at : ℕ) (d : CommitDraws) (event_ref : String)
    (now : ℕ) (r : Option Reply) (db : ChatDb)
    → Gives (IsAnswered m) (commit_reply i m t at d event_ref now r db)
reply_answers i m t at d event_ref now none db = fails m invalid_response at 502 event_ref db
reply_answers i m t at d event_ref now (some r) db =
    commit_answers i.access.person_ref m i.thread_ref t r d now db

result_answers :
    (i : NewMessage) (m : String) (t : Prepared) (q : Request) (d : CommitDraws)
    (event_ref : String) (now : ℕ) (r : ProviderResult) (db : ChatDb)
    → Gives (IsAnswered m) (finish_result i m t q d event_ref now r db)
result_answers i m t q d event_ref now r db =
    elim (Bool-cases
      (not (r.invocation_ref == q.invocation_ref && r.correlation_ref == q.correlation_ref))) [
        | inl other ↦ rw other (fails m invalid_response r.completed_at 502 event_ref db)
        | inr same ↦ rw same (elim (Bool-cases (not (is_success r.status))) [
          | inl bad ↦ rw bad (
              then-Gives (λ u s. Unit {0})
                (clear_if_lost (error_or unavailable r.error).code t r.completed_at) _ db
                (Keeps-Gives (λ s. Unit {0}) _ (record { holds = tt }))
                (λ u s h.
                  fails m (error_or unavailable r.error) r.completed_at (failure_status r.status)
                    event_ref s))
          | inr good ↦ rw good (
              reply_answers i m t r.completed_at d event_ref now
                (reply_from r.output r.external_session_ref r.completed_at) db)
        ])
      ]

-- When the rest of a send gives a reply, the message's turn is stored as succeeded with that reply.
pub finish_send-IsAnswered :
    (i : NewMessage) (x : Posted) (t : Prepared) (q : Request) (d : CommitDraws)
    (event_ref : String) (now : ℕ) (answer : Answer) (db db' : ChatDb) (id : String)
    → finish_send i x t q d event_ref now answer db ≡ (ok id, db')
    → IsAnswered x.message.message_ref id db'
unfolding finish_send
finish_send-IsAnswered i x t q d event_ref now answer db db' id e =
    gives_of _ id db' (gives answer) e
  where
    gives :
        (answer : Answer)
        → Gives (IsAnswered x.message.message_ref) (finish_send i x t q d event_ref now answer db)
    gives threw = fails x.message.message_ref unavailable now 502 event_ref db
    gives unreadable = fails x.message.message_ref invalid_response now 502 event_ref db
    gives (result r) = result_answers i x.message.message_ref t q d event_ref now r db

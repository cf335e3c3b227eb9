-- ===== src/Chat/Failures.antt =====
-- What `markTurnFailed` of apps/gateway/src/chatWorkProvider.ts leaves in the event log and in the
-- outbox, by the trigger of apps/gateway/src/domainEventCore.ts.
use family_ai_platform.Common.{
  ℕ, suc, String, Bool, true, false, Option, none, some, [], ◌∷◌, ◌++◌, ◌≡◌, ◌∙◌, refl, sym, subst,
  ap, ok, arith, transaction, Gives, gives_of, then-Gives, settle-Gives, Keeps-Gives, eqb, changes,
  pure, Option-cases, Bool-cases, inl, inr,
}
use family_ai_platform.Json.{Json, field, done, text, num, obj}
use family_ai_platform.EventLog.{
  EventDb, EventRow, record_event, accepts, drafted, logged, last_sequence,
}
use family_ai_platform.EventLog.Gapless.{last_sequence-bump_self}
use family_ai_platform.EventLog.Triggers.{
  thread_owner, is_status, turn_pending, turn_failed_draft, sql_value, provider_turn_updated,
}
use family_ai_platform.Chat.{ChatDb, PublicError, Turn}
use family_ai_platform.Chat.Messages.{in_log}
use family_ai_platform.Chat.Turns.{
  read_turn, end_turn, mark_turn_failed, failed, is_pending_turn, update_turns, turn_row,
  turn_event, not_failed,
}
use family_ai_platform.Chat.Logged.{waiting}
use family_ai_platform.Chat.Answered.{updated_turn}
use family_ai_platform.Chat.Unanswered.{changes-first}

abbrev number : Bool → Json
number true = num 1
number false = num 0

-- The event of a turn that fails: the error without its message, and with what SQLite makes of its
-- boolean.
abbrev failure_row : String → String → ℕ → Turn → PublicError → ℕ → Json → EventRow
failure_row event_ref owner n t e at retryable = record {
  event_ref = event_ref;
  person_ref = owner;
  event_sequence = n;
  event_type = "thread.provider_turn.failed";
  aggregate_type = "provider_turn";
  aggregate_ref = t.user_message_ref;
  thread_ref = some t.thread_ref;
  payload = field "userMessageRef" (text t.user_message_ref) (
      field "threadRef" (text t.thread_ref) (
        field "agentRef" (text t.agent_ref) (
          field "attemptCount" (num t.attempt_count) (
            field "error"
              (obj (
                field "code" (text e.code)
                  (field "category" (text e.category) (field "retryable" retryable done))))
              done))));
  occurred_at = at;
  created_at = at;
}

abbrev pub failure_event : String → String → ℕ → Turn → PublicError → ℕ → EventRow
failure_event event_ref owner n t e at = failure_row event_ref owner n t e at (number e.retryable)

-- The log has grown by that event, under the next number of the thread's owner, and the outbox by
-- its row.
abbrev pub FailureLogged : String → Turn → PublicError → ℕ → EventDb → EventDb → Type 0
FailureLogged event_ref t e at log log' =
    (owner : String) × (thread_owner log t.thread_ref ≡ some owner)
    × (log'.events
        ≡ log.events
          ++ failure_event event_ref owner (suc (last_sequence owner log.sequences)) t e at ∷ [])
    × (log'.outbox ≡ log.outbox ++ waiting event_ref at ∷ [])

sql_number : (b : Bool) → sql_value (some (Json.bool b)) ≡ number b
sql_number true = refl
sql_number false = refl

event_logs :
    (t : Turn) (e : PublicError) (at : ℕ) (ref : String) (db : ChatDb)
    → Gives
        (λ u s. FailureLogged ref t e at db.log s.log)
        (in_log (turn_event turn_pending (some (failed e at t)) ref) db)
unfolding provider_turn_updated record_event drafted logged
event_logs t e at ref db = elim (Option-cases (thread_owner db.log t.thread_ref)) [
  | inl nobody ↦ rw nobody (record { given = tt })
  | inr (owner, owned) ↦
      let d = turn_failed_draft (turn_row (failed e at t)) owner in
      rw owned (elim (Bool-cases (accepts db.log (drafted d ref db.log))) [
        | inr refused ↦ rw refused (record { given = tt })
        | inl taken ↦ rw taken (record {
          given = (
            owner,
            refl,
            ap
                  (λ n.
                    db.log.events
                    ++ failure_row ref owner n t e at (sql_value (some (Json.bool e.retryable)))
                      ∷ [])
                  (last_sequence-bump_self owner at db.log.sequences)
                ∙ ap
                    (λ v.
                      db.log.events
                      ++ failure_row ref owner (suc (last_sequence owner db.log.sequences)) t e at v
                        ∷ [])
                    (sql_number e.retryable),
            refl,
          );
        })
      ])
]

ends_logged :
    (m : String) (t : Turn) (e : PublicError) (at : ℕ) (ref : String) (db : ChatDb)
    → is_status t.status turn_pending ≡ true
    → read_turn db m ≡ some t
    → Gives (λ n s. FailureLogged ref t e at db.log s.log) (end_turn m (failed e at) ref db)
unfolding end_turn
ends_logged m t e at ref db pending h = rw (changes-first m db.turns t h pending) (
    then-Gives (λ u s. FailureLogged ref t e at db.log s.log)
      (in_log (
        turn_event turn_pending (read_turn (update_turns (is_pending_turn m) (failed e at) db) m)
          ref))
      (λ u. pure (changes (is_pending_turn m) db.turns))
      (update_turns (is_pending_turn m) (failed e at) db)
      (rw (updated_turn m t (failed e at) db (λ y. refl) pending h)
        (event_logs t e at ref (update_turns (is_pending_turn m) (failed e at) db)))
      (λ u s q. record { given = q }))

not_failed_same : (found : Option Turn) (s : ChatDb) → (not_failed found s).1 ≡ s
not_failed_same none s = refl
not_failed_same (some t) s = ground arith

failed_logged :
    (m : String) (t : Turn) (e : PublicError) (at : ℕ) (ref : String) (db : ChatDb)
    → is_status t.status turn_pending ≡ true
    → read_turn db m ≡ some t
    → Gives (λ u s. FailureLogged ref t e at db.log s.log) (mark_turn_failed m e at ref db)
unfolding mark_turn_failed
failed_logged m t e at ref db pending h =
    then-Gives (λ n s. FailureLogged ref t e at db.log s.log)
      (transaction (end_turn m (failed e at) ref)) _ db
      (settle-Gives db _ (ends_logged m t e at ref db pending h))
      (λ n s q. elim (Bool-cases (eqb n 0)) [
        | inr changed ↦ rw changed (record { given = q })
        | inl same ↦ rw same (
            Keeps-Gives (λ s. FailureLogged ref t e at db.log s.log) _
              (record {
                holds =
                    subst (λ d. FailureLogged ref t e at db.log d.log)
                      (sym (not_failed_same (read_turn s m) s)) q;
              }))
      ])

-- A pending turn that is marked as failed adds exactly one event and one outbox row: the event of
-- that turn under the next number of the thread's owner, with the turn's references and attempt,
-- the code and the category of the error and whether to try again, as a number, but not the error's
-- message, and the row that publishes it.
pub failure_is_announced :
    (m : String) (t : Turn) (e : PublicError) (at : ℕ) (ref : String) (db db' : ChatDb)
    → read_turn db m ≡ some t
    → is_status t.status turn_pending ≡ true
    → mark_turn_failed m e at ref db ≡ (ok tt, db')
    → FailureLogged ref t e at db.log db'.log
failure_is_announced m t e at ref db db' h pending marked =
    gives_of _ tt db' (failed_logged m t e at ref db pending h) marked

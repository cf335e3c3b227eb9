-- ===== src/Chat/Turns.antt =====
-- The provider turn of a person's message in apps/gateway/src/chatWorkProvider.ts: prepared, then
-- failed or succeeded, and prepared again after a failure. A stored error is its parsed JSON.
use family_ai_platform.Common.{
  ℕ, ◌+◌, String, Bool, false, not, ◌&&◌, ◌||◌, Option, none, some, List, [], ◌∷◌, ◌++◌, Outcome,
  ok, err, thrown, constraint_failed, Failure, internal, Op, pure, fail, gets, modify, require,
  refuse_if, transaction, ◌>>=◌, ◌>>◌, ◌==◌, same_text, is_text, is_some, eqb, if◌then◌else◌, first,
  exists_in, update, changes,
}
use Prim.Native.String.{◌++◌ as joined}
use family_ai_platform.Json.{Json, text, Fields, done, field}
use family_ai_platform.EventLog.{EventDb, EventRow}
use family_ai_platform.EventLog.Triggers.{
  TurnStatus, turn_pending, turn_succeeded, turn_failed, is_status, TurnRow, provider_turn_updated,
}
use family_ai_platform.Pairing.{Audience, personal, family_admin, mobile_error}
use family_ai_platform.Chat.{
  ChatDb, Actor, person, assistant, agent, system, Context, PublicError, Turn, Access, Thread,
  thread_not_found, require_agent,
}
use family_ai_platform.Chat.Messages.{in_log}
use family_ai_platform.Chat.Contexts.{
  Asker, by_person, in_context, is_context, read_context, resolve_context, update_contexts,
}

-- `JSON.stringify` of a public error.
abbrev pub error_json : Option PublicError → Fields
error_json none = done
error_json (some e) = field "code" (text e.code) (
    field "category" (text e.category)
      (field "message" (text e.message) (field "retryable" (Json.bool e.retryable) done)))

abbrev pub time_or_zero : Option ℕ → ℕ
time_or_zero none = 0
time_or_zero (some t) = t

-- The columns that the triggers read of a turn.
abbrev pub turn_row : Turn → TurnRow
turn_row t = record {
  user_message_ref = t.user_message_ref;
  thread_ref = t.thread_ref;
  agent_ref = t.agent_ref;
  attempt_count = t.attempt_count;
  status = t.status;
  assistant_message_ref = t.assistant_message_ref;
  error = error_json t.error;
  completed_at = time_or_zero t.completed_at;
}

-- `readTurn`.
abbrev pub read_turn : ChatDb → String → Option Turn
read_turn db m = first (λ t. t.user_message_ref == m) db.turns

-- `requirePersonMessage`.
abbrev pub is_person : Actor → String → Bool
is_person (person q) p = q == p
is_person (assistant a g v) p = false
is_person (agent g v) p = false
is_person (system s) p = false

abbrev pub person_message : ChatDb → String → String → String → Bool
person_message db p m ref =
    exists_in (λ x. x.message_ref == m && x.thread_ref == ref && is_person x.actor p) db.messages
    && exists_in (λ t. t.thread_ref == ref && t.person_ref == p) db.threads

-- `PreparedProviderTurn`, as the turn's row and the context's.
pub record Prepared : Type 0 where
  pub turn : Turn
  pub conversation_ref : String
  pub external_session_ref : Option String
  pub rebuild : Bool

abbrev pub prepared_from : Turn → Context → Bool → Prepared
prepared_from t c rebuild = record {
  turn = t;
  conversation_ref = c.provider_conversation_ref;
  external_session_ref = c.external_session_ref;
  rebuild = rebuild;
}

-- What a new turn draws.
pub record TurnDraws : Type 0 where
  pub conversation_ref : String
  pub invocation_ref : String
  pub correlation_ref : String

abbrev pub update_turns : (Turn → Bool) → (Turn → Turn) → ChatDb → ChatDb
update_turns q f db = record db { turns = update q f db.turns }

abbrev pub is_open_turn : String → Turn → Bool
is_open_turn m t = t.user_message_ref == m && not (is_status t.status turn_succeeded)

abbrev pub is_pending_turn : String → Turn → Bool
is_pending_turn m t = t.user_message_ref == m && is_status t.status turn_pending

abbrev pub again : Turn → Turn
again t = record t {
  status = turn_pending;
  attempt_count = t.attempt_count + 1;
  assistant_message_ref = none;
  error = none;
  completed_at = none;
}

-- `mapPreparedTurn` of a turn that has succeeded, with its stored context.
abbrev pub prepared_stored : Option Context → Turn → Op ChatDb Prepared
prepared_stored none t = fail (thrown "Successful Provider Turn has no stored Thread Context")
prepared_stored (some c) t = pure (prepared_from t c false)

abbrev pub context_changed : Turn → Context → Bool
context_changed t c =
    not (same_text t.assignment_ref c.assignment_ref)
    || not (t.agent_ref == c.agent_ref)
    || not (t.provider_profile_ref == c.provider_profile_ref)

abbrev pub stored_code : Option PublicError → Option String
stored_code none = none
stored_code (some e) = some e.code

-- Whether the context is to be built anew: the turn that is prepared again had failed because the
-- provider lost its session.
abbrev pub lost_session : Turn → Bool
lost_session t =
    is_status t.status turn_failed && is_text (stored_code t.error) "PROVIDER_SESSION_NOT_FOUND"

-- `thread_provider_turns`: its keys, and the check on the audience and the assignment.
abbrev pub audience_fits : Audience → Option String → Bool
audience_fits personal a = is_some a
audience_fits family_admin a = not (is_some a)

abbrev pub turn_clashes : Turn → Turn → Bool
turn_clashes t x =
    x.user_message_ref == t.user_message_ref
    || x.invocation_ref == t.invocation_ref
    || x.correlation_ref == t.correlation_ref

abbrev pub identity_taken : TurnDraws → List Turn → Bool
identity_taken d ts =
    exists_in (λ x. x.invocation_ref == d.invocation_ref || x.correlation_ref == d.correlation_ref)
      ts

module _ (digest : String → String) where
  -- `newTurnIdentity`; `digest` gives the first 48 digits of a text's SHA-256.
  abbrev pub idempotency_key : String → String → Context → String
  idempotency_key ref m c = joined "thread-turn:" (
      digest (
        joined ref (
          joined ":"
            (joined m (joined ":" (joined c.agent_ref (joined ":" c.provider_profile_ref)))))))

  abbrev pub new_turn : String → String → Context → TurnDraws → ℕ → Turn
  new_turn m ref c d now = record {
    user_message_ref = m;
    thread_ref = ref;
    invocation_ref = d.invocation_ref;
    correlation_ref = d.correlation_ref;
    idempotency_key = idempotency_key ref m c;
    assignment_ref = c.assignment_ref;
    agent_ref = c.agent_ref;
    provider_profile_ref = c.provider_profile_ref;
    audience = c.audience;
    status = turn_pending;
    attempt_count = 1;
    assistant_message_ref = none;
    error = none;
    requested_at = now;
    completed_at = none;
  }

  -- A turn that is prepared again for another agent, or for the same one.
  abbrev pub moved_turn : String → String → Context → TurnDraws → ℕ → Turn → Turn
  moved_turn m ref c d now t = record (again t) {
    invocation_ref = d.invocation_ref;
    correlation_ref = d.correlation_ref;
    idempotency_key = idempotency_key ref m c;
    assignment_ref = c.assignment_ref;
    agent_ref = c.agent_ref;
    provider_profile_ref = c.provider_profile_ref;
    audience = c.audience;
    requested_at = now;
  }

  -- The write of `prepareTurn` for the row that is there, which has not succeeded.
  unfoldable pub write_turn :
      String → String → Context → TurnDraws → ℕ → Option Turn → Op ChatDb (Unit {0})
  write_turn m ref c d now none = do
    clashes ← gets (λ db. exists_in (turn_clashes (new_turn m ref c d now)) db.turns)
    refuse_if (clashes || not (audience_fits c.audience c.assignment_ref)) constraint_failed
    modify (λ db. record db { turns = db.turns ++ new_turn m ref c d now ∷ [] })
  write_turn m ref c d now (some t) =
      if context_changed t c
      then (do
        clashes ← gets (λ db. identity_taken d db.turns)
        refuse_if (clashes || not (audience_fits c.audience c.assignment_ref)) constraint_failed
        modify (update_turns (is_open_turn m) (moved_turn m ref c d now)))
      else modify (update_turns (is_open_turn m) again)

  abbrev pub is_pending_now : Option Turn → Option Turn
  is_pending_now none = none
  is_pending_now (some t) = if is_status t.status turn_pending then some t else none

  abbrev pub was_lost : Option Turn → Bool
  was_lost none = false
  was_lost (some t) = lost_session t

  unfoldable pub prepare_written :
      String → String → Context → TurnDraws → ℕ → Option Turn → Op ChatDb Prepared
  unfolding write_turn
  prepare_written m ref c d now existing = do
    u ← write_turn m ref c d now existing
    found ← gets (λ db. is_pending_now (read_turn db m))
    t ← require found (thrown "Provider Turn was not pending after preparation")
    pure (prepared_from t c (was_lost existing))

  abbrev pub succeeded_turn : Option Turn → Option Turn
  succeeded_turn none = none
  succeeded_turn (some t) = if is_status t.status turn_succeeded then some t else none

  -- The transaction of `prepareTurn`, once the row of the turn is read.
  abbrev pub prepare_row :
      String
      → String
      → String
      → Context
      → TurnDraws
      → ℕ
      → Option Turn
      → Option Turn
      → Op ChatDb Prepared
  prepare_row p m ref c d now existing (some t) = do
    stored ← gets (λ db. read_context db p ref)
    prepared_stored stored t
  prepare_row p m ref c d now existing none = prepare_written m ref c d now existing

  abbrev pub access_family : Option Access → Option String
  access_family none = none
  access_family (some x) = x.family_ref

  abbrev pub asker : String → Option Access → Asker
  asker p none = by_person p
  asker p (some x) = in_context x

  abbrev pub prepare_open :
      String → Option Access → String → String → TurnDraws → ℕ → Option Turn → Op ChatDb Prepared
  prepare_open p x m ref d now (some t) = do
    c ← resolve_context (asker p x) ref d.conversation_ref now
    stored ← gets (λ db. read_context db p ref)
    prepared_stored stored t
  prepare_open p x m ref d now none = do
    c ← resolve_context (asker p x) ref d.conversation_ref now
    transaction (do
      mine ← gets (λ db. person_message db p m ref)
      refuse_if (not mine) thread_not_found
      a ← require_agent c.audience (access_family x) p c.agent_ref
      existing ← gets (λ db. read_turn db m)
      prepare_row p m ref c d now existing (succeeded_turn existing))

  -- `prepareTurn`.
  unfoldable pub prepare_turn :
      String → Option Access → String → String → TurnDraws → ℕ → Op ChatDb Prepared
  unfolding resolve_context require_agent prepare_written
  prepare_turn p x m ref d now = do
    mine ← gets (λ db. person_message db p m ref)
    refuse_if (not mine) thread_not_found
    immediate ← gets (λ db. read_turn db m)
    prepare_open p x m ref d now (succeeded_turn immediate)

abbrev pub turn_not_found : Failure
turn_not_found = mobile_error "PROVIDER_TURN_NOT_FOUND" 404 internal

abbrev pub trigger_op : Option (Outcome EventRow × EventDb) → Op EventDb (Unit {0})
trigger_op none log = (ok tt, log)
trigger_op (some (ok e, log')) log = (ok tt, log')
trigger_op (some (err e, log')) log = (err e, log)

-- The triggers on the update of a turn's status; the row is the one that is updated.
abbrev pub turn_event : TurnStatus → Option Turn → String → Op EventDb (Unit {0})
turn_event old none ref log = (ok tt, log)
turn_event old (some t) ref log = trigger_op (provider_turn_updated old (turn_row t) ref log) log

-- An `UPDATE` of the pending turn of a message, with its event: the number of rows it changed.
unfoldable pub end_turn : String → (Turn → Turn) → String → Op ChatDb ℕ
end_turn m f ref = do
  n ← gets (λ db. changes (is_pending_turn m) db.turns)
  modify (update_turns (is_pending_turn m) f)
  now ← gets (λ db. read_turn db m)
  u ← (if eqb n 0 then pure tt else in_log (turn_event turn_pending now ref))
  pure n

abbrev pub failed : PublicError → ℕ → Turn → Turn
failed e at t = record t {
  status = turn_failed;
  assistant_message_ref = none;
  error = some e;
  completed_at = some at;
}

-- What `markTurnFailed` says of a turn that it did not change.
abbrev pub not_failed : Option Turn → Op ChatDb (Unit {0})
not_failed none = fail turn_not_found
not_failed (some t) =
    if is_status t.status turn_succeeded
    then pure tt
    else fail (thrown "Provider Turn could not be failed")

-- `markTurnFailed`: its statement is a transaction of its own.
unfoldable pub mark_turn_failed : String → PublicError → ℕ → String → Op ChatDb (Unit {0})
unfolding end_turn
mark_turn_failed m e at ref = do
  n ← transaction (end_turn m (failed e at) ref)
  found ← gets (λ db. read_turn db m)
  if eqb n 0 then not_failed found else pure tt

abbrev pub thread_person : ChatDb → String → Option Thread
thread_person db ref = first (λ t. t.thread_ref == ref) db.threads

abbrev pub lost_context : Prepared → String → String → Context → Bool
lost_context t p session c =
    is_context p t.turn.thread_ref c
    && c.agent_ref == t.turn.agent_ref
    && c.provider_profile_ref == t.turn.provider_profile_ref
    && is_text c.external_session_ref session

-- `clearMissingExternalSession`; the empty text counts as no session.
abbrev pub clear_session : Prepared → ℕ → Option String → Op ChatDb (Unit {0})
clear_session t at none = pure tt
clear_session t at (some session) = if session == "" then pure tt else (do
  found ← gets (λ db. thread_person db t.turn.thread_ref)
  r ← require found thread_not_found
  modify (
      update_contexts (lost_context t r.person_ref session)
        (λ c. record c { external_session_ref = none; updated_at = at })))

unfoldable pub clear_missing_session : Prepared → ℕ → Op ChatDb (Unit {0})
clear_missing_session t at = clear_session t at t.external_session_ref

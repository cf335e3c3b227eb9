-- ===== src/Tests/Contract.antt =====
-- Runs of the event contract of packages/contracts/src/sync.ts on recorded events.
use family_ai_platform.Common.{String, ◌≡◌, refl, true, Option, none, some}
use family_ai_platform.EventLog.{
  event_of, drafted, last_sequence, record_event, accepts, logged, bump,
}
use family_ai_platform.EventLog.Triggers.{message_created}
use family_ai_platform.Json.{Json, text, obj, Fields, done, field, set_field}
use family_ai_platform.EventLog.Triggers.{
  TurnRow, TurnStatus, turn_pending, turn_failed, turn_succeeded, message_draft, turn_failed_draft,
  turn_succeeded_draft, provider_turn_updated,
}
use family_ai_platform.SyncContract.Formats.{fixed_ref, client_message_id_ok, error_code_ok}
use family_ai_platform.SyncContract.Events.{sync_event_ok, parsed_event}
use family_ai_platform.SyncContract.Emitted.{IsKeyed, error_fields}
use family_ai_platform.SyncContract.Recorded.{
  IsMessage, IsTurn, message_created_accepted, turn_failed_accepted, turn_succeeded_accepted,
}
use family_ai_platform.Tests.Log.{person, start, first_message}

first_IsMessage : IsMessage first_message
unfolding fixed_ref client_message_id_ok
first_IsMessage = record {
  message = refl;
  thread = refl;
  sequence = refl;
  actor = refl;
  client = refl;
}

keyed : IsKeyed "event:e1" person 1
unfolding fixed_ref
keyed = record { event = refl; owner = refl; number = refl }

message_created_accepted_example :
    sync_event_ok (event_of (message_draft first_message person) "event:e1" 1) ≡ true
unfolding message_created last_sequence record_event accepts drafted bump
message_created_accepted_example =
    message_created_accepted first_message "event:e1" person start
      {db' = (message_created first_message "event:e1" start).1}
      {e = event_of (message_draft first_message person) "event:e1" 1} refl first_IsMessage keyed
      refl

abbrev turn : TurnStatus → Option String → Fields → TurnRow
turn status assistant error = record {
  user_message_ref = "message:m1";
  thread_ref = "thread:home";
  agent_ref = "agent:home";
  attempt_count = 1;
  status = status;
  assistant_message_ref = assistant;
  error = error;
  completed_at = 30;
}

abbrev failed_turn : TurnRow
failed_turn = turn turn_failed none (error_fields "PROVIDER_TIMEOUT" "timeout" "Too late" true)

abbrev succeeded_turn : TurnRow
succeeded_turn = turn turn_succeeded (some "message:m2") done

failed_IsTurn : IsTurn failed_turn
unfolding fixed_ref
failed_IsTurn = record { user = refl; thread = refl; agent = refl; attempts = refl }

succeeded_IsTurn : IsTurn succeeded_turn
unfolding fixed_ref
succeeded_IsTurn = record { user = refl; thread = refl; agent = refl; attempts = refl }

turn_failed_accepted_example :
    sync_event_ok (event_of (turn_failed_draft failed_turn person) "event:e1" 1) ≡ true
unfolding provider_turn_updated last_sequence error_code_ok record_event accepts drafted bump
turn_failed_accepted_example =
    turn_failed_accepted turn_pending failed_turn "PROVIDER_TIMEOUT" "timeout" "Too late" "event:e1"
      person true start {db' = logged (turn_failed_draft failed_turn person) "event:e1" start}
      {e = event_of (turn_failed_draft failed_turn person) "event:e1" 1} refl failed_IsTurn refl
      refl refl refl keyed refl

turn_succeeded_accepted_example :
    sync_event_ok (event_of (turn_succeeded_draft succeeded_turn person) "event:e1" 1) ≡ true
unfolding provider_turn_updated last_sequence fixed_ref record_event accepts drafted bump
turn_succeeded_accepted_example =
    turn_succeeded_accepted turn_pending succeeded_turn "message:m2" "event:e1" person start
      {db' = logged (turn_succeeded_draft succeeded_turn person) "event:e1" start}
      {e = event_of (turn_succeeded_draft succeeded_turn person) "event:e1" 1} refl succeeded_IsTurn
      refl refl refl refl keyed refl

-- The stored number becomes a boolean.
failed_parsed :
    (parsed_event (event_of (turn_failed_draft failed_turn person) "event:e1" 1)).payload
    ≡ set_field "error"
        (obj (
          field "code"
            (text "PROVIDER_TIMEOUT")
            (field "category" (text "timeout") (field "retryable" (Json.bool true) done))))
        (event_of (turn_failed_draft failed_turn person) "event:e1" 1).payload
unfolding parsed_event
failed_parsed = refl

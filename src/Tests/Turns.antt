-- ===== src/Tests/Turns.antt =====
-- Runs after a send: a turn that has succeeded, a message that is sent again, a turn that is tried
-- again, and the numbers of two messages.
use family_ai_platform.Common.{arith, ◌≡◌, refl, true, none, some, [], ◌∷◌, ok}
use family_ai_platform.Pairing.{personal}
use family_ai_platform.Chat.{ChatDb, Context, Turn, PublicError}
use family_ai_platform.Chat.Messages.{NewMessage, append_message, by_client_id}
use family_ai_platform.Chat.Turns.{TurnDraws, read_turn}
use family_ai_platform.Chat.Sending.{finish_send}
use family_ai_platform.EventLog.Triggers.{message_created, provider_turn_updated}
use family_ai_platform.EventLog.{record_event, accepts, drafted, logged, last_sequence, bump}
use family_ai_platform.SyncContract.Formats.{fixed_ref}
use family_ai_platform.Chat.Turns.{
  failed, read_turn, prepare_row, mark_turn_failed, idempotency_key,
}
use family_ai_platform.Chat.Commits.{succeeded}
use family_ai_platform.Chat.Final.{succeeded_turn_is_final}
use family_ai_platform.Chat.Logged.{IsPosted, message_is_announced}
use family_ai_platform.Chat.Failures.{FailureLogged, failure_is_announced}
use family_ai_platform.Chat.Histories.{here, next, fails_turn, appends_message}
use family_ai_platform.Chat.Repeats.{resend_writes_nothing}
use family_ai_platform.Chat.Retries.{Prepares, failed_turn_retries, failed_turn_moves}
use family_ai_platform.Chat.Numbers.{IsNumbered}
use family_ai_platform.Chat.NumberedTurns.{ChatReach-IsNumbered}
use family_ai_platform.Tests.Log.{person}
use family_ai_platform.Tests.Chat.{
  chat_start, hello, digest, hello_row, hello_posted, hello_turn, chat_sent, chat_asked,
  chat_answered,
}

abbrev answered_turn : Turn
answered_turn = succeeded "message:m2" 30 hello_turn

answered_stored : read_turn chat_answered "message:m1" ≡ some answered_turn
unfolding chat_answered chat_asked finish_send message_created record_event accepts drafted
    fixed_ref logged last_sequence bump provider_turn_updated
answered_stored = refl

abbrev lost : PublicError
lost = record {
  code = "PROVIDER_SESSION_NOT_FOUND";
  category = "availability";
  message = "lost";
  retryable = true;
}

succeeded_turn_is_final_example :
    read_turn (mark_turn_failed "message:m1" lost 40 "event:e6" chat_answered).1 "message:m1"
    ≡ some answered_turn
succeeded_turn_is_final_example =
    succeeded_turn_is_final "message:m1" answered_turn answered_stored refl
      (next here (fails_turn "message:m1" lost 40 "event:e6"))

appends : append_message hello "message:m1" "event:e1" 20 chat_start ≡ (ok hello_posted, chat_sent)
unfolding chat_sent append_message message_created record_event accepts drafted fixed_ref
appends = refl

message_is_announced_example :
    IsPosted hello "message:m1" "event:e1" 20 chat_start.log hello_posted chat_sent
message_is_announced_example =
    message_is_announced hello "message:m1" "event:e1" 20 chat_start chat_sent hello_posted refl
      appends

failure_is_announced_example :
    FailureLogged "event:e5" hello_turn lost 30 chat_asked.log
      (mark_turn_failed "message:m1" lost 30 "event:e5" chat_asked).1.log
unfolding chat_asked mark_turn_failed message_created record_event accepts drafted fixed_ref logged
    last_sequence bump provider_turn_updated
failure_is_announced_example =
    failure_is_announced "message:m1" hello_turn lost 30 "event:e5" chat_asked
      (mark_turn_failed "message:m1" lost 30 "event:e5" chat_asked).1 refl refl refl

abbrev other_text : NewMessage
other_text = record hello { body = "Another text" }

resend_writes_nothing_example :
    (by_client_id chat_sent "thread:home" "client-01" ≡ some hello_row)
    × ((append_message other_text "message:m3" "event:e7" 50 chat_sent).1 ≡ chat_sent)
resend_writes_nothing_example =
    resend_writes_nothing hello other_text "message:m1" "event:e1" "message:m3" "event:e7" 20 50
      chat_start chat_sent hello_posted appends refl refl

abbrev failed_turn : Turn
failed_turn = failed lost 30 hello_turn

abbrev chat_failed : ChatDb
chat_failed = record chat_start { turns = failed_turn ∷ [] }

abbrev helper_context : Context
helper_context = record {
  thread_ref = "thread:home";
  person_ref = person;
  provider_conversation_ref = "conversation:c1";
  assignment_ref = some "assignment:1";
  agent_ref = "agent:helper";
  provider_profile_ref = "provider-profile:main";
  audience = personal;
  external_session_ref = none;
  updated_at = 40;
}

abbrev other_context : Context
other_context = record helper_context {
  assignment_ref = some "assignment:2";
  agent_ref = "agent:other";
}

abbrev new_draws : TurnDraws
new_draws = record {
  conversation_ref = "conversation:c2";
  invocation_ref = "invocation:i2";
  correlation_ref = "correlation:k2";
}

failed_turn_retries_example :
    Prepares
      (prepare_row digest person "message:m1" "thread:home" helper_context new_draws 40
        (some failed_turn)
        none)
      helper_context
      true
      "message:m1"
      (record hello_turn { attempt_count = 2 })
      "message:m0"
      chat_failed
failed_turn_retries_example =
    failed_turn_retries digest person "message:m1" "thread:home" "message:m0" helper_context
      new_draws 40 failed_turn chat_failed refl refl refl refl

failed_turn_moves_example :
    Prepares
      (prepare_row digest person "message:m1" "thread:home" other_context new_draws 40
        (some failed_turn)
        none)
      other_context
      true
      "message:m1"
      (record hello_turn {
        invocation_ref = "invocation:i2";
        correlation_ref = "correlation:k2";
        idempotency_key = idempotency_key digest "thread:home" "message:m1" other_context;
        assignment_ref = some "assignment:2";
        agent_ref = "agent:other";
        provider_profile_ref = "provider-profile:main";
        audience = personal;
        attempt_count = 2;
        requested_at = 40;
      })
      "message:m0"
      chat_failed
failed_turn_moves_example =
    failed_turn_moves digest person "message:m1" "thread:home" "message:m0" other_context new_draws
      40 failed_turn chat_failed refl refl refl refl refl refl

start-IsNumbered : IsNumbered chat_start
start-IsNumbered = record {
  distinct = (refl, tt);
  in_order = λ ref. tt;
  counted = λ ref. ground arith;
}

abbrev good_night : NewMessage
good_night = record hello { client_message_id = "client-02"; body = "Good night" }

ChatReach-IsNumbered_example :
    IsNumbered (append_message good_night "message:m2" "event:e8" 60 chat_sent).1
unfolding chat_sent
ChatReach-IsNumbered_example = ChatReach-IsNumbered start-IsNumbered (
    next (next here (appends_message hello "message:m1" "event:e1" 20))
      (appends_message good_night "message:m2" "event:e8" 60))

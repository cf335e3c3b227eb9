-- ===== src/Tests/Chat.antt =====
-- Runs of a send: a message of one person, its turn, the provider's answers, a second try.
use family_ai_platform.Common.{
  String, Bool, ◌≡◌, refl, true, false, none, some, Option, [], ◌∷◌, ok,
}
use family_ai_platform.EventLog.Triggers.{turn_pending}
use family_ai_platform.Pairing.{personal}
use family_ai_platform.Chat.{ChatDb, Access, Message, Turn, Thread, person as by}
use family_ai_platform.Chat.Messages.{NewMessage, Posted, append_message}
use family_ai_platform.Chat.Turns.{Prepared, read_turn}
use family_ai_platform.Chat.Commits.{CommitDraws}
use family_ai_platform.Chat.Requests.{Request}
use family_ai_platform.Chat.Sending.{
  asked, SendDraws, begin_send, finish_send, result, ProviderResult, result_succeeded, threw,
}
use family_ai_platform.EventLog.Triggers.{message_created, provider_turn_updated}
use family_ai_platform.EventLog.{record_event, accepts, drafted, logged, last_sequence, bump}
use family_ai_platform.SyncContract.Formats.{fixed_ref}
use family_ai_platform.Chat.Turns.{read_turn}
use family_ai_platform.Chat.Asked.{IsBegun, begin_send-IsBegun}
use family_ai_platform.Chat.Answered.{IsAnswered, finish_send-IsAnswered}
use family_ai_platform.Chat.Unanswered.{CanLog, IsFailedWith, finish_send-IsFailedWith}
use family_ai_platform.Tests.Log.{person, device, start}

abbrev pub home : Thread
home = record {
  thread_ref = "thread:home";
  person_ref = person;
  family_ref = none;
  agent_ref = "agent:helper";
  audience = personal;
  last_sequence = 0;
  last_active_at = 1;
}

abbrev pub chat_start : ChatDb
chat_start = record {
  devices =
      record {
        device_ref = device;
        display_name = "Phone";
        active = true;
        credential_hash = "h";
        installation_ref = none;
        updated_at = 0;
        revoked_at = none;
        last_seen_at = none;
      }
      ∷ [];
  device_bindings =
      record {
        device_binding_ref = "device-binding:1";
        device_ref = device;
        family_ref = "family:f";
        person_ref = some person;
        active = true;
        revoked_at = none;
      }
      ∷ [];
  mounts =
      record {
        assignment_ref = "assignment:1";
        person_ref = person;
        agent_ref = "agent:helper";
        provider_profile_ref = "provider-profile:main";
        active = true;
      }
      ∷ [];
  admin_assignments = [];
  runtimes =
      record {
        agent_ref = "agent:helper";
        provider_profile_ref = "provider-profile:main";
        active = true;
      }
      ∷ [];
  files = record { memberships = []; attachments = []; chunks = [] };
  threads = home ∷ [];
  messages = [];
  message_attachments = [];
  episodes = [];
  contexts = [];
  turns = [];
  log = start;
}

abbrev pub access : Access
access = record {
  person_ref = person;
  family_ref = none;
  audience = personal;
  agent_ref = "agent:helper";
}

abbrev pub hello : NewMessage
hello = record {
  access = access;
  attachment_family_ref = none;
  thread_ref = "thread:home";
  client_message_id = "client-01";
  actor = by person;
  device_ref = some device;
  connection_ref = none;
  entry_audience = "personal";
  body = "Hello";
  language = none;
  attachment_refs = [];
  occurred_at = 10;
}

abbrev pub draws : SendDraws
draws = record {
  message_ref = "message:m1";
  message_event_ref = "event:e1";
  failure_event_ref = "event:e2";
  turn = record {
    conversation_ref = "conversation:c1";
    invocation_ref = "invocation:i1";
    correlation_ref = "correlation:k1";
  };
}

abbrev pub digest : String → String
digest s = "d"

abbrev pub no_file : String → Option String
no_file key = none

abbrev pub resolves_all : String → Bool
resolves_all p = true

-- The message as it is stored.
abbrev pub hello_row : Message
hello_row = record {
  message_ref = "message:m1";
  thread_ref = "thread:home";
  thread_sequence = 1;
  client_message_id = "client-01";
  actor = by person;
  device_ref = some device;
  connection_ref = none;
  entry_audience = "personal";
  body = "Hello";
  language = none;
  occurred_at = 10;
  created_at = 20;
}

abbrev pub hello_posted : Posted
hello_posted = record { message = hello_row; attachments = [] }

abbrev pub hello_turn : Turn
hello_turn = record {
  user_message_ref = "message:m1";
  thread_ref = "thread:home";
  invocation_ref = "invocation:i1";
  correlation_ref = "correlation:k1";
  idempotency_key = "thread-turn:d";
  assignment_ref = some "assignment:1";
  agent_ref = "agent:helper";
  provider_profile_ref = "provider-profile:main";
  audience = personal;
  status = turn_pending;
  attempt_count = 1;
  assistant_message_ref = none;
  error = none;
  requested_at = 20;
  completed_at = none;
}

abbrev pub hello_prepared : Prepared
hello_prepared = record {
  turn = hello_turn;
  conversation_ref = "conversation:c1";
  external_session_ref = none;
  rebuild = false;
}

abbrev pub hello_request : Request
hello_request = record {
  invocation_ref = "invocation:i1";
  correlation_ref = "correlation:k1";
  idempotency_key = "thread-turn:d";
  provider_profile_ref = "provider-profile:main";
  target_agent_ref = "agent:helper";
  conversation_ref = "conversation:c1";
  external_session_ref = none;
  content = record { text = b'H' ∷ b'e' ∷ b'l' ∷ b'l' ∷ b'o' ∷ []; language = none } ∷ [];
  attachments = [];
}

-- After the message has been appended, and after its turn has been prepared.
unfoldable pub chat_sent : ChatDb
unfolding append_message
chat_sent = (append_message hello "message:m1" "event:e1" 20 chat_start).1

unfoldable pub chat_asked : ChatDb
unfolding begin_send
chat_asked = (begin_send digest no_file resolves_all hello draws 20 chat_start).1

begins :
    begin_send digest no_file resolves_all hello draws 20 chat_start
    ≡ (ok (asked hello_posted hello_prepared hello_request), chat_asked)
unfolding begin_send chat_asked message_created record_event accepts drafted fixed_ref
begins = refl

begin_send-IsBegun_example :
    IsBegun resolves_all (asked hello_posted hello_prepared hello_request) chat_asked
begin_send-IsBegun_example =
    begin_send-IsBegun digest no_file resolves_all hello draws 20 chat_start chat_asked
      (asked hello_posted hello_prepared hello_request) begins

abbrev reply : ProviderResult
reply = record {
  invocation_ref = "invocation:i1";
  correlation_ref = "correlation:k1";
  status = result_succeeded;
  completed_at = 30;
  output = ("Good morning", none) ∷ [];
  error = none;
  external_session_ref = some "external-session:s1";
}

abbrev commit_draws : CommitDraws
commit_draws = record {
  message_ref = "message:m2";
  message_event_ref = "event:e3";
  turn_event_ref = "event:e4";
}

unfoldable pub chat_answered : ChatDb
unfolding finish_send chat_asked
chat_answered =
    (finish_send hello hello_posted hello_prepared hello_request commit_draws "event:e5" 31
      (result reply) chat_asked).1

answers :
    finish_send hello hello_posted hello_prepared hello_request commit_draws "event:e5" 31
      (result reply)
      chat_asked
    ≡ (ok "message:m2", chat_answered)
unfolding finish_send chat_answered chat_asked message_created record_event accepts drafted
    fixed_ref logged last_sequence bump provider_turn_updated
answers = refl

finish_send-IsAnswered_example : IsAnswered "message:m1" "message:m2" chat_answered
finish_send-IsAnswered_example =
    finish_send-IsAnswered hello hello_posted hello_prepared hello_request commit_draws "event:e5"
      31 (result reply) chat_asked chat_answered "message:m2" answers

asked_turn : read_turn chat_asked "message:m1" ≡ some hello_turn
unfolding chat_asked message_created record_event accepts drafted fixed_ref
asked_turn = refl

asked_CanLog : CanLog hello_turn "event:e5" chat_asked
unfolding chat_asked message_created record_event accepts drafted fixed_ref logged last_sequence
    bump provider_turn_updated
asked_CanLog e at = refl

finish_send-IsFailedWith_example : IsFailedWith "message:m1" hello_turn (
    finish_send hello hello_posted hello_prepared hello_request commit_draws "event:e5" 31 threw
      chat_asked)
unfolding chat_asked message_created record_event accepts drafted fixed_ref
finish_send-IsFailedWith_example =
    finish_send-IsFailedWith hello hello_posted hello_prepared hello_request commit_draws "event:e5"
      31 threw chat_asked refl refl refl asked_turn asked_CanLog

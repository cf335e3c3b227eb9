-- ===== src/EventLog/Triggers.antt =====
-- The triggers of `DOMAIN_EVENT_SCHEMA` in apps/gateway/src/domainEventCore.ts. A trigger runs
-- inside the statement that fires it: the result of a function below is the event that it adds,
-- and an error makes the statement fail. A subquery that finds no person gives NULL, which the
-- NOT NULL constraint on `domain_events.person_ref` refuses.
use family_ai_platform.Common.{
  ℕ, String, Bool, true, false, not, ◌&&◌, Option, none, some, Outcome, err, constraint_failed, Op,
  ◌==◌, leb, if◌then◌else◌, first, update,
}
use family_ai_platform.Json.{
  Json, null, num, text, arr, obj, nil, Fields, done, field, extract, set_field, insert_last,
  text_or_null,
}
use family_ai_platform.EventLog.{
  EventDb, EventRow, Draft, StreamRow, WorkRow, ThreadRow, record_event,
}

pub record EpisodeRow : Type 0 where
  pub daily_episode_ref : String
  pub home_chat_stream_ref : String
  pub thread_ref : String
  pub boundary_reason : String
  pub started_at : ℕ

pub record MessageRow : Type 0 where
  pub message_ref : String
  pub thread_ref : String
  pub thread_sequence : ℕ
  pub actor_type : String
  pub client_message_id : String
  pub occurred_at : ℕ
  pub created_at : ℕ

pub record ConversionRow : Type 0 where
  pub conversion_ref : String
  pub person_ref : String
  pub home_chat_stream_ref : String
  pub work_conversation_ref : String
  pub created_at : ℕ

pub record ProgressRow : Type 0 where
  pub work_conversation_ref : String
  pub status : String
  pub updated_at : ℕ

pub data TurnStatus : Type 0 where
  turn_pending turn_succeeded turn_failed : TurnStatus

pub record TurnRow : Type 0 where
  pub user_message_ref : String
  pub thread_ref : String
  pub agent_ref : String
  pub attempt_count : ℕ
  pub status : TurnStatus
  pub assistant_message_ref : Option String
  pub error : Fields
  pub completed_at : ℕ

abbrev pub stream_of : EventDb → String → Option StreamRow
stream_of db s = first (λ r. r.home_chat_stream_ref == s) db.streams

abbrev pub work_of : EventDb → String → Option WorkRow
work_of db w = first (λ r. r.work_conversation_ref == w) db.works

abbrev pub thread_of : EventDb → String → Option ThreadRow
thread_of db t = first (λ r. r.thread_ref == t) db.threads

-- `(SELECT agent_ref FROM assistant_assignments … AND status = 'active' LIMIT 1)`.
abbrev pub assigned_agent : EventDb → String → Option String
assigned_agent db p = elim (first (λ r. r.person_ref == p && r.active) db.assignments) [
  | none ↦ none
  | some r ↦ some r.agent_ref
]

-- `eventSchemaForCoreVersion`: from core schema 7 on the agent is the row's own.
abbrev pub agent_for : ℕ → EventDb → String → Option String → Option String
agent_for version db p own = if leb 7 version then own else assigned_agent db p

abbrev pub emit_for : Option String → (String → Draft) → String → Op EventDb EventRow
emit_for none draft ref db = (err constraint_failed, db)
emit_for (some p) draft ref db = record_event (draft p) ref db

abbrev pub home_chat_draft : EpisodeRow → Option String → String → Draft
home_chat_draft n agent p = record {
  person_ref = p;
  event_type = "chat.home.created";
  aggregate_type = "home_chat";
  aggregate_ref = n.home_chat_stream_ref;
  thread_ref = some n.thread_ref;
  payload = field "homeChatStreamRef" (text n.home_chat_stream_ref) (
      field "dailyEpisodeRef" (text n.daily_episode_ref)
        (field "threadRef" (text n.thread_ref) (field "agentRef" (text_or_null agent) done)));
  occurred_at = n.started_at;
  created_at = n.started_at;
}

abbrev pub on_stream : ℕ → EpisodeRow → Option StreamRow → String → Op EventDb EventRow
on_stream version n none ref db = (err constraint_failed, db)
on_stream version n (some s) ref db =
    record_event (home_chat_draft n (agent_for version db s.person_ref s.agent_ref) s.person_ref)
      ref db

-- `domain_event_home_chat_created`; `none` where its `WHEN` does not hold.
unfoldable pub home_chat_created :
    ℕ → EpisodeRow → String → EventDb → Option (Outcome EventRow × EventDb)
home_chat_created version n ref db =
    if n.boundary_reason == "initial"
    then some (on_stream version n (stream_of db n.home_chat_stream_ref) ref db)
    else none

abbrev pub work_draft : WorkRow → Option String → ℕ → Draft
work_draft n agent created = record {
  person_ref = n.person_ref;
  event_type = "work.created";
  aggregate_type = "work";
  aggregate_ref = n.work_conversation_ref;
  thread_ref = some n.thread_ref;
  payload = field "workConversationRef" (text n.work_conversation_ref) (
      field "threadRef" (text n.thread_ref)
        (field "agentRef" (text_or_null agent) (field "status" (text n.status) done)));
  occurred_at = created;
  created_at = created;
}

abbrev pub on_work_thread : ℕ → WorkRow → Option ThreadRow → String → Op EventDb EventRow
on_work_thread version n none ref db = (err constraint_failed, db)
on_work_thread version n (some t) ref db =
    record_event (work_draft n (agent_for version db n.person_ref n.agent_ref) t.created_at) ref db

-- `domain_event_work_created`: the times are those of the work's thread.
unfoldable pub work_created : ℕ → WorkRow → String → Op EventDb EventRow
work_created version n ref db = on_work_thread version n (thread_of db n.thread_ref) ref db

abbrev pub message_draft : MessageRow → String → Draft
message_draft n p = record {
  person_ref = p;
  event_type = "thread.message.created";
  aggregate_type = "thread_message";
  aggregate_ref = n.message_ref;
  thread_ref = some n.thread_ref;
  payload = field "messageRef" (text n.message_ref) (
      field "threadRef" (text n.thread_ref) (
        field "threadSequence" (num n.thread_sequence) (
          field "actorType" (text n.actor_type)
            (field "clientMessageId" (text n.client_message_id) done))));
  occurred_at = n.occurred_at;
  created_at = n.created_at;
}

abbrev pub thread_owner : EventDb → String → Option String
thread_owner db t = elim (thread_of db t) [ none ↦ none | some r ↦ some r.person_ref ]

-- `domain_event_thread_message_created`.
unfoldable pub message_created : MessageRow → String → Op EventDb EventRow
message_created n ref db = emit_for (thread_owner db n.thread_ref) (message_draft n) ref db

abbrev pub work_thread : Option WorkRow → Option String
work_thread none = none
work_thread (some w) = some w.thread_ref

abbrev pub conversion_draft : ConversionRow → Option String → Draft
conversion_draft n thread = record {
  person_ref = n.person_ref;
  event_type = "chat.work.created";
  aggregate_type = "chat_work_conversion";
  aggregate_ref = n.conversion_ref;
  thread_ref = thread;
  payload = field "conversionRef" (text n.conversion_ref) (
      field "homeChatStreamRef" (text n.home_chat_stream_ref) (
        field "workConversationRef" (text n.work_conversation_ref)
          (field "sourceMessageRefs" (arr nil) done)));
  occurred_at = n.created_at;
  created_at = n.created_at;
}

-- `domain_event_chat_work_created`.
unfoldable pub chat_work_created : ConversionRow → String → Op EventDb EventRow
chat_work_created n ref db =
    record_event (conversion_draft n (work_thread (work_of db n.work_conversation_ref))) ref db

abbrev pub add_source : String → EventRow → EventRow
add_source m e = record e {
  payload =
      set_field "sourceMessageRefs" (insert_last (extract "sourceMessageRefs" e.payload) (text m))
        e.payload;
}

-- `domain_event_chat_work_source_message_added`, on a message of a conversion.
unfoldable pub source_message_added : String → String → EventDb → EventDb
source_message_added conversion m db = record db {
  events =
      update (λ e. e.event_type == "chat.work.created" && e.aggregate_ref == conversion)
        (add_source m) db.events;
}

abbrev pub progress_draft : ProgressRow → WorkRow → Draft
progress_draft n w = record {
  person_ref = w.person_ref;
  event_type = "work.progress.updated";
  aggregate_type = "work_progress";
  aggregate_ref = n.work_conversation_ref;
  thread_ref = some w.thread_ref;
  payload =
      field "workConversationRef" (text n.work_conversation_ref)
        (field "status" (text n.status) (field "updatedAt" (num n.updated_at) done));
  occurred_at = n.updated_at;
  created_at = n.updated_at;
}

abbrev pub on_progress_work : ProgressRow → Option WorkRow → String → Op EventDb EventRow
on_progress_work n none ref db = (err constraint_failed, db)
on_progress_work n (some w) ref db = record_event (progress_draft n w) ref db

-- `domain_event_work_progress_inserted` and `domain_event_work_progress_updated`.
unfoldable pub work_progress : ProgressRow → String → Op EventDb EventRow
work_progress n ref db = on_progress_work n (work_of db n.work_conversation_ref) ref db

abbrev pub is_status : TurnStatus → TurnStatus → Bool
is_status turn_pending turn_pending = true
is_status turn_succeeded turn_succeeded = true
is_status turn_failed turn_failed = true
is_status _ _ = false

-- A boolean of a JSON text is 1 or 0 once `json_extract` has read it; a missing key is NULL.
abbrev pub sql_value : Option Json → Json
sql_value none = null
sql_value (some (Json.bool true)) = num 1
sql_value (some (Json.bool false)) = num 0
sql_value (some v) = v

abbrev pub turn_failed_draft : TurnRow → String → Draft
turn_failed_draft n p = record {
  person_ref = p;
  event_type = "thread.provider_turn.failed";
  aggregate_type = "provider_turn";
  aggregate_ref = n.user_message_ref;
  thread_ref = some n.thread_ref;
  payload = field "userMessageRef" (text n.user_message_ref) (
      field "threadRef" (text n.thread_ref) (
        field "agentRef" (text n.agent_ref) (
          field "attemptCount" (num n.attempt_count) (
            field "error"
              (obj (
                field "code" (sql_value (extract "code" n.error)) (
                  field "category" (sql_value (extract "category" n.error))
                    (field "retryable" (sql_value (extract "retryable" n.error)) done))))
              done))));
  occurred_at = n.completed_at;
  created_at = n.completed_at;
}

abbrev pub turn_succeeded_draft : TurnRow → String → Draft
turn_succeeded_draft n p = record {
  person_ref = p;
  event_type = "thread.provider_turn.succeeded";
  aggregate_type = "provider_turn";
  aggregate_ref = n.user_message_ref;
  thread_ref = some n.thread_ref;
  payload = field "userMessageRef" (text n.user_message_ref) (
      field "assistantMessageRef" (text_or_null n.assistant_message_ref) (
        field "threadRef" (text n.thread_ref)
          (field "agentRef" (text n.agent_ref) (field "attemptCount" (num n.attempt_count) done))));
  occurred_at = n.completed_at;
  created_at = n.completed_at;
}

-- `domain_event_provider_turn_failed` and `domain_event_provider_turn_succeeded`, from the old
-- row's status and the new row; `none` where neither `WHEN` holds.
unfoldable pub provider_turn_updated :
    TurnStatus → TurnRow → String → EventDb → Option (Outcome EventRow × EventDb)
provider_turn_updated old n ref db =
    if is_status n.status turn_failed && not (is_status old turn_failed)
    then some (emit_for (thread_owner db n.thread_ref) (turn_failed_draft n) ref db)
    else if is_status n.status turn_succeeded && not (is_status old turn_succeeded)
    then some (emit_for (thread_owner db n.thread_ref) (turn_succeeded_draft n) ref db)
    else none

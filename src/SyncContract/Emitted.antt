-- ===== src/SyncContract/Emitted.antt =====
-- The events that the triggers of apps/gateway/src/domainEventCore.ts put into the log, against the
-- schemas of packages/contracts/src/sync.ts.
use family_ai_platform.Common.{ℕ, String, ◌≡◌, Bool, true, false, none, some, arith, ◌==◌, ==_refl}
use family_ai_platform.Json.{Json, Fields, done, field, text}
use family_ai_platform.EventLog.{WorkRow, event_of}
use family_ai_platform.EventLog.Triggers.{
  EpisodeRow, MessageRow, ProgressRow, TurnRow, home_chat_draft, work_draft, message_draft,
  progress_draft, turn_failed_draft, turn_succeeded_draft,
}
use family_ai_platform.SyncContract.Formats.{
  fixed_ref, sequence_ok, client_message_id_ok, error_code_ok, error_category_ok,
}
use family_ai_platform.SyncContract.Events.{sync_event_ok, kind_of, work_status_ok, actor_type_ok}

-- The references of the row itself, as the code makes them.
pub record IsKeyed (ref person : String) (n : ℕ) : Type 0 where
  pub event : fixed_ref "event:" ref ≡ true
  pub owner : fixed_ref "person:" person ≡ true
  pub number : sequence_ok n ≡ true

pub message_draft_accepted :
    (m : MessageRow) (ref person : String) (n : ℕ)
    → IsKeyed ref person n
    → fixed_ref "message:" m.message_ref ≡ true
    → fixed_ref "thread:" m.thread_ref ≡ true
    → sequence_ok m.thread_sequence ≡ true
    → actor_type_ok m.actor_type ≡ true
    → client_message_id_ok m.client_message_id ≡ true
    → sync_event_ok (event_of (message_draft m person) ref n) ≡ true
unfolding sync_event_ok kind_of
message_draft_accepted m ref person n k message thread sequence actor client =
    ground (arith, ==_refl m.message_ref, ==_refl m.thread_ref)

home_chat_draft_accepted :
    (h : EpisodeRow) (agent ref person : String) (n : ℕ)
    → IsKeyed ref person n
    → fixed_ref "home-chat:" h.home_chat_stream_ref ≡ true
    → fixed_ref "daily-episode:" h.daily_episode_ref ≡ true
    → fixed_ref "thread:" h.thread_ref ≡ true
    → fixed_ref "agent:" agent ≡ true
    → sync_event_ok (event_of (home_chat_draft h (some agent) person) ref n) ≡ true
unfolding sync_event_ok kind_of
home_chat_draft_accepted h agent ref person n k stream episode thread named =
    ground (arith, ==_refl h.home_chat_stream_ref, ==_refl h.thread_ref)

-- A stream or a work with no agent gives a null member, which the schema refuses.
home_chat_draft_refused :
    (h : EpisodeRow) (ref person : String) (n : ℕ)
    → sync_event_ok (event_of (home_chat_draft h none person) ref n) ≡ false
unfolding sync_event_ok kind_of
home_chat_draft_refused h ref person n = ground arith

work_draft_accepted :
    (w : WorkRow) (agent ref : String) (at n : ℕ)
    → IsKeyed ref w.person_ref n
    → fixed_ref "work:" w.work_conversation_ref ≡ true
    → fixed_ref "thread:" w.thread_ref ≡ true
    → fixed_ref "agent:" agent ≡ true
    → work_status_ok w.status ≡ true
    → sync_event_ok (event_of (work_draft w (some agent) at) ref n) ≡ true
unfolding sync_event_ok kind_of
work_draft_accepted w agent ref at n k work thread named status =
    ground (arith, ==_refl w.work_conversation_ref, ==_refl w.thread_ref)

progress_draft_accepted :
    (p : ProgressRow) (w : WorkRow) (ref : String) (n : ℕ)
    → IsKeyed ref w.person_ref n
    → fixed_ref "work:" p.work_conversation_ref ≡ true
    → fixed_ref "thread:" w.thread_ref ≡ true
    → work_status_ok p.status ≡ true
    → sync_event_ok (event_of (progress_draft p w) ref n) ≡ true
unfolding sync_event_ok kind_of
progress_draft_accepted p w ref n k work thread status =
    ground (arith, ==_refl p.work_conversation_ref)

pub turn_succeeded_draft_accepted :
    (t : TurnRow) (assistant ref person : String) (n : ℕ)
    → IsKeyed ref person n
    → t.assistant_message_ref ≡ some assistant
    → fixed_ref "message:" t.user_message_ref ≡ true
    → fixed_ref "message:" assistant ≡ true
    → fixed_ref "thread:" t.thread_ref ≡ true
    → fixed_ref "agent:" t.agent_ref ≡ true
    → sequence_ok t.attempt_count ≡ true
    → (assistant == t.user_message_ref) ≡ false
    → sync_event_ok (event_of (turn_succeeded_draft t person) ref n) ≡ true
unfolding sync_event_ok kind_of
turn_succeeded_draft_accepted t assistant ref person n k set user message thread agent attempts
      other =
    ground (arith, ==_refl t.user_message_ref, ==_refl t.thread_ref)

-- The public error that `markTurnFailed` stores: a code, a category, a message and whether to try
-- again.
abbrev pub error_fields : String → String → String → Bool → Fields
error_fields code category message retryable = field "code" (text code) (
    field "category" (text category)
      (field "message" (text message) (field "retryable" (Json.bool retryable) done)))

pub turn_failed_draft_accepted :
    (t : TurnRow) (code category message ref person : String) (retryable : Bool) (n : ℕ)
    → IsKeyed ref person n
    → t.error ≡ error_fields code category message retryable
    → error_code_ok code ≡ true
    → error_category_ok category ≡ true
    → fixed_ref "message:" t.user_message_ref ≡ true
    → fixed_ref "thread:" t.thread_ref ≡ true
    → fixed_ref "agent:" t.agent_ref ≡ true
    → sequence_ok t.attempt_count ≡ true
    → sync_event_ok (event_of (turn_failed_draft t person) ref n) ≡ true
unfolding sync_event_ok kind_of
turn_failed_draft_accepted t code category message ref person true n k stored c g user thread agent
      attempts =
    rw stored (ground (arith, ==_refl t.user_message_ref, ==_refl t.thread_ref))
turn_failed_draft_accepted t code category message ref person false n k stored c g user thread agent
      attempts =
    rw stored (ground (arith, ==_refl t.user_message_ref, ==_refl t.thread_ref))

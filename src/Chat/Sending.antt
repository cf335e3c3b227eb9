-- ===== src/Chat/Sending.antt =====
-- A message on its way to the provider and back: `sendForContext` of
-- apps/gateway/src/chatWorkMessageService.ts, in two parts. `begin_send` goes up to the call of the
-- provider, `finish_send` on from its answer; what others write in between stands between the two.
-- The lane of the thread keeps two sends of one thread apart. The provider and the file storage are
-- arguments: `resolve` finds an adapter, the answer is what `invoke` gives, and `local_path` is the
-- path of a stored file.
use family_ai_platform.Common.{
  ℕ, String, Bool, true, false, not, ◌&&◌, ◌||◌, Option, none, some, List, [], ◌∷◌, Outcome, ok,
  err, thrown, Failure, domain_error, Category, validation, permission, availability, timeout,
  conflict, internal, Op, pure, fail, require, refuse_if, ◌>>=◌, ◌>>◌, ◌==◌, if◌then◌else◌,
}
use family_ai_platform.EventLog.Triggers.{turn_succeeded, is_status}
use family_ai_platform.Attachments.{AttachmentRow, is_state, attached}
use family_ai_platform.Attachments.Uploads.{require_download}
use family_ai_platform.Chat.{ChatDb, PublicError}
use family_ai_platform.Chat.Messages.{NewMessage, Posted, append_message, answer, in_files}
use family_ai_platform.Chat.Pages.{list_messages}
use family_ai_platform.Chat.Capsule.{Payload, build_provider_context}
use family_ai_platform.Chat.Requests.{ProviderAttachment, Request, request_ok}
use family_ai_platform.Chat.Turns.{
  Prepared, TurnDraws, prepare_turn, mark_turn_failed, clear_missing_session,
}
use family_ai_platform.Chat.Commits.{Reply, CommitDraws, commit_turn}

abbrev pub invalid_response : PublicError
invalid_response = record {
  code = "PROVIDER_RESPONSE_INVALID";
  category = "internal";
  message = "个人助理返回了无法识别的结果。";
  retryable = true;
}

abbrev pub unavailable : PublicError
unavailable = record {
  code = "PROVIDER_UNAVAILABLE";
  category = "availability";
  message = "个人助理暂时不可用，请稍后重试。";
  retryable = true;
}

abbrev pub unconfigured : PublicError
unconfigured = record {
  code = "AGENT_RUNTIME_UNAVAILABLE";
  category = "availability";
  message = "Agent 尚未配置。";
  retryable = true;
}

abbrev pub category_of : String → Category
category_of c =
    if c == "validation"
    then validation
    else if c == "permission"
    then permission
    else if c == "availability"
    then availability
    else if c == "timeout"
    then timeout
    else if c == "conflict"
    then conflict
    else internal

-- `throwProviderError`.
abbrev pub provider_failure : PublicError → ℕ → Failure
provider_failure e status = domain_error e.code status (category_of e.category) e.retryable

-- A turn that fails, and the error that the caller gets.
abbrev pub fail_turn : {A : Type 0} → String → PublicError → ℕ → ℕ → String → Op ChatDb A
fail_turn m e at status event_ref = do
  u ← mark_turn_failed m e at event_ref
  fail (provider_failure e status)

abbrev pub media_of : Option String → String
media_of none = ""
media_of (some s) = s

abbrev pub attachment_of : (String → Option String) → AttachmentRow → Option ProviderAttachment
attachment_of local_path r = elim r.storage_key [
  | none ↦ none
  | some key ↦ elim (local_path key) [
    | none ↦ none
    | some path ↦
        if not (is_state r.state attached) || key == ""
        then none
        else some (record {
          attachment_ref = r.attachment_ref;
          file_name = r.file_name;
          media_type = media_of r.detected_media_type;
          size_bytes = r.size_bytes;
          sha256 = media_of r.sha256;
          local_path = path;
        })
  ]
]

abbrev pub no_handoff : Failure
no_handoff = thrown "Attachment Provider handoff is unavailable"

-- The map of `providerAttachments` over a message's attachments.
unfoldable pub hand_off :
    (String → Option String)
    → String
    → String
    → List AttachmentRow
    → Op ChatDb (List ProviderAttachment)
unfolding require_download
hand_off local_path family p [] = pure []
hand_off local_path family p (r ∷ rs) = do
  stored ← in_files (
      require_download
        (record { family_ref = family; person_ref = p; attachment_ref = r.attachment_ref }))
  a ← require (attachment_of local_path stored) no_handoff
  rest ← hand_off local_path family p rs
  pure (a ∷ rest)

abbrev pub family_of_files : NewMessage → Option String
family_of_files i = elim i.attachment_family_ref [ none ↦ i.access.family_ref | some f ↦ some f ]

abbrev pub hand_off_in :
    (String → Option String)
    → Option String
    → String
    → List AttachmentRow
    → Op ChatDb (List ProviderAttachment)
hand_off_in local_path f p [] = pure []
hand_off_in local_path none p (r ∷ rs) = fail no_handoff
hand_off_in local_path (some f) p (r ∷ rs) =
    if f == "" then fail no_handoff else hand_off local_path f p (r ∷ rs)

-- `turn.externalSessionRef ? { externalSessionRef } : {}`: the empty text counts as no session.
abbrev pub known_session : Option String → Option String
known_session none = none
known_session (some s) = if s == "" then none else some s

abbrev pub request_of : Prepared → List Payload → List ProviderAttachment → Request
request_of t content files = record {
  invocation_ref = t.turn.invocation_ref;
  correlation_ref = t.turn.correlation_ref;
  idempotency_key = t.turn.idempotency_key;
  provider_profile_ref = t.turn.provider_profile_ref;
  target_agent_ref = t.turn.agent_ref;
  conversation_ref = t.conversation_ref;
  external_session_ref = known_session t.external_session_ref;
  content = content;
  attachments = files;
}

-- What the first part comes to: a reply that is there already, or a request to the provider.
pub data Begun : Type 0 where
  replied : Posted → String → Begun
  asked : Posted → Prepared → Request → Begun

pub record SendDraws : Type 0 where
  pub message_ref : String
  pub message_event_ref : String
  pub failure_event_ref : String
  pub turn : TurnDraws

abbrev pub replied_with : Posted → Option String → Op ChatDb Begun
replied_with x none = fail (thrown "Successful Provider Turn has no Assistant message")
replied_with x (some id) = pure (replied x id)

-- The messages that go into the context: the newest 200 of the thread if it is built anew.
abbrev pub context_messages : NewMessage → Posted → Prepared → Op ChatDb (List Posted)
context_messages i x t =
    if t.rebuild
    then (do
      page ←
          list_messages (record i.access { agent_ref = t.turn.agent_ref }) i.thread_ref none
            (some 200)
      pure page.messages)
    else pure (x ∷ [])

module _ (digest : String → String) (local_path : String → Option String)
    (resolve : String → Bool) where
  -- The handlers of an error of the attachments.
  abbrev pub or_unavailable :
      String
      → ℕ
      → String
      → Outcome (List ProviderAttachment) × ChatDb
      → ChatDb
      → Outcome (List ProviderAttachment) × ChatDb
  or_unavailable m now event_ref (ok files, db') db = (ok files, db')
  or_unavailable m now event_ref (err e, db') db = fail_turn m unavailable now 503 event_ref db'

  abbrev pub files_or_failed :
      NewMessage → Posted → ℕ → String → Op ChatDb (List ProviderAttachment)
  files_or_failed i x now event_ref db =
      or_unavailable x.message.message_ref now event_ref
        (hand_off_in local_path (family_of_files i) i.access.person_ref x.attachments db) db

  -- From a prepared turn to the call of the provider.
  unfoldable pub ask : NewMessage → Posted → Prepared → String → ℕ → Op ChatDb Begun
  unfolding list_messages build_provider_context request_ok mark_turn_failed hand_off
  ask i x t event_ref now = do
    messages ← context_messages i x t
    files ← files_or_failed i x now event_ref
    content ← answer (build_provider_context messages x.message.message_ref t.external_session_ref)
    refuse_if (not (request_ok (request_of t content files))) (thrown "ZodError")
    if resolve t.turn.provider_profile_ref
        then pure (asked x t (request_of t content files))
        else fail_turn x.message.message_ref unconfigured now 503 event_ref

  abbrev pub begin_turn : NewMessage → Posted → Prepared → String → ℕ → Op ChatDb Begun
  begin_turn i x t event_ref now =
      if is_status t.turn.status turn_succeeded
      then replied_with x t.turn.assistant_message_ref
      else ask i x t event_ref now

  -- `sendForContext` up to the call of the provider.
  unfoldable pub begin_send : NewMessage → SendDraws → ℕ → Op ChatDb Begun
  unfolding append_message prepare_turn ask
  begin_send i d now = do
    x ← append_message i d.message_ref d.message_event_ref now
    t ←
        prepare_turn digest i.access.person_ref (some i.access) x.message.message_ref i.thread_ref
          d.turn now
    begin_turn i x t d.failure_event_ref now

pub data ResultStatus : Type 0 where
  result_succeeded result_failed result_cancelled result_timed_out : ResultStatus

-- A result that `providerInvocationResultSchema` accepts.
pub record ProviderResult : Type 0 where
  pub invocation_ref : String
  pub correlation_ref : String
  pub status : ResultStatus
  pub completed_at : ℕ
  pub output : List (String × Option String)
  pub error : Option PublicError
  pub external_session_ref : Option String

-- What `invoke` comes to: an exception, a value that the schema refuses, or a result.
pub data Answer : Type 0 where
  threw unreadable : Answer
  result : ProviderResult → Answer

abbrev pub is_success : ResultStatus → Bool
is_success result_succeeded = true
is_success result_failed = false
is_success result_cancelled = false
is_success result_timed_out = false

abbrev pub failure_status : ResultStatus → ℕ
failure_status result_timed_out = 504
failure_status result_succeeded = 502
failure_status result_failed = 502
failure_status result_cancelled = 502

abbrev pub error_or : PublicError → Option PublicError → PublicError
error_or d none = d
error_or d (some e) = e

-- The reply of a result that has an output and a session; the empty texts count as missing.
abbrev pub reply_from : List (String × Option String) → Option String → ℕ → Option Reply
reply_from [] s at = none
reply_from (o ∷ os) none at = none
reply_from (o ∷ os) (some s) at =
    if s == ""
    then none
    else some (record { body = o.0; language = o.1; external_session_ref = s; completed_at = at })

abbrev pub clear_if_lost : String → Prepared → ℕ → Op ChatDb (Unit {0})
clear_if_lost code t at =
    if code == "PROVIDER_SESSION_NOT_FOUND" then clear_missing_session t at else pure tt

abbrev pub commit_reply :
    NewMessage → String → Prepared → ℕ → CommitDraws → String → ℕ → Option Reply → Op ChatDb String
commit_reply i m t at d event_ref now none = fail_turn m invalid_response at 502 event_ref
commit_reply i m t at d event_ref now (some r) =
    commit_turn i.access.person_ref m i.thread_ref t r d now

-- The rest of `sendForContext` for a result.
abbrev pub finish_result :
    NewMessage
    → String
    → Prepared
    → Request
    → CommitDraws
    → String
    → ℕ
    → ProviderResult
    → Op ChatDb String
finish_result i m t q d event_ref now r =
    if not (r.invocation_ref == q.invocation_ref && r.correlation_ref == q.correlation_ref)
    then fail_turn m invalid_response r.completed_at 502 event_ref
    else if not (is_success r.status)
    then (do
      u ← clear_if_lost (error_or unavailable r.error).code t r.completed_at
      fail_turn m (error_or unavailable r.error) r.completed_at (failure_status r.status) event_ref)
    else commit_reply i m t r.completed_at d event_ref now
        (reply_from r.output r.external_session_ref r.completed_at)

-- `sendForContext` from the provider's answer on: the reference of the reply.
unfoldable pub finish_send :
    NewMessage → Posted → Prepared → Request → CommitDraws → String → ℕ → Answer → Op ChatDb String
unfolding mark_turn_failed clear_missing_session commit_turn
finish_send i x t q d event_ref now threw =
    fail_turn x.message.message_ref unavailable now 502 event_ref
finish_send i x t q d event_ref now unreadable =
    fail_turn x.message.message_ref invalid_response now 502 event_ref
finish_send i x t q d event_ref now (result r) =
    finish_result i x.message.message_ref t q d event_ref now r

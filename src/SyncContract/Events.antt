-- ===== src/SyncContract/Events.antt =====
-- The strict schemas of packages/contracts/src/sync.ts for the known events, with their
-- cross-checks, and for opaque events. A timestamp is its number of milliseconds, so that
-- `datetime` holds of every number.
use family_ai_platform.Common.{
  ℕ, suc, String, Bool, true, false, not, ◌&&◌, ◌||◌, Option, none, some, List, [], ◌∷◌, ◌==◌, eqb,
  leb, if◌then◌else◌, exists_in,
}
use family_ai_platform.Json.{
  Json, bool, num, text, arr, obj, Items, nil, cons, Fields, done, field, extract, map_field,
}
use family_ai_platform.EventLog.{EventRow}
use family_ai_platform.SyncContract.Formats.{
  fixed_ref, generic_ref, event_type_ok, aggregate_type_ok, sequence_ok, client_message_id_ok,
  error_code_ok, error_category_ok, stored_boolean_ok,
}

-- `workConversationStatusSchema` of packages/contracts/src/chatWork.ts.
abbrev pub work_status_ok : String → Bool
work_status_ok s =
    s == "active"
    || s == "paused"
    || s == "waiting_confirmation"
    || s == "completed"
    || s == "archived"

abbrev pub actor_type_ok : String → Bool
actor_type_ok s = s == "person" || s == "assistant" || s == "agent" || s == "system"

-- A text member that a check accepts, and a number member.
abbrev pub text_that : (String → Bool) → Option Json → Bool
text_that p (some (text s)) = p s
text_that p _ = false

abbrev pub num_that : (ℕ → Bool) → Option Json → Bool
num_that p (some (num n)) = p n
num_that p _ = false

-- `.optional()`: the key may be absent, and a null is refused.
abbrev pub optional_text : (String → Bool) → Option Json → Bool
optional_text p none = true
optional_text p (some v) = text_that p (some v)

abbrev pub as_text : Option Json → Option String
as_text (some (text s)) = some s
as_text _ = none

abbrev pub same_member : Option String → Option String → Bool
same_member (some a) (some b) = a == b
same_member _ _ = false

-- `.strict()`: no other key.
abbrev pub strict : List String → Fields → Bool
strict keys done = true
strict keys (field k v fs) = exists_in (λ x. x == k) keys && strict keys fs

abbrev pub ref_texts : Items → Bool
ref_texts nil = true
ref_texts (cons (text s) xs) = fixed_ref "message:" s && ref_texts xs
ref_texts (cons _ xs) = false

abbrev pub count_items : Items → ℕ
count_items nil = 0
count_items (cons x xs) = suc (count_items xs)

abbrev pub has_text : String → Items → Bool
has_text s nil = false
has_text s (cons (text t) xs) = t == s || has_text s xs
has_text s (cons _ xs) = has_text s xs

-- `new Set(refs).size === refs.length`, on a list of texts.
abbrev pub unique_texts : Items → Bool
unique_texts nil = true
unique_texts (cons (text s) xs) = not (has_text s xs) && unique_texts xs
unique_texts (cons _ xs) = unique_texts xs

abbrev pub source_refs_ok : Option Json → Bool
source_refs_ok (some (arr xs)) =
    ref_texts xs && leb 1 (count_items xs) && leb (count_items xs) 100 && unique_texts xs
source_refs_ok _ = false

abbrev pub error_ok : Option Json → Bool
error_ok (some (obj fs)) =
    strict ("code" ∷ "category" ∷ "retryable" ∷ []) fs
    && text_that error_code_ok (extract "code" fs)
    && text_that error_category_ok (extract "category" fs)
    && elim (extract "retryable" fs) [ none ↦ false | some v ↦ stored_boolean_ok v ]
error_ok _ = false

-- `event.aggregateRef !== event.payload.k`, and the like: the member is the text.
abbrev pub member_is : Fields → String → String → Bool
member_is fs k s = text_that (λ t. t == s) (extract k fs)

abbrev pub thread_that : Option String → (String → Bool) → Bool
thread_that none p = false
thread_that (some t) p = p t

abbrev pub thread_ref_ok : EventRow → Bool
thread_ref_ok e = thread_that e.thread_ref (fixed_ref "thread:")

-- `threadRef must match payload.threadRef`.
abbrev pub thread_matches : EventRow → Bool
thread_matches e = thread_that e.thread_ref (λ t. member_is e.payload "threadRef" t)

-- The members of `syncEventEnvelopeSchema` that every event shape keeps.
abbrev pub envelope_ok : EventRow → Bool
envelope_ok e =
    fixed_ref "event:" e.event_ref
    && fixed_ref "person:" e.person_ref
    && sequence_ok e.event_sequence

abbrev pub home_created_ok : EventRow → Bool
home_created_ok e =
    e.aggregate_type == "home_chat"
    && fixed_ref "home-chat:" e.aggregate_ref
    && thread_ref_ok e
    && strict ("homeChatStreamRef" ∷ "dailyEpisodeRef" ∷ "threadRef" ∷ "agentRef" ∷ []) e.payload
    && text_that (fixed_ref "home-chat:") (extract "homeChatStreamRef" e.payload)
    && text_that (fixed_ref "daily-episode:") (extract "dailyEpisodeRef" e.payload)
    && text_that (fixed_ref "thread:") (extract "threadRef" e.payload)
    && optional_text (fixed_ref "agent:") (extract "agentRef" e.payload)
    && member_is e.payload "homeChatStreamRef" e.aggregate_ref
    && thread_matches e

abbrev pub work_created_ok : EventRow → Bool
work_created_ok e =
    e.aggregate_type == "work"
    && fixed_ref "work:" e.aggregate_ref
    && thread_ref_ok e
    && strict ("workConversationRef" ∷ "threadRef" ∷ "agentRef" ∷ "status" ∷ []) e.payload
    && text_that (fixed_ref "work:") (extract "workConversationRef" e.payload)
    && text_that (fixed_ref "thread:") (extract "threadRef" e.payload)
    && optional_text (fixed_ref "agent:") (extract "agentRef" e.payload)
    && text_that work_status_ok (extract "status" e.payload)
    && member_is e.payload "workConversationRef" e.aggregate_ref
    && thread_matches e

abbrev pub message_created_ok : EventRow → Bool
message_created_ok e =
    e.aggregate_type == "thread_message"
    && fixed_ref "message:" e.aggregate_ref
    && thread_ref_ok e
    && strict ("messageRef" ∷ "threadRef" ∷ "threadSequence" ∷ "actorType" ∷ "clientMessageId" ∷ [])
        e.payload
    && text_that (fixed_ref "message:") (extract "messageRef" e.payload)
    && text_that (fixed_ref "thread:") (extract "threadRef" e.payload)
    && num_that sequence_ok (extract "threadSequence" e.payload)
    && text_that actor_type_ok (extract "actorType" e.payload)
    && text_that client_message_id_ok (extract "clientMessageId" e.payload)
    && member_is e.payload "messageRef" e.aggregate_ref
    && thread_matches e

abbrev pub chat_work_created_ok : EventRow → Bool
chat_work_created_ok e =
    e.aggregate_type == "chat_work_conversion"
    && fixed_ref "chat-work-conversion:" e.aggregate_ref
    && thread_ref_ok e
    && strict
        ("conversionRef" ∷ "homeChatStreamRef" ∷ "workConversationRef" ∷ "sourceMessageRefs" ∷ [])
        e.payload
    && text_that (fixed_ref "chat-work-conversion:") (extract "conversionRef" e.payload)
    && text_that (fixed_ref "home-chat:") (extract "homeChatStreamRef" e.payload)
    && text_that (fixed_ref "work:") (extract "workConversationRef" e.payload)
    && source_refs_ok (extract "sourceMessageRefs" e.payload)
    && member_is e.payload "conversionRef" e.aggregate_ref

abbrev pub progress_updated_ok : EventRow → Bool
progress_updated_ok e =
    e.aggregate_type == "work_progress"
    && fixed_ref "work:" e.aggregate_ref
    && thread_ref_ok e
    && strict ("workConversationRef" ∷ "status" ∷ "updatedAt" ∷ []) e.payload
    && text_that (fixed_ref "work:") (extract "workConversationRef" e.payload)
    && text_that work_status_ok (extract "status" e.payload)
    && num_that (λ t. eqb e.occurred_at t) (extract "updatedAt" e.payload)
    && member_is e.payload "workConversationRef" e.aggregate_ref

abbrev pub turn_failed_ok : EventRow → Bool
turn_failed_ok e =
    e.aggregate_type == "provider_turn"
    && fixed_ref "message:" e.aggregate_ref
    && thread_ref_ok e
    && strict ("userMessageRef" ∷ "threadRef" ∷ "agentRef" ∷ "attemptCount" ∷ "error" ∷ [])
        e.payload
    && text_that (fixed_ref "message:") (extract "userMessageRef" e.payload)
    && text_that (fixed_ref "thread:") (extract "threadRef" e.payload)
    && optional_text (fixed_ref "agent:") (extract "agentRef" e.payload)
    && num_that sequence_ok (extract "attemptCount" e.payload)
    && error_ok (extract "error" e.payload)
    && member_is e.payload "userMessageRef" e.aggregate_ref
    && thread_matches e

abbrev pub turn_succeeded_ok : EventRow → Bool
turn_succeeded_ok e =
    e.aggregate_type == "provider_turn"
    && fixed_ref "message:" e.aggregate_ref
    && thread_ref_ok e
    && strict
        ("userMessageRef" ∷ "assistantMessageRef" ∷ "threadRef" ∷ "agentRef" ∷ "attemptCount" ∷ [])
        e.payload
    && text_that (fixed_ref "message:") (extract "userMessageRef" e.payload)
    && text_that (fixed_ref "message:") (extract "assistantMessageRef" e.payload)
    && text_that (fixed_ref "thread:") (extract "threadRef" e.payload)
    && optional_text (fixed_ref "agent:") (extract "agentRef" e.payload)
    && num_that sequence_ok (extract "attemptCount" e.payload)
    && member_is e.payload "userMessageRef" e.aggregate_ref
    && thread_matches e
    && not (
        same_member (as_text (extract "assistantMessageRef" e.payload))
          (as_text (extract "userMessageRef" e.payload)))

-- The kinds of `KNOWN_SYNC_EVENT_TYPES`, and the opaque rest.
pub data Kind : Type 0 where
  home_created work_made message_made conversion_made progress_made turn_failed_kind
        turn_succeeded_kind opaque :
      Kind

unfoldable pub kind_of : String → Kind
kind_of t =
    if t == "chat.home.created"
    then home_created
    else if t == "work.created"
    then work_made
    else if t == "thread.message.created"
    then message_made
    else if t == "chat.work.created"
    then conversion_made
    else if t == "work.progress.updated"
    then progress_made
    else if t == "thread.provider_turn.failed"
    then turn_failed_kind
    else if t == "thread.provider_turn.succeeded"
    then turn_succeeded_kind
    else opaque

abbrev pub opaque_ok : EventRow → Bool
opaque_ok e =
    event_type_ok e.event_type
    && aggregate_type_ok e.aggregate_type
    && generic_ref e.aggregate_ref
    && elim e.thread_ref [ none ↦ true | some t ↦ fixed_ref "thread:" t ]

abbrev pub shape_ok : Kind → EventRow → Bool
shape_ok home_created e = home_created_ok e
shape_ok work_made e = work_created_ok e
shape_ok message_made e = message_created_ok e
shape_ok conversion_made e = chat_work_created_ok e
shape_ok progress_made e = progress_updated_ok e
shape_ok turn_failed_kind e = turn_failed_ok e
shape_ok turn_succeeded_kind e = turn_succeeded_ok e
shape_ok opaque e = opaque_ok e

-- `syncEventSchema`: a known type is held to its own shape and its cross-checks, any other type to
-- the opaque shape.
unfoldable pub sync_event_ok : EventRow → Bool
sync_event_ok e = envelope_ok e && shape_ok (kind_of e.event_type) e

-- What `syncStoredBooleanSchema` makes of a value that it accepts.
abbrev pub stored_boolean : Json → Json
stored_boolean (bool b) = bool b
stored_boolean (num n) = bool (eqb n 1)
stored_boolean v = v

abbrev pub parsed_error : Json → Json
parsed_error (obj fs) = obj (map_field "retryable" stored_boolean fs)
parsed_error v = v

abbrev pub parsed_payload : Kind → Fields → Fields
parsed_payload turn_failed_kind fs = map_field "error" parsed_error fs
parsed_payload home_created fs = fs
parsed_payload work_made fs = fs
parsed_payload message_made fs = fs
parsed_payload conversion_made fs = fs
parsed_payload progress_made fs = fs
parsed_payload turn_succeeded_kind fs = fs
parsed_payload opaque fs = fs

-- What `syncEventSchema` makes of an event that it accepts: the stored `retryable` of a turn that
-- failed becomes a boolean, and all else stays.
unfoldable pub parsed_event : EventRow → EventRow
unfolding kind_of
parsed_event e = record e { payload = parsed_payload (kind_of e.event_type) e.payload }

-- ===== src/Tests/Agents.antt =====
-- Runs of the status of an agent, and of the context and the request that a provider is sent.
use family_ai_platform.Common.{
  ℕ, String, ◌≡◌, refl, none, List, [], ◌∷◌, ◌++◌, ◌≤◌, ok, err, length, thrown,
}
use Prim.Native.String.{◌++◌ as joined}
use family_ai_platform.Chat.{Message}
use family_ai_platform.Chat.Messages.{Posted}
use family_ai_platform.Chat.Capsule.{
  Payload, build_provider_context, max_context, cut, capsule_line, visible_text,
}
use family_ai_platform.Chat.Shortened.{context_bounded}
use family_ai_platform.Chat.Sending.{ask}
use family_ai_platform.Chat.Unsendable.{unsendable_stays_pending}
use family_ai_platform.AgentStatus.{active, online, status_for, input_for}
use family_ai_platform.AgentStatus.Problems.{status_for-status_from, status_from}
use family_ai_platform.Tests.Chat.{
  hello, hello_row, hello_posted, hello_turn, hello_prepared, chat_start, digest, no_file,
  resolves_all,
}

-- The helper's one turn, not ended, and requested before the limit.
status_for-status_from_example :
    (status_for (input_for (hello_turn ∷ []) "agent:helper" 30 100 active online)).status
    ≡ status_from active online (hello_turn ∷ []) "agent:helper" 30
status_for-status_from_example =
    status_for-status_from active online (hello_turn ∷ []) "agent:helper" 30 100

abbrev before_row : Message
before_row = record hello_row { message_ref = "message:m0"; client_message_id = "client-00" }

abbrev earlier : Posted
earlier = record { message = before_row; attachments = [] }

context_bounded_example :
    (p : Payload) × (build_provider_context (earlier ∷ hello_posted ∷ []) "message:m1" none
      ≡ ok (p ∷ []))
    × (length p.text ≤ max_context)
    × ((before : List ℕ) × (p.text ≡ before ++ cut max_context (capsule_line hello_posted)))
context_bounded_example =
    context_bounded (earlier ∷ hello_posted ∷ []) "message:m1" hello_posted refl refl refl

abbrev doubled : String → String
doubled s = joined s s

abbrev long_text : String
long_text = doubled (
    doubled (
      doubled (
        doubled (
          doubled (
            doubled (
              doubled (
                doubled (
                  joined "0123456789012345678901234567890123456789"
                    "01234567890123456789012"))))))))

abbrev long_posted : Posted
long_posted = record { message = record hello_row { body = long_text }; attachments = [] }

unsendable_stays_pending_example :
    ask digest no_file resolves_all hello long_posted hello_prepared "event:e2" 20 chat_start
    ≡ (err (thrown "ZodError"), chat_start)
unfolding visible_text
unsendable_stays_pending_example =
    unsendable_stays_pending digest no_file resolves_all hello long_posted hello_prepared "event:e2"
      20 [] chat_start refl refl refl refl

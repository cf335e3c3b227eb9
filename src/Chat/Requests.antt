-- ===== src/Chat/Requests.antt =====
-- The request that a provider is sent: `providerInvocationRequestSchema` of
-- packages/contracts/src/index.ts as a test. The version and the time of a request are right by
-- construction.
use family_ai_platform.Common.{
  ℕ, String, Bool, true, false, ◌&&◌, ◌||◌, Option, none, some, List, [], ◌∷◌, eqb, leb,
  if◌then◌else◌, length, all_in,
}
use family_ai_platform.SyncContract.Formats.{codes, in_range, fixed_ref}
use family_ai_platform.Attachments.{max_file_bytes}
use family_ai_platform.Attachments.Names.{text_length}
use family_ai_platform.Attachments.Uploads.{sha256_fits}
use family_ai_platform.Chat.Capsule.{Payload}

-- `ProviderAttachment`.
pub record ProviderAttachment : Type 0 where
  pub attachment_ref : String
  pub file_name : String
  pub media_type : String
  pub size_bytes : ℕ
  pub sha256 : String
  pub local_path : String

pub record Request : Type 0 where
  pub invocation_ref : String
  pub correlation_ref : String
  pub idempotency_key : String
  pub provider_profile_ref : String
  pub target_agent_ref : String
  pub conversation_ref : String
  pub external_session_ref : Option String
  pub content : List Payload
  pub attachments : List ProviderAttachment

abbrev pub between : ℕ → ℕ → ℕ → Bool
between lo hi n = leb lo n && leb n hi

-- `[a-z0-9]` and `[a-z0-9!#$&^_.+-]`.
abbrev media_start : ℕ → Bool
media_start c = in_range b'a' b'z' c || in_range b'0' b'9' c

abbrev media_char : ℕ → Bool
media_char c =
    media_start c
    || eqb c b'!'
    || eqb c b'#'
    || eqb c b'$'
    || eqb c b'&'
    || eqb c b'^'
    || eqb c b'_'
    || eqb c b'.'
    || eqb c b'+'
    || eqb c b'-'

abbrev media_word : List ℕ → Bool
media_word [] = false
media_word (c ∷ cs) = media_start c && all_in media_char cs

-- The type, up to the slash, and the subtype behind it.
abbrev media_rest : List ℕ → Bool
media_rest [] = false
media_rest (c ∷ cs) = if eqb c b'/' then media_word cs else media_char c && media_rest cs

abbrev media_codes : List ℕ → Bool
media_codes [] = false
media_codes (c ∷ cs) = media_start c && media_rest cs

unfoldable pub media_type_ok : String → Bool
unfolding text_length
media_type_ok s = between 3 127 (text_length s) && media_codes (codes s)

abbrev lower : ℕ → Bool
lower c = in_range b'a' b'z' c

abbrev upper : ℕ → Bool
upper c = in_range b'A' b'Z' c

-- `(?:-[A-Z]{2})?$`.
abbrev region : List ℕ → Bool
region [] = true
region (d ∷ a ∷ b ∷ []) = eqb d b'-' && upper a && upper b
region _ = false

abbrev third_letter : List ℕ → Bool
third_letter [] = true
third_letter (c ∷ cs) = if lower c then region cs else region (c ∷ cs)

abbrev language_codes : List ℕ → Bool
language_codes (a ∷ b ∷ cs) = lower a && lower b && third_letter cs
language_codes _ = false

-- `^[a-z]{2,3}(?:-[A-Z]{2})?$`.
abbrev pub language_ok : Option String → Bool
language_ok none = true
language_ok (some l) = language_codes (codes l)

-- `textPayloadSchema`.
abbrev pub payload_ok : Payload → Bool
payload_ok p = between 1 12000 (length p.text) && language_ok p.language

-- `providerAttachmentSchema`.
abbrev pub provider_attachment_ok : ProviderAttachment → Bool
provider_attachment_ok a =
    fixed_ref "attachment:" a.attachment_ref
    && between 1 255 (text_length a.file_name)
    && media_type_ok a.media_type
    && between 1 max_file_bytes a.size_bytes
    && sha256_fits a.sha256
    && between 1 4096 (text_length a.local_path)

abbrev pub session_ok : Option String → Bool
session_ok none = true
session_ok (some s) = fixed_ref "external-session:" s

-- What the schema asks of all but the content.
abbrev pub envelope_ok : Request → Bool
envelope_ok r =
    fixed_ref "invocation:" r.invocation_ref
    && fixed_ref "correlation:" r.correlation_ref
    && between 8 128 (text_length r.idempotency_key)
    && fixed_ref "provider-profile:" r.provider_profile_ref
    && fixed_ref "agent:" r.target_agent_ref
    && fixed_ref "conversation:" r.conversation_ref
    && session_ok r.external_session_ref
    && leb (length r.attachments) 10
    && all_in provider_attachment_ok r.attachments

-- `providerInvocationRequestSchema`.
unfoldable pub request_ok : Request → Bool
unfolding media_type_ok text_length
request_ok r = envelope_ok r && between 1 20 (length r.content) && all_in payload_ok r.content

-- ===== src/Chat/Capsule.antt =====
-- What a provider is sent of a thread: `buildProviderContext` of
-- apps/gateway/src/chatWorkContext.ts. A text is the list of its UTF-16 code units, which `length`
-- counts and `slice` cuts.
use Prim.Native.Nat.{◌/◌, ◌%◌}
use family_ai_platform.Common.{
  ℕ, zero, suc, ◌+◌, ◌-◌, String, Bool, true, false, not, ◌||◌, Option, none, some, List, [], ◌∷◌,
  ◌++◌, map, Outcome, ok, err, thrown, ◌==◌, ltb, leb, eqb, is_some, if◌then◌else◌, length, take,
  drop, first, select,
}
use family_ai_platform.SyncContract.Formats.{codes}
use family_ai_platform.Attachments.{AttachmentRow}
use family_ai_platform.Chat.{Actor, person, assistant, agent, system}
use family_ai_platform.Chat.Messages.{Posted, language_of}

abbrev pub Units : Type 0
Units = List ℕ

abbrev pub code_units : List ℕ → Units
code_units [] = []
code_units (c ∷ cs) =
    if ltb c 65536
    then c ∷ code_units cs
    else (55296 + (c - 65536) / 1024) ∷ (56320 + (c - 65536) % 1024) ∷ code_units cs

abbrev pub units_of : String → Units
units_of s = code_units (codes s)

-- The decimal digits of a number; its own size is enough fuel.
unfoldable pub digits_from : ℕ → ℕ → Units → Units
digits_from zero n acc = acc
digits_from (suc fuel) n acc =
    let rest = digits_from fuel (n / 10) ((b'0' + n % 10) ∷ acc) in
    if ltb n 10 then (b'0' + n) ∷ acc else rest

unfoldable pub decimal : ℕ → Units
unfolding digits_from
decimal n = digits_from (suc n) n []

-- `visibleRole`.
abbrev pub visible_role : Actor → Option Units
visible_role (person p) = some (units_of "成员")
visible_role (assistant a g v) = some (units_of "助理")
visible_role (agent g v) = some (units_of "助理")
visible_role (system s) = none

abbrev pub media_text : Option String → String
media_text none = "null"
media_text (some m) = m

abbrev pub attachment_line : AttachmentRow → Units
attachment_line r =
    units_of "[附件:"
    ++ (units_of r.file_name
        ++ (units_of " | "
            ++ (units_of (media_text r.detected_media_type)
                ++ (units_of " | " ++ (decimal r.size_bytes ++ units_of " bytes]")))))

-- `lines.filter((line) => line.length > 0).join("\n")`.
abbrev pub not_empty : Units → Bool
not_empty [] = false
not_empty (c ∷ cs) = true

abbrev pub join_lines : List Units → Units
join_lines [] = []
join_lines (l ∷ []) = l
join_lines (l ∷ m ∷ ls) = l ++ (b'\n' ∷ join_lines (m ∷ ls))

-- `visibleMessageText`.
unfoldable pub visible_text : Posted → Units
unfolding decimal
visible_text x =
    join_lines (select not_empty (units_of x.message.body ∷ map attachment_line x.attachments))

pub record Payload : Type 0 where
  pub text : Units
  pub language : Option String

-- `currentProviderContent`.
abbrev pub current_content : Posted → Payload
current_content x = record { text = visible_text x; language = language_of x.message.language }

abbrev pub max_context : ℕ
max_context = 12000

abbrev pub separator : Units → Units
separator [] = []
separator (c ∷ cs) = b'\n' ∷ []

abbrev pub cut : ℕ → Units → Units
cut room line = if leb (length line) room then line else take room line

-- The loop of `boundedCapsule`, over the lines from the last to the first.
unfoldable pub capsule_from : Units → List Units → Units
capsule_from result [] = result
capsule_from result (line ∷ older) =
    let room = max_context - length result - length (separator result) in
    let next = capsule_from (cut room line ++ (separator result ++ result)) older in
    if eqb room 0 then result else next

abbrev pub backwards : List Units → List Units → List Units
backwards [] acc = acc
backwards (l ∷ ls) acc = backwards ls (l ∷ acc)

-- `boundedCapsule`.
unfoldable pub bounded_capsule : List Units → Units
unfolding capsule_from
bounded_capsule lines = capsule_from [] (backwards lines [])

abbrev pub is_current : String → Posted → Bool
is_current ref x = x.message.message_ref == ref

abbrev pub is_visible : Posted → Bool
is_visible x = is_some (visible_role x.message.actor)

-- `slice(-18)`.
abbrev pub last_ones : ℕ → List Posted → List Posted
last_ones n xs = drop (length xs - n) xs

abbrev pub role_or_none : Option Units → Units
role_or_none none = []
role_or_none (some r) = r

abbrev pub capsule_line : Posted → Units
capsule_line x = role_or_none (visible_role x.message.actor) ++ (b':' ∷ visible_text x)

abbrev pub is_person_message : Actor → Bool
is_person_message (person p) = true
is_person_message (assistant a g v) = false
is_person_message (agent g v) = false
is_person_message (system s) = false

abbrev pub capsule_of : List Posted → String → Posted → Payload
capsule_of messages ref current = record {
  text = bounded_capsule (
      map capsule_line (
        last_ones 18 (select is_visible (select (λ x. not (is_current ref x)) messages))
        ++ current ∷ []));
  language = none;
}

abbrev pub context_from :
    List Posted → String → Option String → Option Posted → Outcome (List Payload)
context_from messages ref session none =
    err (thrown "Current Provider message is not a persisted Person message")
context_from messages ref session (some x) =
    if not (is_person_message x.message.actor)
    then err (thrown "Current Provider message is not a persisted Person message")
    else if is_some session || eqb (length messages) 1
    then ok (current_content x ∷ [])
    else ok (capsule_of messages ref x ∷ [])

-- `buildProviderContext`.
unfoldable pub build_provider_context :
    List Posted → String → Option String → Outcome (List Payload)
unfolding bounded_capsule visible_text
build_provider_context messages ref session =
    context_from messages ref session (first (is_current ref) messages)

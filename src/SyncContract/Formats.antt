-- ===== src/SyncContract/Formats.antt =====
-- The formats of packages/contracts/src/sync.ts: references, names, numbers and codes. A regular
-- expression is a scan of code points.
use Prim.Native.Char.{code}
use family_ai_platform.Common.{
  ℕ, zero, suc, String, Bool, true, false, not, ◌&&◌, ◌||◌, Option, none, some, List, [], ◌∷◌, ◌==◌,
  eqb, leb, ltb, if◌then◌else◌, length, all_in,
}
use family_ai_platform.Json.{Json, bool, num}

abbrev pub codes : String → List ℕ
codes String.[] = []
codes (String.◌∷◌ c s) = code c ∷ codes s

abbrev pub in_range : ℕ → ℕ → ℕ → Bool
in_range lo hi c = leb lo c && leb c hi

-- `[a-z0-9]`, `[a-z0-9._:-]`, `[a-z0-9._-]` and `[._-]`.
abbrev lower_digit : ℕ → Bool
lower_digit c = in_range b'a' b'z' c || in_range b'0' b'9' c

abbrev separator : ℕ → Bool
separator c = eqb c b'.' || eqb c b'_' || eqb c b'-'

abbrev ref_char : ℕ → Bool
ref_char c = lower_digit c || separator c || eqb c b':'

-- `[a-z0-9][a-z0-9._:-]{1,126}$`.
unfoldable pub ref_tail : List ℕ → Bool
ref_tail [] = false
ref_tail (c ∷ cs) = lower_digit c && all_in ref_char cs && leb 1 (length cs) && leb (length cs) 126

unfoldable pub strip : List ℕ → List ℕ → Option (List ℕ)
strip [] s = some s
strip (p ∷ ps) [] = none
strip (p ∷ ps) (c ∷ s) = let rest = strip ps s in if eqb p c then rest else none

abbrev tail_ok : Option (List ℕ) → Bool
tail_ok none = false
tail_ok (some cs) = ref_tail cs

-- `fixedRef(prefix)`; the prefix comes with its colon.
unfoldable pub fixed_ref : String → String → Bool
unfolding ref_tail strip
fixed_ref prefix s = tail_ok (strip (codes prefix) (codes s))

-- The part of `syncGenericRefSchema` behind its first letter: at most `room` characters of the
-- name, a colon and the tail.
unfoldable pub generic_tail : ℕ → List ℕ → Bool
unfolding ref_tail
generic_tail room [] = false
generic_tail zero (c ∷ cs) = eqb c b':' && ref_tail cs
generic_tail (suc room) (c ∷ cs) =
    if eqb c b':' then ref_tail cs else (lower_digit c || separator c) && generic_tail room cs

abbrev generic_codes : List ℕ → Bool
generic_codes [] = false
generic_codes (c ∷ cs) = in_range b'a' b'z' c && generic_tail 63 cs

unfoldable pub generic_ref : String → Bool
unfolding generic_tail
generic_ref s = generic_codes (codes s)

-- Where the scan of a dotted name stands: in a word, with the words before it, or behind a
-- separator.
pub data Mode : Type 0 where
  in_first in_later behind : Mode

unfoldable pub name_scan : Mode → List ℕ → Option Mode
name_scan m [] = some m
name_scan behind (c ∷ cs) = let rest = name_scan in_later cs in if lower_digit c then rest else none
name_scan m (c ∷ cs) =
    let same = name_scan m cs in
    let next = name_scan behind cs in
    if lower_digit c then same else if separator c then next else none

abbrev name_from : List ℕ → Option Mode
name_from [] = none
name_from (c ∷ cs) = if in_range b'a' b'z' c then name_scan in_first cs else none

abbrev later_word : Option Mode → Bool
later_word (some in_later) = true
later_word _ = false

abbrev any_word : Option Mode → Bool
any_word (some in_first) = true
any_word (some in_later) = true
any_word _ = false

-- `syncEventTypeSchema`: at least two words.
unfoldable pub event_type_ok : String → Bool
unfolding name_scan
event_type_ok s =
    leb 3 (length (codes s)) && leb (length (codes s)) 128 && later_word (name_from (codes s))

-- `syncAggregateTypeSchema`.
unfoldable pub aggregate_type_ok : String → Bool
unfolding name_scan
aggregate_type_ok s =
    leb 1 (length (codes s)) && leb (length (codes s)) 64 && any_word (name_from (codes s))

abbrev pub max_safe_integer : ℕ
max_safe_integer = 9007199254740991

-- `syncEventSequenceSchema` and `syncCursorSchema`.
abbrev pub sequence_ok : ℕ → Bool
sequence_ok n = leb 1 n && leb n max_safe_integer

abbrev pub cursor_ok : ℕ → Bool
cursor_ok n = leb n max_safe_integer

-- The white space of JavaScript's `\s`.
abbrev pub white : ℕ → Bool
white c =
    in_range 9 13 c
    || eqb c 32
    || eqb c 160
    || eqb c 0x1680
    || in_range 0x2000 0x200a c
    || in_range 0x2028 0x2029 c
    || eqb c 0x202f
    || eqb c 0x205f
    || eqb c 0x3000
    || eqb c 0xfeff

-- `.trim()` of JavaScript, which takes off what `\s` matches.
unfoldable pub trim_start : String → String
trim_start String.[] = ""
trim_start (String.◌∷◌ c s) = if white (code c) then trim_start s else String.◌∷◌ c s

unfoldable pub trim_end : String → String
trim_end String.[] = ""
trim_end (String.◌∷◌ c s) =
    let rest = trim_end s in if white (code c) && rest == "" then "" else String.◌∷◌ c rest

unfoldable pub trim : String → String
unfolding trim_start trim_end
trim s = trim_end (trim_start s)

-- The length of a text in UTF-16 units.
unfoldable pub units : List ℕ → ℕ
units [] = 0
units (c ∷ cs) = if ltb c 65536 then suc (units cs) else suc (suc (units cs))

-- `syncClientMessageIdSchema`.
unfoldable pub client_message_id_ok : String → Bool
unfolding units
client_message_id_ok s =
    leb 8 (units (codes s)) && leb (units (codes s)) 128 && all_in (λ c. not (white c)) (codes s)

abbrev error_code_codes : List ℕ → Bool
error_code_codes [] = false
error_code_codes (c ∷ cs) =
    in_range b'A' b'Z' c
    && all_in (λ d. in_range b'A' b'Z' d || in_range b'0' b'9' d || eqb d b'_') cs
    && leb 2 (length cs)
    && leb (length cs) 63

-- `syncPublicErrorCodeSchema` and `syncPublicErrorCategorySchema`.
unfoldable pub error_code_ok : String → Bool
error_code_ok s = error_code_codes (codes s)

abbrev pub error_category_ok : String → Bool
error_category_ok s =
    s == "validation"
    || s == "permission"
    || s == "availability"
    || s == "timeout"
    || s == "conflict"
    || s == "internal"

-- `syncStoredBooleanSchema`.
abbrev pub stored_boolean_ok : Json → Bool
stored_boolean_ok (bool b) = true
stored_boolean_ok (num n) = eqb n 0 || eqb n 1
stored_boolean_ok _ = false

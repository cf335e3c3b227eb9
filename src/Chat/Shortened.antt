-- ===== src/Chat/Shortened.antt =====
-- The length of what a provider is sent by apps/gateway/src/chatWorkContext.ts.
use family_ai_platform.Common.{
  ℕ, ◌-◌, ◌≤◌, String, true, false, not, first, select, none, some, List, [], ◌∷◌, ◌++◌, map, ok,
  ◌≡◌, refl, sym, ap, ◌∙◌, arith, length, length-append, length-take, append_assoc, append-nil,
  Bool-cases, inl, inr, eqb, leb, leb→le,
}
use mathlib.Core.List.{map-append}
use family_ai_platform.Chat.Messages.{Posted}
use family_ai_platform.Chat.Capsule.{
  Units, Payload, separator, cut, max_context, capsule_from, backwards, bounded_capsule,
  build_provider_context, capsule_of, capsule_line, last_ones, is_visible, is_current,
  is_person_message,
}

cut_le : (room : ℕ) (line : Units) → length (cut room line) ≤ room
cut_le room line = elim (Bool-cases (leb (length line) room)) [
  | inl fits ↦ rw fits (leb→le (length line) room fits)
  | inr long ↦ rw long (omega (arith, length-take room line))
]

pos_of_eqb : (n : ℕ) → eqb n 0 ≡ false → 1 ≤ n
pos_of_eqb n h = ground arith

capsule_from_le :
    (result : Units) (lines : List Units)
    → length result ≤ max_context
    → length (capsule_from result lines) ≤ max_context
unfolding capsule_from
capsule_from_le result [] h = h
capsule_from_le result (line ∷ older) h =
    elim (Bool-cases (eqb (max_context - length result - length (separator result)) 0)) [
      | inl full ↦ rw full h
      | inr some_room ↦
          let room : ℕ = max_context - length result - length (separator result) in
          rw some_room (
            capsule_from_le (cut room line ++ (separator result ++ result)) older (
              omega (
                arith,
                pos_of_eqb (max_context - length result - length (separator result)) some_room,
                length-append (cut room line) (separator result ++ result),
                length-append (separator result) result,
                cut_le room line,
              )))
    ]

capsule_from_ends :
    (result : Units) (lines : List Units)
    → (before : Units) × (capsule_from result lines ≡ before ++ result)
unfolding capsule_from
capsule_from_ends result [] = ([], refl)
capsule_from_ends result (line ∷ older) =
    elim (Bool-cases (eqb (max_context - length result - length (separator result)) 0)) [
      | inl full ↦ ([], rw full refl)
      | inr some_room ↦
          let kept = cut (max_context - length result - length (separator result)) line in
          let (before, e) = capsule_from_ends (kept ++ (separator result ++ result)) older in
          (
            before ++ (kept ++ separator result),
            rw some_room (
                e
                ∙ ap (λ l. before ++ l) (sym (append_assoc kept (separator result) result))
                ∙ sym (append_assoc before (kept ++ separator result) result)),
          )
    ]

backwards-append :
    (ls acc : List Units) (l : Units) → backwards (ls ++ l ∷ []) acc ≡ l ∷ backwards ls acc
backwards-append [] acc l = refl
backwards-append (x ∷ ls) acc l = backwards-append ls (x ∷ acc) l

-- A capsule has at most 12,000 code units.
capsule_le : (lines : List Units) → length (bounded_capsule lines) ≤ max_context
unfolding bounded_capsule
capsule_le lines = capsule_from_le [] (backwards lines []) (omega arith)

-- It ends with the last line, or with the first 12,000 code units of it.
capsule_ends :
    (lines : List Units) (l : Units)
    → (before : Units) × (bounded_capsule (lines ++ l ∷ []) ≡ before ++ cut max_context l)
unfolding bounded_capsule capsule_from
capsule_ends lines l =
    let (before, e) = capsule_from_ends (cut max_context l ++ []) (backwards lines []) in
    (
      before,
      ap (λ ls. capsule_from [] ls) (backwards-append lines [] l)
          ∙ e
          ∙ ap (λ k. before ++ k) (append-nil (cut max_context l)),
    )

-- A person's message that a provider with no session is sent with others of its thread goes out as
-- one text. It has at most 12,000 code units, and ends with the message's own line, or with the
-- first 12,000 code units of that.
pub context_bounded :
    (messages : List Posted) (ref : String) (x : Posted)
    → first (is_current ref) messages ≡ some x
    → is_person_message x.message.actor ≡ true
    → eqb (length messages) 1 ≡ false
    → (p : Payload) × (build_provider_context messages ref none ≡ ok (p ∷ []))
      × (length p.text ≤ max_context)
      × ((before : Units) × (p.text ≡ before ++ cut max_context (capsule_line x)))
unfolding build_provider_context
context_bounded messages ref x f a n =
    let lines : List Units =
      map capsule_line
        (last_ones 18 (select is_visible (select (λ y. not (is_current ref y)) messages))) in
    let e : (capsule_of messages ref x).text ≡ bounded_capsule (lines ++ capsule_line x ∷ []) =
      ap bounded_capsule (
        map-append capsule_line
          (last_ones 18 (select is_visible (select (λ y. not (is_current ref y)) messages)))
          (x ∷ [])) in
    let (before, ends) = capsule_ends lines (capsule_line x) in
    (
      capsule_of messages ref x,
      rw f (rw a (rw n refl)),
      omega (arith, ap length e, capsule_le (lines ++ capsule_line x ∷ [])),
      (before, e ∙ ends),
    )

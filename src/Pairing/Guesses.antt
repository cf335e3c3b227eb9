-- ===== src/Pairing/Guesses.antt =====
-- How often a pairing code can be guessed by `previewPairing` of
-- apps/gateway/src/mobilePairing.ts.
use family_ai_platform.Common.{
  ℕ, suc, ◌+◌, ◌≤◌, String, true, false, not, some, List, [], ◌∷◌, Outcome, is_ok, Bool-cases, inl,
  inr, ok, err, ◌==◌, leb, if◌then◌else◌, length, All, subst, ◌≡◌, refl, ap, sym, arith, ◌∙◌, ◌&&◌,
  first-update, first_holds, eq_iff,
}
use family_ai_platform.Pairing.{
  PairingDb, PairingRow, CodeStatus, code_active, code_consumed, code_revoked, code_expired,
  is_active_code, pairing_by_ref,
}
use family_ai_platform.Pairing.Codes.{
  update_active, resolve_from, resolve_by_ref, resolve_pairing, preview_pairing, is_active_at,
  given_ref, expired_row,
}
use family_ai_platform.Pairing.Attempts.{resolve_from_given, counted, counted_row}

-- The tables after a wrong code.
abbrev after_wrong : ℕ → PairingRow → PairingDb → PairingDb
after_wrong now p db =
    if is_active_at p now
    then update_active p.pairing_ref expired_row db
    else if is_active_code p.status && not (leb p.max_attempts p.failed_attempts)
    then counted p db
    else db

resolve_wrong :
    (h : String) (now : ℕ) (p : PairingRow) (db : PairingDb)
    → (p.code_hash == h) ≡ false
    → (is_ok (resolve_by_ref h false now (some p) db).0 ≡ false)
      × ((resolve_by_ref h false now (some p) db).1 ≡ after_wrong now p db)
resolve_wrong h now p db w = wrong p.status refl
  where
    wrong :
        (s : CodeStatus)
        → p.status ≡ s
        → (is_ok (resolve_by_ref h false now (some p) db).0 ≡ false)
          × ((resolve_by_ref h false now (some p) db).1 ≡ after_wrong now p db)
    wrong code_active s = (ground arith, ground arith)
    wrong code_consumed s = (ground arith, ground arith)
    wrong code_revoked s = (ground arith, ground arith)
    wrong code_expired s = (ground arith, ground arith)

-- At most `n` more guesses are left: the row that the reference finds has this digest, and if it is
-- active its counter is at most `n` below the maximum.
abbrev pub Guessable : String → String → ℕ → PairingDb → Type 0
Guessable ref h n db =
    (p : PairingRow) × (pairing_by_ref db ref ≡ some p)
    × (p.code_hash ≡ h)
    × (is_active_code p.status ≡ true → p.max_attempts ≤ p.failed_attempts + n)

pub pairing_by_ref-update :
    (ref : String) (g : PairingRow → PairingRow)
    → ((r : PairingRow) → (g r).pairing_ref ≡ r.pairing_ref)
    → (p : PairingRow) (db : PairingDb) → pairing_by_ref db ref ≡ some p
    → pairing_by_ref (update_active p.pairing_ref g db) ref
      ≡ some (if is_active_code p.status then g p else p)
pairing_by_ref-update ref g same p db f =
    ap (λ r. pairing_by_ref (update_active r g db) ref)
      ((eq_iff p.pairing_ref ref).0 (first_holds (λ r. r.pairing_ref == ref) db.codes p f))
    ∙ first-update (λ r. r.pairing_ref == ref) (λ r. is_active_code r.status) g
        (λ r. ap (λ t. t == ref) (same r)) db.codes p f

after_wrong-Guessable :
    (ref h : String) (n now : ℕ) (p : PairingRow) (db : PairingDb)
    → pairing_by_ref db ref ≡ some p
    → p.code_hash ≡ h
    → (is_active_code p.status ≡ true → p.max_attempts ≤ p.failed_attempts + suc n)
    → Guessable ref h n (after_wrong now p db)
after_wrong-Guessable ref h n now p db f e b = elim (Bool-cases (is_active_at p now)) [
  | inl at ↦ (
    expired_row p,
    ground (arith, pairing_by_ref-update ref expired_row (λ r. refl) p db f),
    e,
    λ a. ground arith,
  )
  | inr at ↦
      elim (Bool-cases (is_active_code p.status && not (leb p.max_attempts p.failed_attempts))) [
        | inl c ↦ (
          counted_row p p,
          ground (arith, pairing_by_ref-update ref (counted_row p) (λ r. refl) p db f),
          e,
          λ a. ground (arith, b),
        )
        | inr c ↦ (p, ground (arith, f), e, λ a. ground (arith, b))
      ]
]

-- A row that no guess is left for is refused, whatever the code.
resolve_locked :
    (h : String) (now : ℕ) (p : PairingRow) (db : PairingDb)
    → (is_active_code p.status ≡ true → p.max_attempts ≤ p.failed_attempts + 0)
    → is_ok (resolve_by_ref h false now (some p) db).0 ≡ false
resolve_locked h now p db b = locked p.status refl
  where
    locked :
        (s : CodeStatus) → p.status ≡ s → is_ok (resolve_by_ref h false now (some p) db).0 ≡ false
    locked code_active s = ground (arith, b)
    locked code_consumed s = ground arith
    locked code_revoked s = ground arith
    locked code_expired s = ground arith

module _ (hash : String → String) (ref host : String) where
  -- Previews for one reference, each with its code and its time, one after the other.
  unfoldable pub guesses : List (String × ℕ) → PairingDb → PairingDb
  unfolding preview_pairing
  guesses [] db = db
  guesses ((code, now) ∷ cs) db = guesses cs (preview_pairing hash code (some ref) host now db).1

  refused_preview :
      (code : String) (now : ℕ) (db : PairingDb)
      → is_ok (resolve_from (hash code) (given_ref (some ref)) false now db).0 ≡ false
      → (is_ok (preview_pairing hash code (some ref) host now db).0 ≡ false)
        × ((preview_pairing hash code (some ref) host now db).1
            ≡ (resolve_from (hash code) (given_ref (some ref)) false now db).1)
  unfolding preview_pairing resolve_pairing
  refused_preview code now db r =
      refused (resolve_from (hash code) (given_ref (some ref)) false now db) refl
    where
      refused :
          (o : Outcome PairingRow × PairingDb)
          → resolve_from (hash code) (given_ref (some ref)) false now db ≡ o
          → (is_ok (preview_pairing hash code (some ref) host now db).0 ≡ false)
            × ((preview_pairing hash code (some ref) host now db).1
                ≡ (resolve_from (hash code) (given_ref (some ref)) false now db).1)
      refused (ok p, db') o =
          absurd (let e : true ≡ false = sym (ap (λ x. is_ok x.0) o) ∙ r in ground arith)
      refused (err e, db') o = rw o (refl, refl)

  -- A wrong code leaves one guess less.
  guess_wrong :
      (h code : String) (n now : ℕ) (db : PairingDb)
      → (ref == "") ≡ false
      → (h == hash code) ≡ false
      → Guessable ref h (suc n) db
      → Guessable ref h n (preview_pairing hash code (some ref) host now db).1
  guess_wrong h code n now db given w (p, f, e, b) =
      subst (Guessable ref h n) (sym (previewed.1 ∙ ap (λ o. o.1) found ∙ wrong.1))
        (after_wrong-Guessable ref h n now p db f e b)
    where
      found :
          resolve_from (hash code) (given_ref (some ref)) false now db
          ≡ resolve_by_ref (hash code) false now (some p) db
      found = resolve_from_given (hash code) ref false now p db f given

      wrong :
          (is_ok (resolve_by_ref (hash code) false now (some p) db).0 ≡ false)
          × ((resolve_by_ref (hash code) false now (some p) db).1 ≡ after_wrong now p db)
      wrong = resolve_wrong (hash code) now p db (ap (λ t. t == hash code) e ∙ w)

      previewed :
          (is_ok (preview_pairing hash code (some ref) host now db).0 ≡ false)
          × ((preview_pairing hash code (some ref) host now db).1
              ≡ (resolve_from (hash code) (given_ref (some ref)) false now db).1)
      previewed = refused_preview code now db (ap (λ o. is_ok o.0) found ∙ wrong.0)

  guesses-Guessable :
      (h : String) (cs : List (String × ℕ)) (n : ℕ) (db : PairingDb)
      → (ref == "") ≡ false
      → All (λ c. (h == hash c.0) ≡ false) cs
      → Guessable ref h (n + length cs) db
      → Guessable ref h n (guesses cs db)
  unfolding guesses
  guesses-Guessable h [] n db given w g = subst (λ k. Guessable ref h k db) (omega arith) g
  guesses-Guessable h ((code, now) ∷ cs) n db given (w, ws) g =
      guesses-Guessable h cs n (preview_pairing hash code (some ref) host now db).1 given ws (
        guess_wrong h code (n + length cs) now db given w
          (subst (λ k. Guessable ref h k db) (omega arith) g))

  -- A pairing code that a reference (not an empty text) finds can be guessed by preview as often as
  -- its counter is below its maximum: after that many wrong codes, each at its own time, a preview
  -- for the reference is refused whatever code it has, the right one too, at any time.
  pub guesses_lock :
      (cs : List (String × ℕ)) (p : PairingRow) (db : PairingDb) (code : String) (now : ℕ)
      → (ref == "") ≡ false
      → pairing_by_ref db ref ≡ some p
      → All (λ c. (p.code_hash == hash c.0) ≡ false) cs
      → p.max_attempts ≤ p.failed_attempts + length cs
      → is_ok (preview_pairing hash code (some ref) host now (guesses cs db)).0 ≡ false
  guesses_lock cs p db code now given f w b =
      locked (guesses-Guessable p.code_hash cs 0 db given w (p, f, refl, λ a. omega arith))
    where
      locked :
          Guessable ref p.code_hash 0 (guesses cs db)
          → is_ok (preview_pairing hash code (some ref) host now (guesses cs db)).0 ≡ false
      locked (q, g, e, l) =
          (refused_preview code now (guesses cs db) (
            ap (λ o. is_ok o.0)
              (resolve_from_given (hash code) ref false now q (guesses cs db) g given)
            ∙ resolve_locked (hash code) now q (guesses cs db) l)).0

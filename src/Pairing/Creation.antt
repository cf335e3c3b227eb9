-- ===== src/Pairing/Creation.antt =====
-- The code that `createPairingCode` of apps/gateway/src/mobilePairing.ts makes, and `previewPairing`
-- of it.
use family_ai_platform.Common.{
  ℕ, zero, suc, ◌+◌, ◌<◌, String, true, false, none, some, [], ◌∷◌, ok, ◌==◌, ==_refl,
  if◌then◌else◌, exists_in, ◌≡◌, ap, sym, arith, ◌∙◌, Bool-cases, Option-cases, inl, inr,
  first-append_none, first-none,
}
use family_ai_platform.Pairing.{
  PairingDb, PairingRow, Target, pairing_by_code_hash, active_target, pairing_lifetime,
  max_code_generation_attempts,
}
use family_ai_platform.Pairing.Codes.{
  Material, Preview, generate, create_pairing_code, preview_pairing, resolve_pairing, resolve_from,
  resolve_by_code, name_fits, row_for, inserted, pairing_code_ok, is_administrator,
}
use family_ai_platform.SyncContract.Formats.{trim}

-- What a preview tells of a code.
abbrev pub answer_for : Material → String → Preview
answer_for m host = record {
  target = record {
    family_name = trim m.target.family_name;
    person_name = trim m.target.person_name;
  };
  gateway_host = trim host;
  expires_at = m.expires_at;
}

module _ (hash : String → String) where
  -- A row that stands alone for its digest is found by it.
  abbrev Created : String → String → String → ℕ → Target → PairingDb → Material → PairingDb → Type 0
  Created family person by now target db m db' =
      (pairing_by_code_hash db (hash m.code) ≡ none)
      × (m.target ≡ target)
      × (m.expires_at ≡ now + pairing_lifetime)
      × (db' ≡ inserted (row_for hash family person by m.pairing_ref m.code now) db)

  generate-Created :
      (left : ℕ) (draw : ℕ → String × String) (family person by : String) (target : Target)
      (now : ℕ) (db : PairingDb) {m : Material} {db' : PairingDb}
      → generate hash left draw family person by target now db ≡ (ok m, db')
      → Created family person by now target db m db'
  unfolding generate
  generate-Created zero draw family person by target now db h = absurd (ground arith)
  generate-Created (suc left) draw family person by target now db h =
      elim (Bool-cases (pairing_code_ok (draw left).0)) [
        | inr bad ↦ generate-Created left draw family person by target now db (ground arith)
        | inl good ↦
            elim (Bool-cases (exists_in (λ r. r.code_hash == hash (draw left).0) db.codes)) [
              | inl taken ↦ generate-Created left draw family person by target now db (ground arith)
              | inr free ↦
                  elim (Bool-cases (exists_in (λ r. r.pairing_ref == (draw left).1) db.codes)) [
                    | inl used ↦ absurd (ground arith)
                    | inr fresh ↦
                        ground
                          (arith, first-none (λ r. r.code_hash == hash (draw left).0) db.codes free)
                  ]
            ]
      ]

  create_cases :
      (draw : ℕ → String × String) (family person by : String) (now : ℕ) (db : PairingDb)
      {m : Material} {db' : PairingDb}
      → create_pairing_code hash draw family person by now db ≡ (ok m, db')
      → (target : Target) × (active_target db family person ≡ some target)
        × Created family person by now target db m db'
  unfolding create_pairing_code
  create_cases draw family person by now db h =
      elim (Bool-cases (is_administrator hash db family by)) [
        | inr may_not ↦ absurd (ground arith)
        | inl may ↦ elim (Option-cases (active_target db family person)) [
          | inl gone ↦ absurd (ground arith)
          | inr (target, found) ↦ (
            target,
            found,
            generate-Created max_code_generation_attempts draw family person by target now db
                (rw (may, found) at h),
          )
        ]
      ]

  -- A code that is created can be previewed at every time before the end of its five minutes, by
  -- its text alone, if the names of the family and the person have 1 to 80 characters without the
  -- white space around them, and the host 1 to 253: the preview tells the trimmed names of the
  -- family and the person that the administrator asked for, who are active, the trimmed host and
  -- the end of the code's life, and it writes nothing.
  pub created_code_previews :
      (draw : ℕ → String × String) (family person by host : String) (now later : ℕ) (db : PairingDb)
      {m : Material} {db' : PairingDb}
      → create_pairing_code hash draw family person by now db ≡ (ok m, db')
      → later < now + pairing_lifetime
      → name_fits 80 (trim m.target.family_name) ≡ true
      → name_fits 80 (trim m.target.person_name) ≡ true
      → name_fits 253 (trim host) ≡ true
      → (active_target db family person ≡ some m.target)
        × (preview_pairing hash m.code none host later db' ≡ (ok (answer_for m host), db'))
  unfolding preview_pairing resolve_pairing active_target
  created_code_previews draw family person by host now later db {m} {db'} h lt family_fits
        person_fits host_fits =
      previewed (create_cases draw family person by now db h)
    where
      previewed :
          (target : Target) × (active_target db family person ≡ some target)
            × Created family person by now target db m db'
          → (active_target db family person ≡ some m.target)
            × (preview_pairing hash m.code none host later db' ≡ (ok (answer_for m host), db'))
      previewed (target, found, (fresh, named, ends, same)) =
          (found ∙ ap (λ t. some t) (sym named), ground (arith, resolved, target_kept))
        where
          row : PairingRow
          row = row_for hash family person by m.pairing_ref m.code now

          row_found : pairing_by_code_hash db' (hash m.code) ≡ some row
          row_found =
              ap (λ d. pairing_by_code_hash d (hash m.code)) same
              ∙ first-append_none (λ r. r.code_hash == hash m.code) db.codes (row ∷ []) fresh
              ∙ ap (λ b. if b then some row else none) (==_refl (hash m.code))

          resolved : resolve_from (hash m.code) none false later db' ≡ (ok row, db')
          resolved = ap (λ o. resolve_by_code false later o db') row_found ∙ ground arith

          target_kept : active_target db' family person ≡ some target
          target_kept = ap (λ d. active_target d family person) same ∙ found

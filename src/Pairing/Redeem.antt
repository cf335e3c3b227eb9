-- ===== src/Pairing/Redeem.antt =====
-- What a claim in apps/gateway/src/mobilePairing.ts does with the row of its pairing code.
use family_ai_platform.Common.{
  ℕ, String, true, false, Option, none, some, Outcome, ok, err, Op, and_then, and_then_ok,
  settle_ok, ◌==◌, ◌≡◌, refl, ap, arith, ◌∙◌, is_ok, is_text, Option-cases, inl, inr, subst,
}
use family_ai_platform.Pairing.{
  PairingDb, PairingRow, DeviceRow, pairing_by_ref, active_target, personal_binding, code_active,
  code_consumed, CodeStatus,
}
use family_ai_platform.Pairing.Codes.{
  resolve_pairing, resolve_from, resolve_by_ref, given_ref, update_active, require_active_target,
}
use family_ai_platform.Pairing.Attempts.{resolve_from_given}
use family_ai_platform.Pairing.Claims.{
  ClaimInput, ClaimResponse, Draws, claim_body, claim_pairing, issue_personal_session,
  response_for_existing_device, claim_by_status, consumed_by,
}

-- The device that a claim was answered for.
abbrev pub device_of : Outcome ClaimResponse → Option String
device_of (ok r) = some r.device_ref
device_of (err e) = none

module _ (hash : String → String) where
  issue_keeps_codes :
      (ref token binding : String) (now : ℕ) (db : PairingDb)
      → (issue_personal_session hash ref token binding now db).1.codes ≡ db.codes
  unfolding issue_personal_session
  issue_keeps_codes ref token binding now db = ground arith

  -- The answer for a known device names it, and comes only for its installation and credential.
  pub response_known :
      (x : Draws) (p : PairingRow) (d : DeviceRow) (installation credential : String) (now : ℕ)
      (db : PairingDb)
      → is_ok (response_for_existing_device hash x p d installation credential now db).0 ≡ true
      → (device_of (response_for_existing_device hash x p d installation credential now db).0
          ≡ some d.device_ref)
        × ((response_for_existing_device hash x p d installation credential now db).1.codes
            ≡ db.codes)
        × (is_text d.installation_ref installation ≡ true)
        × ((d.credential_hash == credential) ≡ true)
  unfolding response_for_existing_device
  response_known x p d installation credential now db o =
      elim (Option-cases (personal_binding db d.device_ref p.family_ref p.person_ref)) [
        | inl f ↦ absurd (ground arith)
        | inr (b, f) ↦ (
          ground arith,
          ground (arith, issue_keeps_codes x.entry_session_ref x.token b.entry_binding_ref now db),
          ground arith,
          ground arith,
        )
      ]

  -- The last step of a claim.
  abbrev finish : PairingRow → String → ℕ → ClaimResponse → Op PairingDb ClaimResponse
  finish p device now w db = (ok w, update_active p.pairing_ref (consumed_by device now) db)

  abbrev pub Consumes : PairingRow → String → ℕ → Outcome ClaimResponse × PairingDb → Type 0
  Consumes p ref now o =
      (device : String) × (device_of o.0 ≡ some device)
      × (pairing_by_ref o.1 ref ≡ some (consumed_by device now p))

  abbrev HasCodes : PairingDb → PairingDb → Type 0
  HasCodes db s = s.codes ≡ db.codes

  -- The answer names the device, and the row that the reference finds is consumed by it.
  abbrev ConsumedBy : String → PairingRow → String → ℕ → ClaimResponse → PairingDb → Type 0
  ConsumedBy device p ref now w s =
      (w.device_ref ≡ device) × (pairing_by_ref s ref ≡ some (consumed_by device now p))

  -- A code that is found and resolved changes nothing.
  resolved_ok :
      (h : String) (now : ℕ) (p : PairingRow) (db : PairingDb)
      → is_ok (resolve_by_ref h true now (some p) db).0 ≡ true
      → resolve_by_ref h true now (some p) db ≡ (ok p, db)
  resolved_ok h now p db o = ok_for p.status refl
    where
      ok_for : (s : CodeStatus) → p.status ≡ s → resolve_by_ref h true now (some p) db ≡ (ok p, db)
      ok_for code_active s = ground arith
      ok_for code_consumed s = ground arith
      ok_for CodeStatus.code_revoked s = absurd (ground arith)
      ok_for CodeStatus.code_expired s = absurd (ground arith)

  -- A claim that succeeds for a pairing reference is what the status of its row asks for.
  pub claim_by_ref :
      (i : ClaimInput) (x : Draws) (ref : String) (now : ℕ) (p : PairingRow) (db : PairingDb)
      → i.pairing_ref ≡ some ref
      → (ref == "") ≡ false
      → pairing_by_ref db ref ≡ some p
      → is_ok (claim_pairing hash i x now db).0 ≡ true
      → claim_pairing hash i x now db
        ≡ claim_by_status hash x p i.display_name
            (hash i.installation_id)
            (hash i.device_credential)
            now
            p.status
            db
  unfolding claim_pairing claim_body resolve_pairing
  claim_by_ref i x ref now p db g n f o =
      (settle_ok db (claim_body hash i x now db) o).0
      ∙ body
      ∙ targeted
          (subst (λ t. is_ok t.0 ≡ true) body (settle_ok db (claim_body hash i x now db) o).1)
    where
      after : PairingRow → Op PairingDb ClaimResponse
      after q s = and_then (require_active_target q.family_ref q.person_ref s) (λ t.
          claim_by_status hash x q i.display_name (hash i.installation_id)
            (hash i.device_credential) now q.status)

      found :
          claim_body hash i x now db
          ≡ and_then (resolve_by_ref (hash i.code) true now (some p) db) after
      found =
          ap (λ o. and_then (resolve_from (hash i.code) (given_ref o) true now db) after) g
          ∙ ap (λ o. and_then o after) (resolve_from_given (hash i.code) ref true now p db f n)

      body : claim_body hash i x now db ≡ after p db
      body =
          found
          ∙ ap (λ o. and_then o after)
              (resolved_ok (hash i.code) now p db (
                and_then_ok (resolve_by_ref (hash i.code) true now (some p) db) after (
                  subst (λ t. is_ok t.0 ≡ true) found
                    (settle_ok db (claim_body hash i x now db) o).1)))

      targeted :
          is_ok (after p db).0 ≡ true
          → after p db
            ≡ claim_by_status hash x p i.display_name
                (hash i.installation_id)
                (hash i.device_credential)
                now
                p.status
                db
      targeted k = elim (Option-cases (active_target db p.family_ref p.person_ref)) [
        | inl t ↦ absurd (ground arith)
        | inr (t, e) ↦ ground arith
      ]

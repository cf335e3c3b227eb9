-- ===== src/Pairing/Replays.antt =====
-- A claim of a code that is already consumed, in apps/gateway/src/mobilePairing.ts.
use family_ai_platform.Common.{
  ℕ, String, true, false, some, Outcome, ◌==◌, ◌≡◌, ap, sym, arith, ◌∙◌, is_ok, is_text,
  Option-cases, inl, inr, subst, eq_iff, first_holds,
}
use family_ai_platform.Pairing.{
  PairingDb, PairingRow, DeviceRow, pairing_by_ref, device_by_ref, code_consumed,
}
use family_ai_platform.Pairing.Claims.{
  ClaimInput, ClaimResponse, Draws, claim_pairing, claim_by_status, replay,
}
use family_ai_platform.Pairing.Redeem.{device_of, response_known, claim_by_ref}

module _ (hash : String → String) where
  -- The outcome is an answer for the device that consumed the code, whose row keeps the digests of
  -- the installation and of the credential that the claim gave.
  abbrev pub IsReplay : PairingDb → PairingRow → ClaimInput → Outcome ClaimResponse → Type 0
  IsReplay db p i o =
      (d : DeviceRow) × (p.consumed_device_ref ≡ some d.device_ref)
      × (device_by_ref db d.device_ref ≡ some d)
      × (device_of o ≡ some d.device_ref)
      × (is_text d.installation_ref (hash i.installation_id) ≡ true)
      × ((d.credential_hash == hash i.device_credential) ≡ true)

  replay_known :
      (i : ClaimInput) (x : Draws) (p : PairingRow) (now : ℕ) (db : PairingDb)
      → is_ok (replay hash x p (hash i.installation_id) (hash i.device_credential) now db).0 ≡ true
      → IsReplay db p i
          (replay hash x p (hash i.installation_id) (hash i.device_credential) now db).0
  unfolding replay
  replay_known i x p now db o = elim (Option-cases p.consumed_device_ref) [
    | inl c ↦ absurd (ground arith)
    | inr (ref, c) ↦ elim (Option-cases (device_by_ref db ref)) [
      | inl f ↦ absurd (ground arith)
      | inr (d, f) ↦
          known ref d c f
            ((eq_iff d.device_ref ref).0 (first_holds (λ r. r.device_ref == ref) db.devices d f))
    ]
  ]
    where
      known :
          (ref : String) (d : DeviceRow)
          → p.consumed_device_ref ≡ some ref
          → device_by_ref db ref ≡ some d
          → d.device_ref ≡ ref
          → IsReplay db p i
              (replay hash x p (hash i.installation_id) (hash i.device_credential) now db).0
      known ref d c f e = (
        d,
        c ∙ ap (λ t. some t) (sym e),
        ap (λ t. device_by_ref db t) e ∙ f,
        ground (
          arith,
          response_known hash x p d (hash i.installation_id) (hash i.device_credential) now db,
        ),
        ground arith,
        ground arith,
      )

  -- A claim that succeeds for a pairing reference (not an empty text) whose code is consumed is
  -- answered for the device that consumed it, and comes with that device's installation and
  -- credential.
  pub consumed_for_same_device :
      (i : ClaimInput) (x : Draws) (ref : String) (now : ℕ) (p : PairingRow) (db : PairingDb)
      → i.pairing_ref ≡ some ref
      → (ref == "") ≡ false
      → pairing_by_ref db ref ≡ some p
      → p.status ≡ code_consumed
      → is_ok (claim_pairing hash i x now db).0 ≡ true
      → IsReplay db p i (claim_pairing hash i x now db).0
  unfolding claim_by_status
  consumed_for_same_device i x ref now p db g n f s o =
      subst (λ t. IsReplay db p i t.0) (sym same)
        (replay_known i x p now db (subst (λ t. is_ok t.0 ≡ true) same o))
    where
      same :
          claim_pairing hash i x now db
          ≡ replay hash x p (hash i.installation_id) (hash i.device_credential) now db
      same =
          claim_by_ref hash i x ref now p db g n f o
          ∙ ap
              (λ s.
                claim_by_status hash x p i.display_name (hash i.installation_id)
                  (hash i.device_credential) now s db)
              s

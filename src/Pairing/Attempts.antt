-- ===== src/Pairing/Attempts.antt =====
-- Wrong guesses of a pairing code, in apps/gateway/src/mobilePairing.ts: by `previewPairing` they
-- are counted, by `claimPairing` they are not.
use family_ai_platform.Common.{
  ℕ, ◌+◌, String, Bool, true, false, none, some, err, Failure, ◌==◌, leb, if◌then◌else◌, ◌≡◌, ap,
  arith, validation, permission, ◌∙◌,
}
use family_ai_platform.Pairing.{PairingDb, PairingRow, is_active_code, mobile_error, pairing_by_ref}
use family_ai_platform.Pairing.Codes.{
  update_active, resolve_from, resolve_by_ref, resolve_pairing, preview_pairing, record_mismatch,
  given_ref,
}
use family_ai_platform.Pairing.Claims.{ClaimInput, Draws, claim_body, claim_pairing}

-- What `recordMismatch` throws.
abbrev pub mismatch_failure : PairingRow → Failure
mismatch_failure p =
    if leb p.max_attempts (p.failed_attempts + 1)
    then mobile_error "PAIRING_ATTEMPTS_EXCEEDED" 429 permission
    else mobile_error "PAIRING_INVALID" 404 validation

-- What `recordMismatch` writes.
abbrev pub counted_row : PairingRow → PairingRow → PairingRow
counted_row p r = record r { failed_attempts = p.failed_attempts + 1 }

abbrev pub counted : PairingRow → PairingDb → PairingDb
counted p db = update_active p.pairing_ref (counted_row p) db

record_mismatch_lem :
    (p : PairingRow) (db : PairingDb)
    → record_mismatch p db ≡ (err (mismatch_failure p), counted p db)
record_mismatch_lem p db = ground arith

resolve_mismatch :
    (h : String) (allow : Bool) (now : ℕ) (p : PairingRow) (db : PairingDb)
    → is_active_code p.status ≡ true
    → leb p.expires_at now ≡ false
    → leb p.max_attempts p.failed_attempts ≡ false
    → (p.code_hash == h) ≡ false
    → resolve_by_ref h allow now (some p) db ≡ (err (mismatch_failure p), counted p db)
resolve_mismatch h allow now p db a e m w = ground arith

-- The row that a reference finds is active, not expired, and has attempts left.
abbrev pub IsOpen : PairingDb → String → ℕ → PairingRow → Type 0
IsOpen db ref now p =
    (pairing_by_ref db ref ≡ some p)
    × (is_active_code p.status ≡ true)
    × (leb p.expires_at now ≡ false)
    × (leb p.max_attempts p.failed_attempts ≡ false)

pub resolve_from_given :
    (h ref : String) (allow : Bool) (now : ℕ) (p : PairingRow) (db : PairingDb)
    → pairing_by_ref db ref ≡ some p
    → (ref == "") ≡ false
    → resolve_from h (given_ref (some ref)) allow now db ≡ resolve_by_ref h allow now (some p) db
resolve_from_given h ref allow now p db f n =
    ap (λ o. resolve_from h o allow now db) given ∙ ap (λ o. resolve_by_ref h allow now o db) f
  where
    given : given_ref (some ref) ≡ some ref
    given = ap (λ b. if b then none else some ref) n

resolve_from_mismatch :
    (h ref : String) (allow : Bool) (now : ℕ) (p : PairingRow) (db : PairingDb)
    → IsOpen db ref now p
    → (ref == "") ≡ false
    → (p.code_hash == h) ≡ false
    → resolve_from h (given_ref (some ref)) allow now db ≡ (err (mismatch_failure p), counted p db)
resolve_from_mismatch h ref allow now p db (f, a, e, m) n w =
    resolve_from_given h ref allow now p db f n ∙ resolve_mismatch h allow now p db a e m w

module _ (hash : String → String) where
  -- A wrong code for a pairing reference (not an empty text) that is active, not expired and has
  -- attempts left: a preview refuses it and counts the attempt in the table, and a claim refuses it
  -- with the same error and leaves every table as it was, the count included.
  pub mismatch_counted_by_preview_only :
      (i : ClaimInput) (x : Draws) (ref host : String) (now : ℕ) (p : PairingRow) (db : PairingDb)
      → IsOpen db ref now p
      → (ref == "") ≡ false
      → i.pairing_ref ≡ some ref
      → (p.code_hash == hash i.code) ≡ false
      → (preview_pairing hash i.code (some ref) host now db
          ≡ (err (mismatch_failure p), counted p db))
        × (claim_pairing hash i x now db ≡ (err (mismatch_failure p), db))
  unfolding preview_pairing claim_pairing claim_body resolve_pairing
  mismatch_counted_by_preview_only i x ref host now p db o n g w = (previewed, claimed)
    where
      resolved :
          (allow : Bool)
          → resolve_from (hash i.code) (given_ref (some ref)) allow now db
            ≡ (err (mismatch_failure p), counted p db)
      resolved allow = resolve_from_mismatch (hash i.code) ref allow now p db o n w

      previewed :
          preview_pairing hash i.code (some ref) host now db
          ≡ (err (mismatch_failure p), counted p db)
      previewed = rw (resolved false)

      claimed : claim_pairing hash i x now db ≡ (err (mismatch_failure p), db)
      claimed = rw (g, resolved true)

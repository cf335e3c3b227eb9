-- ===== src/Pairing/Codes.antt =====
-- Pairing codes of apps/gateway/src/mobilePairing.ts: how a code is created, resolved, previewed
-- and revoked.
use family_ai_platform.Common.{
  ℕ, zero, suc, ◌+◌, String, Bool, true, false, not, ◌&&◌, ◌||◌, Option, none, some, List, [], ◌∷◌,
  ◌++◌, ok, err, Op, pure, fail, gets, modify, require, refuse_if, transaction, ◌>>=◌, ◌>>◌,
  domain_error, thrown, constraint_failed, validation, permission, availability, conflict, ◌==◌,
  eqb, leb, if◌then◌else◌, exists_in, update, all_in,
}
use family_ai_platform.SyncContract.Formats.{codes, in_range, units, trim}
use family_ai_platform.Pairing.{
  PairingDb, PairingRow, CodeStatus, code_active, code_consumed, code_revoked, code_expired, Target,
  pairing_lifetime, max_pairing_attempts, max_code_generation_attempts, is_active_code, is_personal,
  mobile_error, active_target, pairing_by_ref, pairing_by_code_hash,
}

-- `pairingCodeSchema` of packages/contracts/src/mobileEntry.ts: four letters or digits of the
-- alphabet, a dash and four more.
abbrev code_char : ℕ → Bool
code_char c =
    in_range b'A' b'H' c || in_range b'J' b'N' c || in_range b'P' b'Z' c || in_range b'2' b'9' c

abbrev code_text : List ℕ → Bool
code_text (a ∷ b ∷ c ∷ d ∷ dash ∷ e ∷ f ∷ g ∷ h ∷ []) =
    all_in code_char (a ∷ b ∷ c ∷ d ∷ []) && eqb dash b'-' && all_in code_char (e ∷ f ∷ g ∷ h ∷ [])
code_text _ = false

unfoldable pub pairing_code_ok : String → Bool
pairing_code_ok s = code_text (codes s)

abbrev pub is_active_at : PairingRow → ℕ → Bool
is_active_at r now = is_active_code r.status && leb r.expires_at now

-- The `UPDATE … WHERE pairing_ref = ? AND status = 'active'` of several operations.
abbrev pub update_active : String → (PairingRow → PairingRow) → PairingDb → PairingDb
update_active ref f db = record db {
  codes = update (λ r. r.pairing_ref == ref && is_active_code r.status) f db.codes;
}

abbrev pub expired_row : PairingRow → PairingRow
expired_row r = record r { status = code_expired }

-- `expireIfNeeded`.
abbrev pub expire_if_needed : PairingRow → ℕ → Op PairingDb PairingRow
expire_if_needed p now db =
    if is_active_at p now
    then (ok (expired_row p), update_active p.pairing_ref expired_row db)
    else (ok p, db)

abbrev pub usable_by_status : CodeStatus → Bool → Bool → Op PairingDb (Unit {0})
usable_by_status code_expired exhausted allow = fail (mobile_error "PAIRING_EXPIRED" 410 conflict)
usable_by_status code_revoked exhausted allow = fail (mobile_error "PAIRING_INVALID" 404 validation)
usable_by_status code_active exhausted allow =
    refuse_if exhausted (mobile_error "PAIRING_ATTEMPTS_EXCEEDED" 429 permission)
usable_by_status code_consumed exhausted allow = do
  refuse_if exhausted (mobile_error "PAIRING_ATTEMPTS_EXCEEDED" 429 permission)
  refuse_if (not allow) (mobile_error "PAIRING_CONSUMED" 409 conflict)

-- `assertUsableState`.
abbrev pub assert_usable_state : PairingRow → Bool → Op PairingDb (Unit {0})
assert_usable_state p allow = usable_by_status p.status (leb p.max_attempts p.failed_attempts) allow

-- `recordMismatch`.
abbrev pub record_mismatch : PairingRow → Op PairingDb PairingRow
record_mismatch p = do
  modify (update_active p.pairing_ref (λ r. record r { failed_attempts = p.failed_attempts + 1 }))
  refuse_if (leb p.max_attempts (p.failed_attempts + 1))
      (mobile_error "PAIRING_ATTEMPTS_EXCEEDED" 429 permission)
  fail (mobile_error "PAIRING_INVALID" 404 validation)

abbrev pub invalid : Op PairingDb PairingRow
invalid = fail (mobile_error "PAIRING_INVALID" 404 validation)

-- The check of the code against a row that was found by its reference.
abbrev pub match_code : String → PairingRow → Op PairingDb PairingRow
match_code h p =
    if p.code_hash == h
    then pure p
    else if is_active_code p.status
    then record_mismatch p
    else invalid

-- `if (input.pairingRef)`: an empty text counts as absent.
abbrev pub given_ref : Option String → Option String
given_ref none = none
given_ref (some s) = if s == "" then none else some s

abbrev pub resolve_by_ref : String → Bool → ℕ → Option PairingRow → Op PairingDb PairingRow
resolve_by_ref h allow now none = invalid
resolve_by_ref h allow now (some row) = do
  p ← expire_if_needed row now
  assert_usable_state p allow
  match_code h p

abbrev pub resolve_by_code : Bool → ℕ → Option PairingRow → Op PairingDb PairingRow
resolve_by_code allow now none = invalid
resolve_by_code allow now (some row) = do
  p ← expire_if_needed row now
  assert_usable_state p allow
  pure p

abbrev pub resolve_from : String → Option String → Bool → ℕ → Op PairingDb PairingRow
resolve_from h (some ref) allow now db = resolve_by_ref h allow now (pairing_by_ref db ref) db
resolve_from h none allow now db = resolve_by_code allow now (pairing_by_code_hash db h) db

pub record Preview : Type 0 where
  pub target : Target
  pub gateway_host : String
  pub expires_at : ℕ

-- `z.string().trim().min(1).max(limit)` of a trimmed text.
unfoldable pub name_fits : ℕ → String → Bool
unfolding units
name_fits limit s = leb 1 (units (codes s)) && leb (units (codes s)) limit

-- `pairingPreviewResponseSchema.parse`: the names and the host are trimmed, and a text that is then
-- empty or too long is an exception.
abbrev pub preview_response : Target → String → ℕ → Op PairingDb Preview
preview_response target host expires =
    let family = trim target.family_name in
    let person = trim target.person_name in
    let gateway = trim host in
    do
      refuse_if (not (name_fits 80 family && name_fits 80 person && name_fits 253 gateway))
          (thrown "ZodError")
      pure (record {
        target = record { family_name = family; person_name = person };
        gateway_host = gateway;
        expires_at = expires;
      })

abbrev pub require_active_target : String → String → Op PairingDb Target
require_active_target f p db =
    require (active_target db f p) (mobile_error "PAIRING_TARGET_INACTIVE" 409 conflict) db

abbrev pub inserted : PairingRow → PairingDb → PairingDb
inserted row db = record db { codes = db.codes ++ row ∷ [] }

pub record Material : Type 0 where
  pub pairing_ref : String
  pub code : String
  pub expires_at : ℕ
  pub target : Target

module _ (hash : String → String) where
  -- `resolvePairing`.
  unfoldable pub resolve_pairing : String → Option String → Bool → ℕ → Op PairingDb PairingRow
  resolve_pairing code ref allow now = resolve_from (hash code) (given_ref ref) allow now

  -- `previewPairing`; it is in no transaction.
  unfoldable pub preview_pairing : String → Option String → String → ℕ → Op PairingDb Preview
  unfolding resolve_pairing trim name_fits
  preview_pairing code ref host now = do
    p ← resolve_pairing code ref false now
    target ← require_active_target p.family_ref p.person_ref
    preview_response target host p.expires_at

  abbrev pub row_for : String → String → String → String → String → ℕ → PairingRow
  row_for family person by ref code now = record {
    pairing_ref = ref;
    family_ref = family;
    person_ref = person;
    code_hash = hash code;
    status = code_active;
    failed_attempts = 0;
    max_attempts = max_pairing_attempts;
    expires_at = now + pairing_lifetime;
    created_by = by;
    created_at = now;
    consumed_at = none;
    consumed_device_ref = none;
    revoked_at = none;
  }

  -- The attempts of `createPairingCode`: the code and the reference of each round are given. A
  -- code that has not the format, or whose digest stands in the table, goes on to the next round;
  -- a reference that is taken is an error.
  unfoldable pub generate :
      ℕ → (ℕ → String × String) → String → String → String → Target → ℕ → Op PairingDb Material
  generate zero draw family person by target now db =
      (err (domain_error "PAIRING_INVALID" 503 availability true), db)
  generate (suc left) draw family person by target now db =
      let again = generate left draw family person by target now db in
      let code = (draw left).0 in
      let ref = (draw left).1 in
      if not (pairing_code_ok code)
      then again
      else if exists_in (λ r. r.code_hash == hash code) db.codes
      then again
      else if exists_in (λ r. r.pairing_ref == ref) db.codes
      then (err constraint_failed, db)
      else (
        ok (record {
          pairing_ref = ref;
          code = code;
          expires_at = now + pairing_lifetime;
          target = target;
        }),
        inserted (row_for family person by ref code now) db,
      )

  abbrev pub is_administrator : PairingDb → String → String → Bool
  is_administrator db family entry =
      exists_in
        (λ r.
          r.entry_binding_ref == entry
          && r.family_ref == family
          && not (is_personal r.audience)
          && r.active)
        db.entry_bindings

  -- `createPairingCode`.
  unfoldable pub create_pairing_code :
      (ℕ → String × String) → String → String → String → ℕ → Op PairingDb Material
  unfolding generate
  create_pairing_code draw family person by now = do
    admin ← gets (λ db. is_administrator db family by)
    refuse_if (not admin) (mobile_error "ENTRY_AUDIENCE_FORBIDDEN" 403 permission)
    target ← require_active_target family person
    generate max_code_generation_attempts draw family person by target now

abbrev pub revoke_by_status : PairingRow → ℕ → CodeStatus → Op PairingDb String
revoke_by_status p now code_consumed = fail (mobile_error "PAIRING_CONSUMED" 409 conflict)
revoke_by_status p now code_expired = fail (mobile_error "PAIRING_EXPIRED" 410 conflict)
revoke_by_status p now code_active = do
  modify
      (update_active p.pairing_ref (λ r. record r { status = code_revoked; revoked_at = some now }))
  pure p.pairing_ref
revoke_by_status p now code_revoked = pure p.pairing_ref

abbrev pub revoke_found : String → ℕ → Option PairingRow → Op PairingDb String
revoke_found family now none = fail (mobile_error "PAIRING_INVALID" 404 permission)
revoke_found family now (some row) = do
  refuse_if (not (row.family_ref == family)) (mobile_error "PAIRING_INVALID" 404 permission)
  p ← expire_if_needed row now
  revoke_by_status p now p.status

-- `revokePairingCode`.
unfoldable pub revoke_pairing_code : String → String → ℕ → Op PairingDb String
revoke_pairing_code family ref now =
    transaction (λ db. revoke_found family now (pairing_by_ref db ref) db)

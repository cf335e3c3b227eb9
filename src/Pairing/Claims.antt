-- ===== src/Pairing/Claims.antt =====
-- `claimPairing` of apps/gateway/src/mobilePairing.ts: a device uses a pairing code, and gets a
-- personal session.
use family_ai_platform.Common.{
  ℕ, ◌+◌, String, Bool, true, not, ◌&&◌, ◌||◌, Option, none, some, [], ◌∷◌, ◌++◌, ok, err, Op, pure,
  fail, gets, modify, require, refuse_if, transaction, ◌>>=◌, ◌>>◌, constraint_failed, thrown,
  permission, conflict, ◌==◌, is_text, same_text, is_some, if◌then◌else◌, exists_in, update,
}
use family_ai_platform.SyncContract.Formats.{trim}
use family_ai_platform.Pairing.{
  PairingDb, PairingRow, DeviceRow, DeviceBinding, EntryBinding, personal, SessionRow,
  session_active, session_revoked, CodeStatus, code_consumed, session_lifetime, is_active_session,
  mobile_error, device_by_installation, is_personal, device_by_ref, personal_binding,
}
use family_ai_platform.Pairing.Codes.{
  name_fits, update_active, resolve_pairing, require_active_target,
}

-- The random values that a claim draws.
pub record Draws : Type 0 where
  pub device_ref : String
  pub device_binding_ref : String
  pub entry_binding_ref : String
  pub entry_session_ref : String
  pub token : String

pub record Entry : Type 0 where
  pub entry_binding_ref : String
  pub entry_session_ref : String
  pub token : String
  pub expires_at : ℕ

pub record ClaimInput : Type 0 where
  pub code : String
  pub pairing_ref : Option String
  pub installation_id : String
  pub device_credential : String
  pub display_name : String

pub record ClaimResponse : Type 0 where
  pub device_ref : String
  pub display_name : String
  pub entry : Entry

-- `pairingClaimResponseSchema.parse`: the name is trimmed, and one that is then empty or longer than
-- 80 is an exception. The references, the token and the time are made by the code.
abbrev pub claim_response : String → String → Entry → Op PairingDb ClaimResponse
claim_response device name entry =
    let shown = trim name in
    do
      refuse_if (not (name_fits 80 shown)) (thrown "ZodError")
      pure (record { device_ref = device; display_name = shown; entry = entry })

abbrev pub revoked_session : ℕ → SessionRow → SessionRow
revoked_session now r = record r { status = session_revoked; revoked_at = some now }

-- `UPDATE entry_sessions SET status = 'revoked' … WHERE entry_binding_ref = ? AND active`.
abbrev pub revoke_sessions : String → ℕ → PairingDb → PairingDb
revoke_sessions binding now db = record db {
  sessions =
      update (λ r. r.entry_binding_ref == binding && is_active_session r.status)
        (revoked_session now) db.sessions;
}

abbrev pub session_row : String → String → String → ℕ → SessionRow
session_row ref binding token_hash now = record {
  entry_session_ref = ref;
  entry_binding_ref = binding;
  token_hash = token_hash;
  status = session_active;
  created_at = now;
  expires_at = now + session_lifetime;
  revoked_at = none;
}

abbrev pub session_taken : PairingDb → String → String → Bool
session_taken db ref token_hash =
    exists_in (λ r. r.entry_session_ref == ref || r.token_hash == token_hash) db.sessions

-- `UPDATE managed_devices SET last_seen_at = ?, updated_at = ?`.
abbrev pub seen : String → ℕ → PairingDb → PairingDb
seen device now db = record db {
  devices =
      update (λ r. r.device_ref == device)
        (λ r. record r { last_seen_at = some now; updated_at = now }) db.devices;
}

abbrev pub consumed_by : String → ℕ → PairingRow → PairingRow
consumed_by device now r = record r {
  status = code_consumed;
  consumed_at = some now;
  consumed_device_ref = some device;
}

-- `assertExistingDeviceMatches`, on digests.
abbrev pub assert_matches : DeviceRow → String → String → Op PairingDb (Unit {0})
assert_matches d installation credential = do
  refuse_if (not (is_text d.installation_ref installation) || not (d.credential_hash == credential))
      (mobile_error "DEVICE_AUTH_INVALID" 401 permission)
  refuse_if (not d.active) (mobile_error "DEVICE_REVOKED" 403 permission)

-- The insertions of a claim, under the primary keys and the unique indexes of database.ts: a device
-- and an installation are known once, a device has one active binding, and a person has one active
-- personal entry on it.
abbrev pub add_device : DeviceRow → Op PairingDb (Unit {0})
add_device d db =
    if exists_in
      (λ r.
        r.device_ref == d.device_ref
        || is_some d.installation_ref && same_text r.installation_ref d.installation_ref)
      db.devices
    then (err constraint_failed, db)
    else (ok tt, record db { devices = db.devices ++ d ∷ [] })

abbrev pub add_device_binding : DeviceBinding → Op PairingDb (Unit {0})
add_device_binding b db =
    if exists_in
      (λ r.
        r.device_binding_ref == b.device_binding_ref || r.device_ref == b.device_ref && r.active)
      db.device_bindings
    then (err constraint_failed, db)
    else (ok tt, record db { device_bindings = db.device_bindings ++ b ∷ [] })

abbrev pub add_personal_entry : EntryBinding → Op PairingDb (Unit {0})
add_personal_entry b db =
    if exists_in
      (λ r.
        r.entry_binding_ref == b.entry_binding_ref
        || r.device_ref == b.device_ref
          && r.person_ref == b.person_ref
          && is_personal r.audience
          && r.active)
      db.entry_bindings
    then (err constraint_failed, db)
    else (ok tt, record db { entry_bindings = db.entry_bindings ++ b ∷ [] })

abbrev pub already_consumed : {A : Type 0} → Op PairingDb A
already_consumed = fail (mobile_error "PAIRING_CONSUMED" 409 conflict)

abbrev pub new_device : Draws → String → String → String → ℕ → DeviceRow
new_device x name installation credential now = record {
  device_ref = x.device_ref;
  display_name = name;
  active = true;
  credential_hash = credential;
  installation_ref = some installation;
  updated_at = now;
  revoked_at = none;
  last_seen_at = some now;
}

abbrev pub new_device_binding : Draws → PairingRow → DeviceBinding
new_device_binding x p = record {
  device_binding_ref = x.device_binding_ref;
  device_ref = x.device_ref;
  family_ref = p.family_ref;
  person_ref = some p.person_ref;
  active = true;
  revoked_at = none;
}

abbrev pub new_personal_entry : Draws → PairingRow → EntryBinding
new_personal_entry x p = record {
  entry_binding_ref = x.entry_binding_ref;
  device_ref = x.device_ref;
  family_ref = p.family_ref;
  person_ref = p.person_ref;
  audience = personal;
  active = true;
  last_used_at = none;
}

module _ (hash : String → String) where
  -- `issuePersonalSession`.
  unfoldable pub issue_personal_session : String → String → String → ℕ → Op PairingDb Entry
  issue_personal_session ref token binding now db =
      let revoked = revoke_sessions binding now db in
      if session_taken revoked ref (hash token) then (err constraint_failed, revoked) else (
        ok (record {
          entry_binding_ref = binding;
          entry_session_ref = ref;
          token = token;
          expires_at = now + session_lifetime;
        }),
        record revoked {
          sessions = revoked.sessions ++ session_row ref binding (hash token) now ∷ [];
        },
      )

  -- `responseForExistingDevice`.
  unfoldable pub response_for_existing_device :
      Draws → PairingRow → DeviceRow → String → String → ℕ → Op PairingDb ClaimResponse
  unfolding issue_personal_session
  response_for_existing_device x p d installation credential now = do
    assert_matches d installation credential
    found ← gets (λ db. personal_binding db d.device_ref p.family_ref p.person_ref)
    binding ← require found (mobile_error "PAIRING_CONSUMED" 409 conflict)
    entry ← issue_personal_session x.entry_session_ref x.token binding.entry_binding_ref now
    modify (seen d.device_ref now)
    claim_response d.device_ref d.display_name entry

  -- The answer to a code that is consumed already: only the device that consumed it may have it.
  unfoldable pub replay : Draws → PairingRow → String → String → ℕ → Op PairingDb ClaimResponse
  unfolding response_for_existing_device
  replay x p installation credential now = do
    ref ← require p.consumed_device_ref (mobile_error "PAIRING_CONSUMED" 409 conflict)
    found ← gets (λ db. device_by_ref db ref)
    d ← require found (mobile_error "PAIRING_CONSUMED" 409 conflict)
    refuse_if (not (is_text d.installation_ref installation))
        (mobile_error "PAIRING_CONSUMED" 409 conflict)
    refuse_if (not (d.credential_hash == credential))
        (mobile_error "DEVICE_AUTH_INVALID" 401 permission)
    response_for_existing_device x p d installation credential now

  -- A code that is used by a device that is known by its installation.
  unfoldable pub claim_existing :
      Draws → PairingRow → DeviceRow → String → String → ℕ → Op PairingDb ClaimResponse
  unfolding response_for_existing_device
  claim_existing x p d installation credential now = do
    response ← response_for_existing_device x p d installation credential now
    modify (update_active p.pairing_ref (consumed_by d.device_ref now))
    pure response

  -- A code that is used by a new device.
  unfoldable pub claim_new :
      Draws → PairingRow → String → String → String → ℕ → Op PairingDb ClaimResponse
  unfolding issue_personal_session
  claim_new x p name installation credential now = do
    add_device (new_device x name installation credential now)
    add_device_binding (new_device_binding x p)
    add_personal_entry (new_personal_entry x p)
    entry ← issue_personal_session x.entry_session_ref x.token x.entry_binding_ref now
    modify (update_active p.pairing_ref (consumed_by x.device_ref now))
    claim_response x.device_ref name entry

  unfoldable pub claim_by_installation :
      Draws
      → PairingRow
      → String
      → String
      → String
      → ℕ
      → Option DeviceRow
      → Op PairingDb ClaimResponse
  unfolding claim_existing claim_new
  claim_by_installation x p name installation credential now none =
      claim_new x p name installation credential now
  claim_by_installation x p name installation credential now (some d) =
      claim_existing x p d installation credential now

  unfoldable pub claim_by_status :
      Draws → PairingRow → String → String → String → ℕ → CodeStatus → Op PairingDb ClaimResponse
  unfolding replay claim_by_installation
  claim_by_status x p name installation credential now code_consumed db =
      replay x p installation credential now db
  claim_by_status x p name installation credential now s db =
      claim_by_installation x p name installation credential now
        (device_by_installation db installation) db

  -- The body of `claimPairing`.
  unfoldable pub claim_body : ClaimInput → Draws → ℕ → Op PairingDb ClaimResponse
  unfolding resolve_pairing claim_by_status
  claim_body i x now = do
    p ← resolve_pairing hash i.code i.pairing_ref true now
    target ← require_active_target p.family_ref p.person_ref
    claim_by_status x p i.display_name (hash i.installation_id) (hash i.device_credential) now
        p.status

  -- `claimPairing`, all in one transaction.
  unfoldable pub claim_pairing : ClaimInput → Draws → ℕ → Op PairingDb ClaimResponse
  unfolding claim_body
  claim_pairing i x now = transaction (claim_body i x now)

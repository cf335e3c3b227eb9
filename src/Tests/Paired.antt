-- ===== src/Tests/Paired.antt =====
-- Runs of the pairing of a device: a code, its guesses, its claim, a revocation. The digest is one
-- that writes its text behind a prefix.
use family_ai_platform.SyncContract.Formats.{trim}
use family_ai_platform.Pairing.Codes.{pairing_code_ok}
use family_ai_platform.Common.{
  String, ◌≡◌, refl, true, false, none, some, [], ◌∷◌, ok, err, arith, permission, is_ok,
}
use Prim.Native.String.{◌++◌ as joined}
use family_ai_platform.Pairing.{
  PairingDb, PairingRow, DeviceRow, DeviceBinding, EntryBinding, SessionRow, personal, family_admin,
  code_active, active_target, mobile_error,
}
use family_ai_platform.Pairing.Codes.{
  preview_pairing, create_pairing_code, Material, name_fits, inserted, row_for,
}
use family_ai_platform.Pairing.Claims.{Draws, ClaimInput, claim_pairing, session_row, consumed_by}
use family_ai_platform.Pairing.Devices.{
  DeviceAuthentication, device_itself, revoke_device, renew_personal_session, authenticate_device,
  logout_personal_session, revoke_all,
}
use family_ai_platform.Pairing.Attempts.{
  mismatch_counted_by_preview_only, mismatch_failure, counted,
}
use family_ai_platform.Pairing.Guesses.{guesses, guesses_lock}
use family_ai_platform.Pairing.Replays.{consumed_for_same_device, IsReplay}
use family_ai_platform.Pairing.Creation.{created_code_previews}
use family_ai_platform.Pairing.Sessions.{
  active_sessions, logout_ends, IsShutOut, revoke_device-IsShutOut, shut_out_refused,
}

abbrev pub hash : String → String
hash s = joined "h" s

abbrev pairing : PairingRow
pairing = record {
  pairing_ref = "pairing:1";
  family_ref = "family:f";
  person_ref = "person:an";
  code_hash = hash "ABCD-2345";
  status = code_active;
  failed_attempts = 0;
  max_attempts = 2;
  expires_at = 1000;
  created_by = "entry-binding:admin";
  created_at = 0;
  consumed_at = none;
  consumed_device_ref = none;
  revoked_at = none;
}

abbrev pub phone : DeviceRow
phone = record {
  device_ref = "device:phone";
  display_name = "Phone";
  active = true;
  credential_hash = hash "secret";
  installation_ref = some (hash "install");
  updated_at = 0;
  revoked_at = none;
  last_seen_at = none;
}

abbrev pub phone_binding : DeviceBinding
phone_binding = record {
  device_binding_ref = "device-binding:1";
  device_ref = "device:phone";
  family_ref = "family:f";
  person_ref = some "person:an";
  active = true;
  revoked_at = none;
}

abbrev pub phone_entry : EntryBinding
phone_entry = record {
  entry_binding_ref = "entry-binding:1";
  device_ref = "device:phone";
  family_ref = "family:f";
  person_ref = "person:an";
  audience = personal;
  active = true;
  last_used_at = none;
}

abbrev admin_entry : EntryBinding
admin_entry = record {
  entry_binding_ref = "entry-binding:admin";
  device_ref = "device:desk";
  family_ref = "family:f";
  person_ref = "person:li";
  audience = family_admin;
  active = true;
  last_used_at = none;
}

abbrev pub phone_session : SessionRow
phone_session = session_row "entry-session:1" "entry-binding:1" (hash "token") 5

abbrev with_code : PairingRow → PairingDb
with_code row = record {
  families = record { ref = "family:f"; display_name = "F"; active = true } ∷ [];
  persons = record { ref = "person:an"; display_name = "An"; active = true } ∷ [];
  memberships = record { family_ref = "family:f"; person_ref = "person:an"; active = true } ∷ [];
  assignments = record { person_ref = "person:an"; agent_ref = "agent:home"; active = true } ∷ [];
  codes = row ∷ [];
  devices = phone ∷ [];
  device_bindings = phone_binding ∷ [];
  entry_bindings = admin_entry ∷ phone_entry ∷ [];
  sessions = phone_session ∷ [];
}

abbrev pub db : PairingDb
db = with_code pairing

abbrev draws : Draws
draws = record {
  device_ref = "device:new";
  device_binding_ref = "device-binding:new";
  entry_binding_ref = "entry-binding:new";
  entry_session_ref = "entry-session:new";
  token = "new-token";
}

abbrev claim : String → String → ClaimInput
claim code installation = record {
  code = code;
  pairing_ref = some "pairing:1";
  installation_id = installation;
  device_credential = "secret";
  display_name = "Phone";
}

mismatch_counted_by_preview_only_example :
    (preview_pairing hash "WXYZ-2345" (some "pairing:1") "host" 10 db
      ≡ (err (mismatch_failure pairing), counted pairing db))
    × (claim_pairing hash (claim "WXYZ-2345" "install") draws 10 db
        ≡ (err (mismatch_failure pairing), db))
mismatch_counted_by_preview_only_example =
    mismatch_counted_by_preview_only hash (claim "WXYZ-2345" "install") draws "pairing:1" "host" 10
      pairing db (refl, refl, refl, refl) refl refl refl

guesses_lock_example :
    is_ok
      (preview_pairing hash "ABCD-2345"
        (some "pairing:1")
        "host"
        12
        (guesses hash "pairing:1" "host" (("WXYZ-2345", 10) ∷ ("WXYZ-6789", 11) ∷ []) db)).0
    ≡ false
guesses_lock_example =
    guesses_lock hash "pairing:1" "host" (("WXYZ-2345", 10) ∷ ("WXYZ-6789", 11) ∷ []) pairing db
      "ABCD-2345" 12 refl refl (refl, (refl, tt)) (omega arith)

abbrev consumed : PairingRow
consumed = consumed_by "device:phone" 8 pairing

consumed_for_same_device_example :
    IsReplay hash
      (with_code consumed)
      consumed
      (claim "ABCD-2345" "install")
      (claim_pairing hash (claim "ABCD-2345" "install") draws 10 (with_code consumed)).0
unfolding claim_pairing active_target name_fits trim
consumed_for_same_device_example =
    consumed_for_same_device hash (claim "ABCD-2345" "install") draws "pairing:1" 10 consumed
      (with_code consumed) refl refl refl refl refl

abbrev authentication : DeviceAuthentication
authentication = record {
  device_ref = "device:phone";
  display_name = "Phone";
  family_ref = "family:f";
  person_ref = "person:an";
  entry_binding_ref = "entry-binding:1";
}

logout_ends_example :
    active_sessions "entry-binding:1" (logout_personal_session authentication 20 db).1 ≡ []
logout_ends_example = logout_ends authentication 20 db

revoke_device-IsShutOut_example :
    IsShutOut (revoke_device "device:phone" (device_itself authentication) 30 db).1 "device:phone"
unfolding revoke_device
revoke_device-IsShutOut_example =
    revoke_device-IsShutOut "device:phone" (device_itself authentication) 30 db refl

shut_out_refused_example :
    (is_ok (authenticate_device hash "device:phone" "secret" 40 (revoke_all "device:phone" 30 db)).0
      ≡ false)
    × (renew_personal_session hash authentication "entry-session:2" "token-2" 40
          (revoke_all "device:phone" 30 db)
        ≡ (err (mobile_error "DEVICE_REVOKED" 403 permission), revoke_all "device:phone" 30 db))
shut_out_refused_example =
    shut_out_refused hash authentication "secret" "entry-session:2" "token-2" 40
      (revoke_all "device:phone" 30 db) (refl, refl, refl, refl)

abbrev material : Material
material = record {
  pairing_ref = "pairing:2";
  code = "WXYZ-2345";
  expires_at = 300100;
  target = record { family_name = "F"; person_name = "An" };
}

created_code_previews_example :
    (active_target db "family:f" "person:an" ≡ some material.target)
    × (preview_pairing hash "WXYZ-2345" none " host " 200 (
          inserted
            (row_for hash "family:f" "person:an" "entry-binding:admin" "pairing:2" "WXYZ-2345" 100)
            db)
        ≡ (
          ok (record { target = material.target; gateway_host = "host"; expires_at = 300100 }),
          inserted
              (row_for hash "family:f" "person:an" "entry-binding:admin" "pairing:2" "WXYZ-2345"
                100)
              db,
        ))
unfolding create_pairing_code active_target pairing_code_ok name_fits trim
created_code_previews_example =
    created_code_previews hash (λ n. ("WXYZ-2345", "pairing:2")) "family:f" "person:an"
      "entry-binding:admin" " host " 100 200 db {m = material}
      {db' = inserted
        (row_for hash "family:f" "person:an" "entry-binding:admin" "pairing:2" "WXYZ-2345" 100) db}
      refl (omega arith) refl refl refl

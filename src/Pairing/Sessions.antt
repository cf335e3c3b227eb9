-- ===== src/Pairing/Sessions.antt =====
-- What holds of the sessions of paired devices in apps/gateway/src/mobilePairing.ts: a binding has
-- one active session, and a device that is revoked has none and gets none.
use family_ai_platform.Common.{
  ℕ, String, Bool, true, false, some, List, [], err, first_fails, ◌==◌, ◌≡◌, refl, ap, sym, arith,
  permission, ◌∙◌, ◌&&◌, is_ok, exists_in, select, exists_in-update, exists_in-update_none,
  exists_in-ext, select-update_none, Option-cases, inl, inr, subst,
}
use family_ai_platform.Pairing.{
  PairingDb, SessionRow, is_active_session, mobile_error, device_by_ref,
}
use family_ai_platform.Pairing.Claims.{revoke_sessions, revoked_session}
use family_ai_platform.Pairing.Devices.{
  DeviceAuthentication, renew_personal_session, revoke_device, revoke_all, Requester, has_binding,
  authenticate_device, logout_personal_session,
}

-- The active sessions of a binding.
abbrev pub active_sessions : String → PairingDb → List SessionRow
active_sessions binding db =
    select (λ r. r.entry_binding_ref == binding && is_active_session r.status) db.sessions

revoke_sessions_none :
    (binding : String) (now : ℕ) (db : PairingDb)
    → active_sessions binding (revoke_sessions binding now db) ≡ []
revoke_sessions_none binding now db =
    select-update_none (λ r. r.entry_binding_ref == binding && is_active_session r.status)
      (λ r. r.entry_binding_ref == binding && is_active_session r.status) (revoked_session now)
      (λ r h. h) (λ r h. ground arith) db.sessions

-- After a logout no session of the binding is active.
pub logout_ends :
    (a : DeviceAuthentication) (now : ℕ) (db : PairingDb)
    → active_sessions a.entry_binding_ref (logout_personal_session a now db).1 ≡ []
unfolding logout_personal_session
logout_ends a now db = revoke_sessions_none a.entry_binding_ref now db

-- The test of an active session on one of a device's bindings.
abbrev pub serves : PairingDb → String → SessionRow → Bool
serves db device s = has_binding db device s.entry_binding_ref && is_active_session s.status

has_binding-revoke_all :
    (device : String) (now : ℕ) (db : PairingDb) (binding : String)
    → has_binding (revoke_all device now db) device binding ≡ has_binding db device binding
has_binding-revoke_all device now db binding =
    exists_in-update (λ e. e.device_ref == device && e.entry_binding_ref == binding)
      (λ e. e.device_ref == device && e.active) (λ e. record e { active = false }) (λ e. refl)
      db.entry_bindings

-- The tables grant nothing to the device: no active session on one of its bindings, no active
-- binding, and no active row of its own.
abbrev pub IsShutOut : PairingDb → String → Type 0
IsShutOut db device =
    (exists_in (serves db device) db.sessions ≡ false)
    × (exists_in (λ e. e.device_ref == device && e.active) db.entry_bindings ≡ false)
    × (exists_in (λ b. b.device_ref == device && b.active) db.device_bindings ≡ false)
    × (exists_in (λ d. d.device_ref == device && d.active) db.devices ≡ false)

revoke_all-IsShutOut :
    (device : String) (now : ℕ) (db : PairingDb) → IsShutOut (revoke_all device now db) device
revoke_all-IsShutOut device now db = (
  exists_in-ext (serves (revoke_all device now db) device) (serves db device)
        (λ s.
          ap (λ b. b && is_active_session s.status)
            (has_binding-revoke_all device now db s.entry_binding_ref))
        (revoke_all device now db).sessions
      ∙ exists_in-update_none (serves db device) (serves db device) (revoked_session now) (λ s h. h)
          (λ s h. ground arith) db.sessions,
  exists_in-update_none (λ e. e.device_ref == device && e.active)
      (λ e. e.device_ref == device && e.active) (λ e. record e { active = false }) (λ e h. h)
      (λ e h. ground arith) db.entry_bindings,
  exists_in-update_none (λ b. b.device_ref == device && b.active)
      (λ b. b.device_ref == device && b.active)
      (λ b. record b { active = false; revoked_at = some now }) (λ b h. h) (λ b h. ground arith)
      db.device_bindings,
  exists_in-update_none (λ d. d.device_ref == device && d.active)
      (λ d. d.device_ref == device && d.active)
      (λ d. record d { active = false; revoked_at = some now; updated_at = now }) (λ d h. h)
      (λ d h. ground arith) db.devices,
)

-- A revocation that succeeds has made the four updates.
revoke_device_lem :
    (device : String) (who : Requester) (now : ℕ) (db : PairingDb)
    → is_ok (revoke_device device who now db).0 ≡ true
    → (revoke_device device who now db).1 ≡ revoke_all device now db
unfolding revoke_device
revoke_device_lem device (Requester.device_itself a) now db o =
    elim (Option-cases (device_by_ref db device)) [
      | inl f ↦ absurd (ground arith)
      | inr (d, f) ↦ ground arith
    ]
revoke_device_lem device (Requester.administrator family) now db o = ground arith
revoke_device_lem device Requester.nobody now db o = ground arith

-- A revocation that succeeds shuts the device out: no session on any of its entry bindings is
-- active, and neither is an entry binding, a device binding or the device.
pub revoke_device-IsShutOut :
    (device : String) (who : Requester) (now : ℕ) (db : PairingDb)
    → is_ok (revoke_device device who now db).0 ≡ true
    → IsShutOut (revoke_device device who now db).1 device
revoke_device-IsShutOut device who now db o =
    subst (λ s. IsShutOut s device) (sym (revoke_device_lem device who now db o))
      (revoke_all-IsShutOut device now db)

-- A device that is shut out cannot authenticate itself, whatever credential it shows, and an
-- earlier authentication of it renews no session: the answer is DEVICE_REVOKED, and the tables stay
-- as they are.
pub shut_out_refused :
    (hash : String → String) (a : DeviceAuthentication) (credential ref token : String) (now : ℕ)
    (db : PairingDb)
    → IsShutOut db a.device_ref
    → (is_ok (authenticate_device hash a.device_ref credential now db).0 ≡ false)
      × (renew_personal_session hash a ref token now db
          ≡ (err (mobile_error "DEVICE_REVOKED" 403 permission), db))
unfolding authenticate_device renew_personal_session
shut_out_refused hash a credential ref token now db (s, e, b, d) = (authenticated, ground arith)
  where
    authenticated : is_ok (authenticate_device hash a.device_ref credential now db).0 ≡ false
    authenticated = elim (Option-cases (device_by_ref db a.device_ref)) [
      | inl f ↦ ground arith
      | inr (r, f) ↦
          ground (
            arith,
            first_fails (λ r. r.device_ref == a.device_ref) (λ r. r.active) db.devices r d f,
          )
    ]

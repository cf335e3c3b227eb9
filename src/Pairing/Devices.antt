-- ===== src/Pairing/Devices.antt =====
-- What a paired device and an administrator do in apps/gateway/src/mobilePairing.ts:
-- authentication, renewal, logout and revocation.
use family_ai_platform.Common.{
  ℕ, String, Bool, false, not, ◌&&◌, Option, none, some, List, [], ◌∷◌, Op, pure, fail, gets,
  modify, require, refuse_if, transaction, ◌>>=◌, ◌>>◌, permission, ◌==◌, is_some, if◌then◌else◌,
  first, exists_in, update,
}
use family_ai_platform.Pairing.{
  PairingDb, DeviceRow, DeviceBinding, EntryBinding, is_personal, is_active_session, mobile_error,
  device_by_ref, family_of, person_of, is_member, has_assistant,
}
use family_ai_platform.Pairing.Claims.{
  Entry, issue_personal_session, revoke_sessions, revoked_session, seen,
}

pub record DeviceAuthentication : Type 0 where
  pub device_ref : String
  pub display_name : String
  pub family_ref : String
  pub person_ref : String
  pub entry_binding_ref : String

-- The joined tables behind an active binding of a person's device.
abbrev pub person_is_served : PairingDb → String → String → Bool
person_is_served db f p =
    is_some (family_of db f) && is_some (person_of db p) && is_member db f p && has_assistant db p

abbrev pub entry_of : PairingDb → DeviceBinding → String → Option EntryBinding
entry_of db b p =
    first
      (λ e.
        e.device_ref == b.device_ref
        && e.family_ref == b.family_ref
        && e.person_ref == p
        && is_personal e.audience
        && e.active)
      db.entry_bindings

abbrev pub authentication_of :
    DeviceRow → DeviceBinding → String → Option EntryBinding → Option DeviceAuthentication
authentication_of d b p none = none
authentication_of d b p (some e) = some (record {
  device_ref = d.device_ref;
  display_name = d.display_name;
  family_ref = b.family_ref;
  person_ref = p;
  entry_binding_ref = e.entry_binding_ref;
})

abbrev pub served_binding : PairingDb → DeviceRow → DeviceBinding → Option DeviceAuthentication
served_binding db d b = elim b.person_ref [
  | none ↦ none
  | some p ↦
      if person_is_served db b.family_ref p then authentication_of d b p (entry_of db b p) else none
]

-- The first row of the join: of the device's active bindings to a person, the first that is
-- served and has an active personal entry.
unfoldable pub first_served :
    PairingDb → DeviceRow → List DeviceBinding → Option DeviceAuthentication
first_served db d [] = none
first_served db d (b ∷ bs) =
    let rest = first_served db d bs in
    if b.device_ref == d.device_ref && b.active
    then elim (served_binding db d b) [ none ↦ rest | some a ↦ some a ]
    else rest

module _ (hash : String → String) where
  -- `authenticateDevice`.
  unfoldable pub authenticate_device : String → String → ℕ → Op PairingDb DeviceAuthentication
  unfolding first_served
  authenticate_device ref credential now = do
    found ← gets (λ db. device_by_ref db ref)
    d ← require found (mobile_error "DEVICE_AUTH_INVALID" 401 permission)
    refuse_if (not (d.credential_hash == hash credential))
        (mobile_error "DEVICE_AUTH_INVALID" 401 permission)
    refuse_if (not d.active) (mobile_error "DEVICE_REVOKED" 403 permission)
    served ← gets (λ db. first_served db d db.device_bindings)
    a ← require served (mobile_error "DEVICE_REVOKED" 403 permission)
    modify (seen ref now)
    pure a

  -- The rows that `renewPersonalSession` joins.
  abbrev pub still_bound : PairingDb → String → String → Bool
  still_bound db device binding =
      exists_in (λ d. d.device_ref == device && d.active) db.devices
      && exists_in (λ b. b.device_ref == device && b.active) db.device_bindings
      && exists_in
          (λ e.
            e.device_ref == device
            && e.entry_binding_ref == binding
            && is_personal e.audience
            && e.active)
          db.entry_bindings

  -- `renewPersonalSession`; the reference and the token of the new session are drawn.
  unfoldable pub renew_personal_session :
      DeviceAuthentication → String → String → ℕ → Op PairingDb Entry
  unfolding issue_personal_session
  renew_personal_session a ref token now = transaction (do
    bound ← gets (λ db. still_bound db a.device_ref a.entry_binding_ref)
    refuse_if (not bound) (mobile_error "DEVICE_REVOKED" 403 permission)
    issue_personal_session hash ref token a.entry_binding_ref now)

-- `logoutPersonalSession`.
unfoldable pub logout_personal_session : DeviceAuthentication → ℕ → Op PairingDb (Unit {0})
logout_personal_session a now = transaction (modify (revoke_sessions a.entry_binding_ref now))

-- Who asks for a revocation: the device itself, an administrator of a family, or nobody.
pub data Requester : Type 0 where
  device_itself : DeviceAuthentication → Requester
  administrator : String → Requester
  nobody : Requester

abbrev pub authorize_revocation : String → Requester → Op PairingDb (Unit {0})
authorize_revocation device (device_itself a) =
    refuse_if (not (a.device_ref == device)) (mobile_error "DEVICE_AUTH_INVALID" 401 permission)
authorize_revocation device (administrator family) = do
  bound ←
      gets
        (λ db. exists_in (λ b. b.device_ref == device && b.family_ref == family) db.device_bindings)
  refuse_if (not bound) (mobile_error "DEVICE_AUTH_INVALID" 404 permission)
authorize_revocation device nobody = fail (mobile_error "DEVICE_AUTH_INVALID" 401 permission)

abbrev pub has_binding : PairingDb → String → String → Bool
has_binding db device binding =
    exists_in (λ e. e.device_ref == device && e.entry_binding_ref == binding) db.entry_bindings

-- The four updates of `revokeDevice`; the sessions are chosen by the bindings before them.
abbrev pub revoke_all : String → ℕ → PairingDb → PairingDb
revoke_all device now db = record db {
  sessions =
      update (λ r. has_binding db device r.entry_binding_ref && is_active_session r.status)
        (revoked_session now) db.sessions;
  entry_bindings =
      update (λ e. e.device_ref == device && e.active) (λ e. record e { active = false })
        db.entry_bindings;
  device_bindings =
      update (λ b. b.device_ref == device && b.active)
        (λ b. record b { active = false; revoked_at = some now }) db.device_bindings;
  devices =
      update (λ d. d.device_ref == device && d.active)
        (λ d. record d { active = false; revoked_at = some now; updated_at = now }) db.devices;
}

-- `revokeDevice`.
unfoldable pub revoke_device : String → Requester → ℕ → Op PairingDb (Unit {0})
revoke_device device who now = transaction (do
  authorize_revocation device who
  found ← gets (λ db. device_by_ref db device)
  d ← require found (mobile_error "DEVICE_AUTH_INVALID" 404 permission)
  modify (revoke_all device now))

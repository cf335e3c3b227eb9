-- ===== src/Pairing.antt =====
-- Mobile pairing of apps/gateway/src/mobilePairing.ts: the tables that it reads and writes, and its
-- look-ups. `Codes` has the pairing codes, `Claims` their use by a device, `Devices` what a paired
-- device and its administrator may do.
-- Times are milliseconds. The digest of node:crypto is a parameter, `hash`; two digests are
-- compared by equality.
pub mod Codes
pub mod Claims
pub mod Devices
pub mod Attempts
pub mod Guesses
pub mod Redeem
pub mod Replays
pub mod Creation
pub mod Sessions
use family_ai_platform.Common.{
  ℕ, ◌+◌, String, Bool, true, false, not, ◌&&◌, Option, none, some, List, ◌==◌, is_text,
  if◌then◌else◌, first, exists_in, Failure, domain_error, Category,
}

pub record Named : Type 0 where
  pub ref : String
  pub display_name : String
  pub active : Bool

pub record Membership : Type 0 where
  pub family_ref : String
  pub person_ref : String
  pub active : Bool

pub record Assignment : Type 0 where
  pub person_ref : String
  pub agent_ref : String
  pub active : Bool

pub data CodeStatus : Type 0 where
  code_active code_consumed code_revoked code_expired : CodeStatus

-- `mobile_pairing_codes`.
pub record PairingRow : Type 0 where
  pub pairing_ref : String
  pub family_ref : String
  pub person_ref : String
  pub code_hash : String
  pub status : CodeStatus
  pub failed_attempts : ℕ
  pub max_attempts : ℕ
  pub expires_at : ℕ
  pub created_by : String
  pub created_at : ℕ
  pub consumed_at : Option ℕ
  pub consumed_device_ref : Option String
  pub revoked_at : Option ℕ

-- `managed_devices`.
pub record DeviceRow : Type 0 where
  pub device_ref : String
  pub display_name : String
  pub active : Bool
  pub credential_hash : String
  pub installation_ref : Option String
  pub updated_at : ℕ
  pub revoked_at : Option ℕ
  pub last_seen_at : Option ℕ

-- `device_bindings`; the person is null for a family's device.
pub record DeviceBinding : Type 0 where
  pub device_binding_ref : String
  pub device_ref : String
  pub family_ref : String
  pub person_ref : Option String
  pub active : Bool
  pub revoked_at : Option ℕ

pub data Audience : Type 0 where
  personal family_admin : Audience

-- `entry_bindings`.
pub record EntryBinding : Type 0 where
  pub entry_binding_ref : String
  pub device_ref : String
  pub family_ref : String
  pub person_ref : String
  pub audience : Audience
  pub active : Bool
  pub last_used_at : Option ℕ

pub data SessionStatus : Type 0 where
  session_active session_revoked session_expired : SessionStatus

-- `entry_sessions`.
pub record SessionRow : Type 0 where
  pub entry_session_ref : String
  pub entry_binding_ref : String
  pub token_hash : String
  pub status : SessionStatus
  pub created_at : ℕ
  pub expires_at : ℕ
  pub revoked_at : Option ℕ

pub record PairingDb : Type 0 where
  pub families : List Named
  pub persons : List Named
  pub memberships : List Membership
  pub assignments : List Assignment
  pub codes : List PairingRow
  pub devices : List DeviceRow
  pub device_bindings : List DeviceBinding
  pub entry_bindings : List EntryBinding
  pub sessions : List SessionRow

abbrev pub pairing_lifetime : ℕ
pairing_lifetime = 300000

abbrev pub session_lifetime : ℕ
session_lifetime = 604800000

abbrev pub max_pairing_attempts : ℕ
max_pairing_attempts = 5

abbrev pub max_code_generation_attempts : ℕ
max_code_generation_attempts = 64

abbrev pub is_active_code : CodeStatus → Bool
is_active_code code_active = true
is_active_code code_consumed = false
is_active_code code_revoked = false
is_active_code code_expired = false

abbrev pub is_consumed_code : CodeStatus → Bool
is_consumed_code code_consumed = true
is_consumed_code code_active = false
is_consumed_code code_revoked = false
is_consumed_code code_expired = false

abbrev pub is_active_session : SessionStatus → Bool
is_active_session session_active = true
is_active_session session_revoked = false
is_active_session session_expired = false

abbrev pub is_personal : Audience → Bool
is_personal personal = true
is_personal family_admin = false

-- `mobileError` with the default of no retry.
abbrev pub mobile_error : String → ℕ → Category → Failure
mobile_error code status category = domain_error code status category false

abbrev pub family_of : PairingDb → String → Option Named
family_of db f = first (λ r. r.ref == f && r.active) db.families

abbrev pub person_of : PairingDb → String → Option Named
person_of db p = first (λ r. r.ref == p && r.active) db.persons

abbrev pub is_member : PairingDb → String → String → Bool
is_member db f p =
    exists_in (λ r. r.family_ref == f && r.person_ref == p && r.active) db.memberships

-- An active assignment to an agent that serves persons.
abbrev pub has_assistant : PairingDb → String → Bool
has_assistant db p =
    exists_in
      (λ r.
        r.person_ref == p
        && r.active
        && not (r.agent_ref == "agent:hermes-jarvis")
        && not (r.agent_ref == "agent:codex-cli"))
      db.assignments

pub record Target : Type 0 where
  pub family_name : String
  pub person_name : String

abbrev target_of : Option Named → Option Named → Bool → Option Target
target_of (some f) (some p) true =
    some (record { family_name = f.display_name; person_name = p.display_name })
target_of _ _ _ = none

-- `activeTarget`.
unfoldable pub active_target : PairingDb → String → String → Option Target
active_target db f p =
    target_of (family_of db f) (person_of db p) (is_member db f p && has_assistant db p)

-- `pairingByRef` and `pairingByCodeHash`.
abbrev pub pairing_by_ref : PairingDb → String → Option PairingRow
pairing_by_ref db ref = first (λ r. r.pairing_ref == ref) db.codes

abbrev pub pairing_by_code_hash : PairingDb → String → Option PairingRow
pairing_by_code_hash db h = first (λ r. r.code_hash == h) db.codes

-- `deviceByInstallation` and `deviceByRef`.
abbrev pub device_by_installation : PairingDb → String → Option DeviceRow
device_by_installation db i = first (λ r. is_text r.installation_ref i) db.devices

abbrev pub device_by_ref : PairingDb → String → Option DeviceRow
device_by_ref db d = first (λ r. r.device_ref == d) db.devices

-- `personalBinding`.
abbrev pub personal_binding : PairingDb → String → String → String → Option EntryBinding
personal_binding db d f p =
    first
      (λ r.
        r.device_ref == d
        && r.family_ref == f
        && r.person_ref == p
        && is_personal r.audience
        && r.active)
      db.entry_bindings

-- ===== src/EntrySession.antt =====
-- Authentication of a request by its entry session: apps/gateway/src/entrySessionAuth.ts, and
-- authenticateEntrySession of apps/gateway/src/familyDomain.ts behind it, on the tables of Pairing.
-- The session's reference and the bearer token are what the two headers hold. The context leaves
-- out the agent, whose joins drop no row, and the descriptive columns.
pub mod Requests
use family_ai_platform.Common.{
  ℕ, String, Bool, true, false, not, ◌&&◌, Option, none, some, Failure, domain_error, Outcome, ok,
  err, Op, permission, ◌==◌, is_some, is_text, if◌then◌else◌, ltb, leb, first, exists_in, update,
}
use family_ai_platform.Pairing.{
  PairingDb, SessionRow, SessionStatus, session_active, session_revoked, session_expired,
  EntryBinding, DeviceRow, Audience, personal, family_admin, is_active_session, device_by_ref,
  family_of, person_of, is_member,
}

abbrev pub session_by_ref : PairingDb → String → Option SessionRow
session_by_ref db ref = first (λ s. s.entry_session_ref == ref) db.sessions

abbrev pub binding_by_ref : PairingDb → String → Option EntryBinding
binding_by_ref db ref = first (λ b. b.entry_binding_ref == ref) db.entry_bindings

-- A session with its binding and the binding's device.
pub record SessionJoin : Type 0 where
  pub session : SessionRow
  pub binding : EntryBinding
  pub device : DeviceRow

abbrev pub with_device : SessionRow → EntryBinding → Option DeviceRow → Option SessionJoin
with_device s b none = none
with_device s b (some d) = some (record { session = s; binding = b; device = d })

abbrev pub with_binding : PairingDb → SessionRow → Option EntryBinding → Option SessionJoin
with_binding db s none = none
with_binding db s (some b) = with_device s b (device_by_ref db b.device_ref)

abbrev pub with_session : PairingDb → Option SessionRow → Option SessionJoin
with_session db none = none
with_session db (some s) = with_binding db s (binding_by_ref db s.entry_binding_ref)

-- The row that a session's reference joins.
abbrev pub join_session : PairingDb → String → Option SessionJoin
join_session db ref = with_session db (session_by_ref db ref)

pub record EntryContext : Type 0 where
  pub audience : Audience
  pub entry_session_ref : String
  pub entry_binding_ref : String
  pub family_ref : String
  pub person_ref : String
  pub device_ref : String

pub data Authentication : Type 0 where
  authenticated : EntryContext → Authentication
  expired device_revoked invalid : Authentication

abbrev pub context_of : SessionJoin → EntryContext
context_of j = record {
  audience = j.binding.audience;
  entry_session_ref = j.session.entry_session_ref;
  entry_binding_ref = j.binding.entry_binding_ref;
  family_ref = j.binding.family_ref;
  person_ref = j.binding.person_ref;
  device_ref = j.device.device_ref;
}

-- The joins and the `WHERE` clause of `authenticateEntrySession` on a session's row.
abbrev pub is_served : PairingDb → ℕ → SessionJoin → Bool
is_served db now j =
    is_some (family_of db j.binding.family_ref)
    && is_some (person_of db j.binding.person_ref)
    && is_member db j.binding.family_ref j.binding.person_ref
    && j.device.active
    && exists_in
        (λ b.
          b.device_ref == j.device.device_ref
          && b.family_ref == j.binding.family_ref
          && is_text b.person_ref j.binding.person_ref
          && b.active)
        db.device_bindings
    && is_active_session j.session.status
    && ltb now j.session.expires_at
    && j.binding.active

abbrev pub expire_session : String → PairingDb → PairingDb
expire_session ref db = record db {
  sessions =
      update (λ s. s.entry_session_ref == ref && is_active_session s.status)
        (λ s. record s { status = session_expired }) db.sessions;
}

-- The `UPDATE` of `authenticateEntrySession`: when the entry binding was last used.
abbrev pub touch_binding : String → ℕ → PairingDb → PairingDb
touch_binding ref now db = record db {
  entry_bindings =
      update (λ b. b.entry_binding_ref == ref) (λ b. record b { last_used_at = some now })
        db.entry_bindings;
}

abbrev pub is_admin : Audience → Bool
is_admin personal = false
is_admin family_admin = true

-- The audience is the expected one, if one is expected.
abbrev pub same_audience : Option Audience → Audience → Bool
same_audience none a = true
same_audience (some personal) a = not (is_admin a)
same_audience (some family_admin) a = is_admin a

module _ (hash : String → String) where
  abbrev pub entry_context :
      String → ℕ → Option SessionJoin → PairingDb → Option EntryContext × PairingDb
  entry_context token now none db = (none, db)
  entry_context token now (some j) db =
      if is_served db now j && hash token == j.session.token_hash
      then (some (context_of j), touch_binding j.binding.entry_binding_ref now db)
      else (none, db)

  -- `authenticateEntrySession`.
  unfoldable pub authenticate_entry_session :
      String → String → ℕ → PairingDb → Option EntryContext × PairingDb
  authenticate_entry_session ref token now db = entry_context token now (join_session db ref) db

  abbrev pub authentication : Option EntryContext × PairingDb → Authentication × PairingDb
  authentication (none, db) = (invalid, db)
  authentication (some c, db) = (authenticated c, db)

  -- What the status of the session's row asks for.
  unfoldable pub authenticate_by_status :
      String → String → ℕ → SessionJoin → SessionStatus → PairingDb → Authentication × PairingDb
  unfolding authenticate_entry_session
  authenticate_by_status ref token now j session_active db =
      if leb j.session.expires_at now
      then (expired, expire_session ref db)
      else if not j.binding.active
      then (invalid, db)
      else authentication (authenticate_entry_session ref token now db)
  authenticate_by_status ref token now j session_expired db = (expired, db)
  authenticate_by_status ref token now j session_revoked db = (invalid, db)

  unfoldable pub authenticate_row :
      String → String → ℕ → Option SessionJoin → PairingDb → Authentication × PairingDb
  unfolding authenticate_by_status
  authenticate_row ref token now none db = (invalid, db)
  authenticate_row ref token now (some j) db =
      if not (hash token == j.session.token_hash)
      then (invalid, db)
      else if not j.device.active
      then (device_revoked, db)
      else authenticate_by_status ref token now j j.session.status db

  -- `authenticate`.
  unfoldable pub authenticate : String → String → ℕ → PairingDb → Authentication × PairingDb
  unfolding authenticate_row
  authenticate ref token now db = authenticate_row ref token now (join_session db ref) db

  -- The answer of `requireEntryRequestWithSession` to an authentication.
  abbrev pub entry_answer : Option Audience → Authentication → Outcome EntryContext
  entry_answer expected expired = err (domain_error "ENTRY_SESSION_EXPIRED" 401 permission false)
  entry_answer expected device_revoked = err (domain_error "DEVICE_REVOKED" 403 permission false)
  entry_answer expected invalid = err (domain_error "ENTRY_SESSION_INVALID" 401 permission false)
  entry_answer expected (authenticated c) =
      if same_audience expected c.audience
      then ok c
      else err (domain_error "ENTRY_AUDIENCE_FORBIDDEN" 403 permission false)

  abbrev pub authenticate_request :
      Option String → Option String → ℕ → PairingDb → Authentication × PairingDb
  authenticate_request (some ref) (some token) now db = authenticate ref token now db
  authenticate_request (some ref) none now db = (invalid, db)
  authenticate_request none token now db = (invalid, db)

  -- `requireEntryRequest` and `requireEntryRequestWithSession`, whose session's reference is that
  -- of the request.
  unfoldable pub require_entry_request :
      Option String → Option String → Option Audience → ℕ → Op PairingDb EntryContext
  unfolding authenticate
  require_entry_request ref token expected now db =
      let (a, db') = authenticate_request ref token now db in (entry_answer expected a, db')

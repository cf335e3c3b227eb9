-- ===== src/EntrySession/Requests.antt =====
-- Which requests the entry sessions of apps/gateway/src/entrySessionAuth.ts let through.
use family_ai_platform.Common.{
  ℕ, String, true, false, Option, some, ok, is_ok, [], ◌∷◌, ◌==◌, ◌≡◌, refl, ap, sym, arith, ◌∙◌,
  ◌&&◌, Option-cases, Bool-cases, inl, inr, subst, eq_iff, first_holds, first_fails, first-update,
  exists_in, List, map, update, if◌then◌else◌,
}
use family_ai_platform.Pairing.{
  PairingDb, Audience, EntryBinding, SessionStatus, session_active, session_revoked,
  session_expired, device_by_ref, is_active_session,
}
use family_ai_platform.Pairing.Devices.{Requester, revoke_device}
use family_ai_platform.Pairing.Sessions.{revoke_device-IsShutOut}
use family_ai_platform.EntrySession.{
  SessionJoin, EntryContext, session_by_ref, binding_by_ref, join_session, context_of, expired,
  is_served, same_audience, require_entry_request, authenticate, authenticate_row,
  authenticate_by_status, authenticate_entry_session, expire_session,
}

-- The rows that a session's reference joins.
join_session_lem :
    (db : PairingDb) (ref : String) (j : SessionJoin)
    → join_session db ref ≡ some j
    → (session_by_ref db ref ≡ some j.session)
      × (binding_by_ref db j.session.entry_binding_ref ≡ some j.binding)
      × (device_by_ref db j.binding.device_ref ≡ some j.device)
join_session_lem db ref j h = elim (Option-cases (session_by_ref db ref)) [
  | inl f ↦ absurd (ground arith)
  | inr (s, f) ↦ elim (Option-cases (binding_by_ref db s.entry_binding_ref)) [
    | inl g ↦ absurd (ground arith)
    | inr (b, g) ↦ elim (Option-cases (device_by_ref db b.device_ref)) [
      | inl k ↦ absurd (ground arith)
      | inr (d, k) ↦ ground arith
    ]
  ]
]

-- The tables in which an entry binding is marked as used.
abbrev pub used : String → ℕ → PairingDb → PairingDb
used ref now db = record db {
  entry_bindings =
      map (λ b. if b.entry_binding_ref == ref then record b { last_used_at = some now } else b)
        db.entry_bindings;
}

used-touch :
    (ref : String) (now : ℕ) (bs : List EntryBinding)
    → update (λ b. b.entry_binding_ref == ref) (λ b. record b { last_used_at = some now }) bs
      ≡ map (λ b. if b.entry_binding_ref == ref then record b { last_used_at = some now } else b) bs
used-touch ref now [] = refl
used-touch ref now (b ∷ bs) =
    ap (λ t. (if b.entry_binding_ref == ref then record b { last_used_at = some now } else b) ∷ t)
      (used-touch ref now bs)

module _ (hash : String → String) where
  pub request_accepted :
      (ref token : String) (expected : Option Audience) (now : ℕ) (db : PairingDb)
      → is_ok (require_entry_request hash (some ref) (some token) expected now db).0 ≡ true
      → (j : SessionJoin) × (join_session db ref ≡ some j)
        × (require_entry_request hash (some ref) (some token) expected now db
            ≡ (ok (context_of j), used j.binding.entry_binding_ref now db))
        × (is_served db now j ≡ true)
        × ((hash token == j.session.token_hash) ≡ true)
        × (same_audience expected j.binding.audience ≡ true)
  unfolding require_entry_request authenticate authenticate_row authenticate_by_status
      authenticate_entry_session
  request_accepted ref token expected now db o = elim (Option-cases (join_session db ref)) [
    | inl f ↦ absurd (ground arith)
    | inr (j, f) ↦
        let (same, served, token_ok, audience_ok) = by_status j f j.session.status refl in
        (j, f, same, served, token_ok, audience_ok)
  ]
    where
      by_status :
          (j : SessionJoin)
          → join_session db ref ≡ some j
          → (s : SessionStatus) → j.session.status ≡ s
          → (require_entry_request hash (some ref) (some token) expected now db
              ≡ (ok (context_of j), used j.binding.entry_binding_ref now db))
            × (is_served db now j ≡ true)
            × ((hash token == j.session.token_hash) ≡ true)
            × (same_audience expected j.binding.audience ≡ true)
      by_status j f session_active s =
          let touched = used-touch j.binding.entry_binding_ref now db.entry_bindings in
          (
            ground (arith, f, s, touched),
            ground (arith, f, s),
            ground (arith, f, s),
            ground (arith, f, s),
          )
      by_status j f session_revoked s = absurd (ground (arith, f, s))
      by_status j f session_expired s = absurd (ground (arith, f, s))

  -- The device that a context names is active.
  accepted_device :
      (ref token : String) (expected : Option Audience) (now : ℕ) (c : EntryContext)
      (db : PairingDb)
      → (require_entry_request hash (some ref) (some token) expected now db).0 ≡ ok c
      → exists_in (λ d. d.device_ref == c.device_ref && d.active) db.devices ≡ true
  accepted_device ref token expected now c db h =
      let (j, f, same, served, token_ok, audience_ok) =
        request_accepted ref token expected now db (ap (λ o. is_ok o) h) in
      let (a, b, found) = join_session_lem db ref j f in
      let one : c.device_ref ≡ j.device.device_ref = ground (arith, h, same) in
      let two : c.device_ref ≡ j.binding.device_ref =
        one
        ∙ (eq_iff j.device.device_ref j.binding.device_ref).0
            (first_holds (λ r. r.device_ref == j.binding.device_ref) db.devices j.device found) in
      elim (Bool-cases (exists_in (λ d. d.device_ref == c.device_ref && d.active) db.devices)) [
        | inl y ↦ y
        | inr n ↦
            let inactive : j.device.active ≡ false =
              first_fails (λ r. r.device_ref == j.binding.device_ref) (λ r. r.active) db.devices
                j.device
                (subst (λ x. exists_in (λ d. d.device_ref == x && d.active) db.devices ≡ false) two
                  n)
                found in
            absurd (ground arith)
      ]

  -- A device that is not active is not the device of an accepted request.
  pub accepted_other_device :
      (device ref token : String) (expected : Option Audience) (now : ℕ) (c : EntryContext)
      (db : PairingDb)
      → exists_in (λ d. d.device_ref == device && d.active) db.devices ≡ false
      → (require_entry_request hash (some ref) (some token) expected now db).0 ≡ ok c
      → (c.device_ref == device) ≡ false
  accepted_other_device device ref token expected now c db d h =
      let y = accepted_device ref token expected now c db h in
      elim (Bool-cases (c.device_ref == device)) [
        | inr n ↦ n
        | inl same ↦
            let clash : true ≡ false =
              sym (
                subst (λ x. exists_in (λ d. d.device_ref == x && d.active) db.devices ≡ true)
                  ((eq_iff c.device_ref device).0 same) y)
              ∙ d in
            absurd (ground arith)
      ]

  -- After a revocation that succeeds, no request is accepted for the device: a context that a
  -- request gets from the tables then, with whatever session, token, expected audience and time, is
  -- another device's.
  pub revoked_not_accepted :
      (device ref token : String) (who : Requester) (at now : ℕ) (expected : Option Audience)
      (c : EntryContext) (db : PairingDb)
      → is_ok (revoke_device device who at db).0 ≡ true
      → (require_entry_request hash
          (some ref)
          (some token)
          expected
          now
          (revoke_device device who at db).1).0
        ≡ ok c
      → (c.device_ref == device) ≡ false
  revoked_not_accepted device ref token who at now expected c db o h =
      accepted_other_device device ref token expected now c (revoke_device device who at db).1
        (revoke_device-IsShutOut device who at db o).3 h

  -- Whatever an authentication writes, the devices stay as they are.
  pub authenticate_devices :
      (ref token : String) (now : ℕ) (db : PairingDb)
      → (authenticate hash ref token now db).1.devices ≡ db.devices
  unfolding authenticate authenticate_row authenticate_by_status
  authenticate_devices ref token now db = elim (Option-cases (join_session db ref)) [
    | inl f ↦ ground arith
    | inr (j, f) ↦ by_status j f j.session.status refl
  ]
    where
      by_status :
          (j : SessionJoin)
          → join_session db ref ≡ some j
          → (s : SessionStatus) → j.session.status ≡ s
          → (authenticate hash ref token now db).1.devices ≡ db.devices
      by_status j f session_active s = ground (arith, f, s)
      by_status j f session_revoked s = ground (arith, f, s)
      by_status j f session_expired s = ground (arith, f, s)

  expired_join :
      (ref : String) (j : SessionJoin) (db : PairingDb)
      → join_session db ref ≡ some j
      → is_active_session j.session.status ≡ true
      → join_session (expire_session ref db) ref
        ≡ some (record j { session = record j.session { status = session_expired } })
  expired_join ref j db f a =
      let (s, b, d) = join_session_lem db ref j f in
      ground (
        arith,
        b,
        d,
        first-update (λ r. r.entry_session_ref == ref) (λ r. is_active_session r.status)
            (λ r. record r { status = session_expired }) (λ r. refl) db.sessions j.session s,
      )

  -- A session whose row is expired is answered so, at every time.
  expired_answer :
      (ref token : String) (now : ℕ) (j : SessionJoin) (db : PairingDb)
      → join_session db ref ≡ some j
      → j.session.status ≡ session_expired
      → (hash token == j.session.token_hash) ≡ true
      → j.device.active ≡ true
      → (authenticate hash ref token now db).0 ≡ expired
  unfolding authenticate authenticate_row authenticate_by_status
  expired_answer ref token now j db f s t d = ground (arith, f, s)

  -- An answer that an active session is expired marks it.
  active_expires :
      (ref token : String) (now : ℕ) (j : SessionJoin) (db : PairingDb)
      → join_session db ref ≡ some j
      → j.session.status ≡ session_active
      → (authenticate hash ref token now db).0 ≡ expired
      → ((authenticate hash ref token now db).1 ≡ expire_session ref db)
        × ((hash token == j.session.token_hash) ≡ true)
        × (j.device.active ≡ true)
  unfolding authenticate authenticate_row authenticate_by_status
  active_expires ref token now j db f s h =
      (ground (arith, f, s), ground (arith, f, s), ground (arith, f, s))

  -- A session that is answered as expired stays expired: the same reference and token get the same
  -- answer at every time, an earlier one too.
  pub expired_stays :
      (ref token : String) (now other : ℕ) (db : PairingDb)
      → (authenticate hash ref token now db).0 ≡ expired
      → (authenticate hash ref token other (authenticate hash ref token now db).1).0 ≡ expired
  unfolding authenticate authenticate_row authenticate_by_status
  expired_stays ref token now other db h = elim (Option-cases (join_session db ref)) [
    | inl f ↦ absurd (ground arith)
    | inr (j, f) ↦ by_status j f j.session.status refl
  ]
    where
      by_status :
          (j : SessionJoin)
          → join_session db ref ≡ some j
          → (s : SessionStatus) → j.session.status ≡ s
          → (authenticate hash ref token other (authenticate hash ref token now db).1).0 ≡ expired
      by_status j f session_active s =
          let (after, t, d) = active_expires ref token now j db f s h in
          ap (λ x. (authenticate hash ref token other x).0) after
          ∙ expired_answer ref token other
              (record j { session = record j.session { status = session_expired } })
              (expire_session ref db) (expired_join ref j db f (ap (λ x. is_active_session x) s))
              refl t d
      by_status j f session_revoked s = absurd (ground (arith, f, s))
      by_status j f session_expired s = ground (arith, f, s)

-- ===== src/EventStream/Heartbeats.antt =====
-- `heartbeatAll` of apps/gateway/src/eventStream.ts, which authenticates every connection again
-- with the sessions of apps/gateway/src/entrySessionAuth.ts. The hub is open, and the authenticator
-- answers without an exception, whose connection would be closed too.
use family_ai_platform.Common.{
  ℕ, String, true, false, List, [], ◌∷◌, ◌++◌, ◌&&◌, ◌≡◌, refl, ap, arith, ◌⊎◌, inl, inr, is_ok,
  ◌==◌, none, if◌then◌else◌, exists_in, Bool-cases, ◌∙◌,
}
use family_ai_platform.Pairing.{PairingDb, is_personal}
use family_ai_platform.Pairing.Devices.{Requester, revoke_device}
use family_ai_platform.Pairing.Sessions.{revoke_device-IsShutOut}
use family_ai_platform.EntrySession.{
  Authentication, authenticated, EntryContext, authenticate, require_entry_request, entry_answer,
}
use family_ai_platform.EntrySession.Requests.{accepted_other_device, authenticate_devices}
use family_ai_platform.EventStream.{
  Frame, Subscriber, Write, taken, full, broken, unregistered, enqueue_frame,
}

-- `EventStreamAuthenticationSource`.
pub data Source : Type 0 where
  explicit_authorization entry_cookie : Source

-- A subscriber with the credentials of its connection.
pub record Connection : Type 0 where
  pub subscriber : Subscriber
  pub entry_session_ref : String
  pub token : String
  pub source : Source

-- `unregister` of a subscriber that is open.
abbrev pub disconnected : Connection → Connection
disconnected c = record c {
  subscriber = unregistered c.subscriber;
  entry_session_ref = "";
  token = "";
}

-- A subscriber that `enqueueFrame` closes loses its credentials.
abbrev pub heard : Connection → Subscriber → Connection
heard c s = record (if s.closed then disconnected c else c) { subscriber = s }

-- The frame `revoked` goes to the connection past the queue; an exception of the write adds
-- nothing.
abbrev pub told_revoked : Write → Subscriber → Subscriber
told_revoked broken s = s
told_revoked taken s = record s { sent = s.sent ++ Frame.revoked ∷ [] }
told_revoked full s = record s { sent = s.sent ++ Frame.revoked ∷ [] }

abbrev pub after_revocation : Source → Connection → Connection
after_revocation explicit_authorization c = disconnected c
after_revocation entry_cookie c = disconnected (record c {
  subscriber = told_revoked (c.subscriber.sink c.subscriber.sent Frame.revoked) c.subscriber;
})

module _ (hash : String → String) (size : Frame → ℕ) (frames bytes : ℕ) where
  -- What the answer of the authenticator asks for.
  abbrev pub after_authentication : ℕ → Connection → Authentication → Connection
  after_authentication now c Authentication.device_revoked = after_revocation c.source c
  after_authentication now c Authentication.expired = disconnected c
  after_authentication now c Authentication.invalid = disconnected c
  after_authentication now c (authenticated e) =
      if is_personal e.audience && e.person_ref == c.subscriber.person_ref
      then heard c (enqueue_frame size frames bytes (Frame.heartbeat now) c.subscriber)
      else disconnected c

  unfoldable pub heartbeat : ℕ → Connection → PairingDb → Connection × PairingDb
  unfolding authenticate enqueue_frame
  heartbeat now c db =
      let (a, db') = authenticate hash c.entry_session_ref c.token now db in
      if c.subscriber.closed then (c, db) else (after_authentication now c a, db')

  -- `heartbeatAll` over the connections of all channels.
  unfoldable pub heartbeat_all : ℕ → List Connection → PairingDb → List Connection × PairingDb
  unfolding heartbeat
  heartbeat_all now [] db = ([], db)
  heartbeat_all now (c ∷ cs) db =
      let (d, db') = heartbeat now c db in
      let (ds, db'') = heartbeat_all now cs db' in (d ∷ ds, db'')

  -- The connection is closed, or its session was accepted: a personal one of the subscriber's
  -- person, on another device.
  abbrev pub IsKept : String → ℕ → Connection → PairingDb → Connection → Type 0
  IsKept device now c db c' =
      (c'.subscriber.closed ≡ true)
      ⊎ ((e : EntryContext) × ((authenticate hash c.entry_session_ref c.token now db).0
            ≡ authenticated e)
          × (is_personal e.audience ≡ true)
          × ((e.person_ref == c.subscriber.person_ref) ≡ true)
          × ((e.device_ref == device) ≡ false))

  -- Each connection is kept or closed by its own part of the round.
  abbrev pub AllKept : String → ℕ → List Connection → PairingDb → List Connection → Type 0
  AllKept device now [] db [] = Unit {0}
  AllKept device now [] db (d ∷ ds) = ⊥
  AllKept device now (c ∷ cs) db [] = ⊥
  AllKept device now (c ∷ cs) db (d ∷ ds) =
      IsKept device now c db d × AllKept device now cs (heartbeat now c db).1 ds

  authenticated_device :
      (device ref token : String) (now : ℕ) (e : EntryContext) (db : PairingDb)
      → exists_in (λ d. d.device_ref == device && d.active) db.devices ≡ false
      → (authenticate hash ref token now db).0 ≡ authenticated e
      → (e.device_ref == device) ≡ false
  unfolding require_entry_request
  authenticated_device device ref token now e db d h =
      accepted_other_device hash device ref token none now e db d
        (ap (λ a. entry_answer hash none a) h)

  kept :
      (device : String) (now : ℕ) (c : Connection) (db : PairingDb)
      → exists_in (λ d. d.device_ref == device && d.active) db.devices ≡ false
      → IsKept device now c db (heartbeat now c db).0
  unfolding heartbeat
  kept device now c db d = elim (Bool-cases c.subscriber.closed) [
    | inl y ↦ inl (ground arith)
    | inr n ↦ by_answer n (authenticate hash c.entry_session_ref c.token now db).0 refl
  ]
    where
      by_answer :
          c.subscriber.closed ≡ false
          → (a : Authentication) → (authenticate hash c.entry_session_ref c.token now db).0 ≡ a
          → IsKept device now c db (heartbeat now c db).0
      by_answer n Authentication.expired h = inl (ground (arith, n, h))
      by_answer n Authentication.invalid h = inl (ground (arith, n, h))
      by_answer n Authentication.device_revoked h = by_source c.source refl
        where
          by_source : (s : Source) → c.source ≡ s → IsKept device now c db (heartbeat now c db).0
          by_source explicit_authorization s = inl (ground (arith, n, h, s))
          by_source entry_cookie s = inl (ground (arith, n, h, s))
      by_answer n (authenticated e) h =
          elim (Bool-cases (is_personal e.audience && e.person_ref == c.subscriber.person_ref)) [
            | inr other ↦ inl (ground (arith, n, h))
            | inl mine ↦ inr (
              e,
              h,
              ground arith,
              ground arith,
              authenticated_device device c.entry_session_ref c.token now e db d h,
            )
          ]

  heartbeat_devices :
      (now : ℕ) (c : Connection) (db : PairingDb) → (heartbeat now c db).1.devices ≡ db.devices
  unfolding heartbeat
  heartbeat_devices now c db =
      ground (arith, authenticate_devices hash c.entry_session_ref c.token now db)

  all_kept :
      (device : String) (now : ℕ) (cs : List Connection) (db : PairingDb)
      → exists_in (λ d. d.device_ref == device && d.active) db.devices ≡ false
      → AllKept device now cs db (heartbeat_all now cs db).0
  unfolding heartbeat_all
  all_kept device now [] db d = tt
  all_kept device now (c ∷ cs) db d = (
    kept device now c db d,
    all_kept device now cs (heartbeat now c db).1 (
        ap (λ ds. exists_in (λ r. r.device_ref == device && r.active) ds)
          (heartbeat_devices now c db)
        ∙ d),
  )

  -- After a revocation that succeeds, a round of heartbeats closes the stream of every connection
  -- with a session of the device: a connection that is still open has been authenticated again, by
  -- a personal session of its subscriber's person, on another device.
  pub heartbeats_shut_out :
      (device : String) (who : Requester) (at now : ℕ) (cs : List Connection) (db : PairingDb)
      → is_ok (revoke_device device who at db).0 ≡ true
      → AllKept device now cs
          (revoke_device device who at db).1
          (heartbeat_all now cs (revoke_device device who at db).1).0
  heartbeats_shut_out device who at now cs db o =
      all_kept device now cs (revoke_device device who at db).1
        (revoke_device-IsShutOut device who at db o).3

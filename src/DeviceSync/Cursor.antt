-- ===== src/DeviceSync/Cursor.antt =====
-- What `acknowledge` of apps/gateway/src/deviceSync.ts does to the cursors.
use family_ai_platform.Common.{
  ℕ, suc, ◌+◌, ◌≤◌, String, ◌≡◌, refl, ap, ◌∙◌, true, false, ◌&&◌, inl, inr, List, [], ◌∷◌, arith,
  Option, none, some, ok, settle, ◌==◌, ==_refl, eq_iff, ltb, eqb, max, if◌then◌else◌, length,
  Bool-cases, Option-cases, exists_in, first, All,
}
use family_ai_platform.EventLog.{
  EventDb, EventRow, CursorRow, events_of, latest_person_sequence, find_person_event,
}
use family_ai_platform.EventLog.Gapless.{IsGapless, Numbered, latest-length}
use family_ai_platform.DeviceSync.{
  Acknowledgement, Ack, is_cursor, stored_cursor, acknowledged, read_cursor, store_cursor,
  acknowledge, acknowledge_event, state_of,
}

-- Every cursor stays within its person's log, and has acknowledged an event.
abbrev pub CursorFits : EventDb → CursorRow → Type 0
CursorFits db r =
    (1 ≤ r.acknowledged_sequence)
    × (r.acknowledged_sequence ≤ latest_person_sequence db r.person_ref)

Numbered-within :
    (k n : ℕ) (es : List EventRow)
    → Numbered k es
    → exists_in (λ e. eqb e.event_sequence n) es ≡ true
    → (suc k ≤ n) × (n ≤ k + length es)
Numbered-within k n [] h f = cc
Numbered-within k n (e ∷ es) (p, h) f = elim (Bool-cases (eqb e.event_sequence n)) [
  | inl here ↦ ground arith
  | inr later ↦ ground (arith, Numbered-within (suc k) n es h)
]

found-within :
    (p : String) (n : ℕ) (ref : String) (es : List EventRow) (e : EventRow)
    → first (λ e. e.person_ref == p && eqb e.event_sequence n && e.event_ref == ref) es ≡ some e
    → exists_in (λ e. eqb e.event_sequence n) (events_of p es) ≡ true
found-within p n ref [] e h = cc
found-within p n ref (x ∷ es) e h = ground (arith, found-within p n ref es e)

pub found_bounds :
    (db : EventDb) (p : String) (n : ℕ) (ref : String) (e : EventRow)
    → IsGapless db
    → find_person_event db p n ref ≡ some e
    → (1 ≤ n) × (n ≤ latest_person_sequence db p)
unfolding find_person_event
found_bounds db p n ref e v h =
    let (lo, hi) = Numbered-within 0 n _ (v.numbered p) (found-within p n ref db.events e h) in
    (lo, omega (arith, latest-length db p v))

module _ (device person : String) (n now : ℕ) where
  -- The row of the device and person after a write.
  abbrev pub row_after : Option CursorRow → CursorRow
  row_after none = record {
    device_ref = device;
    person_ref = person;
    acknowledged_sequence = n;
    created_at = now;
    updated_at = now;
  }
  row_after (some r) =
      if ltb r.acknowledged_sequence n
      then record r { acknowledged_sequence = n; updated_at = now }
      else r

  pub stored-store :
      (rows : List CursorRow)
      → stored_cursor (store_cursor device person n now rows) device person
        ≡ some (row_after (stored_cursor rows device person))
  unfolding store_cursor
  stored-store [] = ground (arith, ==_refl device, ==_refl person)
  stored-store (r ∷ rows) = ground (arith, stored-store rows)

  pub stored-store_other :
      (rows : List CursorRow) (d q : String)
      → (device == d && person == q) ≡ false
      → stored_cursor (store_cursor device person n now rows) d q ≡ stored_cursor rows d q
  unfolding store_cursor
  stored-store_other [] d q h = ground (arith, eq_iff device d, eq_iff person q)
  stored-store_other (r ∷ rows) d q h = ground (
    arith,
    eq_iff device d,
    eq_iff person q,
    eq_iff r.device_ref device,
    eq_iff r.person_ref person,
    stored-store_other rows d q h,
  )

  acknowledged-row_after :
      (o : Option CursorRow) → (row_after o).acknowledged_sequence ≡ max n (acknowledged o)
  acknowledged-row_after none = omega arith
  acknowledged-row_after (some r) = ground arith

  pub acknowledged_store :
      (rows : List CursorRow)
      → acknowledged (stored_cursor (store_cursor device person n now rows) device person)
        ≡ max n (acknowledged (stored_cursor rows device person))
  acknowledged_store rows = ap acknowledged (stored-store rows) ∙ acknowledged-row_after _

  pub All-store :
      (P : CursorRow → Type 0)
      → P (row_after none)
      → ((r : CursorRow) → is_cursor device person r ≡ true → P r → P (row_after (some r)))
      → (rows : List CursorRow) → All P rows
      → All P (store_cursor device person n now rows)
  unfolding store_cursor
  All-store P fresh old [] h = (fresh, tt)
  All-store P fresh old (r ∷ rows) (p, h) = elim (Bool-cases (is_cursor device person r)) [
    | inl mine ↦ rw mine (old r mine p, h)
    | inr other ↦ rw other (p, All-store P fresh old rows h)
  ]

  store_same :
      (rows : List CursorRow)
      → 1 ≤ n
      → n ≤ acknowledged (stored_cursor rows device person)
      → store_cursor device person n now rows ≡ rows
  unfolding store_cursor
  store_same [] pos le = absurd (omega arith)
  store_same (r ∷ rows) pos le = elim (Bool-cases (is_cursor device person r)) [
    | inl mine ↦ ground arith
    | inr other ↦ rw other (ap (λ t. r ∷ t) (store_same rows pos (rw other at le)))
  ]

-- What the device is told: the cursor before and after the larger of it and the event's number.
abbrev pub answer : Ack → ℕ → Option CursorRow → Acknowledgement
answer a now o = record {
  device_ref = a.device_ref;
  person_ref = a.person_ref;
  previous_sequence = acknowledged o;
  acknowledged_sequence =
      (row_after a.device_ref a.person_ref a.event_sequence now o).acknowledged_sequence;
  advanced = ltb (acknowledged o) a.event_sequence;
  updated_at = (row_after a.device_ref a.person_ref a.event_sequence now o).updated_at;
}

pub fits_stored :
    (db : EventDb) (device person : String) (rows : List CursorRow)
    → All (CursorFits db) rows
    → acknowledged (stored_cursor rows device person) ≤ latest_person_sequence db person
fits_stored db device person [] h = omega arith
fits_stored db device person (r ∷ rows) ((lo, hi), h) =
    elim (Bool-cases (is_cursor device person r)) [
      | inl mine ↦ ground (arith, eq_iff r.person_ref person)
      | inr other ↦ rw other (fits_stored db device person rows h)
    ]

pub read_cursor_fits :
    (db : EventDb) (device person : String)
    → All (CursorFits db) db.cursors
    → read_cursor db device person
      ≡ ok (
          state_of device person
            (latest_person_sequence db person)
            (stored_cursor db.cursors device person))
unfolding read_cursor
read_cursor_fits db device person h = ground (arith, fits_stored db device person db.cursors h)

-- In a sound database an acknowledgement of an event of the log succeeds: the device's cursor
-- becomes the larger of its value and the event's number, and the answer tells the cursor before
-- and after, and whether it moved.
pub acknowledge_found :
    (a : Ack) (now : ℕ) (db : EventDb) (e : EventRow)
    → IsGapless db
    → All (CursorFits db) db.cursors
    → find_person_event db a.person_ref a.event_sequence a.event_ref ≡ some e
    → acknowledge a now db ≡ (
      ok (some (answer a now (stored_cursor db.cursors a.device_ref a.person_ref))),
      record db {
        cursors = store_cursor a.device_ref a.person_ref a.event_sequence now db.cursors;
      },
    )
unfolding acknowledge
acknowledge_found a now db e v fits found =
    let pos = (found_bounds db a.person_ref a.event_sequence a.event_ref e v found).0 in
    rw (read_cursor_fits db a.device_ref a.person_ref fits) (rw found (main pos))
  where
    main :
        1 ≤ a.event_sequence
        → settle db (
            acknowledge_event a now
              (state_of a.device_ref a.person_ref
                (latest_person_sequence db a.person_ref)
                (stored_cursor db.cursors a.device_ref a.person_ref))
              (some e)
              db)
          ≡ (
            ok (some (answer a now (stored_cursor db.cursors a.device_ref a.person_ref))),
            record db {
              cursors = store_cursor a.device_ref a.person_ref a.event_sequence now db.cursors;
            },
          )
    main pos = elim (Option-cases (stored_cursor db.cursors a.device_ref a.person_ref)) [
      | inl missing ↦
          ground (arith, stored-store a.device_ref a.person_ref a.event_sequence now db.cursors)
      | inr (r, stored) ↦ ground (
        arith,
        stored-store a.device_ref a.person_ref a.event_sequence now db.cursors,
        store_same a.device_ref a.person_ref a.event_sequence now db.cursors pos,
      )
    ]

-- With all device cursors within the log, an event that the log does not hold for the person is not
-- acknowledged, and nothing changes.
pub acknowledge_missing :
    (a : Ack) (now : ℕ) (db : EventDb)
    → All (CursorFits db) db.cursors
    → find_person_event db a.person_ref a.event_sequence a.event_ref ≡ none
    → acknowledge a now db ≡ (ok none, db)
unfolding acknowledge
acknowledge_missing a now db fits missing =
    rw (read_cursor_fits db a.device_ref a.person_ref fits) (rw missing refl)

-- An acknowledgement leaves the cursors of all other devices and persons as they are, whatever its
-- answer.
pub acknowledge_other :
    (a : Ack) (now : ℕ) (db : EventDb) (device person : String)
    → (a.device_ref == device && a.person_ref == person) ≡ false
    → stored_cursor (acknowledge a now db).1.cursors device person
      ≡ stored_cursor db.cursors device person
unfolding acknowledge
acknowledge_other a now db device person other = ground (
  arith,
  stored-store_other a.device_ref a.person_ref a.event_sequence now db.cursors device person other,
)

acknowledge_log :
    (a : Ack) (now : ℕ) (db : EventDb)
    → ((acknowledge a now db).1.events ≡ db.events)
      × ((acknowledge a now db).1.sequences ≡ db.sequences)
      × ((acknowledge a now db).1.outbox ≡ db.outbox)
unfolding acknowledge
acknowledge_log a now db = ground arith

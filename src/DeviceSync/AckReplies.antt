-- ===== src/DeviceSync/AckReplies.antt =====
-- `POST /sync/ack` of apps/gateway/src/deviceSyncRoutes.ts answers within the contract of
-- packages/contracts/src/sync.ts.
use family_ai_platform.Common.{
  ℕ, ◌≤◌, String, ◌≡◌, refl, true, arith, Option, none, some, ok, max, All,
}
use family_ai_platform.EventLog.{
  EventDb, EventRow, CursorRow, latest_person_sequence, find_person_event,
}
use family_ai_platform.EventLog.Gapless.{IsGapless}
use family_ai_platform.DeviceSync.{Ack, stored_cursor, acknowledged}
use family_ai_platform.DeviceSync.Cursor.{
  CursorFits, answer, acknowledge_found, acknowledged_store, found_bounds, fits_stored,
}
use family_ai_platform.DeviceSync.Routes.{post_ack, AckRequest, ack_request_ok}
use family_ai_platform.SyncContract.Formats.{fixed_ref, max_safe_integer}
use family_ai_platform.SyncContract.Pages.{ack_response_ok, ack_consistent}

answer_consistent :
    (a : Ack) (now : ℕ) (o : Option CursorRow) → ack_consistent (answer a now o) ≡ true
answer_consistent a now none = ground arith
answer_consistent a now (some r) = ground arith

abbrev pub ack_of : String → String → AckRequest → Ack
ack_of device person r = record {
  device_ref = device;
  person_ref = person;
  event_sequence = r.event_sequence;
  event_ref = r.event_ref;
}

answer_le :
    (a : Ack) (now limit : ℕ) (o : Option CursorRow)
    → a.event_sequence ≤ limit
    → acknowledged o ≤ limit
    → (answer a now o).acknowledged_sequence ≤ limit
answer_le a now limit none h k = h
answer_le a now limit (some r) h k = ground arith

-- With a sound database a well-formed acknowledgement of an event of the person's log is
-- answered, the answer passes its own schema, and the device's cursor has become the larger of
-- its value and the event's number.
pub post_ack_accepted :
    (db : EventDb) (device person : String) (r : AckRequest) (now : ℕ) (e : EventRow)
    → IsGapless db
    → All (CursorFits db) db.cursors
    → latest_person_sequence db person ≤ max_safe_integer
    → fixed_ref "device:" device ≡ true
    → fixed_ref "person:" person ≡ true
    → ack_request_ok r ≡ true
    → find_person_event db person r.event_sequence r.event_ref ≡ some e
    → ((post_ack device person r now db).0
        ≡ ok (answer (ack_of device person r) now (stored_cursor db.cursors device person)))
      × (acknowledged (stored_cursor (post_ack device person r now db).1.cursors device person)
          ≡ max r.event_sequence (acknowledged (stored_cursor db.cursors device person)))
unfolding post_ack ack_response_ok
post_ack_accepted db device person r now e v fits small device_ok person_ok request found =
    rw request (
      rw (acknowledge_found (ack_of device person r) now db e v fits found)
        (rw accepted refl, (acknowledged_store device person r.event_sequence now db.cursors)))
  where
    o : Option CursorRow
    o = stored_cursor db.cursors device person

    accepted : ack_response_ok (answer (ack_of device person r) now o) ≡ true
    accepted =
        let (_, hi) = found_bounds db person r.event_sequence r.event_ref e v found in
        let old = fits_stored db device person db.cursors fits in
        ground (
          arith,
          answer_consistent (ack_of device person r) now o,
          answer_le (ack_of device person r) now (latest_person_sequence db person) o hi old,
        )

-- ===== src/DeviceSync.antt =====
-- The device cursors of apps/gateway/src/deviceSync.ts: how far a device has acknowledged a
-- person's events.
pub mod Cursor
pub mod Routes
pub mod Replies
pub mod AckReplies
use family_ai_platform.Common.{
  ℕ, String, Bool, true, false, ◌&&◌, Option, none, some, List, [], ◌∷◌, Outcome, ok, err, thrown,
  Op, settle, ◌==◌, leb, ltb, if◌then◌else◌, first,
}
use family_ai_platform.EventLog.{
  EventDb, EventRow, CursorRow, latest_person_sequence, find_person_event,
}

pub record CursorState : Type 0 where
  pub device_ref : String
  pub person_ref : String
  pub acknowledged_sequence : ℕ
  pub latest_sequence : ℕ
  pub created_at : Option ℕ
  pub updated_at : Option ℕ

pub record Acknowledgement : Type 0 where
  pub device_ref : String
  pub person_ref : String
  pub previous_sequence : ℕ
  pub acknowledged_sequence : ℕ
  pub advanced : Bool
  pub updated_at : ℕ

abbrev pub is_cursor : String → String → CursorRow → Bool
is_cursor device person r = r.device_ref == device && r.person_ref == person

-- `readStoredCursor`.
abbrev pub stored_cursor : List CursorRow → String → String → Option CursorRow
stored_cursor rows device person = first (is_cursor device person) rows

abbrev pub acknowledged : Option CursorRow → ℕ
acknowledged none = 0
acknowledged (some r) = r.acknowledged_sequence

abbrev pub created : Option CursorRow → Option ℕ
created none = none
created (some r) = some r.created_at

abbrev pub updated : Option CursorRow → Option ℕ
updated none = none
updated (some r) = some r.updated_at

abbrev pub state_of : String → String → ℕ → Option CursorRow → CursorState
state_of device person latest row = record {
  device_ref = device;
  person_ref = person;
  acknowledged_sequence = acknowledged row;
  latest_sequence = latest;
  created_at = created row;
  updated_at = updated row;
}

-- `DeviceSyncRepository.readCursor`.
unfoldable pub read_cursor : EventDb → String → String → Outcome CursorState
read_cursor db device person =
    let row = stored_cursor db.cursors device person in
    let latest = latest_person_sequence db person in
    if ltb latest (acknowledged row)
    then err (thrown "DEVICE_SYNC_CURSOR_AHEAD_OF_EVENT_LOG")
    else ok (state_of device person latest row)

-- `INSERT … ON CONFLICT DO UPDATE … WHERE acknowledged_sequence < excluded.acknowledged_sequence`.
unfoldable pub store_cursor : String → String → ℕ → ℕ → List CursorRow → List CursorRow
store_cursor device person n now [] =
    record {
      device_ref = device;
      person_ref = person;
      acknowledged_sequence = n;
      created_at = now;
      updated_at = now;
    }
    ∷ []
store_cursor device person n now (r ∷ rows) =
    if is_cursor device person r
    then (if ltb r.acknowledged_sequence n
        then record r { acknowledged_sequence = n; updated_at = now }
        else r)
      ∷ rows
    else r ∷ store_cursor device person n now rows

-- The answer to an event that is already acknowledged.
abbrev pub repeated : CursorState → Option ℕ → Outcome (Option Acknowledgement)
repeated s none = err (thrown "DEVICE_SYNC_CURSOR_STATE_INVALID")
repeated s (some at) = ok (
    some (record {
      device_ref = s.device_ref;
      person_ref = s.person_ref;
      previous_sequence = s.acknowledged_sequence;
      acknowledged_sequence = s.acknowledged_sequence;
      advanced = false;
      updated_at = at;
    }))

-- The answer after a write, from the row that is read back.
abbrev pub advanced_to : CursorState → Option CursorRow → Outcome (Option Acknowledgement)
advanced_to s none = err (thrown "DEVICE_SYNC_CURSOR_WRITE_FAILED")
advanced_to s (some r) = ok (
    some (record {
      device_ref = s.device_ref;
      person_ref = s.person_ref;
      previous_sequence = s.acknowledged_sequence;
      acknowledged_sequence = r.acknowledged_sequence;
      advanced = ltb s.acknowledged_sequence r.acknowledged_sequence;
      updated_at = r.updated_at;
    }))

pub record Ack : Type 0 where
  pub device_ref : String
  pub person_ref : String
  pub event_sequence : ℕ
  pub event_ref : String

abbrev pub acknowledge_event :
    Ack → ℕ → CursorState → Option EventRow → Op EventDb (Option Acknowledgement)
acknowledge_event a now s none db = (ok none, db)
acknowledge_event a now s (some e) db =
    if leb a.event_sequence s.acknowledged_sequence
    then (repeated s s.updated_at, db)
    else let rows = store_cursor a.device_ref a.person_ref a.event_sequence now db.cursors in
      (advanced_to s (stored_cursor rows a.device_ref a.person_ref), record db { cursors = rows })

abbrev pub acknowledge_from : Ack → ℕ → Outcome CursorState → Op EventDb (Option Acknowledgement)
acknowledge_from a now (err e) db = (err e, db)
acknowledge_from a now (ok s) db =
    acknowledge_event a now s (find_person_event db a.person_ref a.event_sequence a.event_ref) db

-- `DeviceSyncRepository.acknowledge`, at the clock `now`.
unfoldable pub acknowledge : Ack → ℕ → Op EventDb (Option Acknowledgement)
acknowledge a now db =
    settle db (acknowledge_from a now (read_cursor db a.device_ref a.person_ref) db)

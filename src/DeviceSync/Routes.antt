-- ===== src/DeviceSync/Routes.antt =====
-- The synchronisation routes of apps/gateway/src/deviceSyncRoutes.ts, behind the authentication
-- of the entry: the device and the person are those of its context.
use family_ai_platform.Common.{
  ℕ, String, Bool, false, ◌&&◌, Option, none, some, Outcome, ok, err, thrown, domain_error,
  validation, permission, Op, eqb, if◌then◌else◌,
}
use family_ai_platform.EventLog.{EventDb, Page, list_person_events, latest_person_sequence}
use family_ai_platform.DeviceSync.{CursorState, Acknowledgement, read_cursor, acknowledge}
use family_ai_platform.SyncContract.Formats.{fixed_ref, sequence_ok}
use family_ai_platform.SyncContract.Pages.{
  EventsQuery, ParsedQuery, parse_events_query, EventsResponse, events_response_ok, parsed_response,
  ack_response_ok,
}

-- `schema.parse(value)`, from whether the schema accepts the value and what it then makes of it: a
-- value that it refuses is an exception.
abbrev pub parsed : {A : Type 0} → Bool → A → Outcome A
parsed b a = if b then ok a else err (thrown "ZodError")

abbrev pub requested_after : Option ℕ → CursorState → ℕ
requested_after none s = s.acknowledged_sequence
requested_after (some n) s = n

abbrev pub response_of : String → String → CursorState → ℕ → ℕ → Page → EventsResponse
response_of device person s requested latest page = record {
  device_ref = device;
  person_ref = person;
  acknowledged_sequence = s.acknowledged_sequence;
  requested_after_sequence = requested;
  latest_sequence = latest;
  events = page.events;
  next_after_sequence = page.next_after_sequence;
}

abbrev pub page_response :
    EventDb → String → String → ParsedQuery → Outcome CursorState → Outcome EventsResponse
page_response db device person q (err e) = err e
page_response db device person q (ok s) =
    let after = requested_after q.after_sequence s in
    let response =
      response_of device person s after (latest_person_sequence db person)
        (list_person_events db person after (some q.limit)) in
    parsed (events_response_ok response) (parsed_response response)

abbrev pub query_response : EventDb → String → String → Option ParsedQuery → Outcome EventsResponse
query_response db device person none = err (domain_error "REQUEST_INVALID" 400 validation false)
query_response db device person (some q) =
    page_response db device person q (read_cursor db device person)

-- `GET /api/v1/sync/events`.
unfoldable pub get_events : EventDb → String → String → EventsQuery → Outcome EventsResponse
get_events db device person q = query_response db device person (parse_events_query q)

pub record AckRequest : Type 0 where
  pub protocol_version : ℕ
  pub event_sequence : ℕ
  pub event_ref : String

-- `syncAckRequestSchema`.
abbrev pub ack_request_ok : AckRequest → Bool
ack_request_ok r =
    eqb r.protocol_version 1 && sequence_ok r.event_sequence && fixed_ref "event:" r.event_ref

abbrev pub ack_reply :
    Outcome (Option Acknowledgement) × EventDb → Outcome Acknowledgement × EventDb
ack_reply (err e, db) = (err e, db)
ack_reply (ok none, db) = (err (domain_error "SYNC_EVENT_NOT_FOUND" 404 permission false), db)
ack_reply (ok (some a), db) = (parsed (ack_response_ok a) a, db)

-- `POST /api/v1/sync/ack`.
unfoldable pub post_ack : String → String → AckRequest → ℕ → Op EventDb Acknowledgement
post_ack device person r now db =
    if ack_request_ok r
    then ack_reply (
        acknowledge
          (record {
            device_ref = device;
            person_ref = person;
            event_sequence = r.event_sequence;
            event_ref = r.event_ref;
          })
          now db)
    else (err (domain_error "REQUEST_INVALID" 400 validation false), db)

-- ===== src/SyncContract/Pages.antt =====
-- The schemas of packages/contracts/src/sync.ts for the event query, the event page and the
-- acknowledgement, with their cross-checks.
use family_ai_platform.Common.{
  ℕ, ◌+◌, ◌*◌, ◌-◌, String, Bool, true, false, not, ◌&&◌, Option, none, some, List, [], ◌∷◌, ◌==◌,
  eqb, leb, ltb, if◌then◌else◌, length, all_in, last_of, map,
}
use family_ai_platform.EventLog.{EventRow}
use family_ai_platform.DeviceSync.{Acknowledgement}
use family_ai_platform.SyncContract.Formats.{
  codes, fixed_ref, sequence_ok, cursor_ok, max_safe_integer,
}
use family_ai_platform.SyncContract.Events.{sync_event_ok, parsed_event}

abbrev digit : ℕ → Bool
digit c = leb b'0' c && leb c b'9'

unfoldable pub decimal_value : ℕ → List ℕ → ℕ
decimal_value acc [] = acc
decimal_value acc (c ∷ cs) = decimal_value (acc * 10 + (c - b'0')) cs

-- `syncDecimalStringSchema`, `/^\d+$/`.
abbrev pub decimal_ok : String → Bool
decimal_ok s = leb 1 (length (codes s)) && all_in digit (codes s)

-- `parseSafeDecimal`: a decimal above the largest safe integer is read as a number that is not
-- safe either.
unfoldable pub parse_safe_decimal : String → ℕ → ℕ → Option ℕ
unfolding decimal_value
parse_safe_decimal s lo hi =
    let n = decimal_value 0 (codes s) in
    if leb n max_safe_integer && leb lo n && leb n hi then some n else none

-- `syncEventsQuerySchema`, before and after its transformation.
pub record EventsQuery : Type 0 where
  pub after_sequence : Option String
  pub limit : Option String

pub record ParsedQuery : Type 0 where
  pub after_sequence : Option ℕ
  pub limit : ℕ

abbrev optional_decimal : Option String → Bool
optional_decimal none = true
optional_decimal (some s) = decimal_ok s

abbrev parsed_after : Option String → Option (Option ℕ)
parsed_after none = some none
parsed_after (some s) = elim (parse_safe_decimal s 0 max_safe_integer) [
  | none ↦ none
  | some n ↦ some (some n)
]

abbrev parsed_limit : Option String → Option ℕ
parsed_limit none = some 100
parsed_limit (some s) = parse_safe_decimal s 1 200

abbrev both : Option (Option ℕ) → Option ℕ → Option ParsedQuery
both (some a) (some l) = some (record { after_sequence = a; limit = l })
both none l = none
both (some a) none = none

unfoldable pub parse_events_query : EventsQuery → Option ParsedQuery
unfolding parse_safe_decimal
parse_events_query q =
    if optional_decimal q.after_sequence && optional_decimal q.limit
    then both (parsed_after q.after_sequence) (parsed_limit q.limit)
    else none

pub record EventsResponse : Type 0 where
  pub device_ref : String
  pub person_ref : String
  pub acknowledged_sequence : ℕ
  pub requested_after_sequence : ℕ
  pub latest_sequence : ℕ
  pub events : List EventRow
  pub next_after_sequence : Option ℕ

-- The loop over the events, with the sequence of the one before.
abbrev pub events_in_order : String → ℕ → ℕ → ℕ → List EventRow → Bool
events_in_order person requested latest previous [] = true
events_in_order person requested latest previous (e ∷ es) =
    e.person_ref == person
    && ltb requested e.event_sequence
    && leb e.event_sequence latest
    && ltb previous e.event_sequence
    && events_in_order person requested latest e.event_sequence es

-- An empty page has no next cursor, and another one none or its last sequence.
abbrev pub next_matches : List EventRow → Option ℕ → Bool
next_matches es none = true
next_matches [] (some n) = false
next_matches (e ∷ es) (some n) = eqb n (last_of e es).event_sequence

abbrev pub next_ok : Option ℕ → Bool
next_ok none = true
next_ok (some n) = sequence_ok n

-- `syncEventsResponseBaseSchema`.
abbrev pub response_shape_ok : EventsResponse → Bool
response_shape_ok r =
    fixed_ref "device:" r.device_ref
    && fixed_ref "person:" r.person_ref
    && cursor_ok r.acknowledged_sequence
    && cursor_ok r.requested_after_sequence
    && cursor_ok r.latest_sequence
    && all_in sync_event_ok r.events
    && leb (length r.events) 200
    && next_ok r.next_after_sequence

-- The cross-checks of `syncEventsResponseSchema`.
abbrev pub response_consistent : EventsResponse → Bool
response_consistent r =
    leb r.acknowledged_sequence r.latest_sequence
    && events_in_order r.person_ref r.requested_after_sequence r.latest_sequence
        r.requested_after_sequence r.events
    && next_matches r.events r.next_after_sequence

-- `syncEventsResponseSchema`.
unfoldable pub events_response_ok : EventsResponse → Bool
events_response_ok r = response_shape_ok r && response_consistent r

-- What `syncEventsResponseSchema` makes of a response that it accepts. Its cross-checks read nothing
-- that its transformation changes.
abbrev pub parsed_response : EventsResponse → EventsResponse
parsed_response r = record r { events = map parsed_event r.events }

-- The cross-checks of `syncAckResponseSchema`.
abbrev pub ack_consistent : Acknowledgement → Bool
ack_consistent a =
    leb a.previous_sequence a.acknowledged_sequence
    && not (a.advanced && leb a.acknowledged_sequence a.previous_sequence)
    && not (not a.advanced && not (eqb a.acknowledged_sequence a.previous_sequence))

-- `syncAckResponseSchema`.
unfoldable pub ack_response_ok : Acknowledgement → Bool
ack_response_ok a =
    fixed_ref "device:" a.device_ref
    && fixed_ref "person:" a.person_ref
    && cursor_ok a.previous_sequence
    && cursor_ok a.acknowledged_sequence
    && ack_consistent a

-- ===== src/Tests/Stream.antt =====
-- Runs of the routes of device synchronisation and of the event stream on a log of two messages.
use family_ai_platform.Common.{
  ℕ, ◌≡◌, refl, true, false, none, some, [], ◌∷◌, max, map, ◌⊎◌, ok, arith, take, drop,
}
use family_ai_platform.EventLog.{
  drafted, last_sequence, record_event, events_of, latest_person_sequence, find_person_event,
  accepts, logged, bump,
}
use family_ai_platform.DeviceSync.{stored_cursor, acknowledged}
use family_ai_platform.DeviceSync.Cursor.{answer}
use family_ai_platform.DeviceSync.Routes.{get_events, post_ack, AckRequest}
use family_ai_platform.DeviceSync.Replies.{get_events_accepted}
use family_ai_platform.DeviceSync.AckReplies.{post_ack_accepted, ack_of}
use family_ai_platform.SyncContract.Formats.{fixed_ref, client_message_id_ok}
use family_ai_platform.SyncContract.Events.{sync_event_ok, kind_of, parsed_event}
use family_ai_platform.SyncContract.Pages.{
  EventsQuery, ParsedQuery, EventsResponse, parse_events_query,
}
use family_ai_platform.EventStream.{
  Frame, connected, Subscriber, idle, taken, pump_person_pass, enqueue_frame, drained, settled,
}
use family_ai_platform.EventStream.Queues.{Within, queue_bounded}
use family_ai_platform.EventStream.Served.{Follows, pass_serves}
use family_ai_platform.Tests.Log.{person, device, two, two-IsSound, second_event}

-- The routes.

abbrev query : EventsQuery
query = record { after_sequence = some "1"; limit = none }

abbrev parsed_query : ParsedQuery
parsed_query = record { after_sequence = some 1; limit = 100 }

get_events_accepted_example :
    (r : EventsResponse) × (get_events two device person query ≡ ok r)
    × (r.events ≡ map parsed_event (take 100 (drop 1 (events_of person two.events))))
unfolding two sync_event_ok kind_of latest_person_sequence parse_events_query fixed_ref record_event
    accepts drafted logged last_sequence bump client_message_id_ok
get_events_accepted_example =
    get_events_accepted two device person query parsed_query two-IsSound.gapless two-IsSound.fits
      refl (omega arith) refl refl refl

abbrev ack_request : AckRequest
ack_request = record { protocol_version = 1; event_sequence = 2; event_ref = "event:e2" }

post_ack_accepted_example :
    ((post_ack device person ack_request 50 two).0
      ≡ ok (answer (ack_of device person ack_request) 50 (stored_cursor two.cursors device person)))
    × (acknowledged
          (stored_cursor (post_ack device person ack_request 50 two).1.cursors device person)
        ≡ max 2 (acknowledged (stored_cursor two.cursors device person)))
unfolding two latest_person_sequence fixed_ref find_person_event record_event accepts drafted logged
    last_sequence bump
post_ack_accepted_example =
    post_ack_accepted two device person ack_request 50 second_event two-IsSound.gapless
      two-IsSound.fits (omega arith) refl refl refl refl

-- The event stream.

abbrev frame_size : Frame → ℕ
frame_size f = 100

abbrev subscriber : Subscriber
subscriber = record {
  person_ref = person;
  scheduled_cursor = 1;
  closed = false;
  queue = [];
  queued_frames = 0;
  queued_bytes = 0;
  writer = idle;
  sent = connected ∷ [];
  sink = λ fs f. taken;
}

pass_serves_example :
    (f : Subscriber → Subscriber) × (pump_person_pass frame_size 256 1048576 3 two person
        (subscriber ∷ [])
      ≡ some (ok tt, map f (subscriber ∷ [])))
    × (((f subscriber).closed ≡ true)
        ⊎ Follows frame_size 256 1048576 subscriber 0 (events_of person two.events) (f subscriber))
unfolding two sync_event_ok kind_of record_event accepts drafted logged last_sequence bump fixed_ref
    client_message_id_ok
pass_serves_example =
    pass_serves frame_size 256 1048576 3 two person [] [] subscriber two-IsSound.gapless refl
      (omega arith) refl refl

queue_bounded_example :
    Within frame_size 256 1048576 (enqueue_frame frame_size 256 1048576 connected subscriber)
    × Within frame_size 256 1048576 (drained frame_size subscriber)
    × Within frame_size 256 1048576 (settled frame_size subscriber)
queue_bounded_example =
    queue_bounded frame_size 256 1048576 connected subscriber (refl, refl, omega arith, omega arith)

-- ===== src/Tests/Log.antt =====
-- Runs of the event log, its outbox and the device cursors, with two messages of one person.
use family_ai_platform.Outbox.{candidates, claim_each, deliveries, release_lapsed}
use family_ai_platform.Common.{
  ℕ, suc, String, ◌≡◌, refl, true, false, none, some, [], ◌∷◌, ok, arith, take, drop, length,
}
use family_ai_platform.EventLog.{
  EventDb, EventRow, Draft, event_of, drafted, last_sequence, record_event, events_of,
  list_person_events, latest_person_sequence, find_person_event, clamp_limit, accepts, logged, bump,
}
use family_ai_platform.EventLog.Gapless.{drafted_follows_latest}
use family_ai_platform.EventLog.Paging.{list_person_events_page, next_cursor}
use family_ai_platform.EventLog.Triggers.{MessageRow, message_created}
use family_ai_platform.System.{Reach, here, next, adds_message}
use family_ai_platform.System.Sound.{IsSound}
use family_ai_platform.System.Histories.{IsFresh, histories-IsSound}
use family_ai_platform.Common.{ok_or}
use family_ai_platform.Json.{done}
use family_ai_platform.EventLog.Triggers.{message_draft}
use family_ai_platform.Outbox.{Claim, claim_outbox_batch}
use family_ai_platform.Outbox.Leases.{claim_exclusive, delivered}
use family_ai_platform.DeviceSync.{Ack, acknowledge, stored_cursor, store_cursor}
use family_ai_platform.DeviceSync.Cursor.{
  acknowledge_found, acknowledge_missing, acknowledge_other, answer,
}

abbrev pub person : String
person = "person:an"

abbrev pub device : String
device = "device:phone"

abbrev pub start : EventDb
start = record {
  persons = record { person_ref = person; active = true } ∷ [];
  threads = record { thread_ref = "thread:home"; person_ref = person; created_at = 1 } ∷ [];
  streams = [];
  works = [];
  assignments = [];
  sequences = [];
  events = [];
  outbox = [];
  cursors = [];
}

abbrev message_of : String → ℕ → String → MessageRow
message_of ref n client = record {
  message_ref = ref;
  thread_ref = "thread:home";
  thread_sequence = n;
  actor_type = "person";
  client_message_id = client;
  occurred_at = 10;
  created_at = 11;
}

abbrev pub first_message : MessageRow
first_message = message_of "message:m1" 1 "client-01"

abbrev second_message : MessageRow
second_message = message_of "message:m2" 2 "client-02"

unfoldable one : EventDb
unfolding message_created
one = (message_created first_message "event:e1" start).1

unfoldable pub two : EventDb
unfolding message_created one
two = (message_created second_message "event:e2" one).1

start-IsFresh : IsFresh start
start-IsFresh = record {
  no_events = refl;
  no_outbox = refl;
  no_sequences = refl;
  no_cursors = refl;
}

two-Reach : Reach start two
unfolding two one
two-Reach =
    next (next here (adds_message first_message "event:e1"))
      (adds_message second_message "event:e2")

histories-IsSound_example : IsSound two
histories-IsSound_example = histories-IsSound start-IsFresh two-Reach

pub two-IsSound : IsSound two
two-IsSound = histories-IsSound start-IsFresh two-Reach

list_person_events_page_example :
    ((list_person_events two person 1 none).events
      ≡ take (clamp_limit none) (drop 1 (events_of person two.events)))
    × ((list_person_events two person 1 none).next_after_sequence
        ≡ next_cursor 1 (clamp_limit none) (length (events_of person two.events)))
list_person_events_page_example = list_person_events_page two person 1 none two-IsSound.gapless

abbrev third : Draft
third = record {
  person_ref = person;
  event_type = "work.progress.updated";
  aggregate_type = "work_progress";
  aggregate_ref = "work:w1";
  thread_ref = none;
  payload = done;
  occurred_at = 20;
  created_at = 21;
}

drafted_follows_latest_example :
    (latest_person_sequence two person ≡ length (events_of person two.events))
    × ((drafted third "event:e3" two).event_sequence ≡ suc (latest_person_sequence two person))
drafted_follows_latest_example = drafted_follows_latest third "event:e3" two two-IsSound.gapless

-- The outbox.

abbrev lease : String → ℕ → ℕ → Claim
lease worker now until = record {
  worker_ref = worker;
  now = now;
  claimed_until = until;
  limit = some 1;
}

unfoldable claimed_once : EventDb
unfolding two claim_outbox_batch
claimed_once = (claim_outbox_batch (lease "worker:a" 20 30) two).1

claim_exclusive_example :
    delivered "event:e1" (
      ok_or []
        (claim_outbox_batch
          (lease "worker:b" 25 40)
          (claim_outbox_batch (lease "worker:a" 20 30) two).1).0)
    ≡ false
unfolding claim_outbox_batch two deliveries claim_each candidates release_lapsed record_event
    accepts drafted logged last_sequence bump
claim_exclusive_example =
    claim_exclusive (lease "worker:a" 20 30) (lease "worker:b" 25 40) "event:e1" two
      {ds = ok_or [] (claim_outbox_batch (lease "worker:a" 20 30) two).0}
      {es = ok_or []
        (claim_outbox_batch (lease "worker:b" 25 40)
          (claim_outbox_batch (lease "worker:a" 20 30) two).1).0}
      two-IsSound.distinct (omega arith) refl refl refl

-- The device's cursor.

abbrev ack : Ack
ack = record {
  device_ref = device;
  person_ref = person;
  event_sequence = 2;
  event_ref = "event:e2";
}

abbrev missing : Ack
missing = record {
  device_ref = device;
  person_ref = person;
  event_sequence = 2;
  event_ref = "event:e9";
}

abbrev pub second_event : EventRow
second_event = event_of (message_draft second_message person) "event:e2" 2

acknowledge_found_example : acknowledge ack 50 two ≡ (
  ok (some (answer ack 50 (stored_cursor two.cursors device person))),
  record two { cursors = store_cursor device person 2 50 two.cursors },
)
unfolding two find_person_event record_event accepts drafted logged last_sequence bump
acknowledge_found_example =
    acknowledge_found ack 50 two second_event two-IsSound.gapless two-IsSound.fits refl

missing_not_acknowledged : acknowledge missing 50 two ≡ (ok none, two)
unfolding two find_person_event record_event accepts drafted logged last_sequence bump
missing_not_acknowledged = acknowledge_missing missing 50 two two-IsSound.fits refl

acknowledge_other_example :
    stored_cursor (acknowledge ack 50 two).1.cursors "device:tablet" person
    ≡ stored_cursor two.cursors "device:tablet" person
acknowledge_other_example = acknowledge_other ack 50 two "device:tablet" person refl

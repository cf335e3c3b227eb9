-- ===== src/EventStream.antt =====
-- The event stream of apps/gateway/src/eventStream.ts: a subscriber's queue and writer, and the
-- pass of `PersonEventStreamHub` over a person's events.
-- A frame is what its text is formatted from; its size in bytes is a parameter, `size`, and so is
-- what a subscriber's connection answers to a write.
pub mod Delivery
pub mod Queues
pub mod Passes
pub mod Served
pub mod Heartbeats
use family_ai_platform.Common.{
  ℕ, zero, suc, ◌+◌, ◌-◌, min, String, Bool, true, false, not, ◌&&◌, ◌||◌, Option, none, some, List,
  [], ◌∷◌, ◌++◌, Outcome, ok, err, thrown, ◌==◌, leb, ltb, if◌then◌else◌, map, select, last_of,
  length,
}
use family_ai_platform.EventLog.{EventDb, EventRow, Page, list_person_events}
use family_ai_platform.SyncContract.Events.{sync_event_ok}

pub data Frame : Type 0 where
  connected revoked : Frame
  heartbeat : ℕ → Frame
  event : EventRow → Frame

-- `sink.write(…)`: true, false, or an exception.
pub data Write : Type 0 where
  taken full broken : Write

-- The writer of a subscriber: none, one that waits for `drain`, or one that is done and whose
-- `finally` has yet to run.
pub data Writer : Type 0 where
  idle waiting finished : Writer

-- `Subscriber`. `sent` lists the frames given to `sink.write`, and `sink` is what the connection
-- answers after them.
pub record Subscriber : Type 0 where
  pub person_ref : String
  pub scheduled_cursor : ℕ
  pub closed : Bool
  pub queue : List Frame
  pub queued_frames : ℕ
  pub queued_bytes : ℕ
  pub writer : Writer
  pub sent : List Frame
  pub sink : List Frame → Frame → Write

abbrev pub is_idle : Writer → Bool
is_idle idle = true
is_idle waiting = false
is_idle finished = false

-- `unregister`; the channel's set keeps the subscribers that are not closed.
abbrev pub unregistered : Subscriber → Subscriber
unregistered s = record s { closed = true; queue = []; queued_frames = 0; queued_bytes = 0 }

-- `scheduledCursor` of a subscriber that is still open after `enqueueFrame`.
abbrev pub advance : ℕ → Subscriber → Subscriber
advance n s = if s.closed then s else record s { scheduled_cursor = n }

abbrev pub Pass : Type 0
Pass = Option (Outcome (Unit {0}) × List Subscriber)

abbrev pub is_empty : List EventRow → Bool
is_empty [] = true
is_empty (e ∷ es) = false

abbrev pub next_page :
    (ℕ → List Subscriber → Pass) → ℕ → List EventRow → List Subscriber → Option ℕ → Pass
next_page again after es subs none = some (ok tt, subs)
next_page again after es subs (some n) =
    if leb n after || is_empty es
    then some (err (thrown "EVENT_STREAM_SOURCE_CURSOR_INVALID"), subs)
    else again n subs

-- The end of a page: an error ends the pass, and so does a page without a next cursor.
abbrev pub after_page :
    (ℕ → List Subscriber → Pass) → ℕ → Page → Outcome (Unit {0}) × List Subscriber → Pass
after_page again after page (err e, subs) = some (err e, subs)
after_page again after page (ok u, subs) =
    next_page again after page.events subs page.next_after_sequence

module _ (size : Frame → ℕ) where
  -- The `finally` of the loop of `drainQueue`.
  abbrev pub shifted : Frame → List Frame → Subscriber → Subscriber
  shifted f rest s = record s {
    queue = rest;
    queued_frames = s.queued_frames - 1;
    queued_bytes = s.queued_bytes - size f;
  }

  -- After a write of the queue's first frame: the rest of the loop if the connection took it, a
  -- wait if the connection is full, the end if it is broken.
  abbrev pub after_write : Write → Frame → Subscriber → Subscriber → Subscriber
  after_write taken f s next = next
  after_write full f s next = record s { sent = s.sent ++ f ∷ []; writer = waiting }
  after_write broken f s next = record (unregistered s) { writer = finished }

  -- `drainQueue` up to its first wait, from a subscriber that is open.
  unfoldable pub drain : List Frame → Subscriber → Subscriber
  drain [] s = record s { writer = finished }
  drain (f ∷ rest) s =
      after_write (s.sink s.sent f) f s
        (drain rest (shifted f rest (record s { sent = s.sent ++ f ∷ [] })))

  abbrev pub start_writer : List Frame → Subscriber → Subscriber
  start_writer [] s = s
  start_writer (f ∷ rest) s = drain (f ∷ rest) s

  -- `ensureWriter`.
  abbrev pub ensure_writer : Subscriber → Subscriber
  ensure_writer s = if s.closed || not (is_idle s.writer) then s else start_writer s.queue s

  abbrev pub pushed : Frame → Subscriber → Subscriber
  pushed f s = record s {
    queue = s.queue ++ f ∷ [];
    queued_frames = s.queued_frames + 1;
    queued_bytes = s.queued_bytes + size f;
  }

  abbrev continue_drain : List Frame → Subscriber → Subscriber
  continue_drain [] s = s
  continue_drain (f ∷ rest) s = drain rest (shifted f rest s)

  -- The `drain` event of the connection, which `waitForDrain` waits for: the loop goes on.
  unfoldable pub drained : Subscriber → Subscriber
  unfolding drain
  drained s = elim s.writer [
    | waiting ↦ if s.closed then s else continue_drain s.queue s
    | idle ↦ s
    | finished ↦ s
  ]

  -- The `finally` of a writer that is done.
  unfoldable pub settled : Subscriber → Subscriber
  unfolding drain
  settled s = elim s.writer [
    | finished ↦ ensure_writer (record s { writer = idle })
    | idle ↦ s
    | waiting ↦ s
  ]

  module _ (max_queued_frames max_queued_bytes : ℕ) where
    abbrev pub overflows : Frame → Subscriber → Bool
    overflows f s =
        ltb max_queued_frames (s.queued_frames + 1)
        || ltb max_queued_bytes (s.queued_bytes + size f)

    -- `enqueueFrame`.
    unfoldable pub enqueue_frame : Frame → Subscriber → Subscriber
    unfolding drain
    enqueue_frame f s =
        if s.closed then s else if overflows f s then unregistered s else ensure_writer (pushed f s)

    -- What the loop of `pumpPersonPass` does with an event and a subscriber.
    unfoldable pub offer : EventRow → Subscriber → Subscriber
    unfolding enqueue_frame
    offer e s =
        if not s.closed && ltb s.scheduled_cursor e.event_sequence
        then advance e.event_sequence (enqueue_frame (event e) s)
        else s

    -- The events of one page, in their order, after a number.
    unfoldable pub offer_page :
        String → ℕ → List EventRow → List Subscriber → Outcome (Unit {0}) × List Subscriber
    unfolding offer
    offer_page p previous [] subs = (ok tt, subs)
    offer_page p previous (e ∷ es) subs =
        let rest = offer_page p e.event_sequence es (map (offer e) subs) in
        if not (e.person_ref == p) || leb e.event_sequence previous
        then (err (thrown "EVENT_STREAM_SOURCE_ORDER_INVALID"), subs)
        else if not (sync_event_ok e)
        then (err (thrown "ZodError"), subs)
        else rest

    -- The loop of `pumpPersonPass` over the pages after a number; `none` if the fuel runs out.
    unfoldable pub pump_pages : ℕ → EventDb → String → ℕ → List Subscriber → Pass
    unfolding offer_page
    pump_pages zero db p after subs = none
    pump_pages (suc fuel) db p after subs =
        let page = list_person_events db p after (some 200) in
        after_page (pump_pages fuel db p) after page (offer_page p after page.events subs)

-- The smallest cursor of the subscribers that are not closed, if there is one.
abbrev pub least_of : Option ℕ → ℕ → Option ℕ
least_of none n = some n
least_of (some m) n = some (min n m)

abbrev pub least_cursor : List Subscriber → Option ℕ
least_cursor [] = none
least_cursor (s ∷ subs) =
    if s.closed then least_cursor subs else least_of (least_cursor subs) s.scheduled_cursor

abbrev pub pump_from :
    (Frame → ℕ) → ℕ → ℕ → ℕ → EventDb → String → List Subscriber → Option ℕ → Pass
pump_from size frames bytes fuel db p subs none = some (ok tt, subs)
pump_from size frames bytes fuel db p subs (some after) =
    pump_pages size frames bytes fuel db p after subs

-- `pumpPersonPass`, on the channel's subscribers.
unfoldable pub pump_person_pass :
    (Frame → ℕ) → ℕ → ℕ → ℕ → EventDb → String → List Subscriber → Pass
unfolding pump_pages
pump_person_pass size frames bytes fuel db p subs =
    pump_from size frames bytes fuel db p subs (least_cursor subs)

-- `register`: the subscriber of a new connection, with the frame `connected` in its queue.
unfoldable pub register :
    (Frame → ℕ)
    → ℕ
    → ℕ
    → String
    → ℕ
    → (List Frame → Frame → Write)
    → List Subscriber
    → List Subscriber
unfolding enqueue_frame
register size frames bytes p cursor sink subs =
    subs
    ++ enqueue_frame size frames bytes connected (record {
      person_ref = p;
      scheduled_cursor = cursor;
      closed = false;
      queue = [];
      queued_frames = 0;
      queued_bytes = 0;
      writer = idle;
      sent = [];
      sink = sink;
    })
      ∷ []

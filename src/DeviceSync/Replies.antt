-- ===== src/DeviceSync/Replies.antt =====
-- The routes of apps/gateway/src/deviceSyncRoutes.ts answer within the contract of
-- packages/contracts/src/sync.ts.
use native.Mathlib.Nat.{le_refl}
use family_ai_platform.Common.{
  ℕ, zero, suc, ◌+◌, ◌≤◌, ◌<◌, String, ◌≡◌, refl, sym, ap, subst, ◌∙◌, true, inl, inr, List, [],
  ◌∷◌, arith, some, ok, ◌==◌, eq_iff, ltb, length, Bool-cases, All, all_in, all_in-take,
  all_in-drop, take, drop, ◌-◌, min, length-take, length-drop, map,
}
use family_ai_platform.EventLog.{
  EventDb, EventRow, Page, events_of, latest_person_sequence, list_person_events, clamp_limit,
}
use family_ai_platform.EventLog.Gapless.{IsGapless, Numbered, latest-length}
use family_ai_platform.EventLog.Paging.{
  list_person_events_page, next_cursor, Numbered-drop, Numbered-take, last_of-Numbered,
  clamp_limit_bounds,
}
use family_ai_platform.DeviceSync.{CursorState, stored_cursor, state_of}
use family_ai_platform.DeviceSync.Cursor.{CursorFits, read_cursor_fits, fits_stored}
use family_ai_platform.DeviceSync.Routes.{get_events, response_of, requested_after}
use family_ai_platform.SyncContract.Formats.{fixed_ref, max_safe_integer}
use family_ai_platform.SyncContract.Events.{sync_event_ok, parsed_event}
use family_ai_platform.SyncContract.Pages.{
  EventsQuery, ParsedQuery, parse_events_query, parse_safe_decimal, EventsResponse,
  events_response_ok, parsed_response, events_in_order, next_matches, next_ok,
}

owned-select : (p : String) (es : List EventRow) → All (λ e. e.person_ref ≡ p) (events_of p es)
owned-select p [] = tt
owned-select p (e ∷ es) = elim (Bool-cases (e.person_ref == p)) [
  | inl y ↦ rw y ((eq_iff _ _).0 y, owned-select p es)
  | inr n ↦ rw n (owned-select p es)
]

owned-take :
    (p : String) (n : ℕ) (es : List EventRow)
    → All (λ e. e.person_ref ≡ p) es
    → All (λ e. e.person_ref ≡ p) (take n es)
owned-take p zero es h = tt
owned-take p (suc n) [] h = tt
owned-take p (suc n) (e ∷ es) (q, h) = (q, owned-take p n es h)

owned-drop :
    (p : String) (n : ℕ) (es : List EventRow)
    → All (λ e. e.person_ref ≡ p) es
    → All (λ e. e.person_ref ≡ p) (drop n es)
owned-drop p zero es h = h
owned-drop p (suc n) [] h = tt
owned-drop p (suc n) (e ∷ es) (q, h) = owned-drop p n es h

in_order-Numbered :
    (p : String) (requested latest k : ℕ) (es : List EventRow)
    → All (λ e. e.person_ref ≡ p) es
    → Numbered k es
    → requested ≤ k
    → (0 < length es → k + length es ≤ latest)
    → events_in_order p requested latest k es ≡ true
in_order-Numbered p requested latest k [] o h lo hi = refl
in_order-Numbered p requested latest k (e ∷ es) (own, o) (num, h) lo hi =
    let top : k + suc (length es) ≤ latest = hi (omega arith) in
    let rest =
      in_order-Numbered p requested latest (suc k) es o h (omega arith) (λ pos. omega arith) in
    rw num (ground (arith, eq_iff e.person_ref p, rest))

next_matches-page :
    (after n total : ℕ) (es : List EventRow)
    → Numbered after es
    → 1 ≤ n
    → (after + n < total → length es ≡ n)
    → next_matches es (next_cursor after n total) ≡ true
next_matches-page after n total es h pos full = elim (Bool-cases (ltb (after + n) total)) [
  | inl more ↦ rw more (go es h (full (ground arith)))
  | inr done ↦ rw done refl
]
  where
    go :
        (es : List EventRow)
        → Numbered after es
        → length es ≡ n
        → next_matches es (some (after + n)) ≡ true
    go [] h e = absurd (omega arith)
    go (e ∷ es) h len = ground (arith, last_of-Numbered after e es h)

parsed_query_bounds :
    (q : EventsQuery) {pq : ParsedQuery} (n : ℕ)
    → parse_events_query q ≡ some pq
    → pq.after_sequence ≡ some n
    → n ≤ max_safe_integer
unfolding parse_events_query parse_safe_decimal
parsed_query_bounds q n h e = ground arith

-- The answer that `GET /sync/events` builds for a cursor.
abbrev pub page_for : EventDb → String → String → ℕ → ℕ → EventsResponse
page_for db device person after limit =
    response_of device person
      (state_of device person (latest_person_sequence db person)
        (stored_cursor db.cursors device person))
      after (latest_person_sequence db person) (list_person_events db person after (some limit))

abbrev page : EventDb → String → ℕ → ℕ → Page
page db person after limit = list_person_events db person after (some limit)

abbrev rows : EventDb → String → ℕ → List EventRow
rows db person after = drop after (events_of person db.events)

module _ (db : EventDb) (person : String) (v : IsGapless db) (after limit : ℕ) where
  page_events :
      (page db person after limit).events ≡ take (clamp_limit (some limit)) (rows db person after)
  page_events = (list_person_events_page db person after (some limit) v).0

  page_next :
      (page db person after limit).next_after_sequence
      ≡ next_cursor after (clamp_limit (some limit)) (latest_person_sequence db person)
  page_next =
      (list_person_events_page db person after (some limit) v).1
      ∙ ap (next_cursor after (clamp_limit (some limit))) (sym (latest-length db person v))

  page-Numbered : Numbered after (take (clamp_limit (some limit)) (rows db person after))
  page-Numbered = Numbered-take after (clamp_limit (some limit)) _ (
      subst (λ m. Numbered m (rows db person after)) (omega arith)
        (Numbered-drop 0 after _ (v.numbered person)))

  page_length :
      length (take (clamp_limit (some limit)) (rows db person after))
      ≡ min (clamp_limit (some limit)) (latest_person_sequence db person - after)
  page_length = omega (
    arith,
    length-take (clamp_limit (some limit)) (rows db person after),
    length-drop after (events_of person db.events),
    latest-length db person v,
  )

  page_in_order :
      events_in_order person after
        (latest_person_sequence db person)
        after
        (page db person after limit).events
      ≡ true
  page_in_order = rw page_events (
      in_order-Numbered person after _ after _
        (owned-take person _ _ (owned-drop person after _ (owned-select person db.events)))
        page-Numbered (le_refl after) (λ pos. omega (arith, page_length)))

  page-next_matches :
      next_matches
        (page db person after limit).events
        (page db person after limit).next_after_sequence
      ≡ true
  page-next_matches =
      rw (page_events, page_next)
        (next_matches-page after (clamp_limit (some limit)) _ _ page-Numbered
          (clamp_limit_bounds (some limit)).0 (λ pos. omega (arith, page_length)))

  page_short : length (page db person after limit).events ≤ 200
  page_short = rw page_events (omega (arith, page_length, clamp_limit_bounds (some limit)))

  page-next_ok :
      latest_person_sequence db person ≤ max_safe_integer
      → next_ok (page db person after limit).next_after_sequence ≡ true
  page-next_ok small = rw page_next (ground (arith, clamp_limit_bounds (some limit)))

module _ (db : EventDb) (device person : String) (v : IsGapless db)
    (fits : All (CursorFits db) db.cursors)
    (events : all_in sync_event_ok (events_of person db.events) ≡ true)
    (small : latest_person_sequence db person ≤ max_safe_integer)
    (device_ok : fixed_ref "device:" device ≡ true)
    (person_ok : fixed_ref "person:" person ≡ true) where
  page_accepted :
      (after limit : ℕ)
      → after ≤ max_safe_integer
      → events_response_ok (page_for db device person after limit) ≡ true
  unfolding events_response_ok
  page_accepted after limit le =
      let accepted : all_in sync_event_ok (page db person after limit).events ≡ true =
        rw (page_events db person v after limit) (
          all_in-take sync_event_ok (clamp_limit (some limit)) _
            (all_in-drop sync_event_ok after _ events)) in
      ground (
        arith,
        page_in_order db person v after limit,
        page-next_matches db person v after limit,
        page_short db person v after limit,
        page-next_ok db person v after limit small,
        fits_stored db device person db.cursors fits,
      )

-- With a sound database, whose events of the person are all accepted by the event schema and
-- whose numbers are safe integers, every well-formed query is answered: the response passes its
-- own schema, and holds the first events after the requested cursor, or after the acknowledged
-- one, as many as the limit admits, each as its schema reads it: the stored retryable of a failed
-- turn is a boolean.
pub get_events_accepted :
    (db : EventDb) (device person : String) (q : EventsQuery) (pq : ParsedQuery)
    → IsGapless db
    → All (CursorFits db) db.cursors
    → all_in sync_event_ok (events_of person db.events) ≡ true
    → latest_person_sequence db person ≤ max_safe_integer
    → fixed_ref "device:" device ≡ true
    → fixed_ref "person:" person ≡ true
    → parse_events_query q ≡ some pq
    → (r : EventsResponse) × (get_events db device person q ≡ ok r)
      × (r.events
          ≡ map parsed_event (
              take (clamp_limit (some pq.limit)) (
                drop
                  (requested_after pq.after_sequence (
                    state_of device person
                      (latest_person_sequence db person)
                      (stored_cursor db.cursors device person)))
                  (events_of person db.events))))
unfolding get_events
get_events_accepted db device person q pq v fits events small device_ok person_ok query = (
  parsed_response (page_for db device person after pq.limit),
  rw query (
      rw (read_cursor_fits db device person fits) (
        rw
          (page_accepted db device person v fits events small device_ok person_ok after pq.limit
            after_le)
          refl)),
  ap (λ es. map parsed_event es) (page_events db person v after pq.limit),
)
  where
    s : CursorState
    s =
        state_of device person (latest_person_sequence db person)
          (stored_cursor db.cursors device person)

    after : ℕ
    after = requested_after pq.after_sequence s

    after_le : after ≤ max_safe_integer
    after_le =
        ground
          (arith, fits_stored db device person db.cursors fits, parsed_query_bounds q after query)

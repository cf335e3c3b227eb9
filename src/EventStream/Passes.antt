-- ===== src/EventStream/Passes.antt =====
-- The pass of the hub of apps/gateway/src/eventStream.ts over a person's pages: every subscriber is
-- offered every event after the smallest cursor, and one that stays open is handed each event after
-- its own cursor, once and in order.
use family_ai_platform.Common.{
  ℕ, zero, suc, ◌+◌, ◌-◌, ◌≤◌, ◌<◌, String, true, false, List, [], ◌∷◌, ◌++◌, ◌≡◌, refl, ap, sym,
  subst, arith, ◌∙◌, ltb, leb, Bool-cases, inl, inr, map, some, ok, length, take, drop, all_in,
  all_in-take, all_in-drop, all_in-select, map-map, map_cong, map_same, ◌==◌, take-append-drop,
  drop-drop, take-all, length-drop, length-take,
}
use family_ai_platform.EventLog.{EventDb, EventRow, events_of, list_person_events}
use family_ai_platform.EventLog.Gapless.{IsGapless, Numbered}
use family_ai_platform.EventLog.Paging.{
  Numbered-drop, Numbered-take, list_person_events_page, next_cursor,
}
use family_ai_platform.SyncContract.Events.{sync_event_ok}
use family_ai_platform.EventStream.{
  Frame, Subscriber, Pass, offer, offer_page, pump_pages, after_page, next_page, is_empty,
}

module _ (size : Frame → ℕ) (frames bytes : ℕ) where
  -- The events of a list offered to a subscriber, one after the other.
  unfoldable pub offer_all : List EventRow → Subscriber → Subscriber
  offer_all [] s = s
  offer_all (e ∷ es) s = offer_all es (offer size frames bytes e s)

  pub offer_all-append :
      (xs ys : List EventRow) (s : Subscriber)
      → offer_all (xs ++ ys) s ≡ offer_all ys (offer_all xs s)
  unfolding offer_all
  offer_all-append [] ys s = refl
  offer_all-append (e ∷ xs) ys s = offer_all-append xs ys (offer size frames bytes e s)

  -- The events of the page are the person's, are accepted by the contract, and are numbered on.
  offer_page_lem :
      (p : String) (after : ℕ) (es : List EventRow) (subs : List Subscriber)
      → Numbered after es
      → all_in (λ e. e.person_ref == p) es ≡ true
      → all_in sync_event_ok es ≡ true
      → offer_page size frames bytes p after es subs ≡ (ok tt, map (offer_all es) subs)
  unfolding offer_page offer_all
  offer_page_lem p after [] subs n o a =
      ap (λ t. (ok tt, t)) (sym (map_same (offer_all []) (λ s. refl) subs))
  offer_page_lem p after (e ∷ es) subs (h, n) o a =
      let rest : offer_page size frames bytes p e.event_sequence es
            (map (offer size frames bytes e) subs)
          ≡ (ok tt, map (offer_all (e ∷ es)) subs) =
        ap (λ k. offer_page size frames bytes p k es (map (offer size frames bytes e) subs)) h
        ∙ offer_page_lem p (suc after) es (map (offer size frames bytes e) subs) n (ground arith)
            (ground arith)
        ∙ ap (λ t. (ok tt, t)) (map-map (offer_all es) (offer size frames bytes e) subs) in
      ground (arith, rest)

  is_empty-length : (es : List EventRow) → 0 < length es → is_empty es ≡ false
  is_empty-length [] lt = absurd (omega arith)
  is_empty-length (e ∷ es) lt = refl

  -- Two pages offered after each other are the events of both.
  offer_pages :
      (n after : ℕ) (es : List EventRow) (subs : List Subscriber)
      → map (offer_all (drop (after + n) es)) (map (offer_all (take n (drop after es))) subs)
        ≡ map (offer_all (drop after es)) subs
  offer_pages n after es subs =
      map-map (offer_all (drop (after + n) es)) (offer_all (take n (drop after es))) subs
      ∙ map_cong (λ s. offer_all (drop (after + n) es) (offer_all (take n (drop after es)) s))
          (offer_all (drop after es)) joined subs
    where
      joined :
          (s : Subscriber)
          → offer_all (drop (after + n) es) (offer_all (take n (drop after es)) s)
            ≡ offer_all (drop after es) s
      joined s =
          ap (λ t. offer_all t (offer_all (take n (drop after es)) s)) (sym (drop-drop n after es))
          ∙ sym (offer_all-append (take n (drop after es)) (drop n (drop after es)) s)
          ∙ ap (λ t. offer_all t s) (take-append-drop n (drop after es))

  -- The end of a page of at most 200 events, with the rest of the loop given.
  page_done :
      (again : ℕ → List Subscriber → Pass) (after : ℕ) (es page : List EventRow)
      (subs : List Subscriber)
      → page ≡ take 200 (drop after es)
      → (after + 200 < length es
          → again (after + 200) (map (offer_all (take 200 (drop after es))) subs)
            ≡ some (
              ok tt,
              map
                  (offer_all (drop (after + 200) es))
                  (map (offer_all (take 200 (drop after es))) subs),
            ))
      → next_page again after page
          (map (offer_all (take 200 (drop after es))) subs)
          (next_cursor after 200 (length es))
        ≡ some (ok tt, map (offer_all (drop after es)) subs)
  page_done again after es page subs same rest = elim (Bool-cases (ltb (after + 200) (length es))) [
    | inl more ↦
        let lt : after + 200 < length es = ground arith in
        let some_left : is_empty page ≡ false =
          ap is_empty same
          ∙ is_empty-length (take 200 (drop after es))
              (omega (arith, length-take 200 (drop after es), length-drop after es)) in
        let goes_on : leb (after + 200) after ≡ false = ground arith in
        rw more (
          rw (goes_on, some_left)
            (rest lt ∙ ap (λ t. some (ok tt, t)) (offer_pages 200 after es subs)))
    | inr last ↦ rw last (
        ap (λ t. some (ok tt, map (offer_all t) subs))
          (take-all 200 (drop after es) (
            let le : length es ≤ after + 200 = ground arith in
            omega (arith, length-drop after es, le))))
  ]

  -- In a gapless log whose events of the person the contract accepts, the loop over the pages ends
  -- when it has fuel for every event left, and has offered each of them to every subscriber.
  pub pump_pages_lem :
      (fuel : ℕ) (db : EventDb) (p : String) (after : ℕ) (subs : List Subscriber)
      → IsGapless db
      → all_in sync_event_ok (events_of p db.events) ≡ true
      → length (events_of p db.events) - after < fuel
      → pump_pages size frames bytes fuel db p after subs
        ≡ some (ok tt, map (offer_all (drop after (events_of p db.events))) subs)
  unfolding pump_pages
  pump_pages_lem zero db p after subs v a lt = absurd (omega arith)
  pump_pages_lem (suc fuel) db p after subs v a lt =
      ap
        (after_page (pump_pages size frames bytes fuel db p) after
          (list_person_events db p after (some 200)))
        offered
      ∙ ap
          (next_page (pump_pages size frames bytes fuel db p) after
            (list_person_events db p after (some 200)).events
            (map (offer_all (take 200 (drop after es))) subs))
          paged.1
      ∙ page_done (pump_pages size frames bytes fuel db p) after es
          (list_person_events db p after (some 200)).events subs paged.0
          (λ more.
            pump_pages_lem fuel db p (after + 200) (map (offer_all (take 200 (drop after es))) subs)
              v a (omega (arith, lt, more)))
    where
      es : List EventRow
      es = events_of p db.events

      paged :
          ((list_person_events db p after (some 200)).events ≡ take 200 (drop after es))
          × ((list_person_events db p after (some 200)).next_after_sequence
              ≡ next_cursor after 200 (length es))
      paged = list_person_events_page db p after (some 200) v

      offered :
          offer_page size frames bytes p after
            (list_person_events db p after (some 200)).events
            subs
          ≡ (ok tt, map (offer_all (take 200 (drop after es))) subs)
      offered =
          ap (λ t. offer_page size frames bytes p after t subs) paged.0
          ∙ offer_page_lem p after (take 200 (drop after es)) subs
              (Numbered-take after 200 (drop after es) (
                subst (λ k. Numbered k (drop after es)) (omega arith)
                  (Numbered-drop 0 after es (v.numbered p))))
              (all_in-take (λ e. e.person_ref == p) 200 (drop after es)
                (all_in-drop (λ e. e.person_ref == p) after es
                  (all_in-select (λ e. e.person_ref == p) db.events)))
              (all_in-take sync_event_ok 200 (drop after es) (all_in-drop sync_event_ok after es a))

-- ===== src/EventStream/Served.antt =====
-- What a pass of the hub of apps/gateway/src/eventStream.ts leaves a subscriber with.
use family_ai_platform.Common.{
  ℕ, suc, ◌+◌, ◌-◌, ◌≤◌, ◌<◌, String, true, false, not, ◌&&◌, List, [], ◌∷◌, ◌++◌, ◌≡◌, refl, ap,
  sym, subst, arith, ◌∙◌, ◌⊎◌, if◌then◌else◌, ltb, Bool-cases, inl, inr, append_assoc, append-nil,
  map, max, min, Option, none, some, ok, length, drop, all_in, drop-drop, drop-nil, length-drop,
}
use family_ai_platform.EventLog.{EventDb, EventRow, events_of}
use family_ai_platform.EventLog.Gapless.{IsGapless, Numbered}
use family_ai_platform.EventLog.Paging.{Numbered-drop}
use family_ai_platform.SyncContract.Events.{sync_event_ok}
use family_ai_platform.EventStream.{
  Frame, event, Subscriber, enqueue_frame, offer, pump_person_pass, pump_from, advance,
  least_cursor, least_of,
}
use family_ai_platform.EventStream.Delivery.{Handed, handed, waits_ok, enqueue_handed}
use family_ai_platform.EventStream.Passes.{offer_all, pump_pages_lem}

least_of_le : (o : Option ℕ) (n : ℕ) → (m : ℕ) × (least_of o n ≡ some m) × (m ≤ n)
least_of_le none n = (n, refl, omega arith)
least_of_le (some k) n = (min n k, refl, omega arith)

-- The smallest cursor of the subscribers is at most that of each that is not closed.
least_open :
    (xs ys : List Subscriber) (s : Subscriber)
    → s.closed ≡ false
    → (m : ℕ) × (least_cursor (xs ++ s ∷ ys) ≡ some m) × (m ≤ s.scheduled_cursor)
least_open [] ys s o =
    let (m, e, le) = least_of_le (least_cursor ys) s.scheduled_cursor in (m, rw o e, le)
least_open (x ∷ xs) ys s o =
    let (m, e, le) = least_open xs ys s o in
    elim (Bool-cases x.closed) [
      | inl gone ↦ (m, rw gone e, le)
      | inr still ↦ (
        min x.scheduled_cursor m,
        rw still (ap (λ k. least_of k x.scheduled_cursor) e),
        omega (arith, le),
      )
    ]

module _ (size : Frame → ℕ) (frames bytes : ℕ) where
  offer_closed : (e : EventRow) (s : Subscriber) → s.closed ≡ true → offer size frames bytes e s ≡ s
  unfolding offer
  offer_closed e s c = ground arith

  offer_all_closed :
      (es : List EventRow) (s : Subscriber) → s.closed ≡ true → offer_all size frames bytes es s ≡ s
  unfolding offer_all
  offer_all_closed [] s c = refl
  offer_all_closed (e ∷ es) s c =
      ap (offer_all size frames bytes es) (offer_closed e s c) ∙ offer_all_closed es s c

  offer_seen :
      (e : EventRow) (s : Subscriber)
      → ltb s.scheduled_cursor e.event_sequence ≡ false
      → offer size frames bytes e s ≡ s
  unfolding offer
  offer_seen e s c = ground arith

  advance_closed : (n : ℕ) (s : Subscriber) → (advance n s).closed ≡ s.closed
  advance_closed n s = ground arith

  -- An event that is new to an open subscriber.
  offer_new :
      (e : EventRow) (s : Subscriber)
      → s.closed ≡ false
      → waits_ok s.writer s.queue ≡ true
      → ltb s.scheduled_cursor e.event_sequence ≡ true
      → (offer size frames bytes e s).closed ≡ false
      → Handed (offer size frames bytes e s) (handed s ++ event e ∷ [])
        × ((offer size frames bytes e s).scheduled_cursor ≡ e.event_sequence)
  unfolding offer
  offer_new e s c w n o = (
    subst (λ t. Handed t (handed s ++ event e ∷ [])) (sym moved)
        (enqueue_handed size frames bytes (event e) s c w stays),
    ap (λ t. t.scheduled_cursor) moved,
  )
    where
      next : Subscriber
      next = enqueue_frame size frames bytes (event e) s

      offered : offer size frames bytes e s ≡ advance e.event_sequence next
      offered =
          ap (λ b. if b then advance e.event_sequence next else s)
            (let fresh : (not s.closed && ltb s.scheduled_cursor e.event_sequence) ≡ true =
                ground arith in
              fresh)

      stays : next.closed ≡ false
      stays = sym (advance_closed e.event_sequence next) ∙ sym (ap (λ t. t.closed) offered) ∙ o

      moved : offer size frames bytes e s ≡ record next { scheduled_cursor = e.event_sequence }
      moved =
          offered
          ∙ ap (λ b. if b then next else record next { scheduled_cursor = e.event_sequence }) stays

  -- A subscriber that is still open after a run of numbered events has been handed those after its
  -- cursor, and its cursor is the number of the last one, if that is larger.
  abbrev pub Follows : Subscriber → ℕ → List EventRow → Subscriber → Type 0
  Follows s k es t =
      Handed t (handed s ++ map event (drop (s.scheduled_cursor - k) es))
      × (t.scheduled_cursor ≡ max s.scheduled_cursor (k + length es))

  Follows-seen :
      (e : EventRow) (es : List EventRow) (k : ℕ) (s : Subscriber)
      → ltb s.scheduled_cursor e.event_sequence ≡ false
      → suc k ≤ s.scheduled_cursor
      → Follows s (suc k) es (offer_all size frames bytes es s)
      → Follows s k (e ∷ es) (offer_all size frames bytes es (offer size frames bytes e s))
  Follows-seen e es k s seen le ((got, ready), cursor) =
      subst (λ t. Follows s k (e ∷ es) (offer_all size frames bytes es t))
        (sym (offer_seen e s seen))
        (
          (
            got
                ∙ ap (λ m. handed s ++ map event (drop m (e ∷ es)))
                    (let one_more : suc (s.scheduled_cursor - suc k) ≡ s.scheduled_cursor - k =
                        omega (arith, le) in
                      one_more),
            ready,
          ),
          cursor
              ∙ (let longer : max s.scheduled_cursor (suc k + length es)
                      ≡ max s.scheduled_cursor (k + suc (length es)) =
                    omega arith in
                  longer),
        )

  Follows-new :
      (e : EventRow) (es : List EventRow) (k : ℕ) (s : Subscriber)
      → s.scheduled_cursor - k ≡ 0
      → Handed (offer size frames bytes e s) (handed s ++ event e ∷ [])
      → (offer size frames bytes e s).scheduled_cursor ≡ suc k
      → Follows
          (offer size frames bytes e s)
          (suc k)
          es
          (offer_all size frames bytes es (offer size frames bytes e s))
      → Follows s k (e ∷ es) (offer_all size frames bytes es (offer size frames bytes e s))
  Follows-new e es k s none_left (was, waits) at ((got, ready), cursor) = (
    (
      got
          ∙ ap (λ m. handed (offer size frames bytes e s) ++ map event (drop m es))
              (let no_more : (offer size frames bytes e s).scheduled_cursor - suc k ≡ 0 =
                  omega (arith, at) in
                no_more)
          ∙ ap (λ t. t ++ map event es) was
          ∙ append_assoc (handed s) (event e ∷ []) (map event es)
          ∙ ap (λ m. handed s ++ map event (drop m (e ∷ es))) (sym none_left),
      ready,
    ),
    cursor
        ∙ (let longest : max (offer size frames bytes e s).scheduled_cursor (suc k + length es)
                ≡ max s.scheduled_cursor (k + suc (length es)) =
              omega (arith, at, none_left) in
            longest),
  )

  -- A subscriber that is open at the end was open before.
  stays_open :
      (es : List EventRow) (s : Subscriber)
      → (offer_all size frames bytes es s).closed ≡ false
      → s.closed ≡ false
  stays_open es s o = elim (Bool-cases s.closed) [
    | inl gone ↦ absurd (
        let no : true ≡ false =
          sym gone ∙ sym (ap (λ t. t.closed) (offer_all_closed es s gone)) ∙ o in
        ground arith)
    | inr still ↦ still
  ]

  offer_all-Follows :
      (es : List EventRow) (k : ℕ) (s : Subscriber)
      → Numbered k es
      → s.closed ≡ false
      → waits_ok s.writer s.queue ≡ true
      → k ≤ s.scheduled_cursor
      → (offer_all size frames bytes es s).closed ≡ false
      → Follows s k es (offer_all size frames bytes es s)
  unfolding offer_all
  offer_all-Follows [] k s n c w b o = (
    (
      sym (append-nil (handed s))
          ∙ ap (λ t. handed s ++ map event t) (sym (drop-nil (s.scheduled_cursor - k))),
      w,
    ),
    omega (arith, b),
  )
  offer_all-Follows (e ∷ es) k s (h, n) c w b o =
      elim (Bool-cases (ltb s.scheduled_cursor e.event_sequence)) [
        | inr seen ↦
            let le : suc k ≤ s.scheduled_cursor = ground arith in
            Follows-seen e es k s seen le (
              offer_all-Follows es (suc k) s n c w le (
                sym (ap (λ t. (offer_all size frames bytes es t).closed) (offer_seen e s seen))
                ∙ o))
        | inl new ↦
            let still : (offer size frames bytes e s).closed ≡ false =
              stays_open es (offer size frames bytes e s) o in
            let (was, at) = offer_new e s c w new still in
            let cursor : (offer size frames bytes e s).scheduled_cursor ≡ suc k = at ∙ h in
            let zero_left : s.scheduled_cursor - k ≡ 0 = ground arith in
            Follows-new e es k s zero_left was cursor (
              offer_all-Follows es (suc k) (offer size frames bytes e s) n still was.1
                (omega (arith, cursor)) o)
      ]

  -- The log from its start, of which a run leaves out the first `m` events, at most up to the cursor.
  Follows-from_start :
      (es : List EventRow) (m : ℕ) (s t : Subscriber)
      → m ≤ s.scheduled_cursor
      → Follows s m (drop m es) t
      → Follows s 0 es t
  Follows-from_start es m s t le ((got, ready), cursor) = (
    (
      got
          ∙ ap (λ d. handed s ++ map event d)
              (drop-drop (s.scheduled_cursor - m) m es
                ∙ ap (λ n. drop n es)
                    (let whole : m + (s.scheduled_cursor - m) ≡ s.scheduled_cursor - 0 =
                        omega (arith, le) in
                      whole)),
      ready,
    ),
    omega (arith, cursor, le, length-drop m es),
  )

  closed_or_Follows :
      (es : List EventRow) (m : ℕ) (s : Subscriber)
      → Numbered 0 es
      → s.closed ≡ false
      → waits_ok s.writer s.queue ≡ true
      → m ≤ s.scheduled_cursor
      → ((offer_all size frames bytes (drop m es) s).closed ≡ true)
        ⊎ Follows s 0 es (offer_all size frames bytes (drop m es) s)
  closed_or_Follows es m s n c w le =
      elim (Bool-cases (offer_all size frames bytes (drop m es) s).closed) [
        | inl gone ↦ inl gone
        | inr still ↦ inr (
            Follows-from_start es m s (offer_all size frames bytes (drop m es) s) le (
              offer_all-Follows (drop m es) m s
                (subst (λ k. Numbered k (drop m es)) (omega arith) (Numbered-drop 0 m es n)) c w le
                still))
      ]

  -- A pass over a person's log that is gapless and that the contract accepts ends without an error,
  -- given more fuel than the log has events, and treats every subscriber of the person by one
  -- function. A subscriber that is open, and whose writer waits only while a frame is queued, is
  -- closed by that function, or is handed every event after its cursor, each once and in order,
  -- after all that it was handed before, and its cursor becomes the last event's number if that is
  -- larger.
  pub pass_serves :
      (fuel : ℕ) (db : EventDb) (p : String) (xs ys : List Subscriber) (s : Subscriber)
      → IsGapless db
      → all_in sync_event_ok (events_of p db.events) ≡ true
      → length (events_of p db.events) < fuel
      → s.closed ≡ false
      → waits_ok s.writer s.queue ≡ true
      → (f : Subscriber → Subscriber) × (pump_person_pass size frames bytes fuel db p (xs ++ s ∷ ys)
          ≡ some (ok tt, map f (xs ++ s ∷ ys)))
        × (((f s).closed ≡ true) ⊎ Follows s 0 (events_of p db.events) (f s))
  unfolding pump_person_pass
  pass_serves fuel db p xs ys s v a lt c w = served (least_open xs ys s c)
    where
      es : List EventRow
      es = events_of p db.events

      served :
          (m : ℕ) × (least_cursor (xs ++ s ∷ ys) ≡ some m) × (m ≤ s.scheduled_cursor)
          → (f : Subscriber → Subscriber) × (pump_person_pass size frames bytes fuel db p
                (xs ++ s ∷ ys)
              ≡ some (ok tt, map f (xs ++ s ∷ ys)))
            × (((f s).closed ≡ true) ⊎ Follows s 0 es (f s))
      served (m, e, le) = (
        offer_all size frames bytes (drop m es),
        ap (pump_from size frames bytes fuel db p (xs ++ s ∷ ys)) e
            ∙ pump_pages_lem size frames bytes fuel db p m (xs ++ s ∷ ys) v a (omega (arith, lt)),
        closed_or_Follows es m s (v.numbered p) c w le,
      )

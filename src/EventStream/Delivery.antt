-- ===== src/EventStream/Delivery.antt =====
-- What a subscriber of apps/gateway/src/eventStream.ts is handed: the frames given to its
-- connection, and those in its queue.
use family_ai_platform.Common.{
  ℕ, Bool, true, false, not, ◌||◌, List, [], ◌∷◌, ◌++◌, ◌≡◌, refl, ap, sym, subst, arith, ◌∙◌,
  if◌then◌else◌, Bool-cases, inl, inr, append_assoc,
}
use family_ai_platform.EventStream.{
  Frame, Subscriber, Writer, idle, waiting, finished, Write, taken, full, broken, is_idle, drain,
  ensure_writer, pushed, enqueue_frame, unregistered, shifted, overflows, start_writer,
}

-- The frames of a queue that the connection has not been given: while the writer waits, the first
-- one has been given to it.
abbrev pub unsent : Writer → List Frame → List Frame
unsent waiting [] = []
unsent waiting (f ∷ rest) = rest
unsent idle q = q
unsent finished q = q

abbrev pub handed : Subscriber → List Frame
handed s = s.sent ++ unsent s.writer s.queue

-- A writer that waits, waits for the first frame of the queue.
abbrev pub waits_ok : Writer → List Frame → Bool
waits_ok waiting [] = false
waits_ok waiting (f ∷ rest) = true
waits_ok idle q = true
waits_ok finished q = true

-- An open subscriber that has been handed these frames.
abbrev pub Handed : Subscriber → List Frame → Type 0
Handed s fs = (handed s ≡ fs) × (waits_ok s.writer s.queue ≡ true)

module _ (size : Frame → ℕ) where
  -- Draining a queue loses nothing and changes no order, as long as the subscriber stays open.
  drain-Handed :
      (q : List Frame) (s : Subscriber)
      → s.queue ≡ q
      → (drain size q s).closed ≡ false
      → Handed (drain size q s) (s.sent ++ q)
  unfolding drain
  drain-Handed [] s e o = (ap (λ t. s.sent ++ t) e, refl)
  drain-Handed (f ∷ rest) s e o =
      drained (s.sink s.sent f) refl
        (drain-Handed rest (shifted size f rest (record s { sent = s.sent ++ f ∷ [] })) refl)
    where
      drained :
          (w : Write)
          → s.sink s.sent f ≡ w
          → ((drain size rest (shifted size f rest (record s { sent = s.sent ++ f ∷ [] }))).closed
                ≡ false
              → Handed
                  (drain size rest (shifted size f rest (record s { sent = s.sent ++ f ∷ [] })))
                  ((s.sent ++ f ∷ []) ++ rest))
          → Handed (drain size (f ∷ rest) s) (s.sent ++ f ∷ rest)
      drained taken w h = rw w (
          subst
            (Handed (drain size rest (shifted size f rest (record s { sent = s.sent ++ f ∷ [] }))))
            (append_assoc s.sent (f ∷ []) rest) (h (rw w at o)))
      drained full w h = rw w (
        ap (λ t. (s.sent ++ f ∷ []) ++ unsent waiting t) e ∙ append_assoc s.sent (f ∷ []) rest,
        ap (waits_ok waiting) e,
      )
      drained broken w h = absurd (let no : true ≡ false = rw w at o in ground arith)

  start_writer-push :
      (q : List Frame) (f : Frame) (s : Subscriber)
      → start_writer size (q ++ f ∷ []) s ≡ drain size (q ++ f ∷ []) s
  start_writer-push [] f s = refl
  start_writer-push (g ∷ q) f s = refl

  starts :
      (f : Frame) (s : Subscriber)
      → s.closed ≡ false
      → s.writer ≡ idle
      → ensure_writer size (pushed size f s) ≡ drain size (s.queue ++ f ∷ []) (pushed size f s)
  starts f s c e =
      ap
        (λ b.
          if b then pushed size f s else start_writer size (s.queue ++ f ∷ []) (pushed size f s))
        (let stopped : (s.closed || not (is_idle s.writer)) ≡ false = ground arith in stopped)
      ∙ start_writer-push s.queue f (pushed size f s)

  -- A frame that joins the queue of an open subscriber.
  writer_handed :
      (f : Frame) (s : Subscriber)
      → s.closed ≡ false
      → waits_ok s.writer s.queue ≡ true
      → (ensure_writer size (pushed size f s)).closed ≡ false
      → Handed (ensure_writer size (pushed size f s)) (handed s ++ f ∷ [])
  writer_handed f s c k o = go s.writer s.queue refl refl
    where
      go :
          (w : Writer) (q : List Frame)
          → s.writer ≡ w
          → s.queue ≡ q
          → Handed (ensure_writer size (pushed size f s)) (handed s ++ f ∷ [])
      go waiting [] e r = absurd (ground arith)
      go waiting (g ∷ q) e r = rw (c, e, r) (sym (append_assoc s.sent q (f ∷ [])), refl)
      go finished q e r = rw (c, e) (sym (append_assoc s.sent s.queue (f ∷ [])), refl)
      go idle q e r =
          subst (λ t. Handed t (handed s ++ f ∷ [])) (sym (starts f s c e))
            (subst (Handed (drain size (s.queue ++ f ∷ []) (pushed size f s)))
              (sym (append_assoc s.sent s.queue (f ∷ []))
                ∙ ap (λ w. (s.sent ++ unsent w s.queue) ++ f ∷ []) (sym e))
              (drain-Handed (s.queue ++ f ∷ []) (pushed size f s) refl
                (sym (ap (λ t. t.closed) (starts f s c e)) ∙ o)))

  -- What `enqueueFrame` does with an open subscriber: if it stays open, it has been handed the
  -- frame, after all those before it.
  module _ (frames bytes : ℕ) where
    pub enqueue_handed :
        (f : Frame) (s : Subscriber)
        → s.closed ≡ false
        → waits_ok s.writer s.queue ≡ true
        → (enqueue_frame size frames bytes f s).closed ≡ false
        → Handed (enqueue_frame size frames bytes f s) (handed s ++ f ∷ [])
    unfolding enqueue_frame
    enqueue_handed f s c k o = elim (Bool-cases (overflows size frames bytes f s)) [
      | inl over ↦ absurd (let no : true ≡ false = rw (c, over) at o in ground arith)
      | inr fits ↦
          let same : enqueue_frame size frames bytes f s ≡ ensure_writer size (pushed size f s) =
            ap
              (λ b.
                if b
                then s
                else if overflows size frames bytes f s
                then unregistered s
                else ensure_writer size (pushed size f s))
              c
            ∙ ap (λ b. if b then unregistered s else ensure_writer size (pushed size f s)) fits in
          subst (λ t. Handed t (handed s ++ f ∷ [])) (sym same)
            (writer_handed f s c k (sym (ap (λ t. t.closed) same) ∙ o))
    ]

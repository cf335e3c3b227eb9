-- ===== src/EventStream/Queues.antt =====
-- The bounds of a subscriber's queue in apps/gateway/src/eventStream.ts.
use family_ai_platform.Common.{
  ℕ, ◌+◌, ◌≤◌, false, List, [], ◌∷◌, ◌++◌, ◌≡◌, refl, ap, sym, subst, arith, ◌∙◌, if◌then◌else◌,
  Bool-cases, inl, inr, length, length-append,
}
use family_ai_platform.EventStream.{
  Frame, Subscriber, Writer, idle, waiting, finished, drain, ensure_writer, pushed, shifted,
  enqueue_frame, overflows, unregistered, drained, settled,
}

module _ (size : Frame → ℕ) (frames bytes : ℕ) where
  abbrev pub total_size : List Frame → ℕ
  total_size [] = 0
  total_size (f ∷ q) = size f + total_size q

  total_size-push : (q : List Frame) (f : Frame) → total_size (q ++ f ∷ []) ≡ total_size q + size f
  total_size-push [] f = omega arith
  total_size-push (g ∷ q) f = omega (arith, total_size-push q f)

  -- The two counters are the number and the size of the queued frames, and neither is over its
  -- limit.
  abbrev pub Within : Subscriber → Type 0
  Within s =
      (s.queued_frames ≡ length s.queue)
      × (s.queued_bytes ≡ total_size s.queue)
      × (s.queued_frames ≤ frames)
      × (s.queued_bytes ≤ bytes)

  shifted-Within :
      (f : Frame) (rest : List Frame) (s : Subscriber)
      → s.queue ≡ f ∷ rest
      → Within s
      → Within (shifted size f rest s)
  shifted-Within f rest s e (n, b, hn, hb) = (
    omega (arith, n, ap length e),
    omega (arith, b, ap total_size e),
    omega (arith, hn),
    omega (arith, hb),
  )

  drain-Within :
      (q : List Frame) (s : Subscriber) → s.queue ≡ q → Within s → Within (drain size q s)
  unfolding drain
  drain-Within [] s e w = w
  drain-Within (f ∷ rest) s e w = ground (
    arith,
    drain-Within rest (shifted size f rest (record s { sent = s.sent ++ f ∷ [] })) refl
        (shifted-Within f rest (record s { sent = s.sent ++ f ∷ [] }) e w),
  )

  ensure_writer-Within : (s : Subscriber) → Within s → Within (ensure_writer size s)
  ensure_writer-Within s w = start s.queue refl
    where
      start : (q : List Frame) → s.queue ≡ q → Within (ensure_writer size s)
      start [] e = ground arith
      start (f ∷ rest) e = ground (arith, drain-Within (f ∷ rest) s e w)

  pushed-Within :
      (f : Frame) (s : Subscriber)
      → overflows size frames bytes f s ≡ false
      → Within s
      → Within (pushed size f s)
  pushed-Within f s fits (n, b, hn, hb) = (
    omega (arith, n, length-append s.queue (f ∷ [])),
    omega (arith, b, total_size-push s.queue f),
    ground arith,
    ground arith,
  )

  enqueue-Within :
      (f : Frame) (s : Subscriber) → Within s → Within (enqueue_frame size frames bytes f s)
  unfolding enqueue_frame
  enqueue-Within f s w = elim (Bool-cases s.closed) [
    | inl gone ↦ rw gone w
    | inr still ↦ elim (Bool-cases (overflows size frames bytes f s)) [
      | inl over ↦ rw (still, over) (refl, refl, omega arith, omega arith)
      | inr fits ↦
          subst Within
            (sym (
              ap
                (λ b.
                  if b
                  then s
                  else if overflows size frames bytes f s
                  then unregistered s
                  else ensure_writer size (pushed size f s))
                still
              ∙ ap (λ b. if b then unregistered s else ensure_writer size (pushed size f s)) fits))
            (ensure_writer-Within (pushed size f s) (pushed-Within f s fits w))
    ]
  ]

  drained-Within : (s : Subscriber) → Within s → Within (drained size s)
  unfolding drained
  drained-Within s w = by_writer s.writer s.queue refl refl
    where
      by_writer :
          (k : Writer) (q : List Frame) → s.writer ≡ k → s.queue ≡ q → Within (drained size s)
      by_writer idle q e r = ground arith
      by_writer finished q e r = ground arith
      by_writer waiting [] e r = ground arith
      by_writer waiting (f ∷ rest) e r =
          ground
            (arith, drain-Within rest (shifted size f rest s) refl (shifted-Within f rest s r w))

  settled-Within : (s : Subscriber) → Within s → Within (settled size s)
  unfolding settled
  settled-Within s w = by_writer s.writer refl
    where
      by_writer : (k : Writer) → s.writer ≡ k → Within (settled size s)
      by_writer idle e = ground arith
      by_writer waiting e = ground arith
      by_writer finished e = ground (arith, ensure_writer-Within (record s { writer = idle }) w)

  -- A subscriber whose counters are the number and the size of its queued frames, both within the
  -- limits, is so again after a frame is enqueued, after its connection drains, and after its
  -- writer is done, whatever the connection answers.
  pub queue_bounded :
      (f : Frame) (s : Subscriber)
      → Within s
      → Within (enqueue_frame size frames bytes f s)
        × Within (drained size s)
        × Within (settled size s)
  queue_bounded f s w = (enqueue-Within f s w, drained-Within s w, settled-Within s w)

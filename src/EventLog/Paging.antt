-- ===== src/EventLog/Paging.antt =====
-- Reading the log of apps/gateway/src/domainEventCore.ts page by page.
use family_ai_platform.Common.{
  ℕ, zero, suc, ◌+◌, ◌≤◌, ◌<◌, String, ◌≡◌, refl, ap, subst, ◌∙◌, Bool, ◌&&◌, inl, inr, List, [],
  ◌∷◌, arith, Option, none, some, ltb, if◌then◌else◌, length, select, Bool-cases, take, drop,
  take-take, length-take, length-drop, order_by, insert_by, last_of,
}
use family_ai_platform.EventLog.{
  EventDb, EventRow, events_of, sequence_le, clamp_limit, after_cursor, last_sequence_of, page_of,
  list_person_events,
}
use family_ai_platform.EventLog.Gapless.{Numbered, IsGapless}

select-and :
    (p q : EventRow → Bool) (es : List EventRow)
    → select (λ e. p e && q e) es ≡ select q (select p es)
select-and p q [] = refl
select-and p q (e ∷ es) = ground (arith, select-and p q es)

select-all :
    (k after : ℕ) (es : List EventRow)
    → Numbered k es
    → after ≤ k
    → select (λ e. ltb after e.event_sequence) es ≡ es
select-all k after [] h le = refl
select-all k after (e ∷ es) (p, h) le =
    let rest = select-all (suc k) after es h (omega arith) in ground arith

select-after :
    (k d : ℕ) (es : List EventRow)
    → Numbered k es
    → select (λ e. ltb (k + d) e.event_sequence) es ≡ drop d es
select-after k zero es h = select-all k (k + 0) es h (omega arith)
select-after k (suc d) [] h = refl
select-after k (suc d) (e ∷ es) (p, h) =
    let rest = select-after (suc k) d es h in
    let same : suc k + d ≡ k + suc d = omega arith in
    let moved : select (λ e. ltb (k + suc d) e.event_sequence) es ≡ drop d es = rw (← same) rest in
    ground arith

insert_by-head :
    (k : ℕ) (e : EventRow) (es : List EventRow)
    → Numbered k (e ∷ es)
    → insert_by sequence_le e es ≡ e ∷ es
insert_by-head k e [] h = refl
insert_by-head k e (x ∷ es) (p, (q, h)) = ground arith

order_by-Numbered : (k : ℕ) (es : List EventRow) → Numbered k es → order_by sequence_le es ≡ es
order_by-Numbered k [] h = refl
order_by-Numbered k (e ∷ es) h = rw (order_by-Numbered (suc k) es h.1) (insert_by-head k e es h)

pub Numbered-drop : (k n : ℕ) (es : List EventRow) → Numbered k es → Numbered (k + n) (drop n es)
Numbered-drop k zero es h = subst (λ m. Numbered m es) (omega arith) h
Numbered-drop k (suc n) [] h = tt
Numbered-drop k (suc n) (e ∷ es) (p, h) =
    subst (λ m. Numbered m (drop n es)) (omega arith) (Numbered-drop (suc k) n es h)

pub Numbered-take : (k n : ℕ) (es : List EventRow) → Numbered k es → Numbered k (take n es)
Numbered-take k zero es h = tt
Numbered-take k (suc n) [] h = tt
Numbered-take k (suc n) (e ∷ es) (p, h) = (p, Numbered-take (suc k) n es h)

-- The query of `listPersonEvents` finds the person's events after the first `after` ones.
pub after_cursor_lem :
    (db : EventDb) (p : String) (after : ℕ)
    → IsGapless db
    → after_cursor db p after ≡ drop after (events_of p db.events)
after_cursor_lem db p after v =
    ap (order_by sequence_le) (select-and _ _ db.events ∙ after_zero)
    ∙ order_by-Numbered after _ (
        subst (λ m. Numbered m (drop after es)) (omega arith)
          (Numbered-drop 0 after es (v.numbered p)))
  where
    es : List EventRow
    es = events_of p db.events

    after_zero : select (λ e. ltb after e.event_sequence) es ≡ drop after es
    after_zero =
        subst (λ m. select (λ e. ltb m e.event_sequence) es ≡ drop after es) (omega arith)
          (select-after 0 after es (v.numbered p))

pub last_of-Numbered :
    (k : ℕ) (e : EventRow) (es : List EventRow)
    → Numbered k (e ∷ es)
    → (last_of e es).event_sequence ≡ k + length (e ∷ es)
last_of-Numbered k e [] (h, _) = omega arith
last_of-Numbered k e (x ∷ es) (h, t) = omega (arith, last_of-Numbered (suc k) x es t)

last_sequence_of-Numbered :
    (k : ℕ) (es : List EventRow)
    → Numbered k es
    → 0 < length es
    → last_sequence_of es ≡ some (k + length es)
last_sequence_of-Numbered k [] h pos = absurd (omega arith)
last_sequence_of-Numbered k (e ∷ es) h pos = ap some (last_of-Numbered k e es h)

pub clamp_limit_bounds : (l : Option ℕ) → (1 ≤ clamp_limit l) × (clamp_limit l ≤ 200)
clamp_limit_bounds none = omega arith
clamp_limit_bounds (some n) = omega arith

-- The cursor that a page hands on: after a full page that leaves events unread, the number of
-- the page's last event.
abbrev pub next_cursor : ℕ → ℕ → ℕ → Option ℕ
next_cursor after n total = if ltb (after + n) total then some (after + n) else none

page_of-Numbered :
    (n after : ℕ) (rows : List EventRow)
    → Numbered after rows
    → 1 ≤ n
    → (page_of n (take (suc n) rows)).next_after_sequence
      ≡ next_cursor after n (after + length rows)
page_of-Numbered n after rows h pos = elim (Bool-cases (ltb n (length rows))) [
  | inl more ↦ ground (
    arith,
    length-take (suc n) rows,
    length-take n rows,
    take-take n rows,
    last_sequence_of-Numbered after (take n rows) (Numbered-take after n rows h),
  )
  | inr rest ↦ ground (arith, length-take (suc n) rows)
]

-- In a gapless log a page of `listPersonEvents` holds the person's first events after the cursor,
-- in order, as many as the limit admits, and it names the next cursor exactly when it leaves some
-- out.
pub list_person_events_page :
    (db : EventDb) (p : String) (after : ℕ) (limit : Option ℕ)
    → IsGapless db
    → ((list_person_events db p after limit).events
        ≡ take (clamp_limit limit) (drop after (events_of p db.events)))
      × ((list_person_events db p after limit).next_after_sequence
          ≡ next_cursor after (clamp_limit limit) (length (events_of p db.events)))
unfolding list_person_events
list_person_events_page db p after limit v =
    rw (after_cursor_lem db p after v) (
      take-take n rows,
      page_of-Numbered n after rows numbered (clamp_limit_bounds limit).0 ∙ total,
    )
  where
    n : ℕ
    n = clamp_limit limit

    rows : List EventRow
    rows = drop after (events_of p db.events)

    numbered : Numbered after rows
    numbered =
        subst (λ m. Numbered m rows) (omega arith)
          (Numbered-drop 0 after (events_of p db.events) (v.numbered p))

    total :
        next_cursor after n (after + length rows)
        ≡ next_cursor after n (length (events_of p db.events))
    total = ground (arith, length-drop after (events_of p db.events), (clamp_limit_bounds limit).0)

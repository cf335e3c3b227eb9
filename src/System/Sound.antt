-- ===== src/System/Sound.antt =====
-- The invariant of the event database, and that every operation keeps it.
use native.Mathlib.Nat.{le_trans}
use mathlib.Core.List.{map-append}
use family_ai_platform.Common.{
  ℕ, ◌≤◌, String, ◌≡◌, refl, sym, ap, subst, ◌∙◌, true, false, ◌⊎◌, inl, inr, List, [], ◌∷◌, ◌++◌,
  arith, Option, none, some, ◌==◌, eq_iff, if◌then◌else◌, length, length-append, All, All-append,
  map, exists_in-map, exists_in-append,
}
use family_ai_platform.EventLog.{
  EventDb, EventRow, OutboxRow, CursorRow, Draft, OutboxStatus, pending, claimed, published,
  accepts, drafted, logged, events_of, outbox_of, latest_person_sequence,
}
use family_ai_platform.EventLog.Gapless.{
  IsGapless, logged-IsGapless, latest-length, events_of-append,
}
use family_ai_platform.Outbox.{mem_text}
use family_ai_platform.Outbox.Leases.{refs_of, Distinct}
use family_ai_platform.DeviceSync.Cursor.{CursorFits}

-- The `CHECK` of `outbox_events` on the status and the claim.
abbrev pub Shape : OutboxStatus → Option String → Option ℕ → Option ℕ → Type 0
Shape pending by until at = (by ≡ none) × (until ≡ none) × (at ≡ none)
Shape claimed by until at =
    ((w : String) × (by ≡ some w)) × ((u : ℕ) × (until ≡ some u)) × (at ≡ none)
Shape published by until at = (by ≡ none) × (until ≡ none) × ((t : ℕ) × (at ≡ some t))

abbrev pub HasShape : OutboxRow → Type 0
HasShape r = Shape r.status r.claimed_by r.claimed_until r.published_at

abbrev pub event_refs : List EventRow → List String
event_refs es = map (λ e. e.event_ref) es

-- Each person's events are numbered without a gap, every event has one outbox row, in the same
-- order, no reference stands twice, the outbox rows have the shape that the table checks, and the
-- device cursors stay within the log.
pub record IsSound (db : EventDb) : Type 0 where
  pub gapless : IsGapless db
  pub paired : refs_of db.outbox ≡ event_refs db.events
  pub distinct : Distinct (refs_of db.outbox)
  pub shaped : All HasShape db.outbox
  pub fits : All (CursorFits db) db.cursors

-- What an operation that adds to the log does to it.
abbrev pub Logs : EventDb → EventDb → Type 0
Logs db db' =
    (db' ≡ db)
    ⊎ ((d : Draft) × (ref : String) × (accepts db (drafted d ref db) ≡ true)
        × (db' ≡ logged d ref db))

pub Distinct-append :
    (xs : List String) (x : String) → mem_text x xs ≡ false → Distinct xs → Distinct (xs ++ x ∷ [])
Distinct-append [] x h d = (refl, tt)
Distinct-append (y ∷ xs) x h (f, d) =
    let apart : (y == x) ≡ false = ground arith in
    (
      ground (arith, exists_in-append (λ z. z == y) xs (x ∷ []), eq_iff x y, eq_iff y x),
      Distinct-append xs x (ground arith) d,
    )

latest-logged :
    (d : Draft) (ref : String) (db : EventDb) (p : String)
    → IsGapless db
    → latest_person_sequence db p ≤ latest_person_sequence (logged d ref db) p
unfolding logged
latest-logged d ref db p v =
    rw (latest-length db p v, latest-length (logged d ref db) p (logged-IsGapless d ref db v)) more
  where
    e : EventRow
    e = drafted d ref db

    more : length (events_of p db.events) ≤ length (events_of p (logged d ref db).events)
    more = rw (events_of-append p db.events e) (
        omega
          (arith, length-append (events_of p db.events) (if e.person_ref == p then e ∷ [] else [])))

pub fits-more :
    (db db' : EventDb)
    → ((p : String) → latest_person_sequence db p ≤ latest_person_sequence db' p)
    → (rows : List CursorRow) → All (CursorFits db) rows
    → All (CursorFits db') rows
fits-more db db' more [] h = tt
fits-more db db' more (r ∷ rows) ((lo, hi), h) =
    ((lo, le_trans hi (more r.person_ref)), fits-more db db' more rows h)

accepts-fresh :
    (db : EventDb) (e : EventRow)
    → accepts db e ≡ true
    → mem_text e.event_ref (refs_of db.outbox) ≡ false
unfolding accepts
accepts-fresh db e h =
    exists_in-map (λ x. x == e.event_ref) (λ (r : OutboxRow). r.event_ref) db.outbox ∙ ground arith

logged-IsSound :
    (d : Draft) (ref : String) (db : EventDb)
    → IsSound db
    → accepts db (drafted d ref db) ≡ true
    → IsSound (logged d ref db)
unfolding logged
logged-IsSound d ref db v fresh = record {
  gapless = logged-IsGapless d ref db v.gapless;
  paired =
      map-append (λ (r : OutboxRow). r.event_ref) db.outbox (outbox_of e ∷ [])
      ∙ ap (λ l. l ++ ref' ∷ []) v.paired
      ∙ sym (map-append (λ (x : EventRow). x.event_ref) db.events (e ∷ []));
  distinct =
      rw (map-append (λ (r : OutboxRow). r.event_ref) db.outbox (outbox_of e ∷ []))
        (Distinct-append _ _ (accepts-fresh db e fresh) v.distinct);
  shaped = All-append HasShape db.outbox _ v.shaped (((refl, refl, refl), tt));
  fits = fits-more db (logged d ref db) (λ p. latest-logged d ref db p v.gapless) db.cursors v.fits;
}
  where
    e : EventRow
    e = drafted d ref db

    ref' : String
    ref' = e.event_ref

pub Logs-IsSound : {db db' : EventDb} → IsSound db → Logs db db' → IsSound db'
Logs-IsSound v (inl same) = subst IsSound (sym same) v
Logs-IsSound {db} v (inr (d, ref, fresh, same)) =
    subst IsSound (sym same) (logged-IsSound d ref db v fresh)

-- ===== src/Outbox/Leases.antt =====
-- Leases of `claimOutboxBatch` (apps/gateway/src/domainEventCore.ts): who holds a claimed event.
use family_ai_platform.Common.{
  ℕ, ◌<◌, String, ◌≡◌, refl, subst, ◌∙◌, Bool, true, false, not, ◌&&◌, ◌||◌, inl, inr, List, [],
  ◌∷◌, arith, Option, none, some, ok, ◌==◌, ==_refl, eq_iff, eqb, select, Bool-cases, Option-cases,
  map, exists_in, all_in, update, changes, first, is_text, exists_in-take, exists_in-map,
  exists_in-order_by, first_holds, map-update,
}
use family_ai_platform.EventLog.{EventDb, EventRow, OutboxRow, clamp_limit}
use family_ai_platform.Outbox.{
  Claim, Delivery, Joined, is_claimed, mem_text, join_events, dispatch_le, ready, candidates,
  claimable, taken, claim_each, deliveries, lapsed, released, release_lapsed, claim_outbox_batch,
}

abbrev pub refs_of : List OutboxRow → List String
refs_of rows = map (λ r. r.event_ref) rows

-- The primary key of `outbox_events`: no reference twice.
abbrev pub Distinct : List String → Type 0
Distinct [] = Unit
Distinct (x ∷ xs) = (mem_text x xs ≡ false) × Distinct xs

abbrev is_until : Option ℕ → ℕ → Bool
is_until none u = false
is_until (some v) u = eqb v u

-- If the row is the event's, then it is claimed by the claim's worker until the claim's deadline.
abbrev held : Claim → String → OutboxRow → Bool
held c ref r =
    not (r.event_ref == ref)
    || (is_claimed r.status
        && is_text r.claimed_by c.worker_ref
        && is_until r.claimed_until c.claimed_until)

module _ (c : Claim) (ref : String) where
  changes-absent :
      (rows : List OutboxRow)
      → mem_text ref (refs_of rows) ≡ false
      → changes (claimable ref) rows ≡ 0
  changes-absent [] h = refl
  changes-absent (r ∷ rows) h = ground (arith, changes-absent rows)

  held-absent :
      (q : OutboxRow → Bool) (rows : List OutboxRow)
      → mem_text ref (refs_of rows) ≡ false
      → all_in (held c ref) (update q (taken c) rows) ≡ true
  held-absent q [] h = refl
  held-absent q (r ∷ rows) h = ground (arith, held-absent q rows)

  held-taken : (r : OutboxRow) → held c ref (taken c r) ≡ true
  held-taken r = ground (arith, ==_refl c.worker_ref)

  held-claim :
      (rows : List OutboxRow)
      → Distinct (refs_of rows)
      → changes (claimable ref) rows ≡ 1
      → all_in (held c ref) (update (claimable ref) (taken c) rows) ≡ true
  held-claim [] d h = absurd (omega arith)
  held-claim (r ∷ rows) (fresh, d) h = elim (Bool-cases (r.event_ref == ref)) [
    | inl mine ↦
        let gone : mem_text ref (refs_of rows) ≡ false =
          subst (λ x. mem_text x (refs_of rows) ≡ false) ((eq_iff _ _).0 mine) fresh in
        ground
          (arith, changes-absent rows gone, held-absent (claimable ref) rows gone, held-taken r)
    | inr other ↦ ground (arith, held-claim rows d)
  ]

  held-update :
      (q : OutboxRow → Bool) (rows : List OutboxRow)
      → all_in (held c ref) rows ≡ true
      → all_in (held c ref) (update q (taken c) rows) ≡ true
  held-update q [] h = refl
  held-update q (r ∷ rows) h = ground (arith, held-taken r, held-update q rows)

  held-release :
      (now : ℕ) (rows : List OutboxRow)
      → now < c.claimed_until
      → all_in (held c ref) rows ≡ true
      → all_in (held c ref) (release_lapsed now rows) ≡ true
  unfolding release_lapsed
  held-release now [] lt h = refl
  held-release now (r ∷ rows) lt h = ground (arith, held-release now rows)

  ready-held :
      (now : ℕ) (es : List EventRow) (rows : List OutboxRow)
      → all_in (held c ref) rows ≡ true
      → exists_in (λ j. j.entry.event_ref == ref) (select (ready now) (join_events es rows)) ≡ false
  ready-held now es [] h = refl
  ready-held now es (r ∷ rows) h = ground (arith, ready-held now es rows)

  deliveries-absent :
      (refs : List String) (es : List EventRow) (rows : List OutboxRow)
      → mem_text ref refs ≡ false
      → exists_in (λ d. d.event.event_ref == ref) (deliveries refs es rows) ≡ false
  unfolding deliveries
  deliveries-absent refs es rows h = simp (exists_in-map, exists_in-order_by) (go rows)
    where
      go :
          (rows : List OutboxRow)
          → exists_in
              (λ j. j.event.event_ref == ref)
              (select (λ j. mem_text j.entry.event_ref refs) (join_events es rows))
            ≡ false
      go [] = refl
      go (r ∷ rows) = elim (Option-cases (first (λ e. e.event_ref == r.event_ref) es)) [
        | inl missing ↦ rw missing (go rows)
        | inr (e, found) ↦ rw found (
            ground (
              arith,
              go rows,
              eq_iff e.event_ref ref,
              eq_iff e.event_ref r.event_ref,
              first_holds (λ x. x.event_ref == r.event_ref) es e found,
              h,
            ))
      ]

  claim_each-absent :
      (k : Claim) (refs : List String) (rows : List OutboxRow)
      → mem_text ref refs ≡ false
      → mem_text ref (claim_each k refs rows).1 ≡ false
  unfolding claim_each
  claim_each-absent k [] rows h = refl
  claim_each-absent k (x ∷ refs) rows h =
      ground (arith, claim_each-absent k refs (update (claimable x) (taken k) rows))

  candidates-held :
      (k : Claim) (es : List EventRow) (rows : List OutboxRow)
      → all_in (held c ref) rows ≡ true
      → mem_text ref (candidates k es rows) ≡ false
  unfolding candidates
  candidates-held k es rows h =
      exists_in-map (λ x. x == ref) (λ (j : Joined). j.entry.event_ref) _
      ∙ exists_in-take _ (clamp_limit k.limit) _ (
          exists_in-order_by dispatch_le _ (select (ready k.now) (join_events es rows))
          ∙ ready-held k.now es rows h)

  claim_each-held :
      (refs : List String) (rows : List OutboxRow)
      → all_in (held c ref) rows ≡ true
      → all_in (held c ref) (claim_each c refs rows).0 ≡ true
  unfolding claim_each
  claim_each-held [] rows h = h
  claim_each-held (x ∷ refs) rows h = claim_each-held refs _ (held-update (claimable x) rows h)

pub refs_of-claim :
    (c : Claim) (x : String) (rows : List OutboxRow)
    → refs_of (update (claimable x) (taken c) rows) ≡ refs_of rows
refs_of-claim c x rows = map-update (λ r. r.event_ref) (claimable x) (taken c) (λ r. refl) rows

pub refs_of-release :
    (now : ℕ) (rows : List OutboxRow) → refs_of (release_lapsed now rows) ≡ refs_of rows
unfolding release_lapsed
refs_of-release now rows =
    map-update (λ r. r.event_ref) (lapsed now) (released now) (λ r. refl) rows

-- Every reference that the loop counts as claimed is held by the claim afterwards.
claim_each-holds :
    (c : Claim) (ref : String) (refs : List String) (rows : List OutboxRow)
    → Distinct (refs_of rows)
    → mem_text ref (claim_each c refs rows).1 ≡ true
    → all_in (held c ref) (claim_each c refs rows).0 ≡ true
unfolding claim_each
claim_each-holds c ref [] rows d h = cc
claim_each-holds c ref (x ∷ refs) rows d h =
    elim (Bool-cases (mem_text ref (claim_each c refs next).1)) [
      | inl later ↦ claim_each-holds c ref refs next (rw (refs_of-claim c x rows) d) later
      | inr now ↦ claim_each-held c ref refs next (first_claim now)
    ]
  where
    next : List OutboxRow
    next = update (claimable x) (taken c) rows

    first_claim : mem_text ref (claim_each c refs next).1 ≡ false → all_in (held c ref) next ≡ true
    first_claim later =
        let one : changes (claimable x) rows ≡ 1 = ground arith in
        let same : (x == ref) ≡ true = ground arith in
        subst (λ y. all_in (held c y) next ≡ true) ((eq_iff x ref).0 same)
          (held-claim c x rows d one)

abbrev pub delivered : String → List Delivery → Bool
delivered ref ds = exists_in (λ d. d.event.event_ref == ref) ds

delivered-deliveries :
    (c : Claim) (ref : String) (refs : List String) (es : List EventRow) (rows : List OutboxRow)
    → delivered ref (deliveries refs es rows) ≡ true
    → mem_text ref refs ≡ true
delivered-deliveries c ref refs es rows h = elim (Bool-cases (mem_text ref refs)) [
  | inl y ↦ y
  | inr n ↦ let absent = deliveries-absent c ref refs es rows n in cc
]

abbrev released_rows : Claim → EventDb → List OutboxRow
released_rows c db = release_lapsed c.now db.outbox

abbrev claim_result : Claim → EventDb → List OutboxRow × List String
claim_result c db = claim_each c (candidates c db.events (released_rows c db)) (released_rows c db)

claim_cases :
    (c : Claim) (db : EventDb) {ds : List Delivery}
    → (claim_outbox_batch c db).0 ≡ ok ds
    → (ds ≡ deliveries (claim_result c db).1 db.events (claim_result c db).0)
      × ((claim_outbox_batch c db).1 ≡ record db { outbox = (claim_result c db).0 })
unfolding claim_outbox_batch
claim_cases c db h = ground arith

claim_holds :
    (c : Claim) (ref : String) (db : EventDb) {ds : List Delivery}
    → Distinct (refs_of db.outbox)
    → (claim_outbox_batch c db).0 ≡ ok ds
    → delivered ref ds ≡ true
    → all_in (held c ref) (claim_outbox_batch c db).1.outbox ≡ true
claim_holds c ref db d done h =
    let (same, after) = claim_cases c db done in
    let counted =
      delivered-deliveries c ref (claim_result c db).1 db.events (claim_result c db).0
        (subst (λ x. delivered ref x ≡ true) same h) in
    rw after (
      claim_each-holds c ref (candidates c db.events (released_rows c db)) (released_rows c db)
        (rw (refs_of-release c.now db.outbox) d) counted)

held-not_delivered :
    (c k : Claim) (ref : String) (db : EventDb) {es : List Delivery}
    → all_in (held c ref) db.outbox ≡ true
    → k.now < c.claimed_until
    → (claim_outbox_batch k db).0 ≡ ok es
    → delivered ref es ≡ false
held-not_delivered c k ref db h lt done = rw (claim_cases k db done).0 (
    deliveries-absent c ref _ db.events _ (
      claim_each-absent c ref k _ (released_rows k db) (
        candidates-held c ref k db.events (released_rows k db)
          (held-release c ref k.now db.outbox lt h))))

-- If no reference stands twice in the outbox, an event that a claim delivers is not delivered by
-- the claim that follows it, of any worker, at a time before the deadline of the first.
pub claim_exclusive :
    (c k : Claim) (ref : String) (db : EventDb) {ds es : List Delivery}
    → Distinct (refs_of db.outbox)
    → k.now < c.claimed_until
    → (claim_outbox_batch c db).0 ≡ ok ds
    → (claim_outbox_batch k (claim_outbox_batch c db).1).0 ≡ ok es
    → delivered ref ds ≡ true
    → delivered ref es ≡ false
claim_exclusive c k ref db d lt first_ok second_ok h =
    held-not_delivered c k ref _ (claim_holds c ref db d first_ok h) lt second_ok

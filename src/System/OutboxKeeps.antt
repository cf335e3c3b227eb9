-- ===== src/System/OutboxKeeps.antt =====
-- The outbox operations of apps/gateway/src/domainEventCore.ts keep the invariant.
use native.Mathlib.Nat.{le_refl}
use family_ai_platform.Common.{
  ℕ, String, ◌≡◌, refl, ◌∙◌, true, inl, inr, List, [], ◌∷◌, arith, Option, none, Bool-cases, All,
  All-update, map-update, leb,
}
use family_ai_platform.EventLog.{
  EventDb, OutboxRow, OutboxStatus, pending, claimed, published, latest_person_sequence,
}
use family_ai_platform.Outbox.{
  is_pending, is_claimed, Claim, claimable, taken, claim_each, lapsed, released, release_lapsed,
  candidates, claim_outbox_batch, holds, as_published, as_failed, mark_published, mark_failed,
}
use family_ai_platform.Outbox.Leases.{refs_of, refs_of-claim, refs_of-release}
use family_ai_platform.System.Sound.{IsSound, Shape, HasShape, fits-more}

-- An operation that changes outbox rows in place and leaves their references.
module _ (db : EventDb) (rows : List OutboxRow) where
  outbox-IsSound :
      IsSound db
      → refs_of rows ≡ refs_of db.outbox
      → All HasShape rows
      → IsSound (record db { outbox = rows })
  unfolding latest_person_sequence
  outbox-IsSound v same shaped = record {
    gapless = record { numbered = v.gapless.numbered; counted = v.gapless.counted };
    paired = same ∙ v.paired;
    distinct = rw same v.distinct;
    shaped = shaped;
    fits = fits-more db (record db { outbox = rows }) (λ p. le_refl _) db.cursors v.fits;
  }

unpublished :
    (s : OutboxStatus) (by : Option String) (until at : Option ℕ)
    → Shape s by until at
    → is_pending s ≡ true
    → at ≡ none
unpublished pending by until at h e = h.2
unpublished claimed by until at h e = cc
unpublished published by until at h e = cc

claim_unpublished :
    (s : OutboxStatus) (by : Option String) (until at : Option ℕ)
    → Shape s by until at
    → is_claimed s ≡ true
    → at ≡ none
claim_unpublished pending by until at h e = cc
claim_unpublished claimed by until at h e = h.2
claim_unpublished published by until at h e = cc

shaped-claim_each :
    (c : Claim) (refs : List String) (rows : List OutboxRow)
    → All HasShape rows
    → All HasShape (claim_each c refs rows).0
unfolding claim_each
shaped-claim_each c [] rows h = h
shaped-claim_each c (x ∷ refs) rows h = shaped-claim_each c refs _ (
    All-update HasShape (claimable x) (taken c)
      (λ r s m. (
        (c.worker_ref, refl),
        (c.claimed_until, refl),
        unpublished r.status _ _ _ s (ground arith),
      ))
      rows h)

refs_of-claim_each :
    (c : Claim) (refs : List String) (rows : List OutboxRow)
    → refs_of (claim_each c refs rows).0 ≡ refs_of rows
unfolding claim_each
refs_of-claim_each c [] rows = refl
refs_of-claim_each c (x ∷ refs) rows = refs_of-claim_each c refs _ ∙ refs_of-claim c x rows

shaped-release :
    (now : ℕ) (rows : List OutboxRow) → All HasShape rows → All HasShape (release_lapsed now rows)
unfolding release_lapsed
shaped-release now rows h =
    All-update HasShape (lapsed now) (released now)
      (λ r s m. (refl, refl, claim_unpublished r.status _ _ _ s (ground arith))) rows h

pub claim-IsSound : (c : Claim) (db : EventDb) → IsSound db → IsSound (claim_outbox_batch c db).1
unfolding claim_outbox_batch
claim-IsSound c db v = elim (Bool-cases (leb c.claimed_until c.now)) [
  | inl bad ↦ rw bad v
  | inr good ↦ rw good (
      outbox-IsSound db _ v
        (refs_of-claim_each c (candidates c db.events rows) rows ∙ refs_of-release c.now db.outbox)
        (shaped-claim_each c (candidates c db.events rows) rows
          (shaped-release c.now db.outbox v.shaped)))
]
  where
    rows : List OutboxRow
    rows = release_lapsed c.now db.outbox

pub publish-IsSound :
    (ref worker : String) (at : ℕ) (db : EventDb)
    → IsSound db
    → IsSound (mark_published ref worker at db).1
unfolding mark_published
publish-IsSound ref worker at db v =
    outbox-IsSound db _ v
      (map-update (λ r. r.event_ref) (holds ref worker at) (as_published at) (λ r. refl) db.outbox)
      (All-update HasShape (holds ref worker at) (as_published at)
        (λ r s m. (refl, refl, (at, refl))) db.outbox v.shaped)

pub fail-IsSound :
    (ref worker error : String) (available at : ℕ) (db : EventDb)
    → IsSound db
    → IsSound (mark_failed ref worker error available at db).1
unfolding mark_failed
fail-IsSound ref worker error available at db v =
    outbox-IsSound db _ v
      (map-update (λ r. r.event_ref) (holds ref worker at) (as_failed error available at)
        (λ r. refl) db.outbox)
      (All-update HasShape (holds ref worker at) (as_failed error available at)
        (λ r s m. (refl, refl, refl)) db.outbox v.shaped)

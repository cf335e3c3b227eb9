-- ===== src/System/LogKeeps.antt =====
-- The source trigger of apps/gateway/src/domainEventCore.ts and `acknowledge` of
-- apps/gateway/src/deviceSync.ts keep the invariant.
use native.Mathlib.Nat.{le_refl}
use family_ai_platform.Common.{
  ℕ, suc, ◌≤◌, String, ◌≡◌, refl, sym, ap, ◌∙◌, Bool, true, ◌&&◌, inl, inr, List, [], ◌∷◌, arith,
  some, ◌==◌, eq_iff, length, Option-cases, All, update, map-update,
}
use family_ai_platform.EventLog.{
  EventDb, EventRow, CursorRow, events_of, latest_person_sequence, find_person_event,
}
use family_ai_platform.EventLog.Gapless.{IsGapless, Numbered, latest-length}
use family_ai_platform.EventLog.Triggers.{source_message_added, add_source}
use family_ai_platform.DeviceSync.{Ack, is_cursor, acknowledge, store_cursor}
use family_ai_platform.DeviceSync.Cursor.{
  acknowledge_found, acknowledge_missing, CursorFits, row_after, All-store, found_bounds,
}
use family_ai_platform.System.Sound.{IsSound, fits-more}

module _ (q : EventRow → Bool) (m : String) where
  select-source :
      (p : String) (es : List EventRow)
      → events_of p (update q (add_source m) es) ≡ update q (add_source m) (events_of p es)
  select-source p [] = refl
  select-source p (e ∷ es) = ground (arith, select-source p es)

  Numbered-source :
      (k : ℕ) (es : List EventRow) → Numbered k es → Numbered k (update q (add_source m) es)
  Numbered-source k [] h = tt
  Numbered-source k (e ∷ es) (n, h) = (ground arith, Numbered-source (suc k) es h)

  length-source : (es : List EventRow) → length (update q (add_source m) es) ≡ length es
  length-source [] = refl
  length-source (e ∷ es) = ap suc (length-source es)

source-IsGapless :
    (conversion m : String) (db : EventDb)
    → IsGapless db
    → IsGapless (source_message_added conversion m db)
unfolding source_message_added
source-IsGapless conversion m db v = record {
  numbered = λ p. rw (select-source q m p db.events) (Numbered-source q m 0 _ (v.numbered p));
  counted =
      λ p. v.counted p ∙ sym (ap length (select-source q m p db.events) ∙ length-source q m _);
}
  where
    q : EventRow → Bool
    q e = e.event_type == "chat.work.created" && e.aggregate_ref == conversion

pub source-IsSound :
    (conversion m : String) (db : EventDb)
    → IsSound db
    → IsSound (source_message_added conversion m db)
unfolding source_message_added
source-IsSound conversion m db v = record {
  gapless = gapless;
  paired = v.paired ∙ sym (map-update (λ e. e.event_ref) q (add_source m) (λ e. refl) db.events);
  distinct = v.distinct;
  shaped = v.shaped;
  fits = fits-more db (source_message_added conversion m db) latest db.cursors v.fits;
}
  where
    q : EventRow → Bool
    q e = e.event_type == "chat.work.created" && e.aggregate_ref == conversion

    gapless : IsGapless (source_message_added conversion m db)
    gapless = source-IsGapless conversion m db v.gapless

    latest :
        (p : String)
        → latest_person_sequence db p
          ≤ latest_person_sequence (source_message_added conversion m db) p
    latest p =
        rw
          (
            latest-length db p v.gapless,
            latest-length (source_message_added conversion m db) p gapless,
          )
          (omega (
            arith,
            ap length (select-source q m p db.events),
            length-source q m (events_of p db.events),
          ))

cursors-IsSound :
    (db : EventDb) (rows : List CursorRow)
    → IsSound db
    → All (CursorFits db) rows
    → IsSound (record db { cursors = rows })
unfolding latest_person_sequence
cursors-IsSound db rows v h = record {
  gapless = record { numbered = v.gapless.numbered; counted = v.gapless.counted };
  paired = v.paired;
  distinct = v.distinct;
  shaped = v.shaped;
  fits = fits-more db (record db { cursors = rows }) (λ p. le_refl _) rows h;
}

store-fits :
    (a : Ack) (now : ℕ) (db : EventDb)
    → 1 ≤ a.event_sequence
    → a.event_sequence ≤ latest_person_sequence db a.person_ref
    → (rows : List CursorRow) → All (CursorFits db) rows
    → All (CursorFits db) (store_cursor a.device_ref a.person_ref a.event_sequence now rows)
store-fits a now db lo hi =
    All-store a.device_ref a.person_ref a.event_sequence now (CursorFits db) (lo, hi) kept
  where
    kept :
        (r : CursorRow)
        → is_cursor a.device_ref a.person_ref r ≡ true
        → CursorFits db r
        → CursorFits db (row_after a.device_ref a.person_ref a.event_sequence now (some r))
    kept r mine (from, to) =
        let person : (r.person_ref == a.person_ref) ≡ true = ground arith in
        let same : r.person_ref ≡ a.person_ref = (eq_iff _ _).0 person in
        let hi' : a.event_sequence ≤ latest_person_sequence db r.person_ref = rw same hi in
        ground arith

pub acknowledge-IsSound :
    (a : Ack) (now : ℕ) (db : EventDb) → IsSound db → IsSound (acknowledge a now db).1
acknowledge-IsSound a now db v =
    elim (Option-cases (find_person_event db a.person_ref a.event_sequence a.event_ref)) [
      | inl missing ↦ rw (acknowledge_missing a now db v.fits missing) v
      | inr (e, found) ↦
          let (lo, hi) =
            found_bounds db a.person_ref a.event_sequence a.event_ref e v.gapless found in
          rw (acknowledge_found a now db e v.gapless v.fits found)
            (cursors-IsSound db _ v (store-fits a now db lo hi db.cursors v.fits))
    ]

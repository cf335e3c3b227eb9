-- ===== src/EventLog/Gapless.antt =====
-- The invariant of the log of apps/gateway/src/domainEventCore.ts, and the lemmas by which the
-- writers keep it.
use family_ai_platform.Common.{
  ℕ, suc, ◌+◌, String, ◌≡◌, refl, sym, ap, ◌∙◌, Bool, true, false, inl, inr, List, [], ◌∷◌, ◌++◌,
  append-nil, arith, ◌==◌, ==_refl, eq_iff, if◌then◌else◌, length, length-append, select-append,
  Bool-cases,
}
use family_ai_platform.EventLog.{
  EventDb, EventRow, SequenceRow, Draft, bump, last_sequence, accepts, record_event, drafted,
  logged, append, events_of, max_sequence, latest_person_sequence,
}

-- The events are numbered k + 1, k + 2, … in this order.
abbrev pub Numbered : ℕ → List EventRow → Type 0
Numbered k [] = Unit
Numbered k (e ∷ es) = (e.event_sequence ≡ suc k) × Numbered (suc k) es

-- The events of a person are numbered from 1 in the order of insertion, with no gap and no
-- number twice, and the person's counter is the number of the last one.
pub record IsGapless (db : EventDb) : Type 0 where
  pub numbered : (p : String) → Numbered 0 (events_of p db.events)
  pub counted : (p : String) → last_sequence p db.sequences ≡ length (events_of p db.events)

pub Numbered-append :
    (k : ℕ) (es : List EventRow) (e : EventRow)
    → Numbered k es
    → e.event_sequence ≡ suc (k + length es)
    → Numbered k (es ++ e ∷ [])
Numbered-append k [] e h p = (omega arith, tt)
Numbered-append k (x ∷ es) e (q, h) p = (q, Numbered-append (suc k) es e h (omega arith))

pub last_sequence-bump :
    (p : String) (now : ℕ) (rs : List SequenceRow) (q : String)
    → last_sequence q (bump p now rs)
      ≡ (if p == q then suc (last_sequence q rs) else last_sequence q rs)
unfolding bump last_sequence
last_sequence-bump p now [] q = ground (arith, eq_iff p q)
last_sequence-bump p now (r ∷ rs) q =
    ground (
      arith,
      eq_iff p q,
      eq_iff r.person_ref p,
      eq_iff r.person_ref q,
      last_sequence-bump p now rs q,
    )

pub last_sequence-bump_self :
    (p : String) (now : ℕ) (rs : List SequenceRow)
    → last_sequence p (bump p now rs) ≡ suc (last_sequence p rs)
last_sequence-bump_self p now rs = rw (last_sequence-bump p now rs p) (rw (==_refl p) refl)

pub events_of-append :
    (p : String) (es : List EventRow) (e : EventRow)
    → events_of p (es ++ e ∷ []) ≡ events_of p es ++ (if e.person_ref == p then e ∷ [] else [])
events_of-append p es e = select-append (λ x. x.person_ref == p) es (e ∷ [])

pub drafted_sequence :
    (d : Draft) (ref : String) (db : EventDb)
    → (drafted d ref db).event_sequence ≡ suc (last_sequence d.person_ref db.sequences)
unfolding drafted
drafted_sequence d ref db = last_sequence-bump_self d.person_ref d.created_at db.sequences

Numbered-one :
    (k : ℕ) (es : List EventRow) (e : EventRow) (b : Bool)
    → Numbered k es
    → (b ≡ true → e.event_sequence ≡ suc (k + length es))
    → Numbered k (es ++ (if b then e ∷ [] else []))
Numbered-one k es e true h p = Numbered-append k es e h (p refl)
Numbered-one k es e false h p = rw (append-nil es) h

length-one :
    (es : List EventRow) (e : EventRow) (b : Bool)
    → length (es ++ (if b then e ∷ [] else [])) ≡ (if b then suc (length es) else length es)
length-one es e true = omega (arith, length-append es (e ∷ []))
length-one es e false = ap length (append-nil es)

drafted_next :
    (d : Draft) (ref : String) (db : EventDb)
    → IsGapless db
    → (drafted d ref db).event_sequence ≡ suc (length (events_of d.person_ref db.events))
drafted_next d ref db v = drafted_sequence d ref db ∙ ap suc (v.counted d.person_ref)

drafted_person :
    (d : Draft) (ref : String) (db : EventDb) → (drafted d ref db).person_ref ≡ d.person_ref
unfolding drafted
drafted_person d ref db = refl

pub logged-IsGapless :
    (d : Draft) (ref : String) (db : EventDb) → IsGapless db → IsGapless (logged d ref db)
unfolding logged
logged-IsGapless d ref db v = record { numbered = numbered; counted = counted }
  where
    e : EventRow
    e = drafted d ref db

    next :
        (p : String)
        → (d.person_ref == p) ≡ true
        → e.event_sequence ≡ suc (0 + length (events_of p db.events))
    next p h =
        drafted_next d ref db v
        ∙ ap (λ q. suc (length (events_of q db.events))) ((eq_iff _ _).0 h)
        ∙ omega arith

    events :
        (p : String)
        → events_of p (db.events ++ e ∷ [])
          ≡ events_of p db.events ++ (if d.person_ref == p then e ∷ [] else [])
    events p = events_of-append p db.events e ∙ rw (drafted_person d ref db) refl

    numbered : (p : String) → Numbered 0 (events_of p (db.events ++ e ∷ []))
    numbered p = rw (events p) (Numbered-one 0 _ e (d.person_ref == p) (v.numbered p) (next p))

    counted :
        (p : String)
        → last_sequence p (bump d.person_ref d.created_at db.sequences)
          ≡ length (events_of p (db.events ++ e ∷ []))
    counted p =
        last_sequence-bump d.person_ref d.created_at db.sequences p
        ∙ rw (v.counted p) (sym (ap length (events p) ∙ length-one _ e (d.person_ref == p)))

pub record_event-IsGapless :
    (d : Draft) (ref : String) (db : EventDb) → IsGapless db → IsGapless (record_event d ref db).1
unfolding record_event
record_event-IsGapless d ref db v = elim (Bool-cases (accepts db (drafted d ref db))) [
  | inl y ↦ rw y (logged-IsGapless d ref db v)
  | inr n ↦ rw n v
]

pub append-IsGapless :
    (d : Draft) (ref : String) (db : EventDb) → IsGapless db → IsGapless (append d ref db).1
unfolding append
append-IsGapless d ref db v = ground (arith, record_event-IsGapless d ref db v)

Numbered-max :
    (k : ℕ) (e : EventRow) (es : List EventRow)
    → Numbered k (e ∷ es)
    → max_sequence (e ∷ es) ≡ k + length (e ∷ es)
Numbered-max k e [] (h, _) = omega arith
Numbered-max k e (x ∷ es) (h, t) = omega (arith, Numbered-max (suc k) x es t)

max_sequence-length : (es : List EventRow) → Numbered 0 es → max_sequence es ≡ length es
max_sequence-length [] h = refl
max_sequence-length (e ∷ es) h = omega (arith, Numbered-max 0 e es h)

-- In a gapless log the latest number of a person is the number of the person's events.
pub latest-length :
    (db : EventDb) (p : String)
    → IsGapless db
    → latest_person_sequence db p ≡ length (events_of p db.events)
unfolding latest_person_sequence
latest-length db p v = max_sequence-length _ (v.numbered p)

-- In a gapless log the latest number of a person is the number of the person's events, and the
-- person's next event gets the number after it.
pub drafted_follows_latest :
    (d : Draft) (ref : String) (db : EventDb)
    → IsGapless db
    → (latest_person_sequence db d.person_ref ≡ length (events_of d.person_ref db.events))
      × ((drafted d ref db).event_sequence ≡ suc (latest_person_sequence db d.person_ref))
drafted_follows_latest d ref db v =
    let latest = latest-length db d.person_ref v in
    (latest, drafted_next d ref db v ∙ ap suc (sym latest))

-- ===== src/Chat/Numbers.antt =====
-- The numbers of a thread's messages, and the `UPDATE` of apps/gateway/src/chatWorkDomain.ts that
-- takes the next one.
use family_ai_platform.Common.{
  ℕ, suc, ◌+◌, String, ◌≡◌, refl, subst, true, false, inl, inr, some, List, [], ◌∷◌, ◌++◌, arith,
  ◌==◌, eq_iff, ◌&&◌, if◌then◌else◌, length, select, Bool-cases, first, update, exists_in, map,
}
use family_ai_platform.Outbox.Leases.{Distinct}
use family_ai_platform.Chat.{ChatDb, Thread, Message, sequenced}

abbrev pub messages_in : String → List Message → List Message
messages_in ref ms = select (λ m. m.thread_ref == ref) ms

abbrev pub thread_refs : List Thread → List String
thread_refs ts = map (λ (t : Thread). t.thread_ref) ts

-- The counter of a thread; 0 for none.
abbrev pub counter_of : String → List Thread → ℕ
counter_of ref [] = 0
counter_of ref (t ∷ ts) = if t.thread_ref == ref then t.last_sequence else counter_of ref ts

-- The messages are numbered k + 1, k + 2, … in this order.
abbrev pub InOrder : ℕ → List Message → Type 0
InOrder k [] = Unit
InOrder k (m ∷ ms) = (m.thread_sequence ≡ suc k) × InOrder (suc k) ms

-- No two threads have the same reference; the messages of each are numbered from 1 in the order of
-- insertion, and its counter is their number.
pub record IsNumbered (db : ChatDb) : Type 0 where
  pub distinct : Distinct (thread_refs db.threads)
  pub in_order : (ref : String) → InOrder 0 (messages_in ref db.messages)
  pub counted : (ref : String) → counter_of ref db.threads ≡ length (messages_in ref db.messages)

pub InOrder-append :
    (k : ℕ) (ms : List Message) (m : Message)
    → InOrder k ms
    → m.thread_sequence ≡ suc (k + length ms)
    → InOrder k (ms ++ m ∷ [])
InOrder-append k [] m h p = (omega arith, tt)
InOrder-append k (x ∷ ms) m (q, h) p = (q, InOrder-append (suc k) ms m h (omega arith))

found_member :
    (ref p : String) (ts : List Thread) (t : Thread)
    → first (λ t. t.thread_ref == ref && t.person_ref == p) ts ≡ some t
    → exists_in (λ r. r == ref) (thread_refs ts) ≡ true
found_member ref p [] t h = absurd (ground arith)
found_member ref p (x ∷ ts) t h = ground (arith, found_member ref p ts t)

pub counter_of-other :
    (ref p r : String) (now : ℕ) (ts : List Thread)
    → (ref == r) ≡ false
    → counter_of r (update (λ t. t.thread_ref == ref && t.person_ref == p) (sequenced now) ts)
      ≡ counter_of r ts
counter_of-other ref p r now [] h = refl
counter_of-other ref p r now (x ∷ ts) h = ground (
  arith,
  eq_iff ref r,
  eq_iff x.thread_ref ref,
  eq_iff x.thread_ref r,
  counter_of-other ref p r now ts h,
)

pub counter_of-taken :
    (ref p : String) (now : ℕ) (ts : List Thread) (t : Thread)
    → Distinct (thread_refs ts)
    → first (λ t. t.thread_ref == ref && t.person_ref == p) ts ≡ some t
    → (t.last_sequence ≡ counter_of ref ts)
      × (counter_of ref (update (λ t. t.thread_ref == ref && t.person_ref == p) (sequenced now) ts)
          ≡ suc (counter_of ref ts))
counter_of-taken ref p now [] t d h = absurd (ground arith)
counter_of-taken ref p now (x ∷ ts) t (fresh, d) h = elim (Bool-cases (x.thread_ref == ref)) [
  | inr other ↦
      let (same, next) = counter_of-taken ref p now ts t d (ground arith) in
      (rw other same, rw other (rw other next))
  | inl mine ↦ elim (Bool-cases (x.person_ref == p)) [
    | inl here ↦ (ground arith, ground arith)
    | inr past ↦
        let gone : exists_in (λ r. r == ref) (thread_refs ts) ≡ false =
          subst (λ y. exists_in (λ r. r == y) (thread_refs ts) ≡ false)
            ((eq_iff x.thread_ref ref).0 mine) fresh in
        absurd (ground (arith, found_member ref p ts t))
  ]
]

-- ===== src/AgentStatus/Problems.antt =====
-- What the status of an agent says of its turns: `statusFor` and `failedAfterSuccess` of
-- apps/gateway/src/agentStatus.ts, with `statusFacts` of apps/gateway/src/chatWorkProvider.ts.
use family_ai_platform.Common.{
  ℕ, String, Bool, true, false, not, ◌&&◌, ◌||◌, Option, none, some, List, [], ◌∷◌, ◌≡◌, refl, ltb,
  leb, if◌then◌else◌, exists_in, select, length, arith, Option-cases, inl, inr, ◌∙◌,
}
use family_ai_platform.EventLog.Triggers.{turn_pending, turn_succeeded, turn_failed}
use family_ai_platform.Chat.{Turn}
use family_ai_platform.AgentStatus.{
  RuntimeStatus, HealthStatus, AgentStatus, idle, working, problem, failed_after_success, latest,
  is_turn_of, is_stale, status_for, input_for, is_active, is_online, later,
}

-- A turn that ended, at a time.
abbrev pub ended_at : (ℕ → Bool) → Turn → Bool
ended_at q t = elim t.completed_at [ none ↦ false | some n ↦ q n ]

abbrev is_later : Option ℕ → ℕ → Bool
is_later none n = true
is_later (some m) n = ltb m n

-- Some failed turn ended after every turn that succeeded.
abbrev pub fails_last : (Turn → Bool) → (Turn → Bool) → List Turn → Bool
fails_last failed succeeded ts =
    exists_in
      (λ t.
        failed t && ended_at (λ n. not (exists_in (λ u. succeeded u && ended_at (leb n) u) ts)) t)
      ts

later-latest :
    (n : ℕ) (p : Turn → Bool) (ts : List Turn)
    → later n (latest p ts) ≡ not (exists_in (λ u. p u && ended_at (leb n) u) ts)
later-latest n p [] = refl
later-latest n p (t ∷ ts) = ground (arith, later-latest n p ts)

failed_after_later :
    (last : Option ℕ) (p : Turn → Bool) (ts : List Turn)
    → failed_after_success (latest p ts) last
      ≡ exists_in (λ t. p t && ended_at (λ n. later n last) t) ts
failed_after_later last p [] = refl
failed_after_later none p (t ∷ ts) = ground (arith, failed_after_later none p ts)
failed_after_later (some m) p (t ∷ ts) = ground (arith, failed_after_later (some m) p ts)

exists_in-ended_at :
    (p : Turn → Bool) (q r : ℕ → Bool)
    → ((n : ℕ) → q n ≡ r n)
    → (ts : List Turn)
    → exists_in (λ t. p t && ended_at q t) ts ≡ exists_in (λ t. p t && ended_at r t) ts
exists_in-ended_at p q r same [] = refl
exists_in-ended_at p q r same (t ∷ ts) =
    let rest = exists_in-ended_at p q r same ts in
    elim (Option-cases t.completed_at) [
      | inl none_ended ↦ rw none_ended (rw rest refl)
      | inr ended ↦ rw ended.1 (rw (same ended.0) (rw rest refl))
    ]

failed_after-fails_last :
    (failed succeeded : Turn → Bool) (ts : List Turn)
    → failed_after_success (latest failed ts) (latest succeeded ts) ≡ fails_last failed succeeded ts
failed_after-fails_last failed succeeded ts =
    failed_after_later (latest succeeded ts) failed ts
    ∙ exists_in-ended_at failed _ _ (λ n. later-latest n succeeded ts) ts

some_selected : (p : Turn → Bool) (ts : List Turn) → ltb 0 (length (select p ts)) ≡ exists_in p ts
some_selected p [] = refl
some_selected p (t ∷ ts) = ground (arith, some_selected p ts)

-- The status that an agent's runtime, health and turns call for.
abbrev pub status_from : RuntimeStatus → HealthStatus → List Turn → String → ℕ → AgentStatus
status_from runtime health ts a before =
    if not (is_active runtime)
      || not (is_online health)
      || exists_in (is_stale a before) ts
      || fails_last (is_turn_of a turn_failed) (is_turn_of a turn_succeeded) ts
    then problem
    else if exists_in (is_turn_of a turn_pending) ts
    then working
    else idle

-- An agent has a problem if its runtime is not active, if its provider is not online, if one of its
-- pending turns was requested before the limit, or if one of its failed turns ended after every
-- one that succeeded; otherwise it works if it has a pending turn, and is idle if it has none.
pub status_for-status_from :
    (runtime : RuntimeStatus) (health : HealthStatus) (ts : List Turn) (a : String) (before now : ℕ)
    → (status_for (input_for ts a before now runtime health)).status
      ≡ status_from runtime health ts a before
unfolding status_for
status_for-status_from runtime health ts a before now = ground (
  arith,
  some_selected (is_stale a before) ts,
  some_selected (is_turn_of a turn_pending) ts,
  failed_after-fails_last (is_turn_of a turn_failed) (is_turn_of a turn_succeeded) ts,
)

-- ===== src/AgentStatus.antt =====
-- The status of an agent: apps/gateway/src/agentStatus.ts, with `statusFacts` of
-- apps/gateway/src/chatWorkProvider.ts. Times are milliseconds. What a provider answers to a health
-- check is an argument; the checks of several agents run one after the other.
pub mod Problems
use family_ai_platform.Common.{
  ℕ, ◌+◌, ◌-◌, max, String, Bool, true, false, not, ◌&&◌, Option, none, some, List, [], ◌∷◌, ◌==◌,
  ltb, if◌then◌else◌, first, exists_in, select, length, map,
}
use family_ai_platform.EventLog.Triggers.{
  TurnStatus, turn_pending, turn_succeeded, turn_failed, is_status,
}
use family_ai_platform.Chat.{ChatDb, Turn, Runtime}

pub data RuntimeStatus : Type 0 where
  active disabled missing : RuntimeStatus

pub data HealthStatus : Type 0 where
  online degraded offline : HealthStatus

-- `AgentStatusInput`.
pub record StatusInput : Type 0 where
  pub runtime : RuntimeStatus
  pub health : HealthStatus
  pub pending : ℕ
  pub stale_pending : ℕ
  pub latest_failed_at : Option ℕ
  pub latest_succeeded_at : Option ℕ
  pub checked_at : ℕ

-- The keys of `PUBLIC_PROBLEMS`.
pub data Problem : Type 0 where
  runtime_missing health_failed turn_stalled invocation_failed : Problem

pub data AgentStatus : Type 0 where
  idle working problem : AgentStatus

-- `PUBLIC_PROBLEMS`.
abbrev pub public_problem_text : Problem → String
public_problem_text runtime_missing = "Agent 尚未配置。"
public_problem_text health_failed = "Agent 当前无法连接。"
public_problem_text turn_stalled = "Agent 任务执行超时。"
public_problem_text invocation_failed = "Agent 最近一次调用失败。"

-- `AgentStatusSnapshot`.
pub record Snapshot : Type 0 where
  pub status : AgentStatus
  pub status_label : String
  pub active_turn_count : ℕ
  pub last_checked_at : ℕ
  pub public_problem : Option String

abbrev pub later : ℕ → Option ℕ → Bool
later n none = true
later n (some m) = ltb m n

-- `failedAfterSuccess`.
abbrev pub failed_after_success : Option ℕ → Option ℕ → Bool
failed_after_success none succeeded = false
failed_after_success (some n) succeeded = later n succeeded

abbrev pub is_active : RuntimeStatus → Bool
is_active active = true
is_active disabled = false
is_active missing = false

abbrev pub is_online : HealthStatus → Bool
is_online online = true
is_online degraded = false
is_online offline = false

abbrev pub problem_for : StatusInput → Option Problem
problem_for i =
    if not (is_active i.runtime)
    then some runtime_missing
    else if not (is_online i.health)
    then some health_failed
    else if ltb 0 i.stale_pending
    then some turn_stalled
    else if failed_after_success i.latest_failed_at i.latest_succeeded_at
    then some invocation_failed
    else none

abbrev pub snapshot_of : StatusInput → Option Problem → Snapshot
snapshot_of i (some p) = record {
  status = problem;
  status_label = "有问题";
  active_turn_count = i.pending;
  last_checked_at = i.checked_at;
  public_problem = some (public_problem_text p);
}
snapshot_of i none =
    if ltb 0 i.pending
    then record {
      status = working;
      status_label = "工作中";
      active_turn_count = i.pending;
      last_checked_at = i.checked_at;
      public_problem = none;
    }
    else record {
      status = idle;
      status_label = "空闲";
      active_turn_count = 0;
      last_checked_at = i.checked_at;
      public_problem = none;
    }

-- `statusFor`.
unfoldable pub status_for : StatusInput → Snapshot
status_for i = snapshot_of i (problem_for i)

abbrev pub is_turn_of : String → TurnStatus → Turn → Bool
is_turn_of a s t = t.agent_ref == a && is_status t.status s

abbrev pub is_stale : String → ℕ → Turn → Bool
is_stale a before t = is_turn_of a turn_pending t && ltb t.requested_at before

abbrev pub later_of : Option ℕ → Option ℕ → Option ℕ
later_of none m = m
later_of (some n) none = some n
later_of (some n) (some m) = some (max n m)

-- `MAX(CASE WHEN … THEN completed_at END)`.
abbrev pub latest : (Turn → Bool) → List Turn → Option ℕ
latest p [] = none
latest p (t ∷ ts) = if p t then later_of t.completed_at (latest p ts) else latest p ts

-- `statusFacts`, and the input that `snapshot` makes of it.
abbrev pub input_for : List Turn → String → ℕ → ℕ → RuntimeStatus → HealthStatus → StatusInput
input_for ts a before now runtime health = record {
  runtime = runtime;
  health = health;
  pending = length (select (is_turn_of a turn_pending) ts);
  stale_pending = length (select (is_stale a before) ts);
  latest_failed_at = latest (is_turn_of a turn_failed) ts;
  latest_succeeded_at = latest (is_turn_of a turn_succeeded) ts;
  checked_at = now;
}

-- What a provider answers: the profiles that it serves, and its status.
pub record HealthAnswer : Type 0 where
  pub profiles : List String
  pub status : HealthStatus

-- `CachedHealth`, with its key.
pub record CachedHealth : Type 0 where
  pub profile : String
  pub status : HealthStatus
  pub cached_at : ℕ

abbrev pub serves : String → Option HealthAnswer → HealthStatus
serves p none = offline
serves p (some h) = if exists_in (λ q. q == p) h.profiles then h.status else offline

abbrev pub fresh_entry : ℕ → ℕ → Option CachedHealth → Option HealthStatus
fresh_entry lasts now none = none
fresh_entry lasts now (some c) = if ltb now (c.cached_at + lasts) then some c.status else none

abbrev pub cached : String → List CachedHealth → Option CachedHealth
cached p cs = first (λ c. c.profile == p) cs

abbrev pub store_health : String → HealthStatus → ℕ → List CachedHealth → List CachedHealth
store_health p s now cs =
    record { profile = p; status = s; cached_at = now } ∷ select (λ c. not (c.profile == p)) cs

abbrev pub health_or_asked :
    String
    → ℕ
    → Option HealthAnswer
    → List CachedHealth
    → Option HealthStatus
    → HealthStatus × List CachedHealth
health_or_asked p now answer cs (some s) = (s, cs)
health_or_asked p now answer cs none = (serves p answer, store_health p (serves p answer) now cs)

-- `healthFor`; no answer stands for a provider that throws.
unfoldable pub health_for :
    ℕ → String → ℕ → Option HealthAnswer → List CachedHealth → HealthStatus × List CachedHealth
health_for lasts p now answer cs =
    health_or_asked p now answer cs (fresh_entry lasts now (cached p cs))

abbrev pub runtime_status : Option Runtime → RuntimeStatus
runtime_status none = missing
runtime_status (some r) = if r.active then active else disabled

abbrev pub runtime_of : ChatDb → String → Option Runtime
runtime_of db a = first (λ r. r.agent_ref == a) db.runtimes

abbrev pub health_of :
    ℕ
    → ℕ
    → (String → Option HealthAnswer)
    → List CachedHealth
    → Option Runtime
    → HealthStatus × List CachedHealth
health_of lasts now ask cs none = (offline, cs)
health_of lasts now ask cs (some r) =
    if r.active
    then health_for lasts r.provider_profile_ref now (ask r.provider_profile_ref) cs
    else (offline, cs)

-- The durations of the service: how long a health lasts, and how long a turn may take.
pub record StatusTimes : Type 0 where
  pub health_lasts : ℕ
  pub timeout : ℕ
  pub grace : ℕ

-- `snapshot`.
unfoldable pub snapshot :
    StatusTimes
    → ChatDb
    → String
    → ℕ
    → (String → Option HealthAnswer)
    → List CachedHealth
    → Snapshot × List CachedHealth
unfolding status_for health_for
snapshot times db a now ask cs =
    let health = health_of times.health_lasts now ask cs (runtime_of db a) in
    (
      status_for (
          input_for db.turns a (now - times.timeout - times.grace) now
            (runtime_status (runtime_of db a)) health.0),
      health.1,
    )

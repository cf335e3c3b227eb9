-- ===== src/Chat.antt =====
-- Threads of a person with an agent: the tables of apps/gateway/src/chatWorkDomain.ts and
-- chatWorkProvider.ts, who may use a thread, and which agent answers in it. `Messages` has the
-- messages, `Contexts` the provider's context of a thread, `Turns` the provider turns of messages,
-- `Sending` the way of a message to the provider and back.
-- Times are milliseconds. The rows that a row refers to exist (the foreign keys), so a join with
-- `agents` drops no row. The columns of a thread that the triggers read are those of `log.threads`.
-- The texts of public errors are left out.
pub mod Messages
pub mod Pages
pub mod Contexts
pub mod Turns
pub mod Commits
pub mod Capsule
pub mod Shortened
pub mod Requests
pub mod Sending
pub mod Kept
pub mod KeptTurns
pub mod Histories
pub mod Final
pub mod Logged
pub mod Failures
pub mod Stored
pub mod Asked
pub mod Answered
pub mod Unanswered
pub mod Repeats
pub mod Retries
pub mod Unsendable
pub mod Numbers
pub mod Numbered
pub mod NumberedTurns
use family_ai_platform.Common.{
  ℕ, ◌+◌, String, Bool, true, false, not, ◌&&◌, ◌||◌, Option, none, some, List, [], ◌∷◌, Failure,
  permission, domain_error, Op, pure, fail, gets, modify, require, refuse_if, ◌>>=◌, ◌>>◌, ◌==◌,
  same_text, if◌then◌else◌, first, exists_in, update,
}
use family_ai_platform.EventLog.{EventDb}
use family_ai_platform.EventLog.Triggers.{TurnStatus}
use family_ai_platform.Pairing.{
  Audience, personal, family_admin, DeviceRow, DeviceBinding, mobile_error,
}
use family_ai_platform.Attachments.{AttachmentDb}

-- `assistant_assignments`: an agent that a person has mounted.
pub record Mount : Type 0 where
  pub assignment_ref : String
  pub person_ref : String
  pub agent_ref : String
  pub provider_profile_ref : String
  pub active : Bool

-- `admin_agent_assignments`.
pub record AdminAssignment : Type 0 where
  pub family_ref : String
  pub person_ref : String
  pub agent_ref : String
  pub provider_profile_ref : String
  pub active : Bool

-- `agent_runtime_bindings`.
pub record Runtime : Type 0 where
  pub agent_ref : String
  pub provider_profile_ref : String
  pub active : Bool

-- `interaction_threads`.
pub record Thread : Type 0 where
  pub thread_ref : String
  pub person_ref : String
  pub family_ref : Option String
  pub agent_ref : String
  pub audience : Audience
  pub last_sequence : ℕ
  pub last_active_at : ℕ

-- `ThreadActor`, and the actor's columns of `thread_messages`.
pub data Actor : Type 0 where
  person : String → Actor
  assistant : String → String → String → Actor
  agent : String → String → Actor
  system : String → Actor

-- `thread_messages`; the audience of the origin is its text.
pub record Message : Type 0 where
  pub message_ref : String
  pub thread_ref : String
  pub thread_sequence : ℕ
  pub client_message_id : String
  pub actor : Actor
  pub device_ref : Option String
  pub connection_ref : Option String
  pub entry_audience : String
  pub body : String
  pub language : Option String
  pub occurred_at : ℕ
  pub created_at : ℕ

-- `message_attachments`.
pub record MessageAttachment : Type 0 where
  pub message_ref : String
  pub attachment_ref : String
  pub attachment_order : ℕ

-- `daily_episodes`.
pub record Episode : Type 0 where
  pub daily_episode_ref : String
  pub thread_ref : String
  pub open_now : Bool
  pub last_message_sequence : ℕ

-- `thread_provider_contexts`, and the `ThreadProviderContext` that `mapContext` reads from a row.
pub record Context : Type 0 where
  pub thread_ref : String
  pub person_ref : String
  pub provider_conversation_ref : String
  pub assignment_ref : Option String
  pub agent_ref : String
  pub provider_profile_ref : String
  pub audience : Audience
  pub external_session_ref : Option String
  pub updated_at : ℕ

-- `PublicError`.
pub record PublicError : Type 0 where
  pub code : String
  pub category : String
  pub message : String
  pub retryable : Bool

-- `thread_provider_turns`.
pub record Turn : Type 0 where
  pub user_message_ref : String
  pub thread_ref : String
  pub invocation_ref : String
  pub correlation_ref : String
  pub idempotency_key : String
  pub assignment_ref : Option String
  pub agent_ref : String
  pub provider_profile_ref : String
  pub audience : Audience
  pub status : TurnStatus
  pub attempt_count : ℕ
  pub assistant_message_ref : Option String
  pub error : Option PublicError
  pub requested_at : ℕ
  pub completed_at : Option ℕ

pub record ChatDb : Type 0 where
  pub devices : List DeviceRow
  pub device_bindings : List DeviceBinding
  pub mounts : List Mount
  pub admin_assignments : List AdminAssignment
  pub runtimes : List Runtime
  pub files : AttachmentDb
  pub threads : List Thread
  pub messages : List Message
  pub message_attachments : List MessageAttachment
  pub episodes : List Episode
  pub contexts : List Context
  pub turns : List Turn
  pub log : EventDb

abbrev pub eq_audience : Audience → Audience → Bool
eq_audience personal personal = true
eq_audience family_admin family_admin = true
eq_audience personal family_admin = false
eq_audience family_admin personal = false

-- `ActiveAssignment`.
pub record ActiveAssignment : Type 0 where
  pub assignment_ref : Option String
  pub agent_ref : String
  pub provider_profile_ref : String

abbrev pub thread_not_found : Failure
thread_not_found = mobile_error "THREAD_NOT_FOUND" 404 permission

-- `isSystemAgentRef`.
abbrev pub is_system_agent : String → Bool
is_system_agent a = a == "agent:hermes-jarvis" || a == "agent:codex-cli"

abbrev pub runs : ChatDb → String → String → Bool
runs db a profile =
    exists_in (λ r. r.agent_ref == a && r.provider_profile_ref == profile && r.active) db.runtimes

abbrev pub mounted : ChatDb → String → String → Option Mount
mounted db p a =
    first
      (λ m.
        m.person_ref == p
        && m.agent_ref == a
        && m.active
        && runs db m.agent_ref m.provider_profile_ref)
      db.mounts

abbrev pub mount_of : Mount → ActiveAssignment
mount_of m = record {
  assignment_ref = some m.assignment_ref;
  agent_ref = m.agent_ref;
  provider_profile_ref = m.provider_profile_ref;
}

-- `requireActiveMount`.
unfoldable pub require_active_mount : String → String → Op ChatDb ActiveAssignment
require_active_mount p a = do
  refuse_if (is_system_agent a) (mobile_error "SYSTEM_AGENT_PERSONAL_FORBIDDEN" 403 permission)
  found ← gets (λ db. mounted db p a)
  m ← require found (mobile_error "AGENT_NOT_MOUNTED" 403 permission)
  pure (mount_of m)

abbrev pub admin_assigned : ChatDb → String → String → String → Option AdminAssignment
admin_assigned db f p a =
    first
      (λ r.
        r.family_ref == f
        && r.person_ref == p
        && r.agent_ref == a
        && is_system_agent r.agent_ref
        && r.active
        && runs db r.agent_ref r.provider_profile_ref)
      db.admin_assignments

-- `requireAdminAgentAssignment`.
unfoldable pub require_admin_assignment : String → String → String → Op ChatDb ActiveAssignment
require_admin_assignment f p a = do
  found ← gets (λ db. admin_assigned db f p a)
  r ← require found (mobile_error "ADMIN_AGENT_NOT_FOUND" 404 permission)
  pure (record {
    assignment_ref = none;
    agent_ref = r.agent_ref;
    provider_profile_ref = r.provider_profile_ref;
  })

-- `ThreadAccessContext`.
pub record Access : Type 0 where
  pub person_ref : String
  pub family_ref : Option String
  pub audience : Audience
  pub agent_ref : String

-- The agent of an audience: a mounted one, or one of the family that a family reference names. The
-- empty text counts as null.
unfoldable pub require_agent :
    Audience → Option String → String → String → Op ChatDb ActiveAssignment
unfolding require_active_mount require_admin_assignment
require_agent personal f p a = require_active_mount p a
require_agent family_admin none p a = fail thread_not_found
require_agent family_admin (some f) p a =
    if f == "" then fail thread_not_found else require_admin_assignment f p a

abbrev pub family_for : Audience → Option String → Option String
family_for personal f = none
family_for family_admin f = f

abbrev pub is_thread_of : Access → String → Thread → Bool
is_thread_of x ref t =
    t.thread_ref == ref
    && (t.person_ref == x.person_ref
        && t.agent_ref == x.agent_ref
        && eq_audience t.audience x.audience
        && same_text t.family_ref (family_for x.audience x.family_ref))

-- `requireThread`.
unfoldable pub require_thread : Access → String → Op ChatDb (Unit {0})
unfolding require_agent
require_thread x ref = do
  a ← require_agent x.audience x.family_ref x.person_ref x.agent_ref
  found ← gets (λ db. exists_in (is_thread_of x ref) db.threads)
  refuse_if (not found) thread_not_found

abbrev pub thread_of_person : ChatDb → String → String → Option Thread
thread_of_person db ref p = first (λ t. t.thread_ref == ref && t.person_ref == p) db.threads

abbrev pub sequenced : ℕ → Thread → Thread
sequenced now t = record t { last_sequence = t.last_sequence + 1; last_active_at = now }

-- `UPDATE interaction_threads SET last_sequence = last_sequence + 1 … RETURNING last_sequence`.
unfoldable pub take_sequence : String → String → ℕ → Op ChatDb ℕ
take_sequence ref p now = do
  found ← gets (λ db. thread_of_person db ref p)
  t ← require found thread_not_found
  modify (λ db. record db {
    threads = update (λ t. t.thread_ref == ref && t.person_ref == p) (sequenced now) db.threads;
  })
  pure (t.last_sequence + 1)

-- `UPDATE daily_episodes SET last_message_sequence = …` of the open episodes.
abbrev pub mark_episodes : String → ℕ → ChatDb → ChatDb
mark_episodes ref n db = record db {
  episodes =
      update (λ e. e.thread_ref == ref && e.open_now) (λ e. record e { last_message_sequence = n })
        db.episodes;
}

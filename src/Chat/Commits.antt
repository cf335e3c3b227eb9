-- ===== src/Chat/Commits.antt =====
-- The success of a provider turn: `commitTurnSucceeded` of apps/gateway/src/chatWorkProvider.ts.
use family_ai_platform.Common.{
  ℕ, String, Bool, not, ◌&&◌, Option, none, some, thrown, constraint_failed, Op, pure, gets, modify,
  require, refuse_if, transaction, ◌>>=◌, ◌>>◌, ◌==◌, same_text, eqb, if◌then◌else◌, changes,
}
use Prim.Native.String.{◌++◌ as joined}
use family_ai_platform.EventLog.Triggers.{turn_pending, turn_succeeded, is_status}
use family_ai_platform.Pairing.{Audience, personal, family_admin}
use family_ai_platform.Chat.{
  ChatDb, Actor, assistant, agent, Message, Context, Turn, eq_audience, take_sequence,
  mark_episodes,
}
use family_ai_platform.Chat.Messages.{insert_message}
use family_ai_platform.Chat.Contexts.{is_context, update_contexts}
use family_ai_platform.Chat.Turns.{Prepared, read_turn, turn_not_found, end_turn}

-- What the provider answered, and what the commit draws.
pub record Reply : Type 0 where
  pub body : String
  pub language : Option String
  pub external_session_ref : String
  pub completed_at : ℕ

pub record CommitDraws : Type 0 where
  pub message_ref : String
  pub message_event_ref : String
  pub turn_event_ref : String

abbrev pub same_facts : Turn → Prepared → Bool
same_facts t p =
    t.invocation_ref == p.turn.invocation_ref
    && t.correlation_ref == p.turn.correlation_ref
    && same_text t.assignment_ref p.turn.assignment_ref
    && t.agent_ref == p.turn.agent_ref
    && t.provider_profile_ref == p.turn.provider_profile_ref

-- The columns of a reply that its audience decides.
abbrev pub reply_id : Audience → String → String
reply_id personal m = joined "assistant:" m
reply_id family_admin m = joined "agent:" m

abbrev pub reply_audience : Audience → String
reply_audience personal = "personal"
reply_audience family_admin = "family_admin"

-- The actor of a reply; a missing assignment breaks the table's check.
abbrev pub reply_actor : Audience → Turn → Option Actor
reply_actor personal t = elim t.assignment_ref [
  | none ↦ none
  | some a ↦ some (assistant a t.agent_ref t.provider_profile_ref)
]
reply_actor family_admin t = some (agent t.agent_ref t.provider_profile_ref)

abbrev pub reply_message : Audience → String → String → Actor → Reply → String → ℕ → ℕ → Message
reply_message audience m ref actor r id n now = record {
  message_ref = id;
  thread_ref = ref;
  thread_sequence = n;
  client_message_id = reply_id audience m;
  actor = actor;
  device_ref = none;
  connection_ref = none;
  entry_audience = reply_audience audience;
  body = r.body;
  language = r.language;
  occurred_at = r.completed_at;
  created_at = now;
}

abbrev pub succeeded : String → ℕ → Turn → Turn
succeeded id at t = record t {
  status = turn_succeeded;
  assistant_message_ref = some id;
  error = none;
  completed_at = some at;
}

abbrev pub is_used_context : String → String → Audience → Turn → Context → Bool
is_used_context p ref audience t c =
    is_context p ref c
    && same_text c.assignment_ref t.assignment_ref
    && c.agent_ref == t.agent_ref
    && c.provider_profile_ref == t.provider_profile_ref
    && eq_audience c.audience audience

-- The writes of `commitTurnSucceeded`.
unfoldable pub commit_writes :
    String → String → String → Prepared → Turn → Reply → CommitDraws → ℕ → Op ChatDb String
unfolding take_sequence insert_message end_turn
commit_writes p m ref turn t r d now = do
  n ← take_sequence ref p r.completed_at
  actor ← require (reply_actor turn.turn.audience t) constraint_failed
  u ←
      insert_message (reply_message turn.turn.audience m ref actor r d.message_ref n now)
        d.message_event_ref
  modify (mark_episodes ref n)
  used ← gets (λ db. changes (is_used_context p ref turn.turn.audience t) db.contexts)
  modify (
      update_contexts (is_used_context p ref turn.turn.audience t) (λ c. record c {
        external_session_ref = some r.external_session_ref;
        updated_at = r.completed_at;
      }))
  refuse_if (not (eqb used 1)) (thrown "Thread Provider Context changed before success commit")
  k ← end_turn m (succeeded d.message_ref r.completed_at) d.turn_event_ref
  refuse_if (not (eqb k 1)) (thrown "Provider Turn was not marked succeeded")
  pure d.message_ref

-- The tests on the stored turn.
abbrev pub commit_open :
    String → String → String → Prepared → Turn → Reply → CommitDraws → ℕ → Op ChatDb String
commit_open p m ref turn t r d now = do
  refuse_if (not (is_status t.status turn_pending)) (thrown "Provider Turn cannot succeed")
  refuse_if (not (same_facts t turn)) (thrown "Provider Turn facts changed before success commit")
  commit_writes p m ref turn t r d now

abbrev pub given_reply : Turn → Option String
given_reply t = if is_status t.status turn_succeeded then t.assistant_message_ref else none

abbrev pub commit_or_repeat :
    Option String
    → String
    → String
    → String
    → Prepared
    → Turn
    → Reply
    → CommitDraws
    → ℕ
    → Op ChatDb String
commit_or_repeat (some id) p m ref turn t r d now = pure id
commit_or_repeat none p m ref turn t r d now = commit_open p m ref turn t r d now

-- `commitTurnSucceeded`.
unfoldable pub commit_turn :
    String → String → String → Prepared → Reply → CommitDraws → ℕ → Op ChatDb String
unfolding commit_writes
commit_turn p m ref turn r d now = transaction (do
  found ← gets (λ db. read_turn db m)
  t ← require found turn_not_found
  refuse_if (not (t.thread_ref == ref)) turn_not_found
  commit_or_repeat (given_reply t) p m ref turn t r d now)

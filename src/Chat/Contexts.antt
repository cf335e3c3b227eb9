-- ===== src/Chat/Contexts.antt =====
-- The provider's context of a thread: `resolveContext`, `readContext` and
-- `clearMissingExternalSession` of apps/gateway/src/chatWorkProvider.ts.
use family_ai_platform.Common.{
  ℕ, String, Bool, not, ◌&&◌, ◌||◌, Option, none, some, [], ◌∷◌, ◌++◌, thrown, constraint_failed,
  Op, pure, gets, modify, require, refuse_if, transaction, ◌>>=◌, ◌>>◌, ◌==◌, same_text,
  if◌then◌else◌, first, exists_in, update,
}
use family_ai_platform.Pairing.{Audience, personal}
use family_ai_platform.Chat.{
  ChatDb, Thread, Context, ActiveAssignment, Access, eq_audience, thread_not_found,
  thread_of_person, require_agent,
}

-- Who asks: a person alone, or a person with the family, the audience and the agent.
pub data Asker : Type 0 where
  by_person : String → Asker
  in_context : Access → Asker

abbrev pub asker_person : Asker → String
asker_person (by_person p) = p
asker_person (in_context x) = x.person_ref

abbrev pub may_ask : Asker → Thread → Bool
may_ask (by_person p) t = eq_audience t.audience personal
may_ask (in_context x) t =
    same_text t.family_ref x.family_ref
    && eq_audience t.audience x.audience
    && t.agent_ref == x.agent_ref

-- `readContext`.
abbrev pub is_context : String → String → Context → Bool
is_context p ref c = c.thread_ref == ref && c.person_ref == p

abbrev pub read_context : ChatDb → String → String → Option Context
read_context db p ref = first (is_context p ref) db.contexts

abbrev pub context_row : String → String → String → ActiveAssignment → Audience → ℕ → Context
context_row ref p conversation a audience now = record {
  thread_ref = ref;
  person_ref = p;
  provider_conversation_ref = conversation;
  assignment_ref = a.assignment_ref;
  agent_ref = a.agent_ref;
  provider_profile_ref = a.provider_profile_ref;
  audience = audience;
  external_session_ref = none;
  updated_at = now;
}

-- The keys of `thread_provider_contexts`.
abbrev pub context_clashes : Context → Context → Bool
context_clashes c x =
    x.thread_ref == c.thread_ref || x.provider_conversation_ref == c.provider_conversation_ref

abbrev pub insert_context : Context → Op ChatDb (Unit {0})
insert_context c = do
  taken ← gets (λ db. exists_in (context_clashes c) db.contexts)
  refuse_if taken constraint_failed
  modify (λ db. record db { contexts = db.contexts ++ c ∷ [] })

abbrev pub in_audience : String → String → Audience → Context → Bool
in_audience p ref audience c = is_context p ref c && eq_audience c.audience audience

abbrev pub update_contexts : (Context → Bool) → (Context → Context) → ChatDb → ChatDb
update_contexts q f db = record db { contexts = update q f db.contexts }

abbrev pub same_agent : ActiveAssignment → Context → Bool
same_agent a c = c.agent_ref == a.agent_ref && c.provider_profile_ref == a.provider_profile_ref

-- The three branches of `resolveContext` on the row that is there.
unfoldable pub settle_context :
    String
    → String
    → String
    → ActiveAssignment
    → Audience
    → ℕ
    → Option Context
    → Op ChatDb (Unit {0})
settle_context ref p conversation a audience now none =
    insert_context (context_row ref p conversation a audience now)
settle_context ref p conversation a audience now (some c) =
    if same_agent a c && not (same_text c.assignment_ref a.assignment_ref)
    then modify (
        update_contexts (in_audience p ref audience)
          (λ x. record x { assignment_ref = a.assignment_ref; updated_at = now }))
    else if not (same_agent a c)
    then modify (
        update_contexts (in_audience p ref audience) (λ x. record x {
          assignment_ref = a.assignment_ref;
          agent_ref = a.agent_ref;
          provider_profile_ref = a.provider_profile_ref;
          audience = audience;
          external_session_ref = none;
          updated_at = now;
        }))
    else pure tt

-- `resolveContext`; the reference of a new conversation is drawn.
unfoldable pub resolve_context : Asker → String → String → ℕ → Op ChatDb Context
unfolding require_agent settle_context
resolve_context x ref conversation now = transaction (do
  found ← gets (λ db. thread_of_person db ref (asker_person x))
  t ← require found thread_not_found
  refuse_if (not (may_ask x t)) thread_not_found
  a ← require_agent t.audience t.family_ref (asker_person x) t.agent_ref
  existing ← gets (λ db. read_context db (asker_person x) ref)
  u ← settle_context ref (asker_person x) conversation a t.audience now existing
  stored ← gets (λ db. read_context db (asker_person x) ref)
  require stored (thrown "Thread Provider Context was not readable after resolution"))

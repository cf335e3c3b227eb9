-- ===== src/Chat/KeptTurns.antt =====
-- A property of the tables that the writes of apps/gateway/src/chatWorkProvider.ts keep, through
-- `prepareTurn`, `markTurnFailed`, `clearMissingExternalSession` and `commitTurnSucceeded`.
use family_ai_platform.Common.{
  ◌==◌, changes, transaction, constraint_failed, eqb, not, thrown, ℕ, String, Option, none, some,
  refl, arith, Keeps, kept, then-Keeps, settle-Keeps, require, require-Keeps, Bool-cases, inl, inr,
  refuse_if,
}
use family_ai_platform.EventLog.Triggers.{is_status, turn_pending}
use family_ai_platform.Chat.{
  ChatDb, Access, PublicError, take_sequence, require_agent, thread_not_found, Context, Turn,
}
use family_ai_platform.Chat.Messages.{insert_message}
use family_ai_platform.Chat.Contexts.{resolve_context, read_context}
use family_ai_platform.Chat.Turns.{
  Prepared, TurnDraws, prepare_turn, prepare_written, write_turn, mark_turn_failed, end_turn,
  clear_missing_session, is_pending_now, read_turn, prepared_stored, prepare_row, prepare_open,
  asker, access_family, succeeded_turn, person_message, not_failed, failed, turn_not_found,
}
use family_ai_platform.Chat.Commits.{
  Reply, CommitDraws, commit_turn, commit_writes, reply_actor, reply_message, is_used_context,
  succeeded, commit_or_repeat, same_facts, given_reply,
}
use family_ai_platform.Chat.Kept.{IsKept, IsKeptByTurns, resolve-Keeps, sequence_keeps, agent-Keeps}

module _ {P : ChatDb → Type 0} (k : IsKeptByTurns P) where
  prepare_written-Keeps :
      (digest : String → String) (m ref : String) (c : Context) (d : TurnDraws) (now : ℕ)
      (existing : Option Turn) (db : ChatDb)
      → P db
      → Keeps P (prepare_written digest m ref c d now existing db)
  unfolding prepare_written
  prepare_written-Keeps digest m ref c d now existing db h =
      then-Keeps P (write_turn digest m ref c d now existing) _ db
        (record { holds = k.writes digest m ref c d now existing db h })
        (λ u s q.
          then-Keeps P
            (require (is_pending_now digest (read_turn s m))
              (thrown "Provider Turn was not pending after preparation"))
            _ s (require-Keeps P _ _ s q) (λ t s1 q1. kept P _ s1 q1))

  stored-Keeps :
      (c : Option Context) (t : Turn) (db : ChatDb) → P db → Keeps P (prepared_stored c t db)
  stored-Keeps none t db h = kept P _ db h
  stored-Keeps (some c) t db h = kept P _ db h

  row-Keeps :
      (digest : String → String) (p m ref : String) (c : Context) (d : TurnDraws) (now : ℕ)
      (existing done : Option Turn) (db : ChatDb)
      → P db
      → Keeps P (prepare_row digest p m ref c d now existing done db)
  row-Keeps digest p m ref c d now existing none db h =
      prepare_written-Keeps digest m ref c d now existing db h
  row-Keeps digest p m ref c d now existing (some t) db h =
      stored-Keeps (read_context db p ref) t db h

  open-Keeps :
      (digest : String → String) (p : String) (x : Option Access) (m ref : String) (d : TurnDraws)
      (now : ℕ) (done : Option Turn) (db : ChatDb)
      → P db
      → Keeps P (prepare_open digest p x m ref d now done db)
  open-Keeps digest p x m ref d now (some t) db h =
      then-Keeps P (resolve_context (asker digest p x) ref d.conversation_ref now) _ db
        (resolve-Keeps k (asker digest p x) ref d.conversation_ref now db h)
        (λ c s q. stored-Keeps (read_context s p ref) t s q)
  open-Keeps digest p x m ref d now none db h =
      then-Keeps P (resolve_context (asker digest p x) ref d.conversation_ref now) _ db
        (resolve-Keeps k (asker digest p x) ref d.conversation_ref now db h)
        (λ c s q. settle-Keeps P s _ q (
          then-Keeps P (refuse_if (not (person_message s p m ref)) thread_not_found) _ s
            (kept P _ s q)
            (λ u s1 q1.
              then-Keeps P (require_agent c.audience (access_family digest x) p c.agent_ref) _ s1
                (agent-Keeps c.audience (access_family digest x) p c.agent_ref s1 q1)
                (λ a s2 q2.
                  row-Keeps digest p m ref c d now (read_turn s2 m)
                    (succeeded_turn digest (read_turn s2 m)) s2 q2))))

  pub prepare-Keeps :
      (digest : String → String) (p : String) (x : Option Access) (m ref : String) (d : TurnDraws)
      (now : ℕ) (db : ChatDb)
      → P db
      → Keeps P (prepare_turn digest p x m ref d now db)
  unfolding prepare_turn
  prepare-Keeps digest p x m ref d now db h =
      then-Keeps P (refuse_if (not (person_message db p m ref)) thread_not_found) _ db
        (kept P _ db h)
        (λ u s q. open-Keeps digest p x m ref d now (succeeded_turn digest (read_turn s m)) s q)

  not_failed-Keeps : (t : Option Turn) (db : ChatDb) → P db → Keeps P (not_failed t db)
  not_failed-Keeps none db h = kept P _ db h
  not_failed-Keeps (some t) db h = record { holds = ground (arith, h) }

  pub fail-Keeps :
      (m : String) (e : PublicError) (at : ℕ) (ref : String) (db : ChatDb)
      → P db
      → Keeps P (mark_turn_failed m e at ref db)
  unfolding mark_turn_failed
  fail-Keeps m e at ref db h =
      then-Keeps P (transaction (end_turn m (failed e at) ref)) _ db
        (settle-Keeps P db _ h (record { holds = k.ends m (failed e at) ref db (λ t. refl) h }))
        (λ n s q. elim (Bool-cases (eqb n 0)) [
          | inl t ↦ record { holds = rw t (not_failed-Keeps (read_turn s m) s q).holds }
          | inr f ↦ record { holds = rw f q }
        ])

  pub clear-Keeps :
      (t : Prepared) (at : ℕ) (db : ChatDb) → P db → Keeps P (clear_missing_session t at db)
  unfolding clear_missing_session
  clear-Keeps t at db h = record {
    holds = k.beside db _ (ground arith) (ground arith) (ground arith) (ground arith) h;
  }

module _ {P : ChatDb → Type 0} (k : IsKept P) where
  writes-Keeps :
      (p m ref : String) (turn : Prepared) (t : Turn) (r : Reply) (d : CommitDraws) (now : ℕ)
      (db : ChatDb)
      → P db
      → Keeps P (commit_writes p m ref turn t r d now db)
  unfolding commit_writes
  writes-Keeps p m ref turn t r d now db h =
      then-Keeps P (take_sequence ref p r.completed_at) _ db
        (record { holds = sequence_keeps k ref p r.completed_at db h })
        (λ n s q.
          then-Keeps P (require (reply_actor turn.turn.audience t) constraint_failed) _ s
            (require-Keeps P _ _ s q)
            (λ actor s1 q1.
              then-Keeps P
                (insert_message (reply_message turn.turn.audience m ref actor r d.message_ref n now)
                  d.message_event_ref)
                _ s1 (record { holds = k.inserts _ _ s1 q1 })
                (λ u s2 q2.
                  let used : ℕ = changes (is_used_context p ref turn.turn.audience t) s2.contexts in
                  then-Keeps P
                    (refuse_if (not (eqb used 1))
                      (thrown "Thread Provider Context changed before success commit"))
                    _ _ (kept P _ _ (k.elsewhere s2 _ refl refl q2))
                    (λ v s3 q3.
                      then-Keeps P
                        (end_turn m (succeeded d.message_ref r.completed_at) d.turn_event_ref) _ s3
                        (record { holds = k.by_turns.ends m _ d.turn_event_ref s3 (λ t. refl) q3 })
                        (λ j s4 q4.
                          then-Keeps P
                            (refuse_if (not (eqb j 1))
                              (thrown "Provider Turn was not marked succeeded"))
                            _ s4 (kept P _ s4 q4) (λ w s5 q5. kept P _ s5 q5))))))

  repeat-Keeps :
      (id : Option String) (p m ref : String) (turn : Prepared) (t : Turn) (r : Reply)
      (d : CommitDraws) (now : ℕ) (db : ChatDb)
      → P db
      → Keeps P (commit_or_repeat id p m ref turn t r d now db)
  repeat-Keeps (some id) p m ref turn t r d now db h = kept P _ db h
  repeat-Keeps none p m ref turn t r d now db h =
      then-Keeps P
        (refuse_if (not (is_status t.status turn_pending)) (thrown "Provider Turn cannot succeed"))
        _ db (kept P _ db h)
        (λ u s q.
          then-Keeps P
            (refuse_if (not (same_facts t turn))
              (thrown "Provider Turn facts changed before success commit"))
            _ s (kept P _ s q) (λ v s1 q1. writes-Keeps p m ref turn t r d now s1 q1))

  pub commit-Keeps :
      (p m ref : String) (turn : Prepared) (r : Reply) (d : CommitDraws) (now : ℕ) (db : ChatDb)
      → P db
      → Keeps P (commit_turn p m ref turn r d now db)
  unfolding commit_turn
  commit-Keeps p m ref turn r d now db h = settle-Keeps P db _ h (
      then-Keeps P (require (read_turn db m) turn_not_found) _ db (require-Keeps P _ _ db h)
        (λ t s q.
          then-Keeps P (refuse_if (not (t.thread_ref == ref)) turn_not_found) _ s (kept P _ s q)
            (λ u s1 q1. repeat-Keeps (given_reply t) p m ref turn t r d now s1 q1)))

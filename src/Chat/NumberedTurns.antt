-- ===== src/Chat/NumberedTurns.antt =====
-- The numbers of a thread's messages through the provider turns of
-- apps/gateway/src/chatWorkProvider.ts, and through every history of the threads.
use family_ai_platform.Common.{
  ◌==◌, ℕ, String, refl, not, inl, inr, Option, some, none, List, arith, Bool-cases, thrown,
  constraint_failed, Keeps, kept, then-Keeps, Gives, then-Gives, require-Gives, refuse-Gives,
  Keeps-Gives, Gives-Keeps, refuse_if, require, eqb, changes, pure,
}
use family_ai_platform.EventLog.Triggers.{is_status, turn_pending}
use family_ai_platform.Chat.{ChatDb, Thread, Message, Context, Turn, take_sequence}
use family_ai_platform.Chat.Messages.{insert_message, in_log}
use family_ai_platform.Chat.Turns.{
  TurnDraws, Prepared, read_turn, write_turn, end_turn, is_pending_turn, update_turns, turn_event,
  turn_not_found,
}
use family_ai_platform.Chat.Commits.{
  Reply, CommitDraws, commit_turn, commit_writes, commit_or_repeat, given_reply, same_facts,
  succeeded, reply_actor, reply_message, is_used_context,
}
use family_ai_platform.Chat.Kept.{IsKeptByTurns, resolve-Keeps}
use family_ai_platform.Chat.KeptTurns.{prepare-Keeps, fail-Keeps, clear-Keeps}
use family_ai_platform.Chat.Histories.{
  ChatStep, appends_message, resolves, prepares, fails_turn, clears, commits, ChatReach, here, next,
}
use family_ai_platform.Chat.Numbers.{IsNumbered}
use family_ai_platform.Chat.Numbered.{HasRows, IsTaken, taken, inserted, same_rows, append_numbers}

writes_same_rows :
    (digest : String → String) (x ref : String) (c : Context) (d : TurnDraws) (now : ℕ)
    (old : Option Turn) (db : ChatDb)
    → HasRows db.messages db.threads (write_turn digest x ref c d now old db).1
unfolding write_turn
writes_same_rows digest x ref c d now none db = (ground arith, ground arith)
writes_same_rows digest x ref c d now (some y) db = (ground arith, ground arith)

ends-HasRows :
    (ms : List Message) (ts : List Thread) (m : String) (f : Turn → Turn) (ref : String)
    (db : ChatDb)
    → HasRows ms ts db
    → Keeps (HasRows ms ts) (end_turn m f ref db)
unfolding end_turn
ends-HasRows ms ts m f ref db h = elim (Bool-cases (eqb (changes (is_pending_turn m) db.turns) 0)) [
  | inl none_changed ↦
      rw none_changed (kept (HasRows ms ts) _ (update_turns (is_pending_turn m) f db) h)
  | inr some_changed ↦ rw some_changed (
      then-Keeps (HasRows ms ts)
        (in_log (turn_event turn_pending (read_turn (update_turns (is_pending_turn m) f db) m) ref))
        (λ u. pure (changes (is_pending_turn m) db.turns)) (update_turns (is_pending_turn m) f db)
        (record { holds = h }) (λ u s q. kept (HasRows ms ts) _ s q))
]

numbers : IsKeptByTurns IsNumbered
numbers = record {
  beside = λ db db' same_turns same_log same_messages same_threads v.
      same_rows db db' same_messages same_threads v;
  writes = λ digest x ref c d now old db v.
      let (same_messages, same_threads) = writes_same_rows digest x ref c d now old db in
      same_rows db _ same_messages same_threads v;
  ends = λ m f ref db same v.
      let rows = (ends-HasRows db.messages db.threads m f ref db (refl, refl)).holds in
      same_rows db _ rows.0 rows.1 v;
}

writes_numbers :
    (p m ref : String) (turn : Prepared) (t : Turn) (r : Reply) (d : CommitDraws) (now : ℕ)
    (db : ChatDb)
    → IsNumbered db
    → Gives (λ id s. IsNumbered s) (commit_writes p m ref turn t r d now db)
unfolding commit_writes
writes_numbers p m ref turn t r d now db v =
    then-Gives (λ n s. IsTaken ref n s) (take_sequence ref p r.completed_at) _ db
      (taken ref p r.completed_at db v)
      (λ n s q.
        then-Gives (λ a s. IsTaken ref n s)
          (require (reply_actor turn.turn.audience t) constraint_failed) _ s
          (require-Gives _ _ s (λ a e. q))
          (λ actor s1 q1.
            let x = reply_message turn.turn.audience m ref actor r d.message_ref n now in
            then-Gives (λ u s. IsNumbered s) (insert_message x d.message_event_ref) _ s1
              (inserted ref n x d.message_event_ref s1 refl refl q1)
              (λ u s2 q2.
                let used : ℕ = changes (is_used_context p ref turn.turn.audience t) s2.contexts in
                then-Gives (λ w s. IsNumbered s)
                  (refuse_if (not (eqb used 1))
                    (thrown "Thread Provider Context changed before success commit"))
                  _ _ (refuse-Gives _ _ _ (λ f. same_rows s2 _ refl refl q2))
                  (λ w s3 q3.
                    then-Gives (λ k s. IsNumbered s)
                      (end_turn m (succeeded d.message_ref r.completed_at) d.turn_event_ref) _ s3
                      (Keeps-Gives IsNumbered _
                        (record { holds = numbers.ends m _ d.turn_event_ref s3 (λ t. refl) q3 }))
                      (λ k s4 q4.
                        then-Gives (λ z s. IsNumbered s)
                          (refuse_if (not (eqb k 1))
                            (thrown "Provider Turn was not marked succeeded"))
                          _ s4 (refuse-Gives _ _ s4 (λ f. q4))
                          (λ z s5 q5. record { given = q5 }))))))

repeat_numbers :
    (id : Option String) (p m ref : String) (turn : Prepared) (t : Turn) (r : Reply)
    (d : CommitDraws) (now : ℕ) (db : ChatDb)
    → IsNumbered db
    → Gives (λ id s. IsNumbered s) (commit_or_repeat id p m ref turn t r d now db)
repeat_numbers (some id) p m ref turn t r d now db v = record { given = v }
repeat_numbers none p m ref turn t r d now db v =
    then-Gives (λ u s. IsNumbered s)
      (refuse_if (not (is_status t.status turn_pending)) (thrown "Provider Turn cannot succeed")) _
      db (refuse-Gives _ _ db (λ f. v))
      (λ u s q.
        then-Gives (λ w s. IsNumbered s)
          (refuse_if (not (same_facts t turn))
            (thrown "Provider Turn facts changed before success commit"))
          _ s (refuse-Gives _ _ s (λ f. q))
          (λ w s1 q1. writes_numbers p m ref turn t r d now s1 q1))

commit_numbers :
    (p m ref : String) (turn : Prepared) (r : Reply) (d : CommitDraws) (now : ℕ) (db : ChatDb)
    → IsNumbered db
    → IsNumbered (commit_turn p m ref turn r d now db).1
unfolding commit_turn
commit_numbers p m ref turn r d now db v =
    (Gives-Keeps IsNumbered db _ v (
      then-Gives (λ t s. IsNumbered s) (require (read_turn db m) turn_not_found) _ db
        (require-Gives _ _ db (λ t e. v))
        (λ t s q.
          then-Gives (λ u s. IsNumbered s) (refuse_if (not (t.thread_ref == ref)) turn_not_found) _
            s (refuse-Gives _ _ s (λ f. q))
            (λ u s1 q1. repeat_numbers (given_reply t) p m ref turn t r d now s1 q1)))).holds

ChatStep-IsNumbered : {db db' : ChatDb} → ChatStep db db' → IsNumbered db → IsNumbered db'
ChatStep-IsNumbered {db} (appends_message i ref event_ref now) v =
    append_numbers i ref event_ref now db v
ChatStep-IsNumbered {db} (resolves x ref conversation now) v =
    (resolve-Keeps numbers x ref conversation now db v).holds
ChatStep-IsNumbered {db} (prepares digest p x m ref d now) v =
    (prepare-Keeps numbers digest p x m ref d now db v).holds
ChatStep-IsNumbered {db} (fails_turn m e at event_ref) v =
    (fail-Keeps numbers m e at event_ref db v).holds
ChatStep-IsNumbered {db} (clears t at) v = (clear-Keeps numbers t at db v).holds
ChatStep-IsNumbered {db} (commits p m ref t r d now) v = commit_numbers p m ref t r d now db v

-- Whatever operations on threads, messages, contexts and turns run, in any order and whether they
-- succeed or not: if the messages of each thread were numbered from 1 in the order of insertion,
-- with the thread's counter at their number and no two threads of one reference, they still are.
pub ChatReach-IsNumbered : {db db' : ChatDb} → IsNumbered db → ChatReach db db' → IsNumbered db'
ChatReach-IsNumbered v here = v
ChatReach-IsNumbered v (next r s) = ChatStep-IsNumbered s (ChatReach-IsNumbered v r)

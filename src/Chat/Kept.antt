-- ===== src/Chat/Kept.antt =====
-- A property of the tables that the writes of apps/gateway/src/chatWorkDomain.ts and
-- chatWorkProvider.ts keep, through `appendThreadMessage` and `resolveContext`.
use family_ai_platform.Common.{
  same_text, not, subst, sym, thrown, ℕ, ◌+◌, ltb, String, Option, none, some, List, [], ◌∷◌, ok,
  ◌≡◌, refl, arith, Keeps, kept, then-Keeps, settle-Keeps, require, require-Keeps, refuse_if,
}
use family_ai_platform.Pairing.{Audience, personal, family_admin}
use family_ai_platform.Chat.{
  Message, ChatDb, Access, require_thread, take_sequence, require_agent, mark_episodes,
  thread_not_found, ActiveAssignment, Context, Turn, thread_of_person,
}
use family_ai_platform.Chat.Messages.{
  NewMessage, append_message, append_new, append_found, insert_message, attach_each,
  attachment_total, message_of, message_conflict, posted, same_fingerprint, message_by_ref,
  content_ok, provenance_ok, by_client_id, attachment_family, max_message_attachment_bytes,
  message_invalid, in_files, answer,
}
use family_ai_platform.Attachments.Uploads.{attach}
use family_ai_platform.Chat.Contexts.{
  Asker, resolve_context, settle_context, asker_person, may_ask, read_context,
}
use family_ai_platform.Chat.Turns.{TurnDraws, write_turn, end_turn}

-- A property of the tables that the writes on contexts and turns keep.
pub record IsKeptByTurns (P : ChatDb → Type 0) : Type 0 where
  pub beside :
      (db db' : ChatDb)
      → db'.turns ≡ db.turns
      → db'.log ≡ db.log
      → db'.messages ≡ db.messages
      → db'.threads ≡ db.threads
      → P db
      → P db'
  pub writes :
      (digest : String → String) (m ref : String) (c : Context) (d : TurnDraws) (now : ℕ)
      (t : Option Turn) (db : ChatDb)
      → P db
      → P (write_turn digest m ref c d now t db).1
  pub ends :
      (m : String) (f : Turn → Turn) (ref : String) (db : ChatDb)
      → ((t : Turn) → (f t).user_message_ref ≡ t.user_message_ref)
      → P db
      → P (end_turn m f ref db).1

-- A property that every write keeps which the operations are made of.
pub record IsKept (P : ChatDb → Type 0) : Type 0 where
  pub by_turns : IsKeptByTurns P
  pub elsewhere : (db db' : ChatDb) → db'.turns ≡ db.turns → db'.log ≡ db.log → P db → P db'
  pub inserts : (m : Message) (ref : String) (db : ChatDb) → P db → P (insert_message m ref db).1

agent_same :
    (a : Audience) (f : Option String) (p g : String) (db : ChatDb)
    → (require_agent a f p g db).1 ≡ db
unfolding require_agent
agent_same personal f p g db = ground arith
agent_same family_admin none p g db = refl
agent_same family_admin (some f) p g db = ground arith

pub thread_same : (x : Access) (ref : String) (db : ChatDb) → (require_thread x ref db).1 ≡ db
unfolding require_thread
thread_same x ref db =
    ground (arith, agent_same x.audience x.family_ref x.person_ref x.agent_ref db)

module _ {P : ChatDb → Type 0} where
  pub agent-Keeps :
      (a : Audience) (f : Option String) (p g : String) (db : ChatDb)
      → P db
      → Keeps P (require_agent a f p g db)
  agent-Keeps a f p g db h = record { holds = subst P (sym (agent_same a f p g db)) h }

  pub thread-Keeps :
      (x : Access) (ref : String) (db : ChatDb) → P db → Keeps P (require_thread x ref db)
  thread-Keeps x ref db h = record { holds = subst P (sym (thread_same x ref db)) h }

module _ {P : ChatDb → Type 0} (k : IsKeptByTurns P) where
  settle_context-Keeps :
      (ref p conversation : String) (a : ActiveAssignment) (audience : Audience) (now : ℕ)
      (existing : Option Context) (db : ChatDb)
      → P db
      → Keeps P (settle_context ref p conversation a audience now existing db)
  unfolding settle_context
  settle_context-Keeps ref p conversation a audience now none db h = record {
    holds = k.beside db _ (ground arith) (ground arith) (ground arith) (ground arith) h;
  }
  settle_context-Keeps ref p conversation a audience now (some c) db h = record {
    holds = k.beside db _ (ground arith) (ground arith) (ground arith) (ground arith) h;
  }

  pub resolve-Keeps :
      (x : Asker) (ref conversation : String) (now : ℕ) (db : ChatDb)
      → P db
      → Keeps P (resolve_context x ref conversation now db)
  unfolding resolve_context
  resolve-Keeps x ref conversation now db h = settle-Keeps P db _ h (
      then-Keeps P (require (thread_of_person db ref (asker_person x)) thread_not_found) _ db
        (require-Keeps P _ _ db h)
        (λ t s q.
          then-Keeps P (refuse_if (not (may_ask x t)) thread_not_found) _ s (kept P _ s q)
            (λ u s1 q1.
              then-Keeps P (require_agent t.audience t.family_ref (asker_person x) t.agent_ref) _ s1
                (agent-Keeps t.audience t.family_ref (asker_person x) t.agent_ref s1 q1)
                (λ a s2 q2.
                  then-Keeps P
                    (settle_context ref (asker_person x) conversation a t.audience now
                      (read_context s2 (asker_person x) ref))
                    _ s2
                    (settle_context-Keeps ref (asker_person x) conversation a t.audience now _ s2
                      q2)
                    (λ v s3 q3. require-Keeps P _ _ s3 q3)))))

module _ {P : ChatDb → Type 0} (k : IsKept P) where
  pub sequence_keeps :
      (ref p : String) (now : ℕ) (db : ChatDb) → P db → P (take_sequence ref p now db).1
  unfolding take_sequence
  sequence_keeps ref p now db h = k.elsewhere db _ (ground arith) (ground arith) h

  attach_each-Keeps :
      (p m : String) (now n : ℕ) (refs : List String) (db : ChatDb)
      → P db
      → Keeps P (attach_each p m now n refs db)
  unfolding attach_each
  attach_each-Keeps p m now n [] db h = kept P (ok tt) db h
  attach_each-Keeps p m now n (ref ∷ refs) db h =
      then-Keeps P (in_files (attach p ref now)) _ db
        (record { holds = k.elsewhere db _ refl refl h })
        (λ u s q. attach_each-Keeps p m now (n + 1) refs _ (k.elsewhere s _ refl refl q))

  append_new-Keeps :
      (i : NewMessage) (ref event_ref : String) (now : ℕ) (db : ChatDb)
      → P db
      → Keeps P (append_new i ref event_ref now db)
  unfolding append_new
  append_new-Keeps i ref event_ref now db h =
      then-Keeps P
        (answer
          (attachment_total db.files i.access.person_ref (attachment_family i) i.attachment_refs))
        _ db (kept P _ db h)
        (λ total s1 h1.
          then-Keeps P (refuse_if (ltb max_message_attachment_bytes total) message_invalid) _ s1
            (kept P _ s1 h1)
            (λ u s2 h2.
              then-Keeps P (take_sequence i.thread_ref i.access.person_ref now) _ s2
                (record { holds = sequence_keeps i.thread_ref i.access.person_ref now s2 h2 })
                (λ n s3 h3.
                  then-Keeps P (insert_message (message_of i ref n now) event_ref) _ s3
                    (record { holds = k.inserts (message_of i ref n now) event_ref s3 h3 })
                    (λ v s4 h4.
                      then-Keeps P (attach_each i.access.person_ref ref now 0 i.attachment_refs) _
                        s4 (attach_each-Keeps i.access.person_ref ref now 0 i.attachment_refs s4 h4)
                        (λ w s5 h5.
                          let s6 = mark_episodes i.thread_ref n s5 in
                          then-Keeps P
                            (require (message_by_ref s6 ref)
                              (thrown "Thread Message was not readable after creation"))
                            _ s6 (require-Keeps P _ _ s6 (k.elsewhere s5 _ refl refl h5))
                            (λ m s7 h7. kept P _ s7 h7))))))

  pub found-Keeps :
      (i : NewMessage) (ref event_ref : String) (now : ℕ) (found : Option Message) (db : ChatDb)
      → P db
      → Keeps P (append_found i ref event_ref now found db)
  found-Keeps i ref event_ref now none db h = append_new-Keeps i ref event_ref now db h
  found-Keeps i ref event_ref now (some m) db h =
      then-Keeps P (refuse_if (not (same_text m.device_ref i.device_ref)) message_conflict) _ db
        (kept P _ db h)
        (λ u s q.
          then-Keeps P (refuse_if (not (same_fingerprint (posted db m) i)) message_conflict) _ s
            (kept P _ s q) (λ v s' q'. kept P _ s' q'))

  pub append-Keeps :
      (i : NewMessage) (ref event_ref : String) (now : ℕ) (db : ChatDb)
      → P db
      → Keeps P (append_message i ref event_ref now db)
  unfolding append_message
  append-Keeps i ref event_ref now db h =
      then-Keeps P (refuse_if (not (content_ok i)) message_invalid) _ db (kept P _ db h) (λ u s q.
        settle-Keeps P s _ q (
          then-Keeps P (require_thread i.access i.thread_ref) _ s
            (thread-Keeps i.access i.thread_ref s q)
            (λ v s1 q1.
              then-Keeps P
                (refuse_if
                  (not (provenance_ok s1 i.access.person_ref i.actor i.device_ref i.entry_audience))
                  message_invalid)
                _ s1 (kept P _ s1 q1)
                (λ w s2 q2.
                  found-Keeps i ref event_ref now (by_client_id s2 i.thread_ref i.client_message_id)
                    s2 q2))))

-- ===== src/Chat/Repeats.antt =====
-- A message that is sent again: `appendThreadMessage` of apps/gateway/src/chatWorkDomain.ts for a
-- client's message id that the thread has.
use family_ai_platform.Common.{
  ◌&&◌, ℕ, ◌+◌, String, Bool, true, false, not, Option, none, some, List, [], ◌∷◌, ◌++◌, ◌≡◌, ◌∙◌,
  refl, sym, subst, ap, ok, thrown, arith, ◌==◌, require, refuse_if, Keeps, kept, then-Keeps, Gives,
  gives_of, then-Gives, require-Gives, refuse-Gives, settle-Gives, Keeps-Gives, first,
  first-append_none, exists_in, ltb, ==_refl, same_text, settle-Keeps, first-none,
  constraint_failed,
}
use family_ai_platform.Attachments.Uploads.{attach}
use family_ai_platform.Chat.{ChatDb, Message, require_thread, take_sequence, mark_episodes}
use family_ai_platform.Chat.Messages.{
  NewMessage, Posted, append_message, append_new, append_found, insert_message, attach_each,
  attachment_total, message_of, attachment_family, max_message_attachment_bytes, message_invalid,
  in_files, answer, message_conflict, posted, same_fingerprint, message_by_ref, content_ok,
  provenance_ok, by_client_id, message_fits, message_clashes, in_log, trigger_row,
}
use family_ai_platform.EventLog.Triggers.{message_created}
use family_ai_platform.Chat.Kept.{thread_same}

-- The thread has a message with the client's id.
abbrev HasSent : String → String → Message → ChatDb → Type 0
HasSent thread id m db = by_client_id db thread id ≡ some m

abbrev pub HasMessages : List Message → ChatDb → Type 0
HasMessages ms db = db.messages ≡ ms

abbrev Unchanged : ChatDb → ChatDb → Type 0
Unchanged db s = s ≡ db

repeat-Keeps :
    (i : NewMessage) (ref event_ref : String) (now : ℕ) (m : Message) (db : ChatDb)
    → Keeps (Unchanged db) (append_found i ref event_ref now (some m) db)
repeat-Keeps i ref event_ref now m db =
    then-Keeps (Unchanged db)
      (refuse_if (not (same_text m.device_ref i.device_ref)) message_conflict) _ db
      (kept (Unchanged db) _ db refl)
      (λ u s q.
        then-Keeps (Unchanged db)
          (refuse_if (not (same_fingerprint (posted db m) i)) message_conflict) _ s
          (kept (Unchanged db) _ s q) (λ v s' q'. kept (Unchanged db) _ s' q'))

-- A message with a client's id that its thread has changes nothing.
repeat_changes_nothing :
    (i : NewMessage) (ref event_ref : String) (now : ℕ) (m : Message) (db : ChatDb)
    → HasSent i.thread_ref i.client_message_id m db
    → (append_message i ref event_ref now db).1 ≡ db
unfolding append_message
repeat_changes_nothing i ref event_ref now m db h =
    (then-Keeps (Unchanged db) (refuse_if (not (content_ok i)) message_invalid) _ db
      (kept (Unchanged db) _ db refl)
      (λ u s q. settle-Keeps (Unchanged db) s _ q (
        then-Keeps (Unchanged db) (require_thread i.access i.thread_ref) _ s
          (record { holds = thread_same i.access i.thread_ref s ∙ q })
          (λ v s1 q1.
            then-Keeps (Unchanged db)
              (refuse_if
                (not (provenance_ok s1 i.access.person_ref i.actor i.device_ref i.entry_audience))
                message_invalid)
              _ s1 (kept (Unchanged db) _ s1 q1)
              (λ w s2 q2.
                let sent : by_client_id s2 i.thread_ref i.client_message_id ≡ some m =
                  ap (λ d. by_client_id d i.thread_ref i.client_message_id) q2 ∙ h in
                rw sent (
                  subst (λ d. Keeps (Unchanged db) (append_found i ref event_ref now (some m) d))
                    (sym q2) (repeat-Keeps i ref event_ref now m db))))))).holds

-- A row that is found by its reference and by its client's id.
abbrev pub IsFound : Message → ChatDb → Type 0
IsFound x db =
    (message_by_ref db x.message_ref ≡ some x)
    × (by_client_id db x.thread_ref x.client_message_id ≡ some x)

no_ref_clash :
    (x : Message) (ms : List Message)
    → exists_in (message_clashes x) ms ≡ false
    → exists_in (λ m. m.message_ref == x.message_ref) ms ≡ false
no_ref_clash x [] h = refl
no_ref_clash x (m ∷ ms) h = ground (arith, no_ref_clash x ms)

no_id_clash :
    (x : Message) (ms : List Message)
    → exists_in (message_clashes x) ms ≡ false
    → exists_in (λ m. m.thread_ref == x.thread_ref && m.client_message_id == x.client_message_id) ms
      ≡ false
no_id_clash x [] h = refl
no_id_clash x (m ∷ ms) h = ground (arith, no_id_clash x ms)

appended_found :
    (x : Message) (ms : List Message) (db : ChatDb)
    → exists_in (message_clashes x) ms ≡ false
    → db.messages ≡ ms ++ x ∷ []
    → IsFound x db
appended_found x ms db h e =
    let found : (p : Message → Bool)
        → exists_in p ms ≡ false
        → p x ≡ true
        → first p db.messages ≡ some x =
      λ p free t.
        ap (first p) e ∙ first-append_none p ms (x ∷ []) (first-none p ms free) ∙ rw t refl in
    (
      found (λ m. m.message_ref == x.message_ref) (no_ref_clash x ms h) (==_refl x.message_ref),
      found (λ m. m.thread_ref == x.thread_ref && m.client_message_id == x.client_message_id)
          (no_id_clash x ms h) (rw (==_refl x.thread_ref) (==_refl x.client_message_id)),
    )

pub inserted :
    (x : Message) (event_ref : String) (db : ChatDb)
    → Gives (λ u s. IsFound x s) (insert_message x event_ref db)
unfolding insert_message
inserted x event_ref db =
    then-Gives (λ u s. (s ≡ db) × (message_fits db x ≡ true))
      (refuse_if (not (message_fits db x)) constraint_failed) _ db
      (refuse-Gives _ _ db (λ f. (refl, ground arith)))
      (λ u s q.
        let s' : ChatDb = record s { messages = s.messages ++ x ∷ [] } in
        then-Gives (λ e s. HasMessages (db.messages ++ x ∷ []) s)
          (in_log (message_created (trigger_row x) event_ref)) _ s'
          (Keeps-Gives (HasMessages (db.messages ++ x ∷ [])) _
            (record { holds = ap (λ d. d.messages ++ x ∷ []) q.0 }))
          (λ e s1 q1. record { given = appended_found x db.messages s1 (ground arith) q1 }))

pub attach_each_messages :
    (ms : List Message) (p m : String) (now n : ℕ) (refs : List String) (db : ChatDb)
    → HasMessages ms db
    → Keeps (HasMessages ms) (attach_each p m now n refs db)
unfolding attach_each
attach_each_messages ms p m now n [] db h = kept (HasMessages ms) _ db h
attach_each_messages ms p m now n (ref ∷ refs) db h =
    then-Keeps (HasMessages ms) (in_files (attach p ref now)) _ db (record { holds = h })
      (λ u s q. attach_each_messages ms p m now (n + 1) refs _ q)

pub found_same :
    (x : Message) (db db' : ChatDb) → IsFound x db → db'.messages ≡ db.messages → IsFound x db'
found_same x db db' (by_ref, by_id) e = (
  ap (first (λ m. m.message_ref == x.message_ref)) e ∙ by_ref,
  ap (first (λ m. m.thread_ref == x.thread_ref && m.client_message_id == x.client_message_id)) e
      ∙ by_id,
)

new_sent :
    (i : NewMessage) (ref event_ref : String) (now : ℕ) (db : ChatDb)
    → Gives
        (λ x s. HasSent i.thread_ref i.client_message_id x.message s)
        (append_new i ref event_ref now db)
unfolding append_new
new_sent i ref event_ref now db =
    then-Gives (λ total s. Unit {0})
      (answer
        (attachment_total db.files i.access.person_ref (attachment_family i) i.attachment_refs))
      _ db (Keeps-Gives (λ s. Unit {0}) _ (record { holds = tt }))
      (λ total s q.
        then-Gives (λ u s. Unit {0})
          (refuse_if (ltb max_message_attachment_bytes total) message_invalid) _ s
          (refuse-Gives _ _ s (λ f. tt))
          (λ u s1 q1.
            then-Gives (λ n s. Unit {0}) (take_sequence i.thread_ref i.access.person_ref now) _ s1
              (Keeps-Gives (λ s. Unit {0}) _ (record { holds = tt }))
              (λ n s2 q2.
                let x : Message = message_of i ref n now in
                then-Gives (λ v s. IsFound x s) (insert_message x event_ref) _ s2
                  (inserted x event_ref s2)
                  (λ v s3 q3.
                    then-Gives (λ w s. HasMessages s3.messages s)
                      (attach_each i.access.person_ref ref now 0 i.attachment_refs) _ s3
                      (Keeps-Gives (HasMessages s3.messages) _ (
                        attach_each_messages s3.messages i.access.person_ref ref now 0
                          i.attachment_refs s3 refl))
                      (λ w s4 q4.
                        let s5 : ChatDb = mark_episodes i.thread_ref n s4 in
                        let (by_ref, by_id) = found_same x s3 s5 q3 q4 in
                        then-Gives (λ m s. (s ≡ s5) × (m ≡ x))
                          (require (message_by_ref s5 ref)
                            (thrown "Thread Message was not readable after creation"))
                          _ s5 (require-Gives _ _ s5 (λ m e. (refl, cc)))
                          (λ m s6 q6. record {
                            given =
                                ap (λ d. by_client_id d i.thread_ref i.client_message_id) q6.0
                                ∙ by_id
                                ∙ ap some (sym q6.1);
                          }))))))

found_sent :
    (i : NewMessage) (ref event_ref : String) (now : ℕ) (found : Option Message) (db : ChatDb)
    → by_client_id db i.thread_ref i.client_message_id ≡ found
    → Gives
        (λ x s. HasSent i.thread_ref i.client_message_id x.message s)
        (append_found i ref event_ref now found db)
found_sent i ref event_ref now none db e = new_sent i ref event_ref now db
found_sent i ref event_ref now (some m) db e =
    then-Gives (λ u s. HasSent i.thread_ref i.client_message_id m s)
      (refuse_if (not (same_text m.device_ref i.device_ref)) message_conflict) _ db
      (refuse-Gives _ _ db (λ f. e))
      (λ u s q.
        then-Gives (λ v s. HasSent i.thread_ref i.client_message_id m s)
          (refuse_if (not (same_fingerprint (posted db m) i)) message_conflict) _ s
          (refuse-Gives _ _ s (λ f. q)) (λ v s1 q1. record { given = q1 }))

sent :
    (i : NewMessage) (ref event_ref : String) (now : ℕ) (db : ChatDb)
    → Gives
        (λ x s. HasSent i.thread_ref i.client_message_id x.message s)
        (append_message i ref event_ref now db)
unfolding append_message
sent i ref event_ref now db =
    then-Gives (λ u s. Unit {0}) (refuse_if (not (content_ok i)) message_invalid) _ db
      (refuse-Gives _ _ db (λ f. tt))
      (λ u s q. settle-Gives s _ (
        then-Gives (λ v s. Unit {0}) (require_thread i.access i.thread_ref) _ s
          (Keeps-Gives (λ s. Unit {0}) _ (record { holds = tt }))
          (λ v s1 q1.
            then-Gives (λ w s. Unit {0})
              (refuse_if
                (not (provenance_ok s1 i.access.person_ref i.actor i.device_ref i.entry_audience))
                message_invalid)
              _ s1 (refuse-Gives _ _ s1 (λ f. tt))
              (λ w s2 q2.
                found_sent i ref event_ref now (by_client_id s2 i.thread_ref i.client_message_id) s2
                  refl))))

-- Once a message has been appended, the thread finds it by its client's id, and no message with
-- that id, whatever else is in it, changes the database.
pub resend_writes_nothing :
    (i j : NewMessage) (ref event_ref ref' event_ref' : String) (now now' : ℕ) (db db' : ChatDb)
    (x : Posted)
    → append_message i ref event_ref now db ≡ (ok x, db')
    → j.thread_ref ≡ i.thread_ref
    → j.client_message_id ≡ i.client_message_id
    → (by_client_id db' i.thread_ref i.client_message_id ≡ some x.message)
      × ((append_message j ref' event_ref' now' db').1 ≡ db')
resend_writes_nothing i j ref event_ref ref' event_ref' now now' db db' x e thread id =
    let stored = gives_of _ x db' (sent i ref event_ref now db) e in
    (
      stored,
      repeat_changes_nothing j ref' event_ref' now' x.message db' (
          ap (λ t. by_client_id db' t j.client_message_id) thread
          ∙ ap (λ c. by_client_id db' i.thread_ref c) id
          ∙ stored),
    )

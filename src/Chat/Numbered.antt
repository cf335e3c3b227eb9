-- ===== src/Chat/Numbered.antt =====
-- The numbers of a thread's messages through the operations of apps/gateway/src/chatWorkDomain.ts and
-- chatWorkProvider.ts.
use family_ai_platform.Common.{
  same_text, Gives-Keeps, ℕ, suc, ◌+◌, String, ◌≡◌, refl, sym, ap, subst, ◌∙◌, Bool, true, false,
  not, inl, inr, Option, some, none, List, [], ◌∷◌, ◌++◌, append-nil, arith, ◌==◌, eq_iff, ◌&&◌,
  if◌then◌else◌, length, length-append, select-append, Bool-cases, update, map-update, thrown,
  constraint_failed, Keeps, kept, then-Keeps, Gives, then-Gives, require-Gives, refuse-Gives,
  Keeps-Gives, refuse_if, require, ltb,
}
use family_ai_platform.EventLog.Triggers.{message_created}
use family_ai_platform.Outbox.Leases.{Distinct}
use family_ai_platform.Attachments.Uploads.{attach}
use family_ai_platform.Chat.{
  ChatDb, Thread, Message, sequenced, take_sequence, require_thread, thread_of_person,
  thread_not_found, mark_episodes,
}
use family_ai_platform.Chat.Messages.{
  NewMessage, append_message, append_new, insert_message, attach_each, attachment_total, message_of,
  attachment_family, max_message_attachment_bytes, message_invalid, in_files, answer,
  message_by_ref, in_log, trigger_row, message_fits, append_found, message_conflict,
  same_fingerprint, posted, content_ok, provenance_ok, by_client_id,
}
use family_ai_platform.Chat.Kept.{thread-Keeps}
use family_ai_platform.Chat.Numbers.{
  IsNumbered, InOrder, InOrder-append, messages_in, counter_of, counter_of-other, counter_of-taken,
  thread_refs,
}

-- Between the update of the counter and the insertion of the message that has its number.
pub record IsTaken (ref : String) (n : ℕ) (db : ChatDb) : Type 0 where
  pub distinct : Distinct (thread_refs db.threads)
  pub in_order : (r : String) → InOrder 0 (messages_in r db.messages)
  pub counted :
      (r : String)
      → counter_of r db.threads ≡ (
          if ref == r
          then suc (length (messages_in r db.messages))
          else length (messages_in r db.messages))
  pub next : n ≡ suc (length (messages_in ref db.messages))

abbrev taken_db : String → String → ℕ → ChatDb → ChatDb
taken_db ref p now db = record db {
  threads = update (λ t. t.thread_ref == ref && t.person_ref == p) (sequenced now) db.threads;
}

taken_row :
    (ref p : String) (now : ℕ) (db : ChatDb) (t : Thread)
    → IsNumbered db
    → thread_of_person db ref p ≡ some t
    → IsTaken ref (t.last_sequence + 1) (taken_db ref p now db)
taken_row ref p now db t v found =
    let (same, next) = counter_of-taken ref p now db.threads t v.distinct found in
    record {
      distinct =
          subst Distinct
            (sym (
              map-update (λ (t : Thread). t.thread_ref)
                (λ t. t.thread_ref == ref && t.person_ref == p) (sequenced now) (λ t. refl)
                db.threads))
            v.distinct;
      in_order = v.in_order;
      counted = λ r. elim (Bool-cases (ref == r)) [
        | inl mine ↦ rw mine (
            subst
              (λ r.
                counter_of r (taken_db ref p now db).threads
                ≡ suc (length (messages_in r db.messages)))
              ((eq_iff ref r).0 mine) (next ∙ ap suc (v.counted ref)))
        | inr other ↦ rw other (counter_of-other ref p r now db.threads other ∙ v.counted r)
      ];
      next = omega (arith, same, v.counted ref);
    }

pub taken :
    (ref p : String) (now : ℕ) (db : ChatDb)
    → IsNumbered db
    → Gives (λ n s. IsTaken ref n s) (take_sequence ref p now db)
unfolding take_sequence
taken ref p now db v =
    then-Gives (λ t s. (s ≡ db) × (thread_of_person db ref p ≡ some t))
      (require (thread_of_person db ref p) thread_not_found) _ db
      (require-Gives _ _ db (λ t e. (refl, e)))
      (λ t s q. record {
        given =
            subst (λ d. IsTaken ref (t.last_sequence + 1) (taken_db ref p now d)) (sym q.0)
              (taken_row ref p now db t v q.1);
      })

InOrder-one :
    (k : ℕ) (ms : List Message) (m : Message) (b : Bool)
    → InOrder k ms
    → (b ≡ true → m.thread_sequence ≡ suc (k + length ms))
    → InOrder k (ms ++ (if b then m ∷ [] else []))
InOrder-one k ms m true h p = InOrder-append k ms m h (p refl)
InOrder-one k ms m false h p = rw (append-nil ms) h

length-one :
    (ms : List Message) (m : Message) (b : Bool)
    → length (ms ++ (if b then m ∷ [] else [])) ≡ (if b then suc (length ms) else length ms)
length-one ms m true = omega (arith, length-append ms (m ∷ []))
length-one ms m false = ap length (append-nil ms)

placed :
    (ref : String) (n : ℕ) (x : Message) (db s : ChatDb)
    → x.thread_ref ≡ ref
    → x.thread_sequence ≡ n
    → IsTaken ref n db
    → s.messages ≡ db.messages ++ x ∷ []
    → s.threads ≡ db.threads
    → IsNumbered s
placed ref n x db s e f v same_messages same_threads =
    let split : (r : String)
        → messages_in r s.messages
          ≡ messages_in r db.messages ++ (if x.thread_ref == r then x ∷ [] else []) =
      λ r.
        ap (messages_in r) same_messages
        ∙ select-append (λ m. m.thread_ref == r) db.messages (x ∷ []) in
    record {
      distinct = subst (λ ts. Distinct (thread_refs ts)) (sym same_threads) v.distinct;
      in_order = λ r. subst (InOrder 0) (sym (split r)) (
          InOrder-one 0 (messages_in r db.messages) x (x.thread_ref == r) (v.in_order r) (λ t.
            omega (
              arith,
              f
                  ∙ v.next
                  ∙ ap (λ r. suc (length (messages_in r db.messages)))
                      (sym e ∙ (eq_iff x.thread_ref r).0 t),
            )));
      counted = λ r.
          ap (counter_of r) same_threads
          ∙ v.counted r
          ∙ ap
              (λ y.
                if y == r
                then suc (length (messages_in r db.messages))
                else length (messages_in r db.messages))
              (sym e)
          ∙ sym
              (ap length (split r) ∙ length-one (messages_in r db.messages) x (x.thread_ref == r));
    }

abbrev pub HasRows : List Message → List Thread → ChatDb → Type 0
HasRows ms ts db = (db.messages ≡ ms) × (db.threads ≡ ts)

pub inserted :
    (ref : String) (n : ℕ) (x : Message) (event_ref : String) (db : ChatDb)
    → x.thread_ref ≡ ref
    → x.thread_sequence ≡ n
    → IsTaken ref n db
    → Gives (λ u s. IsNumbered s) (insert_message x event_ref db)
unfolding insert_message
inserted ref n x event_ref db e f v =
    then-Gives (λ u s. s ≡ db) (refuse_if (not (message_fits db x)) constraint_failed) _ db
      (refuse-Gives _ _ db (λ h. refl))
      (λ u s q.
        let rows : List Message = db.messages ++ x ∷ [] in
        then-Gives (λ y s. HasRows rows db.threads s)
          (in_log (message_created (trigger_row x) event_ref)) _
          (record s { messages = s.messages ++ x ∷ [] })
          (Keeps-Gives (HasRows rows db.threads) _
            (record { holds = (ap (λ d. d.messages ++ x ∷ []) q, ap (λ d. d.threads) q) }))
          (λ y s1 q1. record { given = placed ref n x db s1 e f v q1.0 q1.1 }))

pub same_rows :
    (db s : ChatDb)
    → s.messages ≡ db.messages
    → s.threads ≡ db.threads
    → IsNumbered db
    → IsNumbered s
same_rows db s same_messages same_threads v = record {
  distinct = subst (λ ts. Distinct (thread_refs ts)) (sym same_threads) v.distinct;
  in_order = λ r. subst (λ ms. InOrder 0 (messages_in r ms)) (sym same_messages) (v.in_order r);
  counted = λ r.
      ap (counter_of r) same_threads
      ∙ v.counted r
      ∙ ap (λ ms. length (messages_in r ms)) (sym same_messages);
}

attach_each-HasRows :
    (ms : List Message) (ts : List Thread) (p m : String) (now n : ℕ) (refs : List String)
    (db : ChatDb)
    → HasRows ms ts db
    → Keeps (HasRows ms ts) (attach_each p m now n refs db)
unfolding attach_each
attach_each-HasRows ms ts p m now n [] db h = kept (HasRows ms ts) _ db h
attach_each-HasRows ms ts p m now n (ref ∷ refs) db h =
    then-Keeps (HasRows ms ts) (in_files (attach p ref now)) _ db (record { holds = h })
      (λ u s q. attach_each-HasRows ms ts p m now (n + 1) refs _ q)

append_new_numbers :
    (i : NewMessage) (ref event_ref : String) (now : ℕ) (db : ChatDb)
    → IsNumbered db
    → Gives (λ x s. IsNumbered s) (append_new i ref event_ref now db)
unfolding append_new
append_new_numbers i ref event_ref now db v =
    then-Gives (λ total s. IsNumbered s)
      (answer
        (attachment_total db.files i.access.person_ref (attachment_family i) i.attachment_refs))
      _ db (Keeps-Gives IsNumbered _ (kept IsNumbered _ db v))
      (λ total s q.
        then-Gives (λ u s. IsNumbered s)
          (refuse_if (ltb max_message_attachment_bytes total) message_invalid) _ s
          (refuse-Gives _ _ s (λ f. q))
          (λ u s1 q1.
            then-Gives (λ n s. IsTaken i.thread_ref n s)
              (take_sequence i.thread_ref i.access.person_ref now) _ s1
              (taken i.thread_ref i.access.person_ref now s1 q1)
              (λ n s2 q2.
                then-Gives (λ w s. IsNumbered s) (insert_message (message_of i ref n now) event_ref)
                  _ s2 (inserted i.thread_ref n (message_of i ref n now) event_ref s2 refl refl q2)
                  (λ w s3 q3.
                    then-Gives (λ z s. HasRows s3.messages s3.threads s)
                      (attach_each i.access.person_ref ref now 0 i.attachment_refs) _ s3
                      (Keeps-Gives (HasRows s3.messages s3.threads) _ (
                        attach_each-HasRows s3.messages s3.threads i.access.person_ref ref now 0
                          i.attachment_refs s3 (refl, refl)))
                      (λ z s4 q4.
                        let s5 : ChatDb = mark_episodes i.thread_ref n s4 in
                        then-Gives (λ m s. IsNumbered s)
                          (require (message_by_ref s5 ref)
                            (thrown "Thread Message was not readable after creation"))
                          _ s5 (require-Gives _ _ s5 (λ m e. same_rows s3 s5 q4.0 q4.1 q3))
                          (λ m s6 q6. record { given = q6 }))))))

found_numbers :
    (i : NewMessage) (ref event_ref : String) (now : ℕ) (found : Option Message) (db : ChatDb)
    → IsNumbered db
    → Gives (λ x s. IsNumbered s) (append_found i ref event_ref now found db)
found_numbers i ref event_ref now none db v = append_new_numbers i ref event_ref now db v
found_numbers i ref event_ref now (some m) db v =
    then-Gives (λ u s. IsNumbered s)
      (refuse_if (not (same_text m.device_ref i.device_ref)) message_conflict) _ db
      (refuse-Gives _ _ db (λ f. v))
      (λ u s q.
        then-Gives (λ w s. IsNumbered s)
          (refuse_if (not (same_fingerprint (posted db m) i)) message_conflict) _ s
          (refuse-Gives _ _ s (λ f. q)) (λ w s1 q1. record { given = q1 }))

pub append_numbers :
    (i : NewMessage) (ref event_ref : String) (now : ℕ) (db : ChatDb)
    → IsNumbered db
    → IsNumbered (append_message i ref event_ref now db).1
unfolding append_message
append_numbers i ref event_ref now db v =
    (then-Keeps IsNumbered (refuse_if (not (content_ok i)) message_invalid) _ db
      (kept IsNumbered _ db v)
      (λ u s q. Gives-Keeps IsNumbered s _ q (
        then-Gives (λ w s. IsNumbered s) (require_thread i.access i.thread_ref) _ s
          (Keeps-Gives IsNumbered _ (thread-Keeps i.access i.thread_ref s q))
          (λ w s1 q1.
            then-Gives (λ z s. IsNumbered s)
              (refuse_if
                (not (provenance_ok s1 i.access.person_ref i.actor i.device_ref i.entry_audience))
                message_invalid)
              _ s1 (refuse-Gives _ _ s1 (λ f. q1))
              (λ z s2 q2.
                found_numbers i ref event_ref now (by_client_id s2 i.thread_ref i.client_message_id)
                  s2 q2))))).holds

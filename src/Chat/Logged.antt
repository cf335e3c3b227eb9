-- ===== src/Chat/Logged.antt =====
-- What `appendThreadMessage` of apps/gateway/src/chatWorkDomain.ts leaves in the event log and in
-- the outbox, by the trigger of apps/gateway/src/domainEventCore.ts.
use family_ai_platform.Common.{
  ℕ, suc, ◌+◌, String, not, none, some, List, [], ◌∷◌, ◌++◌, ◌≡◌, ◌∙◌, refl, sym, subst, ap, ok,
  thrown, arith, require, refuse_if, Keeps, kept, then-Keeps, Gives, gives_of, then-Gives,
  require-Gives, refuse-Gives, settle-Gives, Keeps-Gives, both-Gives, ltb, constraint_failed,
  Option-cases, Bool-cases, inl, inr,
}
use family_ai_platform.Json.{field, done, text, num}
use family_ai_platform.EventLog.{
  EventDb, EventRow, OutboxRow, pending, record_event, accepts, drafted, logged, last_sequence,
}
use family_ai_platform.EventLog.Gapless.{last_sequence-bump_self}
use family_ai_platform.EventLog.Triggers.{thread_owner, message_created, message_draft}
use family_ai_platform.Attachments.Uploads.{attach}
use family_ai_platform.Chat.{ChatDb, Message, require_thread, take_sequence, mark_episodes}
use family_ai_platform.Chat.Messages.{
  NewMessage, Posted, append_message, append_new, append_found, insert_message, attach_each,
  attachment_total, message_of, attachment_family, max_message_attachment_bytes, message_invalid,
  in_files, answer, message_by_ref, content_ok, provenance_ok, by_client_id, message_fits, in_log,
  trigger_row, actor_type,
}
use family_ai_platform.Chat.Kept.{thread_same}
use family_ai_platform.Chat.Repeats.{
  IsFound, inserted, HasMessages, attach_each_messages, found_same,
}

-- The event of a message, as a device is to read it.
abbrev pub announcement : String → String → ℕ → Message → EventRow
announcement event_ref owner n m = record {
  event_ref = event_ref;
  person_ref = owner;
  event_sequence = n;
  event_type = "thread.message.created";
  aggregate_type = "thread_message";
  aggregate_ref = m.message_ref;
  thread_ref = some m.thread_ref;
  payload = field "messageRef" (text m.message_ref) (
      field "threadRef" (text m.thread_ref) (
        field "threadSequence" (num m.thread_sequence) (
          field "actorType" (text (actor_type m.actor))
            (field "clientMessageId" (text m.client_message_id) done))));
  occurred_at = m.occurred_at;
  created_at = m.created_at;
}

-- An outbox row that waits to be published, from `at` on.
abbrev pub waiting : String → ℕ → OutboxRow
waiting event_ref at = record {
  event_ref = event_ref;
  status = pending;
  attempt_count = 0;
  available_at = at;
  claimed_by = none;
  claimed_until = none;
  published_at = none;
  last_error = none;
  updated_at = at;
}

-- The log has grown by the message's event, under the next number of the thread's owner, and the
-- outbox by its row.
abbrev pub IsAnnounced : String → Message → EventDb → EventDb → Type 0
IsAnnounced event_ref m log log' =
    (owner : String) × (thread_owner log m.thread_ref ≡ some owner)
    × (log'.events
        ≡ log.events
          ++ announcement event_ref owner (suc (last_sequence owner log.sequences)) m ∷ [])
    × (log'.outbox ≡ log.outbox ++ waiting event_ref m.created_at ∷ [])

created_announces :
    (x : Message) (event_ref : String) (db : ChatDb)
    → Gives
        (λ e s. IsAnnounced event_ref x db.log s.log)
        (in_log (message_created (trigger_row x) event_ref) db)
unfolding message_created record_event drafted logged
created_announces x event_ref db = elim (Option-cases (thread_owner db.log x.thread_ref)) [
  | inl nobody ↦ rw nobody (record { given = tt })
  | inr (owner, owned) ↦
      let d = message_draft (trigger_row x) owner in
      rw owned (elim (Bool-cases (accepts db.log (drafted d event_ref db.log))) [
        | inr refused ↦ rw refused (record { given = tt })
        | inl taken ↦ rw taken (record {
          given = (
            owner,
            refl,
            ap (λ n. db.log.events ++ announcement event_ref owner n x ∷ [])
                (last_sequence-bump_self owner x.created_at db.log.sequences),
            refl,
          );
        })
      ])
]

abbrev HasLog : EventDb → ChatDb → Type 0
HasLog log db = db.log ≡ log

insert_announces :
    (x : Message) (event_ref : String) (db : ChatDb)
    → Gives (λ u s. IsAnnounced event_ref x db.log s.log) (insert_message x event_ref db)
unfolding insert_message
insert_announces x event_ref db =
    then-Gives (λ u s. s ≡ db) (refuse_if (not (message_fits db x)) constraint_failed) _ db
      (refuse-Gives _ _ db (λ f. refl))
      (λ u s q.
        then-Gives (λ e s1. IsAnnounced event_ref x db.log s1.log)
          (in_log (message_created (trigger_row x) event_ref)) _
          (record s { messages = s.messages ++ x ∷ [] })
          (subst
            (λ d.
              Gives (λ e s1. IsAnnounced event_ref x d.log s1.log)
                (in_log (message_created (trigger_row x) event_ref)
                  (record s { messages = s.messages ++ x ∷ [] })))
            q (created_announces x event_ref (record s { messages = s.messages ++ x ∷ [] })))
          (λ e s1 q1. record { given = q1 }))

attach_each_log :
    (log : EventDb) (p m : String) (now n : ℕ) (refs : List String) (db : ChatDb)
    → HasLog log db
    → Keeps (HasLog log) (attach_each p m now n refs db)
unfolding attach_each
attach_each_log log p m now n [] db h = kept (HasLog log) _ db h
attach_each_log log p m now n (ref ∷ refs) db h =
    then-Keeps (HasLog log) (in_files (attach p ref now)) _ db (record { holds = h })
      (λ u s q. attach_each_log log p m now (n + 1) refs _ q)

take_sequence_log :
    (ref p : String) (now : ℕ) (db : ChatDb) → (take_sequence ref p now db).1.log ≡ db.log
unfolding take_sequence
take_sequence_log ref p now db = ground arith

-- What a new message comes to: its row holds what was sent, and it is announced.
abbrev pub IsPosted : NewMessage → String → String → ℕ → EventDb → Posted → ChatDb → Type 0
IsPosted i ref event_ref now log x s =
    (x.message ≡ message_of i ref x.message.thread_sequence now)
    × IsAnnounced event_ref x.message log s.log

posted_row :
    (i : NewMessage) (ref event_ref : String) (now : ℕ) (log log' : EventDb) (m x : Message)
    (s s' : ChatDb)
    → m ≡ x
    → s ≡ s'
    → s'.log ≡ log'
    → IsAnnounced event_ref x log log'
    → x ≡ message_of i ref x.thread_sequence now
    → (m ≡ message_of i ref m.thread_sequence now) × IsAnnounced event_ref m log s.log
posted_row i ref event_ref now log log' m x s s' e f g a b = (
  subst (λ y. y ≡ message_of i ref y.thread_sequence now) (sym e) b,
  subst (λ l. IsAnnounced event_ref m log l) (sym (ap (λ d. d.log) f ∙ g))
      (subst (λ y. IsAnnounced event_ref y log log') (sym e) a),
)

new-IsPosted :
    (i : NewMessage) (ref event_ref : String) (now : ℕ) (db : ChatDb)
    → Gives (IsPosted i ref event_ref now db.log) (append_new i ref event_ref now db)
unfolding append_new
new-IsPosted i ref event_ref now db =
    let log = db.log in
    then-Gives (λ total s. HasLog log s)
      (answer
        (attachment_total db.files i.access.person_ref (attachment_family i) i.attachment_refs))
      _ db (Keeps-Gives (HasLog log) _ (record { holds = refl }))
      (λ total s q.
        then-Gives (λ u s. HasLog log s)
          (refuse_if (ltb max_message_attachment_bytes total) message_invalid) _ s
          (refuse-Gives _ _ s (λ f. q))
          (λ u s1 q1.
            then-Gives (λ n s. HasLog log s) (take_sequence i.thread_ref i.access.person_ref now) _
              s1
              (Keeps-Gives (HasLog log) _
                (record { holds = take_sequence_log i.thread_ref i.access.person_ref now s1 ∙ q1 }))
              (λ n s2 q2.
                let x : Message = message_of i ref n now in
                then-Gives (λ v s. IsFound x s × IsAnnounced event_ref x log s.log)
                  (insert_message x event_ref) _ s2
                  (both-Gives _ (inserted x event_ref s2) (
                    subst
                      (λ l.
                        Gives (λ v s. IsAnnounced event_ref x l s.log)
                          (insert_message x event_ref s2))
                      q2 (insert_announces x event_ref s2)))
                  (λ v s3 q3.
                    then-Gives (λ w s. HasMessages s3.messages s × HasLog s3.log s)
                      (attach_each i.access.person_ref ref now 0 i.attachment_refs) _ s3
                      (both-Gives _
                        (Keeps-Gives (HasMessages s3.messages) _ (
                          attach_each_messages s3.messages i.access.person_ref ref now 0
                            i.attachment_refs s3 refl))
                        (Keeps-Gives (HasLog s3.log) _ (
                          attach_each_log s3.log i.access.person_ref ref now 0 i.attachment_refs s3
                            refl)))
                      (λ w s4 q4.
                        let s5 : ChatDb = mark_episodes i.thread_ref n s4 in
                        let (by_ref, by_id) = found_same x s3 s5 q3.0 q4.0 in
                        then-Gives (λ m s. (s ≡ s5) × (m ≡ x))
                          (require (message_by_ref s5 ref)
                            (thrown "Thread Message was not readable after creation"))
                          _ s5 (require-Gives _ _ s5 (λ m e. (refl, cc)))
                          (λ m s6 q6. record {
                            given =
                                posted_row i ref event_ref now log s3.log m x s6 s5 q6.1 q6.0 q4.1
                                  q3.1 refl;
                          }))))))

fresh-IsPosted :
    (i : NewMessage) (ref event_ref : String) (now : ℕ) (db : ChatDb)
    → by_client_id db i.thread_ref i.client_message_id ≡ none
    → Gives (IsPosted i ref event_ref now db.log) (append_message i ref event_ref now db)
unfolding append_message
fresh-IsPosted i ref event_ref now db fresh =
    then-Gives (λ u s. s ≡ db) (refuse_if (not (content_ok i)) message_invalid) _ db
      (refuse-Gives _ _ db (λ f. refl))
      (λ u s q. settle-Gives s _ (
        then-Gives (λ v s. s ≡ db) (require_thread i.access i.thread_ref) _ s
          (Keeps-Gives (λ s. s ≡ db) _ (record { holds = thread_same i.access i.thread_ref s ∙ q }))
          (λ v s1 q1.
            then-Gives (λ w s. s ≡ db)
              (refuse_if
                (not (provenance_ok s1 i.access.person_ref i.actor i.device_ref i.entry_audience))
                message_invalid)
              _ s1 (refuse-Gives _ _ s1 (λ f. q1))
              (λ w s2 q2.
                rw (ap (λ d. by_client_id d i.thread_ref i.client_message_id) q2 ∙ fresh) (
                  subst
                    (λ d.
                      Gives (IsPosted i ref event_ref now db.log)
                        (append_found i ref event_ref now none d))
                    (sym q2) (new-IsPosted i ref event_ref now db))))))

-- If a message whose client's id the thread does not have yet is appended, the answer is the message
-- that was sent, under the drawn reference, and exactly one event and one outbox row are added: the
-- event of that message under the next number of the thread's owner, with the message's references,
-- number, actor's type, client's id and times, and the row that publishes it.
pub message_is_announced :
    (i : NewMessage) (ref event_ref : String) (now : ℕ) (db db' : ChatDb) (x : Posted)
    → by_client_id db i.thread_ref i.client_message_id ≡ none
    → append_message i ref event_ref now db ≡ (ok x, db')
    → IsPosted i ref event_ref now db.log x db'
message_is_announced i ref event_ref now db db' x fresh e =
    gives_of _ x db' (fresh-IsPosted i ref event_ref now db fresh) e

-- ===== src/Chat/Asked.antt =====
-- When the provider is asked: `sendForContext` of apps/gateway/src/chatWorkMessageService.ts up to
-- the call of the provider.
use family_ai_platform.Common.{
  ℕ, String, Bool, true, not, Option, none, some, List, [], ◌∷◌, ◌≡◌, refl, sym, subst, Outcome, ok,
  err, thrown, arith, Bool-cases, inl, inr, ◌==◌, require, refuse_if, Keeps, kept, then-Keeps,
  Gives, gives_of, then-Gives, refuse-Gives, Keeps-Gives, require-Keeps, first,
}
use family_ai_platform.EventLog.Triggers.{is_status, turn_pending, turn_succeeded}
use family_ai_platform.Chat.Kept.{thread_same}
use family_ai_platform.Attachments.{AttachmentRow}
use family_ai_platform.Chat.{ChatDb, Access, Turn, require_thread, PublicError}
use family_ai_platform.Chat.Turns.{Prepared, read_turn, prepare_turn, mark_turn_failed}
use family_ai_platform.Chat.Kept.{thread_same}
use family_ai_platform.Chat.Messages.{NewMessage, Posted, append_message, in_files, answer}
use family_ai_platform.Attachments.Uploads.{require_download}
use family_ai_platform.Chat.Pages.{list_messages}
use family_ai_platform.Chat.Capsule.{build_provider_context}
use family_ai_platform.Chat.Requests.{ProviderAttachment, request_ok}
use family_ai_platform.Chat.Sending.{
  Begun, replied, asked, SendDraws, begin_send, begin_turn, ask, replied_with, context_messages,
  files_or_failed, or_unavailable, hand_off, hand_off_in, request_of, fail_turn, unconfigured,
  unavailable, attachment_of, no_handoff, family_of_files,
}
use family_ai_platform.Chat.Stored.{IsStored, prepare-IsStored}

-- What the first part of a send promises of the tables: a reply is the one that the message's turn
-- has succeeded with; a request is for a provider that is there, is one that the schema accepts,
-- and has the identity of the message's turn, which is stored as pending.
abbrev pub IsBegun : (String → Bool) → Begun → ChatDb → Type 0
IsBegun resolve (replied x id) db =
    (t : Turn) × (read_turn db x.message.message_ref ≡ some t)
    × (is_status t.status turn_succeeded ≡ true)
    × (t.assistant_message_ref ≡ some id)
IsBegun resolve (asked x t q) db =
    (read_turn db x.message.message_ref ≡ some t.turn)
    × (is_status t.turn.status turn_pending ≡ true)
    × (q.invocation_ref ≡ t.turn.invocation_ref)
    × (q.idempotency_key ≡ t.turn.idempotency_key)
    × (resolve q.provider_profile_ref ≡ true)
    × (request_ok q ≡ true)

pub fails :
    {A : Type 0} {Q : A → ChatDb → Type 0} (m : String) (e : PublicError) (at status : ℕ)
    (event_ref : String) (db : ChatDb)
    → Gives Q (fail_turn {A = A} m e at status event_ref db)
fails m e at status event_ref db =
    then-Gives (λ u s. Unit {0}) (mark_turn_failed m e at event_ref) _ db
      (Keeps-Gives (λ s. Unit {0}) _ (record { holds = tt })) (λ u s q. record { given = tt })

abbrev HasTurns : List Turn → ChatDb → Type 0
HasTurns ts db = db.turns ≡ ts

hand_off-Keeps :
    (ts : List Turn) (local_path : String → Option String) (family p : String)
    (rs : List AttachmentRow) (db : ChatDb)
    → HasTurns ts db
    → Keeps (HasTurns ts) (hand_off local_path family p rs db)
unfolding hand_off
hand_off-Keeps ts local_path family p [] db h = kept (HasTurns ts) _ db h
hand_off-Keeps ts local_path family p (r ∷ rs) db h =
    then-Keeps (HasTurns ts)
      (in_files (
        require_download
          (record { family_ref = family; person_ref = p; attachment_ref = r.attachment_ref })))
      _ db (record { holds = h })
      (λ stored s q.
        then-Keeps (HasTurns ts) (require (attachment_of local_path stored) no_handoff) _ s
          (require-Keeps (HasTurns ts) _ _ s q)
          (λ a s1 q1.
            then-Keeps (HasTurns ts) (hand_off local_path family p rs) _ s1
              (hand_off-Keeps ts local_path family p rs s1 q1)
              (λ rest s2 q2. kept (HasTurns ts) _ s2 q2)))

hand_off_in-Keeps :
    (ts : List Turn) (local_path : String → Option String) (f : Option String) (p : String)
    (rs : List AttachmentRow) (db : ChatDb)
    → HasTurns ts db
    → Keeps (HasTurns ts) (hand_off_in local_path f p rs db)
hand_off_in-Keeps ts local_path f p [] db h = kept (HasTurns ts) _ db h
hand_off_in-Keeps ts local_path none p (r ∷ rs) db h = kept (HasTurns ts) _ db h
hand_off_in-Keeps ts local_path (some f) p (r ∷ rs) db h = elim (Bool-cases (f == "")) [
  | inl t ↦ rw t (kept (HasTurns ts) _ db h)
  | inr n ↦ rw n (hand_off-Keeps ts local_path f p (r ∷ rs) db h)
]

or_unavailable_gives :
    (ts : List Turn) (m : String) (now : ℕ) (event_ref : String)
    (o : Outcome (List ProviderAttachment) × ChatDb) (db : ChatDb)
    → Keeps (HasTurns ts) o
    → Gives
        (λ files s. HasTurns ts s)
        (or_unavailable (λ s. s) (λ s. none) (λ s. true) m now event_ref o db)
or_unavailable_gives ts m now event_ref (ok files, s) db k = record { given = k.holds }
or_unavailable_gives ts m now event_ref (err e, s) db k = fails m unavailable now 503 event_ref s

list-Keeps :
    (ts : List Turn) (x : Access) (ref : String) (before limit : Option ℕ) (db : ChatDb)
    → HasTurns ts db
    → Keeps (HasTurns ts) (list_messages x ref before limit db)
unfolding list_messages
list-Keeps ts x ref before limit db h =
    then-Keeps (HasTurns ts) (require_thread x ref) _ db
      (record { holds = subst (HasTurns ts) (sym (thread_same x ref db)) h })
      (λ t s q. kept (HasTurns ts) _ s q)

messages_keep :
    (ts : List Turn) (i : NewMessage) (x : Posted) (t : Prepared) (db : ChatDb)
    → HasTurns ts db
    → Keeps (HasTurns ts) (context_messages i x t db)
messages_keep ts i x t db h = elim (Bool-cases t.rebuild) [
  | inl y ↦ rw y (
      then-Keeps (HasTurns ts)
        (list_messages (record i.access { agent_ref = t.turn.agent_ref }) i.thread_ref none
          (some 200))
        _ db (list-Keeps ts _ _ _ _ db h) (λ page s q. kept (HasTurns ts) _ s q))
  | inr n ↦ rw n (kept (HasTurns ts) _ db h)
]

module _ (digest : String → String) (local_path : String → Option String)
    (resolve : String → Bool) where
  ask_gives :
      (i : NewMessage) (x : Posted) (t : Prepared) (event_ref : String) (now : ℕ) (db : ChatDb)
      → read_turn db x.message.message_ref ≡ some t.turn
      → is_status t.turn.status turn_pending ≡ true
      → Gives (IsBegun resolve) (ask digest local_path resolve i x t event_ref now db)
  unfolding ask
  ask_gives i x t event_ref now db found pending =
      let Same : ChatDb → Type 0 = HasTurns db.turns in
      then-Gives (λ ms s. Same s) (context_messages i x t) _ db
        (Keeps-Gives Same _ (messages_keep db.turns i x t db refl))
        (λ ms s q.
          then-Gives (λ files s. Same s)
            (files_or_failed digest local_path resolve i x now event_ref) _ s
            (or_unavailable_gives db.turns x.message.message_ref now event_ref
              (hand_off_in local_path (family_of_files i) i.access.person_ref x.attachments s) s
              (hand_off_in-Keeps db.turns local_path (family_of_files i) i.access.person_ref
                x.attachments s q))
            (λ files s1 q1.
              then-Gives (λ content s. Same s)
                (answer (build_provider_context ms x.message.message_ref t.external_session_ref)) _
                s1 (Keeps-Gives Same _ (kept Same _ s1 q1))
                (λ content s2 q2.
                  then-Gives (λ u s. Same s × (request_ok (request_of t content files) ≡ true))
                    (refuse_if (not (request_ok (request_of t content files))) (thrown "ZodError"))
                    _ s2 (refuse-Gives _ _ s2 (λ f. (q2, ground arith)))
                    (λ u s3 q3. elim (Bool-cases (resolve t.turn.provider_profile_ref)) [
                      | inl there ↦ rw there (record {
                        given = (
                          subst
                              (λ ts.
                                first (λ y. y.user_message_ref == x.message.message_ref) ts
                                ≡ some t.turn)
                              (sym q3.0) found,
                          pending,
                          refl,
                          refl,
                          there,
                          q3.1,
                        );
                      })
                      | inr missing ↦
                          rw missing (fails x.message.message_ref unconfigured now 503 event_ref s3)
                    ]))))

  begin_turn_gives :
      (i : NewMessage) (x : Posted) (t : Prepared) (event_ref : String) (now : ℕ) (db : ChatDb)
      → IsStored x.message.message_ref t db
      → Gives (IsBegun resolve) (begin_turn digest local_path resolve i x t event_ref now db)
  begin_turn_gives i x t event_ref now db (found, ready) =
      elim (Bool-cases (is_status t.turn.status turn_succeeded)) [
        | inl done ↦
            rw done (replied_gives x t.turn t.turn.assistant_message_ref db found done refl)
        | inr undone ↦ rw undone (ask_gives i x t event_ref now db found (ground arith))
      ]
    where
      replied_gives :
          (x : Posted) (t : Turn) (id : Option String) (db : ChatDb)
          → read_turn db x.message.message_ref ≡ some t
          → is_status t.status turn_succeeded ≡ true
          → t.assistant_message_ref ≡ id
          → Gives (IsBegun resolve) (replied_with x id db)
      replied_gives x t none db found done e = record { given = tt }
      replied_gives x t (some id) db found done e = record { given = (t, found, done, e) }

  begun :
      (i : NewMessage) (d : SendDraws) (now : ℕ) (db : ChatDb)
      → Gives (IsBegun resolve) (begin_send digest local_path resolve i d now db)
  unfolding begin_send
  begun i d now db =
      then-Gives (λ x s. Unit {0}) (append_message i d.message_ref d.message_event_ref now) _ db
        (Keeps-Gives (λ s. Unit {0}) _ (record { holds = tt }))
        (λ x s q.
          then-Gives (λ t s. IsStored x.message.message_ref t s)
            (prepare_turn digest i.access.person_ref (some i.access) x.message.message_ref
              i.thread_ref d.turn now)
            _ s
            (prepare-IsStored digest i.access.person_ref (some i.access) x.message.message_ref
              i.thread_ref d.turn now s)
            (λ t s1 q1. begin_turn_gives i x t d.failure_event_ref now s1 q1))

-- When the first part of a send succeeds, either it gives the reply that the message's turn has
-- succeeded with, or the provider is asked: then the message's turn is stored as pending, the
-- request carries that turn's invocation and idempotency key, its profile has a provider, and the
-- schema of requests accepts it.
pub begin_send-IsBegun :
    (digest : String → String) (local_path : String → Option String) (resolve : String → Bool)
    (i : NewMessage) (d : SendDraws) (now : ℕ) (db db' : ChatDb) (b : Begun)
    → begin_send digest local_path resolve i d now db ≡ (ok b, db')
    → IsBegun resolve b db'
begin_send-IsBegun digest local_path resolve i d now db db' b e =
    gives_of _ b db' (begun digest local_path resolve i d now db) e

-- ===== src/Chat/Unsendable.antt =====
-- A message that makes no request: `sendForContext` of
-- apps/gateway/src/chatWorkMessageService.ts between the preparation of the turn and the provider.
use family_ai_platform.Common.{
  ℕ, String, Bool, true, false, Option, none, some, List, [], ◌∷◌, ◌≡◌, refl, ap, ok, err, thrown,
  arith, ==_refl, length, ltb, then_goes_on,
}
use family_ai_platform.Chat.{ChatDb}
use family_ai_platform.Chat.Turns.{Prepared}
use family_ai_platform.Chat.Messages.{NewMessage, Posted, answer}
use family_ai_platform.Chat.Capsule.{
  build_provider_context, visible_text, is_person_message, current_content,
}
use family_ai_platform.Chat.Requests.{ProviderAttachment, request_ok}
use family_ai_platform.Chat.Sending.{ask, files_or_failed, request_of, context_messages}

too_long :
    (t : Prepared) (x : Posted) (files : List ProviderAttachment)
    → ltb 12000 (length (visible_text x)) ≡ true
    → request_ok (request_of t (current_content x ∷ []) files) ≡ false
unfolding request_ok
too_long t x files h = ground arith

context_alone :
    (i : NewMessage) (x : Posted) (t : Prepared) (db : ChatDb)
    → t.rebuild ≡ false
    → context_messages i x t db ≡ (ok (x ∷ []), db)
context_alone i x t db same = rw same refl

content_alone :
    (x : Posted) (session : Option String)
    → is_person_message x.message.actor ≡ true
    → build_provider_context (x ∷ []) x.message.message_ref session ≡ ok (current_content x ∷ [])
unfolding build_provider_context
content_alone x none a = rw (==_refl x.message.message_ref) (rw a refl)
content_alone x (some session) a = rw (==_refl x.message.message_ref) (rw a refl)

-- A person's message whose text and attachment lines come to more than 12,000 code units, in a turn
-- whose context is not built anew and with attachments that can be handed over, ends in the
-- exception of the schema, with the tables as they were: its turn stays pending.
pub unsendable_stays_pending :
    (digest : String → String) (local_path : String → Option String) (resolve : String → Bool)
    (i : NewMessage) (x : Posted) (t : Prepared) (event_ref : String) (now : ℕ)
    (files : List ProviderAttachment) (db : ChatDb)
    → t.rebuild ≡ false
    → is_person_message x.message.actor ≡ true
    → files_or_failed digest local_path resolve i x now event_ref db ≡ (ok files, db)
    → ltb 12000 (length (visible_text x)) ≡ true
    → ask digest local_path resolve i x t event_ref now db ≡ (err (thrown "ZodError"), db)
unfolding ask
unsendable_stays_pending digest local_path resolve i x t event_ref now files db same a handed h =
    then_goes_on (context_messages i x t) _ db (context_alone i x t db same) (
      then_goes_on (files_or_failed digest local_path resolve i x now event_ref) _ db handed (
        then_goes_on
          (answer (build_provider_context (x ∷ []) x.message.message_ref t.external_session_ref)) _
          db (ap (λ o. (o, db)) (content_alone x t.external_session_ref a))
          (rw (too_long t x files h) refl)))

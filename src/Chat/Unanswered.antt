-- ===== src/Chat/Unanswered.antt =====
-- The provider's answers that are no reply: `markTurnFailed` of apps/gateway/src/chatWorkProvider.ts,
-- and `sendForContext` of apps/gateway/src/chatWorkMessageService.ts from the answer on.
use family_ai_platform.Common.{
  is_some, some_of, ◌&&◌, ℕ, String, Bool, true, false, not, Option, none, some, List, [], ◌∷◌, ◌≡◌,
  ◌∙◌, refl, sym, subst, ap, Outcome, ok, err, arith, Bool-cases, inl, inr, ◌==◌, changes, eqb,
  first, is_ok, ok_gives, then_pure_ok,
}
use family_ai_platform.EventLog.Triggers.{is_status, turn_pending}
use family_ai_platform.Chat.{ChatDb, Turn, PublicError}
use family_ai_platform.Chat.Messages.{NewMessage, Posted, in_log}
use family_ai_platform.Chat.Requests.{Request}
use family_ai_platform.Chat.Turns.{
  Prepared, read_turn, end_turn, is_pending_turn, update_turns, turn_event, mark_turn_failed,
  failed, clear_missing_session, thread_person, clear_session,
}
use family_ai_platform.Chat.Commits.{CommitDraws}
use family_ai_platform.Chat.Sending.{
  Answer, threw, unreadable, result, ProviderResult, finish_send, finish_result, reply_from,
  fail_turn, invalid_response, unavailable, error_or, is_success, clear_if_lost, failure_status,
  provider_failure,
}
use family_ai_platform.Chat.Final.{HasTurn}
use family_ai_platform.Chat.Answered.{pending_ends, updated_turn}

pub changes-first :
    (m : String) (ts : List Turn) (t : Turn)
    → first (λ y. y.user_message_ref == m) ts ≡ some t
    → is_status t.status turn_pending ≡ true
    → eqb (changes (is_pending_turn m) ts) 0 ≡ false
changes-first m [] t h p = absurd (ground arith)
changes-first m (x ∷ xs) t h p = ground (arith, changes-first m xs t)

-- The log takes the event of the turn's failure, whatever the error.
abbrev pub CanLog : Turn → String → ChatDb → Type 0
CanLog t ref db =
    (e : PublicError) (at : ℕ)
    → is_ok (turn_event turn_pending (some (failed e at t)) ref db.log).0 ≡ true

end_ok :
    (m : String) (t : Turn) (e : PublicError) (at : ℕ) (ref : String) (db : ChatDb)
    → is_status t.status turn_pending ≡ true
    → HasTurn m t db
    → CanLog t ref db
    → is_ok (end_turn m (failed e at) ref db).0 ≡ true
unfolding end_turn
end_ok m t e at ref db pending h can =
    let updated = updated_turn m t (failed e at) db (λ y. refl) pending h in
    rw (changes-first m db.turns t h pending) (
      then_pure_ok
        (in_log
          (turn_event turn_pending (read_turn (update_turns (is_pending_turn m) (failed e at) db) m)
            ref)
          (update_turns (is_pending_turn m) (failed e at) db))
        _ (rw updated (can e at)))

mark_fails :
    (m : String) (t : Turn) (e : PublicError) (at : ℕ) (ref : String) (db : ChatDb)
    → is_status t.status turn_pending ≡ true
    → HasTurn m t db
    → CanLog t ref db
    → (s : ChatDb) × (mark_turn_failed m e at ref db ≡ (ok tt, s)) × HasTurn m (failed e at t) s
unfolding mark_turn_failed
mark_fails m t e at ref db pending h can =
    let (n, s, ended, (updated, n_changes)) =
      ok_gives (end_turn m (failed e at) ref db) (end_ok m t e at ref db pending h can)
        (pending_ends m t (failed e at) ref db (λ y. refl) pending h) in
    let some_changed : eqb n 0 ≡ false =
      ap (λ k. eqb k 0) n_changes ∙ changes-first m db.turns t h pending in
    (s, rw ended (rw some_changed refl), updated)

-- The caller gets a public error, and the message's turn is stored as failed with it.
abbrev pub IsFailedWith : {A : Type 0} → String → Turn → Outcome A × ChatDb → Type 0
IsFailedWith m t o =
    (e : PublicError) × (status : ℕ) × (at : ℕ) × (s : ChatDb) × (o
      ≡ (err (provider_failure e status), s))
    × HasTurn m (failed e at t) s

turn_fails :
    {A : Type 0} (m : String) (t : Turn) (e : PublicError) (at status : ℕ) (ref : String)
    (db : ChatDb)
    → is_status t.status turn_pending ≡ true
    → HasTurn m t db
    → CanLog t ref db
    → IsFailedWith m t (fail_turn {A = A} m e at status ref db)
turn_fails m t e at status ref db pending h can =
    let (s, marked, stored) = mark_fails m t e at ref db pending h can in
    (e, status, at, s, rw marked refl, stored)

session_cleared :
    (t : Prepared) (at : ℕ) (session : Option String) (db : ChatDb)
    → is_some (thread_person db t.turn.thread_ref) ≡ true
    → (s : ChatDb) × (clear_session t at session db ≡ (ok tt, s))
      × (s.turns ≡ db.turns)
      × (s.log ≡ db.log)
session_cleared t at none db h = (db, refl, refl, refl)
session_cleared t at (some session) db h = elim (Bool-cases (session == "")) [
  | inl no_text ↦ (db, rw no_text refl, refl, refl)
  | inr a_text ↦
      let (r, found) = some_of (thread_person db t.turn.thread_ref) h in
      (
        (clear_session t at (some session) db).1,
        rw a_text (rw found refl),
        rw a_text (rw found refl),
        rw a_text (rw found refl),
      )
]

lost_cleared :
    (code : String) (t : Prepared) (at : ℕ) (db : ChatDb)
    → is_some (thread_person db t.turn.thread_ref) ≡ true
    → (s : ChatDb) × (clear_if_lost code t at db ≡ (ok tt, s))
      × (s.turns ≡ db.turns)
      × (s.log ≡ db.log)
unfolding clear_missing_session
lost_cleared code t at db h = elim (Bool-cases (code == "PROVIDER_SESSION_NOT_FOUND")) [
  | inl lost ↦ rw lost (session_cleared t at t.external_session_ref db h)
  | inr other ↦ rw other (db, refl, refl, refl)
]

-- An answer that is a reply to the request: a success for its identity, with an output and a
-- session.
abbrev pub has_output : List (String × Option String) → Bool
has_output [] = false
has_output (o ∷ os) = true

abbrev pub has_text : Option String → Bool
has_text none = false
has_text (some s) = not (s == "")

abbrev pub is_reply : Request → Answer → Bool
is_reply q threw = false
is_reply q unreadable = false
is_reply q (result r) =
    r.invocation_ref == q.invocation_ref
    && r.correlation_ref == q.correlation_ref
    && is_success r.status
    && has_output r.output
    && has_text r.external_session_ref

no_reply_from :
    (os : List (String × Option String)) (s : Option String) (at : ℕ)
    → has_output os && has_text s ≡ false
    → reply_from os s at ≡ none
no_reply_from [] s at h = refl
no_reply_from (o ∷ os) none at h = refl
no_reply_from (o ∷ os) (some s) at h = ground arith

result_fails :
    (i : NewMessage) (m : String) (t : Prepared) (q : Request) (d : CommitDraws)
    (event_ref : String) (now : ℕ) (r : ProviderResult) (db : ChatDb)
    → is_reply q (result r) ≡ false
    → is_some (thread_person db t.turn.thread_ref) ≡ true
    → is_status t.turn.status turn_pending ≡ true
    → HasTurn m t.turn db
    → CanLog t.turn event_ref db
    → IsFailedWith m t.turn (finish_result i m t q d event_ref now r db)
result_fails i m t q d event_ref now r db unread there pending h can =
    elim (Bool-cases
      (not (r.invocation_ref == q.invocation_ref && r.correlation_ref == q.correlation_ref))) [
        | inl other ↦
            rw other
              (turn_fails m t.turn invalid_response r.completed_at 502 event_ref db pending h can)
        | inr same ↦ rw same (elim (Bool-cases (not (is_success r.status))) [
          | inl bad ↦
              let (s, cleared, same_turns, same_log) =
                lost_cleared (error_or unavailable r.error).code t r.completed_at db there in
              rw bad (
                rw cleared (
                  turn_fails m t.turn (error_or unavailable r.error) r.completed_at
                    (failure_status r.status) event_ref s pending
                    (ap (first (λ y. y.user_message_ref == m)) same_turns ∙ h)
                    (λ e at.
                      subst
                        (λ l.
                          is_ok (turn_event turn_pending (some (failed e at t.turn)) event_ref l).0
                          ≡ true)
                        (sym same_log) (can e at))))
          | inr good ↦ rw good (
              rw (no_reply_from r.output r.external_session_ref r.completed_at (ground arith)) (
                turn_fails m t.turn invalid_response r.completed_at 502 event_ref db pending h can))
        ])
      ]

-- When the provider throws, or its answer is not in the schema, not for the request, not a success,
-- or without an output or a session, the caller gets a public error and the pending turn of the
-- message is stored as failed with that error. The turn's thread is there, and the event log takes
-- the event of the failure.
pub finish_send-IsFailedWith :
    (i : NewMessage) (x : Posted) (t : Prepared) (q : Request) (d : CommitDraws)
    (event_ref : String) (now : ℕ) (answer : Answer) (db : ChatDb)
    → is_reply q answer ≡ false
    → is_some (thread_person db t.turn.thread_ref) ≡ true
    → is_status t.turn.status turn_pending ≡ true
    → read_turn db x.message.message_ref ≡ some t.turn
    → CanLog t.turn event_ref db
    → IsFailedWith x.message.message_ref t.turn (finish_send i x t q d event_ref now answer db)
unfolding finish_send
finish_send-IsFailedWith i x t q d event_ref now threw db unread there pending h can =
    turn_fails x.message.message_ref t.turn unavailable now 502 event_ref db pending h can
finish_send-IsFailedWith i x t q d event_ref now unreadable db unread there pending h can =
    turn_fails x.message.message_ref t.turn invalid_response now 502 event_ref db pending h can
finish_send-IsFailedWith i x t q d event_ref now (result r) db unread there pending h can =
    result_fails i x.message.message_ref t q d event_ref now r db unread there pending h can

-- ===== src/Chat/Retries.antt =====
-- A turn that failed and is prepared again: `prepareTurn` of
-- apps/gateway/src/chatWorkProvider.ts.
use family_ai_platform.Common.{
  ℕ, ◌+◌, String, Bool, true, false, not, none, some, ◌≡◌, ◌∙◌, refl, ap, ok, Op, arith, ◌==◌,
  eq_iff, is_text, first-update, first-update_apart,
}
use family_ai_platform.EventLog.Triggers.{is_status, turn_pending, turn_succeeded, turn_failed}
use family_ai_platform.Chat.{ChatDb, Context, Turn}
use family_ai_platform.Chat.Turns.{
  TurnDraws, read_turn, write_turn, prepare_written, prepare_row, succeeded_turn, again, moved_turn,
  context_changed, prepared_from, lost_session, update_turns, is_open_turn, identity_taken,
  audience_fits, Prepared, idempotency_key, stored_code,
}
use family_ai_platform.Chat.Final.{HasTurn}

reopened :
    (m : String) (t : Turn) (f : Turn → Turn) (db : ChatDb)
    → ((t : Turn) → (f t).user_message_ref ≡ t.user_message_ref)
    → is_status t.status turn_succeeded ≡ false
    → HasTurn m t db
    → HasTurn m (f t) (update_turns (is_open_turn m) f db)
reopened m t f db same unfinished h =
    first-update (λ y. y.user_message_ref == m) (λ y. not (is_status y.status turn_succeeded)) f
      (λ y. ap (λ r. r == m) (same y)) db.turns t h
    ∙ rw unfinished refl

not_open :
    (m other : String) (y : Turn)
    → (other == m) ≡ false
    → (y.user_message_ref == other) ≡ true
    → is_open_turn m y ≡ false
not_open m other y apart h = rw ((eq_iff y.user_message_ref other).0 h) (ground arith)

lost_if_failed :
    (t : Turn)
    → is_status t.status turn_failed ≡ true
    → lost_session t ≡ is_text (stored_code t.error) "PROVIDER_SESSION_NOT_FOUND"
lost_if_failed t failed = rw failed refl

-- The turn of another message stays as it is.
others_kept :
    (m other : String) (f : Turn → Turn) (db : ChatDb)
    → ((t : Turn) → (f t).user_message_ref ≡ t.user_message_ref)
    → (other == m) ≡ false
    → read_turn (update_turns (is_open_turn m) f db) other ≡ read_turn db other
others_kept m other f db same apart =
    first-update_apart (λ y. y.user_message_ref == other) (is_open_turn m) f
      (λ y. ap (λ r. r == other) (same y)) (λ y h. not_open m other y apart h) db.turns

module _ (digest : String → String) (p m ref : String) (c : Context) (d : TurnDraws) (now : ℕ)
    (t : Turn) (db : ChatDb) (h : read_turn db m ≡ some t)
    (failed : is_status t.status turn_failed ≡ true) where
  retries :
      context_changed t c ≡ false
      → prepare_row digest p m ref c d now (some t) (succeeded_turn digest (some t)) db
        ≡ (ok (prepared_from (again t) c (lost_session t)), update_turns (is_open_turn m) again db)
  unfolding prepare_written write_turn
  retries same =
      let unfinished : is_status t.status turn_succeeded ≡ false = ground arith in
      let stored = reopened m t again db (λ y. refl) unfinished h in
      rw unfinished (rw same (rw stored refl))

  moves :
      context_changed t c ≡ true
      → identity_taken d db.turns ≡ false
      → audience_fits c.audience c.assignment_ref ≡ true
      → prepare_row digest p m ref c d now (some t) (succeeded_turn digest (some t)) db ≡ (
        ok (prepared_from (moved_turn digest m ref c d now t) c (lost_session t)),
        update_turns (is_open_turn m) (moved_turn digest m ref c d now) db,
      )
  unfolding prepare_written write_turn
  moves changed free fits =
      let unfinished : is_status t.status turn_succeeded ≡ false = ground arith in
      let stored = reopened m t (moved_turn digest m ref c d now) db (λ y. refl) unfinished h in
      rw unfinished (rw changed (rw free (rw fits (rw stored refl))))

-- What a preparation makes of a failed turn: it answers with the turn as it now is, which is stored
-- for its message; the turn of the other message and the other tables are as before.
abbrev pub Prepares : Op ChatDb Prepared → Context → Bool → String → Turn → String → ChatDb → Type 0
Prepares prepare c rebuild m t other db =
    ((prepare db).0 ≡ ok (prepared_from t c rebuild))
    × (read_turn (prepare db).1 m ≡ some t)
    × (read_turn (prepare db).1 other ≡ read_turn db other)
    × ((prepare db).1 ≡ record db { turns = (prepare db).1.turns })

prepares :
    (prepare : Op ChatDb Prepared) (c : Context) (m other : String) (f : Turn → Turn) (t : Turn)
    (db : ChatDb)
    → ((t : Turn) → (f t).user_message_ref ≡ t.user_message_ref)
    → (other == m) ≡ false
    → read_turn db m ≡ some t
    → is_status t.status turn_failed ≡ true
    → prepare db ≡ (ok (prepared_from (f t) c (lost_session t)), update_turns (is_open_turn m) f db)
    → Prepares prepare c (lost_session t) m (f t) other db
prepares prepare c m other f t db same apart h failed e =
    let unfinished : is_status t.status turn_succeeded ≡ false = ground arith in
    (
      ap (λ r. r.0) e,
      ap (λ r. read_turn r.1 m) e ∙ reopened m t f db same unfinished h,
      ap (λ r. read_turn r.1 other) e ∙ others_kept m other f db same apart,
      rw e refl,
    )

-- A turn that has failed, prepared again for the same agent, assignment and profile, is pending
-- with one attempt more and no answer, error or end; its invocation, its keys and the time of its
-- request are those that it had. The context is built anew exactly if the provider had lost the
-- session. The turn of another message and the other tables stay as they are.
pub failed_turn_retries :
    (digest : String → String) (p m ref other : String) (c : Context) (d : TurnDraws) (now : ℕ)
    (t : Turn) (db : ChatDb)
    → read_turn db m ≡ some t
    → is_status t.status turn_failed ≡ true
    → context_changed t c ≡ false
    → (other == m) ≡ false
    → Prepares
        (prepare_row digest p m ref c d now (some t) (succeeded_turn digest (some t)))
        c
        (is_text (stored_code t.error) "PROVIDER_SESSION_NOT_FOUND")
        m
        (record t {
          status = turn_pending;
          attempt_count = t.attempt_count + 1;
          assistant_message_ref = none;
          error = none;
          completed_at = none;
        })
        other
        db
failed_turn_retries digest p m ref other c d now t db h failed same apart =
    rw (← lost_if_failed t failed) (
      prepares (prepare_row digest p m ref c d now (some t) (succeeded_turn digest (some t))) c m
        other again t db (λ y. refl) apart h failed
        (retries digest p m ref c d now t db h failed same))

-- A turn that has failed, prepared again for another agent, assignment or profile, is pending with
-- one attempt more and no answer, error or end; it takes the new invocation and correlation, an
-- idempotency key for that agent and profile, the context's assignment, agent, profile and
-- audience and the new time, if the new identity is not in use and the assignment fits the
-- audience. The context is built anew exactly if the provider had lost the session. The turn of
-- another message and the other tables stay as they are.
pub failed_turn_moves :
    (digest : String → String) (p m ref other : String) (c : Context) (d : TurnDraws) (now : ℕ)
    (t : Turn) (db : ChatDb)
    → read_turn db m ≡ some t
    → is_status t.status turn_failed ≡ true
    → context_changed t c ≡ true
    → identity_taken d db.turns ≡ false
    → audience_fits c.audience c.assignment_ref ≡ true
    → (other == m) ≡ false
    → Prepares
        (prepare_row digest p m ref c d now (some t) (succeeded_turn digest (some t)))
        c
        (is_text (stored_code t.error) "PROVIDER_SESSION_NOT_FOUND")
        m
        (record t {
          invocation_ref = d.invocation_ref;
          correlation_ref = d.correlation_ref;
          idempotency_key = idempotency_key digest ref m c;
          assignment_ref = c.assignment_ref;
          agent_ref = c.agent_ref;
          provider_profile_ref = c.provider_profile_ref;
          audience = c.audience;
          status = turn_pending;
          attempt_count = t.attempt_count + 1;
          assistant_message_ref = none;
          error = none;
          requested_at = now;
          completed_at = none;
        })
        other
        db
failed_turn_moves digest p m ref other c d now t db h failed changed free fits apart =
    rw (← lost_if_failed t failed) (
      prepares (prepare_row digest p m ref c d now (some t) (succeeded_turn digest (some t))) c m
        other (moved_turn digest m ref c d now) t db (λ y. refl) apart h failed
        (moves digest p m ref c d now t db h failed changed free fits))

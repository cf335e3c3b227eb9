-- ===== src/Chat/Final.antt =====
-- A provider turn that has succeeded, through the operations of apps/gateway/src/chatWorkDomain.ts
-- and chatWorkProvider.ts.
use family_ai_platform.Common.{
  ℕ, String, true, false, Option, none, some, [], ◌∷◌, ◌≡◌, ◌∙◌, refl, then-Keeps, kept, pure, ap,
  changes, eqb, arith, Bool-cases, inl, inr, ◌==◌, first, first-append, first-update_spared,
}
use family_ai_platform.EventLog.Triggers.{is_status, turn_pending, turn_succeeded}
use family_ai_platform.Chat.{ChatDb, Message, Context, Turn}
use family_ai_platform.Chat.Messages.{insert_message, in_log}
use family_ai_platform.Chat.Turns.{
  TurnDraws, read_turn, write_turn, end_turn, is_open_turn, update_turns, is_pending_turn,
  turn_event, again, moved_turn, new_turn,
}
use family_ai_platform.Chat.Kept.{IsKept}
use family_ai_platform.Chat.Histories.{ChatReach, ChatReach-keeps}

abbrev pub HasTurn : String → Turn → ChatDb → Type 0
HasTurn m t db = read_turn db m ≡ some t

not_open :
    (m : String) (t : Turn) → is_status t.status turn_succeeded ≡ true → is_open_turn m t ≡ false
not_open m t h = ground arith

no_longer_pending :
    (m : String) (t : Turn) → is_status t.status turn_succeeded ≡ true → is_pending_turn m t ≡ false
no_longer_pending m t h = ground arith

pub inserts_spare :
    (x : Message) (ref : String) (m : String) (t : Turn) (db : ChatDb)
    → HasTurn m t db
    → HasTurn m t (insert_message x ref db).1
unfolding insert_message
inserts_spare x ref m t db h = ground arith

writes_spare :
    (digest : String → String) (m : String) (t : Turn)
    → is_status t.status turn_succeeded ≡ true
    → (x ref : String) (c : Context) (d : TurnDraws) (now : ℕ) (old : Option Turn) (db : ChatDb)
    → HasTurn m t db
    → HasTurn m t (write_turn digest x ref c d now old db).1
unfolding write_turn
writes_spare digest m t s x ref c d now none db h = ground (
  arith,
  first-append (λ y. y.user_message_ref == m) db.turns (new_turn digest x ref c d now ∷ []) t h,
)
writes_spare digest m t s x ref c d now (some y) db h = ground (
  arith,
  first-update_spared (λ y. y.user_message_ref == m) (is_open_turn x) again (λ y. refl) db.turns t h
      (not_open x t s),
  first-update_spared (λ y. y.user_message_ref == m) (is_open_turn x)
      (moved_turn digest x ref c d now) (λ y. refl) db.turns t h (not_open x t s),
)

ends_spare :
    (m : String) (t : Turn)
    → is_status t.status turn_succeeded ≡ true
    → (x : String) (f : Turn → Turn) (ref : String) (db : ChatDb)
    → ((t : Turn) → (f t).user_message_ref ≡ t.user_message_ref)
    → HasTurn m t db
    → HasTurn m t (end_turn x f ref db).1
unfolding end_turn
ends_spare m t s x f ref db same h =
    let spared : HasTurn m t (update_turns (is_pending_turn x) f db) =
      first-update_spared (λ y. y.user_message_ref == m) (is_pending_turn x) f
        (λ y. ap (λ r. r == m) (same y)) db.turns t h (no_longer_pending x t s) in
    elim (Bool-cases (eqb (changes (is_pending_turn x) db.turns) 0)) [
      | inl none_changed ↦ rw none_changed spared
      | inr some_changed ↦
          rw some_changed
            (then-Keeps (HasTurn m t)
              (in_log
                (turn_event turn_pending (read_turn (update_turns (is_pending_turn x) f db) x) ref))
              (λ u. pure (changes (is_pending_turn x) db.turns))
              (update_turns (is_pending_turn x) f db) (record { holds = spared })
              (λ u y q. kept (HasTurn m t) _ y q)).holds
    ]

same_found :
    (m : String) (t : Turn) (db db' : ChatDb)
    → db'.turns ≡ db.turns
    → HasTurn m t db
    → HasTurn m t db'
same_found m t db db' e h = ap (first (λ y. y.user_message_ref == m)) e ∙ h

pub spares :
    (m : String) (t : Turn) → is_status t.status turn_succeeded ≡ true → IsKept (HasTurn m t)
spares m t s = record {
  by_turns = record {
    beside = λ db db' same_turns same_log same_messages same_threads h.
        same_found m t db db' same_turns h;
    writes = λ digest x ref c d now old db h. writes_spare digest m t s x ref c d now old db h;
    ends = λ x f ref db same h. ends_spare m t s x f ref db same h;
  };
  elsewhere = λ db db' same_turns same_log h. same_found m t db db' same_turns h;
  inserts = λ x ref db h. inserts_spare x ref m t db h;
}

-- A turn that has succeeded stays as it is: whatever operations on threads, messages, contexts and
-- turns follow, in any order and whether they succeed or not, its message's turn is that row.
pub succeeded_turn_is_final :
    {db db' : ChatDb} (m : String) (t : Turn)
    → read_turn db m ≡ some t
    → is_status t.status turn_succeeded ≡ true
    → ChatReach db db'
    → read_turn db' m ≡ some t
succeeded_turn_is_final m t found s r = ChatReach-keeps (spares m t s) r found

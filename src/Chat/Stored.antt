-- ===== src/Chat/Stored.antt =====
-- What `prepareTurn` of apps/gateway/src/chatWorkProvider.ts, and `sendForContext` of
-- apps/gateway/src/chatWorkMessageService.ts up to the provider, leave in the tables.
use family_ai_platform.Common.{
  ◌||◌, ℕ, String, true, not, Option, none, some, ◌≡◌, refl, thrown, arith, require, refuse_if,
  Gives, then-Gives, require-Gives, refuse-Gives, settle-Gives, Keeps-Gives,
}
use family_ai_platform.EventLog.Triggers.{is_status, turn_pending, turn_succeeded}
use family_ai_platform.Chat.{ChatDb, Access, Context, Turn, require_agent, thread_not_found}
use family_ai_platform.Chat.Contexts.{resolve_context, read_context}
use family_ai_platform.Chat.Turns.{
  TurnDraws, Prepared, read_turn, write_turn, prepare_written, prepare_turn, prepare_row,
  prepare_open, prepared_stored, is_pending_now, succeeded_turn, person_message, asker,
  access_family,
}
use family_ai_platform.Chat.Kept.{resolve-Keeps}
use family_ai_platform.Chat.Final.{spares, HasTurn}

-- A turn that is stored, and is pending or has succeeded.
abbrev pub IsReady : Turn → Type 0
IsReady t = (is_status t.status turn_pending || is_status t.status turn_succeeded) ≡ true

abbrev pub IsStored : String → Prepared → ChatDb → Type 0
IsStored m t db = (read_turn db m ≡ some t.turn) × IsReady t.turn

pending_found :
    (digest : String → String) (found : Option Turn) (t : Turn)
    → is_pending_now digest found ≡ some t
    → (found ≡ some t) × IsReady t
pending_found digest none t e = absurd (ground arith)
pending_found digest (some u) t e = ground arith

succeeded_found :
    (digest : String → String) (found : Option Turn) (t : Turn)
    → succeeded_turn digest found ≡ some t
    → (found ≡ some t) × (is_status t.status turn_succeeded ≡ true)
succeeded_found digest none t e = absurd (ground arith)
succeeded_found digest (some u) t e = ground arith

written-IsStored :
    (digest : String → String) (m ref : String) (c : Context) (d : TurnDraws) (now : ℕ)
    (existing : Option Turn) (db : ChatDb)
    → Gives (IsStored m) (prepare_written digest m ref c d now existing db)
unfolding prepare_written
written-IsStored digest m ref c d now existing db =
    then-Gives (λ u s. Unit {0}) (write_turn digest m ref c d now existing) _ db
      (Keeps-Gives (λ s. Unit {0}) _ (record { holds = tt }))
      (λ u s q.
        then-Gives (λ t s. (read_turn s m ≡ some t) × IsReady t)
          (require (is_pending_now digest (read_turn s m))
            (thrown "Provider Turn was not pending after preparation"))
          _ s (require-Gives _ _ s (λ t e. pending_found digest (read_turn s m) t e))
          (λ t s' h. record { given = h }))

found-IsStored :
    (m : String) (c : Option Context) (t : Turn) (db : ChatDb)
    → read_turn db m ≡ some t
    → is_status t.status turn_succeeded ≡ true
    → Gives (IsStored m) (prepared_stored c t db)
found-IsStored m none t db e s = record { given = tt }
found-IsStored m (some c) t db e s = record { given = (e, ground arith) }

row-IsStored :
    (digest : String → String) (p m ref : String) (c : Context) (d : TurnDraws) (now : ℕ)
    (done : Option Turn) (db : ChatDb)
    → succeeded_turn digest (read_turn db m) ≡ done
    → Gives (IsStored m) (prepare_row digest p m ref c d now (read_turn db m) done db)
row-IsStored digest p m ref c d now none db e =
    written-IsStored digest m ref c d now (read_turn db m) db
row-IsStored digest p m ref c d now (some t) db e =
    let (found, s) = succeeded_found digest (read_turn db m) t e in
    found-IsStored m (read_context db p ref) t db found s

open-IsStored :
    (digest : String → String) (p : String) (x : Option Access) (m ref : String) (d : TurnDraws)
    (now : ℕ) (done : Option Turn) (db : ChatDb)
    → succeeded_turn digest (read_turn db m) ≡ done
    → Gives (IsStored m) (prepare_open digest p x m ref d now done db)
open-IsStored digest p x m ref d now (some t) db e =
    let (found, s) = succeeded_found digest (read_turn db m) t e in
    then-Gives (λ c s. HasTurn m t s)
      (resolve_context (asker digest p x) ref d.conversation_ref now) _ db
      (Keeps-Gives (HasTurn m t) _ (
        resolve-Keeps (spares m t s).by_turns (asker digest p x) ref d.conversation_ref now db
          found))
      (λ c s' q. found-IsStored m (read_context s' p ref) t s' q s)
open-IsStored digest p x m ref d now none db e =
    then-Gives (λ c s. Unit {0}) (resolve_context (asker digest p x) ref d.conversation_ref now) _
      db (Keeps-Gives (λ s. Unit {0}) _ (record { holds = tt }))
      (λ c s q. settle-Gives s _ (
        then-Gives (λ u s. Unit {0}) (refuse_if (not (person_message s p m ref)) thread_not_found) _
          s (refuse-Gives _ _ s (λ f. tt))
          (λ u s1 q1.
            then-Gives (λ a s. Unit {0})
              (require_agent c.audience (access_family digest x) p c.agent_ref) _ s1
              (Keeps-Gives (λ s. Unit {0}) _ (record { holds = tt }))
              (λ a s2 q2.
                row-IsStored digest p m ref c d now (succeeded_turn digest (read_turn s2 m)) s2
                  refl))))

pub prepare-IsStored :
    (digest : String → String) (p : String) (x : Option Access) (m ref : String) (d : TurnDraws)
    (now : ℕ) (db : ChatDb)
    → Gives (IsStored m) (prepare_turn digest p x m ref d now db)
unfolding prepare_turn
prepare-IsStored digest p x m ref d now db =
    then-Gives (λ u s. Unit {0}) (refuse_if (not (person_message db p m ref)) thread_not_found) _ db
      (refuse-Gives _ _ db (λ f. tt))
      (λ u s q. open-IsStored digest p x m ref d now (succeeded_turn digest (read_turn s m)) s refl)

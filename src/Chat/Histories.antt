-- ===== src/Chat/Histories.antt =====
-- Every operation on threads, messages and turns in apps/gateway/src/chatWorkDomain.ts,
-- chatWorkProvider.ts and chatWorkMessageService.ts, in any order.
use family_ai_platform.Common.{ℕ, String, Option}
use family_ai_platform.Chat.{ChatDb, Access, PublicError}
use family_ai_platform.Chat.Messages.{NewMessage, append_message}
use family_ai_platform.Chat.Contexts.{Asker, resolve_context}
use family_ai_platform.Chat.Turns.{
  Prepared, TurnDraws, prepare_turn, mark_turn_failed, clear_missing_session,
}
use family_ai_platform.Chat.Commits.{Reply, CommitDraws, commit_turn}
use family_ai_platform.Chat.Kept.{IsKept, append-Keeps, resolve-Keeps}
use family_ai_platform.Chat.KeptTurns.{prepare-Keeps, fail-Keeps, clear-Keeps, commit-Keeps}

-- One operation, whether it succeeds or not.
pub data ChatStep (db : ChatDb) : ChatDb → Type 0 where
  appends_message :
      (i : NewMessage) (ref event_ref : String) (now : ℕ)
      → ChatStep db (append_message i ref event_ref now db).1
  resolves :
      (x : Asker) (ref conversation : String) (now : ℕ)
      → ChatStep db (resolve_context x ref conversation now db).1
  prepares :
      (digest : String → String) (p : String) (x : Option Access) (m ref : String) (d : TurnDraws)
      (now : ℕ)
      → ChatStep db (prepare_turn digest p x m ref d now db).1
  fails_turn :
      (m : String) (e : PublicError) (at : ℕ) (event_ref : String)
      → ChatStep db (mark_turn_failed m e at event_ref db).1
  clears : (t : Prepared) (at : ℕ) → ChatStep db (clear_missing_session t at db).1
  commits :
      (p m ref : String) (t : Prepared) (r : Reply) (d : CommitDraws) (now : ℕ)
      → ChatStep db (commit_turn p m ref t r d now db).1

pub data ChatReach (db : ChatDb) : ChatDb → Type 0 where
  here : ChatReach db db
  next : {mid last : ChatDb} → ChatReach db mid → ChatStep mid last → ChatReach db last

module _ {P : ChatDb → Type 0} (k : IsKept P) where
  ChatStep-keeps : {db db' : ChatDb} → ChatStep db db' → P db → P db'
  ChatStep-keeps {db} (appends_message i ref event_ref now) h =
      (append-Keeps k i ref event_ref now db h).holds
  ChatStep-keeps {db} (resolves x ref conversation now) h =
      (resolve-Keeps k.by_turns x ref conversation now db h).holds
  ChatStep-keeps {db} (prepares digest p x m ref d now) h =
      (prepare-Keeps k.by_turns digest p x m ref d now db h).holds
  ChatStep-keeps {db} (fails_turn m e at event_ref) h =
      (fail-Keeps k.by_turns m e at event_ref db h).holds
  ChatStep-keeps {db} (clears t at) h = (clear-Keeps k.by_turns t at db h).holds
  ChatStep-keeps {db} (commits p m ref t r d now) h = (commit-Keeps k p m ref t r d now db h).holds

  pub ChatReach-keeps : {db db' : ChatDb} → ChatReach db db' → P db → P db'
  ChatReach-keeps here h = h
  ChatReach-keeps (next r s) h = ChatStep-keeps s (ChatReach-keeps r h)

-- ===== src/System.antt =====
-- The histories of the event database: every operation of apps/gateway/src/domainEventCore.ts,
-- domainEvents.ts and deviceSync.ts that writes to it, in any order.
pub mod Sound
pub mod Writers
pub mod OutboxKeeps
pub mod LogKeeps
pub mod Histories
use family_ai_platform.Common.{ℕ, String, ◌≡◌, Option, some, Outcome}
use family_ai_platform.EventLog.{EventDb, EventRow, Draft, WorkRow, append}
use family_ai_platform.EventLog.Triggers.{
  EpisodeRow, MessageRow, ConversionRow, ProgressRow, TurnRow, TurnStatus, home_chat_created,
  work_created, message_created, chat_work_created, source_message_added, work_progress,
  provider_turn_updated,
}
use family_ai_platform.Outbox.{Claim, claim_outbox_batch, mark_published, mark_failed}
use family_ai_platform.DeviceSync.{Ack, acknowledge}

-- One operation, whether it succeeds or not.
pub data Step (db : EventDb) : EventDb → Type 0 where
  appends : (d : Draft) (ref : String) → Step db (append d ref db).1
  adds_home_chat :
      (version : ℕ) (n : EpisodeRow) (ref : String) {out : Outcome EventRow × EventDb}
      → home_chat_created version n ref db ≡ some out
      → Step db out.1
  adds_work : (version : ℕ) (n : WorkRow) (ref : String) → Step db (work_created version n ref db).1
  adds_message : (n : MessageRow) (ref : String) → Step db (message_created n ref db).1
  adds_conversion : (n : ConversionRow) (ref : String) → Step db (chat_work_created n ref db).1
  adds_source : (conversion m : String) → Step db (source_message_added conversion m db)
  adds_progress : (n : ProgressRow) (ref : String) → Step db (work_progress n ref db).1
  updates_turn :
      (old : TurnStatus) (n : TurnRow) (ref : String) {out : Outcome EventRow × EventDb}
      → provider_turn_updated old n ref db ≡ some out
      → Step db out.1
  claims : (c : Claim) → Step db (claim_outbox_batch c db).1
  publishes : (ref worker : String) (at : ℕ) → Step db (mark_published ref worker at db).1
  fails :
      (ref worker error : String) (available at : ℕ)
      → Step db (mark_failed ref worker error available at db).1
  acknowledges : (a : Ack) (now : ℕ) → Step db (acknowledge a now db).1

pub data Reach (db : EventDb) : EventDb → Type 0 where
  here : Reach db db
  next : {mid last : EventDb} → Reach db mid → Step mid last → Reach db last

-- ===== src/System/Histories.antt =====
-- Every history of the event database keeps its invariant.
use family_ai_platform.Common.{◌≡◌, refl, sym, subst, [], All}
use family_ai_platform.EventLog.{EventDb, events_of}
use family_ai_platform.EventLog.{last_sequence}
use family_ai_platform.EventLog.Gapless.{Numbered}
use family_ai_platform.DeviceSync.Cursor.{CursorFits}
use family_ai_platform.System.{
  Step, appends, adds_home_chat, adds_work, adds_message, adds_conversion, adds_source,
  adds_progress, updates_turn, claims, publishes, fails, acknowledges, Reach, here, next,
}
use family_ai_platform.System.Sound.{IsSound, Logs-IsSound}
use family_ai_platform.System.Writers.{
  append-Logs, home_chat-Logs, work-Logs, message-Logs, conversion-Logs, progress-Logs, turn-Logs,
}
use family_ai_platform.System.OutboxKeeps.{claim-IsSound, publish-IsSound, fail-IsSound}
use family_ai_platform.System.LogKeeps.{source-IsSound, acknowledge-IsSound}

Step-IsSound : {db db' : EventDb} → Step db db' → IsSound db → IsSound db'
Step-IsSound {db} (appends d ref) v = Logs-IsSound v (append-Logs d ref db)
Step-IsSound {db} (adds_home_chat version n ref e) v =
    Logs-IsSound v (home_chat-Logs version n ref db e)
Step-IsSound {db} (adds_work version n ref) v = Logs-IsSound v (work-Logs version n ref db)
Step-IsSound {db} (adds_message n ref) v = Logs-IsSound v (message-Logs n ref db)
Step-IsSound {db} (adds_conversion n ref) v = Logs-IsSound v (conversion-Logs n ref db)
Step-IsSound {db} (adds_source conversion m) v = source-IsSound conversion m db v
Step-IsSound {db} (adds_progress n ref) v = Logs-IsSound v (progress-Logs n ref db)
Step-IsSound {db} (updates_turn old n ref e) v = Logs-IsSound v (turn-Logs old n ref db e)
Step-IsSound {db} (claims c) v = claim-IsSound c db v
Step-IsSound {db} (publishes ref worker at) v = publish-IsSound ref worker at db v
Step-IsSound {db} (fails ref worker error available at) v =
    fail-IsSound ref worker error available at db v
Step-IsSound {db} (acknowledges a now) v = acknowledge-IsSound a now db v

Reach-IsSound : {db db' : EventDb} → IsSound db → Reach db db' → IsSound db'
Reach-IsSound v here = v
Reach-IsSound v (next r s) = Step-IsSound s (Reach-IsSound v r)

-- Nothing logged, nothing numbered and nothing acknowledged yet.
pub record IsFresh (db : EventDb) : Type 0 where
  pub no_events : db.events ≡ []
  pub no_outbox : db.outbox ≡ []
  pub no_sequences : db.sequences ≡ []
  pub no_cursors : db.cursors ≡ []

fresh-IsSound : (db : EventDb) → IsFresh db → IsSound db
unfolding last_sequence
fresh-IsSound db f = record {
  gapless = record {
    numbered = λ p. subst (λ es. Numbered 0 (events_of p es)) (sym f.no_events) tt;
    counted = λ p. rw (f.no_events, f.no_sequences) refl;
  };
  paired = rw (f.no_events, f.no_outbox) refl;
  distinct = rw f.no_outbox tt;
  shaped = rw f.no_outbox tt;
  fits = subst (λ rows. All (CursorFits db) rows) (sym f.no_cursors) tt;
}

-- From a database with an empty log, whatever the operations and their order, each person's events
-- are numbered without a gap and counted by the person's sequence, every event has its one outbox
-- row, the outbox rows have the shape that the table checks, and no device cursor is ahead of the
-- log.
pub histories-IsSound : {db db' : EventDb} → IsFresh db → Reach db db' → IsSound db'
histories-IsSound f r = Reach-IsSound (fresh-IsSound _ f) r

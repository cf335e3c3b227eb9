-- ===== src/System/Writers.antt =====
-- What each writer of the log of apps/gateway/src/domainEventCore.ts does: it leaves the database
-- as it is, or adds one event to the log.
use mathlib.Core.Option.{some-injective}
use family_ai_platform.Common.{
  ℕ, String, ◌≡◌, refl, subst, Bool, true, false, not, ◌&&◌, inl, inr, Option, none, some, ok, err,
  ◌==◌, Outcome, if◌then◌else◌, Bool-cases, settle,
}
use family_ai_platform.EventLog.{
  EventDb, EventRow, StreamRow, WorkRow, ThreadRow, Draft, accepts, drafted, record_event, append,
  person_active, thread_ok,
}
use family_ai_platform.EventLog.Triggers.{
  home_chat_created, work_created, message_created, chat_work_created, work_progress,
  provider_turn_updated, emit_for, EpisodeRow, MessageRow, ConversionRow, ProgressRow, TurnRow,
  TurnStatus, turn_failed, turn_succeeded, is_status, thread_owner, message_draft, stream_of,
  thread_of, work_of, on_stream, on_work_thread, on_progress_work, turn_failed_draft,
  turn_succeeded_draft,
}
use family_ai_platform.System.Sound.{Logs}

record_event-Logs : (d : Draft) (ref : String) (db : EventDb) → Logs db (record_event d ref db).1
unfolding record_event
record_event-Logs d ref db = elim (Bool-cases (accepts db (drafted d ref db))) [
  | inl y ↦ inr (d, ref, y, rw y refl)
  | inr n ↦ inl (rw n refl)
]

settle-Logs :
    {db : EventDb} (out : Outcome EventRow × EventDb) → Logs db out.1 → Logs db (settle db out).1
settle-Logs (ok e, db') h = h
settle-Logs (err e, db') h = inl refl

if-Logs :
    {db : EventDb} (b : Bool) (x y : Outcome EventRow × EventDb)
    → Logs db x.1
    → Logs db y.1
    → Logs db (if b then x else y).1
if-Logs true x y h k = h
if-Logs false x y h k = k

some-Logs :
    {db : EventDb} {x out : Outcome EventRow × EventDb}
    → Logs db x.1
    → some x ≡ some out
    → Logs db out.1
some-Logs {db} h e = subst (λ o. Logs db o.1) (some-injective _ _ e) h

pub append-Logs : (d : Draft) (ref : String) (db : EventDb) → Logs db (append d ref db).1
unfolding append
append-Logs d ref db = settle-Logs _ (
    if-Logs (not (person_active db d.person_ref)) _ _ (inl refl)
      (if-Logs (not (thread_ok db d)) _ _ (inl refl) (record_event-Logs d ref db)))

emit_for-Logs :
    (p : Option String) (draft : String → Draft) (ref : String) (db : EventDb)
    → Logs db (emit_for p draft ref db).1
emit_for-Logs none draft ref db = inl refl
emit_for-Logs (some p) draft ref db = record_event-Logs (draft p) ref db

pub message-Logs :
    (n : MessageRow) (ref : String) (db : EventDb) → Logs db (message_created n ref db).1
unfolding message_created
message-Logs n ref db = emit_for-Logs (thread_owner db n.thread_ref) (message_draft n) ref db

pub conversion-Logs :
    (n : ConversionRow) (ref : String) (db : EventDb) → Logs db (chat_work_created n ref db).1
unfolding chat_work_created
conversion-Logs n ref db = record_event-Logs _ ref db

on_stream-Logs :
    (version : ℕ) (n : EpisodeRow) (s : Option StreamRow) (ref : String) (db : EventDb)
    → Logs db (on_stream version n s ref db).1
on_stream-Logs version n none ref db = inl refl
on_stream-Logs version n (some s) ref db = record_event-Logs _ ref db

pub home_chat-Logs :
    (version : ℕ) (n : EpisodeRow) (ref : String) (db : EventDb) {out : Outcome EventRow × EventDb}
    → home_chat_created version n ref db ≡ some out
    → Logs db out.1
unfolding home_chat_created
home_chat-Logs version n ref db {out} h = elim (Bool-cases (n.boundary_reason == "initial")) [
  | inl first ↦
      some-Logs (on_stream-Logs version n (stream_of db n.home_chat_stream_ref) ref db)
        (rw first at h)
  | inr later ↦ (let none_is : none ≡ some out = rw later at h in cc)
]

pub work-Logs :
    (version : ℕ) (n : WorkRow) (ref : String) (db : EventDb)
    → Logs db (work_created version n ref db).1
unfolding work_created
work-Logs version n ref db = go (thread_of db n.thread_ref)
  where
    go : (t : Option ThreadRow) → Logs db (on_work_thread version n t ref db).1
    go none = inl refl
    go (some t) = record_event-Logs _ ref db

pub progress-Logs :
    (n : ProgressRow) (ref : String) (db : EventDb) → Logs db (work_progress n ref db).1
unfolding work_progress
progress-Logs n ref db = go (work_of db n.work_conversation_ref)
  where
    go : (w : Option WorkRow) → Logs db (on_progress_work n w ref db).1
    go none = inl refl
    go (some w) = record_event-Logs _ ref db

pub turn-Logs :
    (old : TurnStatus) (n : TurnRow) (ref : String) (db : EventDb)
    {out : Outcome EventRow × EventDb}
    → provider_turn_updated old n ref db ≡ some out
    → Logs db out.1
unfolding provider_turn_updated
turn-Logs old n ref db {out} h =
    elim (Bool-cases (is_status n.status turn_failed && not (is_status old turn_failed))) [
      | inl failed ↦
          some-Logs (emit_for-Logs (thread_owner db n.thread_ref) (turn_failed_draft n) ref db)
            (rw failed at h)
      | inr kept ↦
          elim (Bool-cases
            (is_status n.status turn_succeeded && not (is_status old turn_succeeded))) [
              | inl succeeded ↦
                  some-Logs
                    (emit_for-Logs (thread_owner db n.thread_ref) (turn_succeeded_draft n) ref db)
                    (rw (kept, succeeded) at h)
              | inr other ↦ let none_is : none ≡ some out = rw (kept, other) at h in cc
            ]
    ]

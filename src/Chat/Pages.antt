-- ===== src/Chat/Pages.antt =====
-- The pages of a thread: `listThreadMessages` of apps/gateway/src/chatWorkDomain.ts.
use family_ai_platform.Common.{
  ℕ, ◌+◌, min, max, String, Bool, true, ◌&&◌, Option, none, some, List, [], ◌∷◌, map, Op, gets,
  ◌>>=◌, ◌==◌, leb, ltb, if◌then◌else◌, length, take, select, order_by,
}
use family_ai_platform.Chat.{ChatDb, Message, Access, require_thread}
use family_ai_platform.Chat.Messages.{Posted, posted}

abbrev newest_first : Message → Message → Bool
newest_first a b = leb b.thread_sequence a.thread_sequence

abbrev is_before : Option ℕ → Message → Bool
is_before none m = true
is_before (some n) m = ltb m.thread_sequence n

-- `ThreadMessagePage`.
pub record MessagePage : Type 0 where
  pub messages : List Posted
  pub next_before_sequence : Option ℕ

abbrev pub page_limit : Option ℕ → ℕ
page_limit none = 50
page_limit (some n) = min (max n 1) 200

abbrev pub reversed : List Message → List Message → List Message
reversed [] acc = acc
reversed (m ∷ ms) acc = reversed ms (m ∷ acc)

abbrev pub first_sequence : Bool → List Message → Option ℕ
first_sequence more [] = none
first_sequence more (m ∷ ms) = if more then some m.thread_sequence else none

abbrev pub page_from : ChatDb → ℕ → List Message → MessagePage
page_from db limit rows =
    let visible = reversed (take limit rows) [] in
    record {
      messages = map (posted db) visible;
      next_before_sequence = first_sequence (ltb limit (length rows)) visible;
    }

-- `listThreadMessages`.
unfoldable pub list_messages : Access → String → Option ℕ → Option ℕ → Op ChatDb MessagePage
unfolding require_thread
list_messages x ref before limit = do
  t ← require_thread x ref
  gets (λ db. page_from db (page_limit limit) (
      take (page_limit limit + 1) (
        order_by newest_first
          (select (λ m. m.thread_ref == ref && is_before before m) db.messages))))

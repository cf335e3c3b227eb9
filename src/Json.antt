-- ===== src/Json.antt =====
-- JSON values as the gateway stores them in `payload_json` columns, and the SQLite functions
-- `json_extract`, `json_set` and `json_insert` that the triggers of
-- apps/gateway/src/domainEventCore.ts apply to them. A key is looked up at its first occurrence.
use family_ai_platform.Common.{ℕ, String, Bool, Option, none, some, ◌==◌, if◌then◌else◌}

mutual
  pub data Json : Type 0 where
    null : Json
    bool : Bool → Json
    num : ℕ → Json
    text : String → Json
    arr : Items → Json
    obj : Fields → Json

  pub data Items : Type 0 where
    nil : Items
    cons : Json → Items → Items

  pub data Fields : Type 0 where
    done : Fields
    field : String → Json → Fields → Fields

abbrev pub extract : String → Fields → Option Json
extract k done = none
extract k (field j v fs) = if j == k then some v else extract k fs

-- `json_set(o, '$.k', v)`.
abbrev pub set_field : String → Json → Fields → Fields
set_field k v done = field k v done
set_field k v (field j w fs) = if j == k then field j v fs else field j w (set_field k v fs)

-- A change of the value of a key.
abbrev pub map_field : String → (Json → Json) → Fields → Fields
map_field k f done = done
map_field k f (field j v fs) = if j == k then field j (f v) fs else field j v (map_field k f fs)

abbrev pub push : Items → Json → Items
push nil v = cons v nil
push (cons x xs) v = cons x (push xs v)

-- `json_insert(x, '$[#]', v)`: SQL NULL in, NULL out; nothing to append to in a value that is no
-- array.
abbrev pub insert_last : Option Json → Json → Json
insert_last none v = null
insert_last (some (arr xs)) v = arr (push xs v)
insert_last (some null) v = null
insert_last (some (bool b)) v = bool b
insert_last (some (num n)) v = num n
insert_last (some (text s)) v = text s
insert_last (some (obj fs)) v = obj fs

-- `json_object(…, k, x, …)` with a nullable text column.
abbrev pub text_or_null : Option String → Json
text_or_null none = null
text_or_null (some s) = text s

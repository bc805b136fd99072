-- ===== src/Json.antt =====
-- `serde_json::Value`, as far as the program looks into it: server/task.rs (`merge_meta`),
-- server/response_cache.rs (`count_items`), router/mod.rs (`timeout_secs`).
-- A number that is no `u64` is kept as its printed text.
use ida_mcp.Base.{ℕ, suc, Bool, Option, none, some, Text, text_discrete, ite}

mutual
  pub data Value : Type 0 where
    null : Value
    bool : Bool → Value
    number : ℕ → Value
    other_number : Text → Value
    string : Text → Value
    array : Items → Value
    object : Fields → Value

  pub data Items : Type 0 where
    nil : Items
    item : Value → Items → Items

  pub data Fields : Type 0 where
    end : Fields
    field : Text → Value → Fields → Fields

unfoldable pub len : Items → ℕ
len nil = 0
len (item v vs) = suc (len vs)

unfoldable pub get_field : Text → Fields → Option Value
get_field k end = none
get_field k (field j v fs) = ite (text_discrete j k) (some v) (get_field k fs)

-- `Map::insert`.
unfoldable pub insert_field : Text → Value → Fields → Fields
insert_field k v end = field k v end
insert_field k v (field j w fs) =
    ite (text_discrete j k) (field k v fs) (field j w (insert_field k v fs))

-- `Value::get` by a key, `as_array`, `as_u64`, `as_bool`, `as_str`, `as_object`.
unfoldable pub get : Text → Value → Option Value
unfolding get_field
get k (object fs) = get_field k fs
get k _ = none

abbrev pub as_array : Value → Option Items
as_array (array vs) = some vs
as_array _ = none

abbrev pub as_object : Value → Option Fields
as_object (object fs) = some fs
as_object _ = none

abbrev pub as_u64 : Value → Option ℕ
as_u64 (number n) = some n
as_u64 _ = none

abbrev pub as_bool : Value → Option Bool
as_bool (bool b) = some b
as_bool _ = none

abbrev pub as_str : Value → Option Text
as_str (string s) = some s
as_str _ = none

-- `get` by a key, then `as_str`.
unfoldable pub text_at : Text → Value → Option Text
unfolding get
text_at key v = elim (get key v) [ none ↦ none | some w ↦ as_str w ]

-- ===== src/Proxy/Json.antt =====
-- `serde_json::Value`, as src/proxy.rs uses it: the documented variants and accessors. Reading and
-- writing its text is a parameter.
use gptload_rs.Prelude.{ℕ, Bool, Option, none, some, if◌then◌else◌}
use gptload_rs.Prelude.Text.{Str, str_eq}

-- A number is what `as_u64` makes of it.
mutual
  pub data Value : Type 0 where
    null : Value
    boolean : Bool → Value
    number : Option ℕ → Value
    string : Str → Value
    array : Values → Value
    object : Members → Value

  pub data Values : Type 0 where
    no_values : Values
    value : Value → Values → Values

  pub data Members : Type 0 where
    no_members : Members
    member : Str → Value → Members → Members

-- `obj.get(key)` of a map, and `obj.insert(key, v)`
unfoldable pub find : Str → Members → Option Value
unfolding str_eq
find key no_members = none
find key (member k v ms) = if str_eq k key then some v else find key ms

unfoldable pub put : Str → Value → Members → Members
unfolding str_eq
put key v no_members = member key v no_members
put key v (member k w ms) =
    let rest = put key v ms in if str_eq k key then member k v ms else member k w rest

-- `v.get(key)`
unfoldable pub get : Value → Str → Option Value
unfolding find
get (object ms) key = find key ms
get _ key = none

abbrev pub as_bool : Option Value → Option Bool
as_bool (some (boolean b)) = some b
as_bool _ = none

abbrev pub as_str : Option Value → Option Str
as_str (some (string s)) = some s
as_str _ = none

abbrev pub as_u64 : Option Value → Option ℕ
as_u64 (some (number n)) = n
as_u64 _ = none

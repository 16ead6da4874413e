-- ===== src/Canonical/Object.antt =====
-- JavaScript objects as lists of own properties in enumeration order, and sortKeysRecursive.
use hashira_be_railway_deplo.Base.{
  ℕ, ◌+◌, ◌-◌, ◌*◌, Bool, true, false, ◌&&◌, Option, none, some, List, [], ◌∷◌, Text, str, text_eq,
  ltb, leb, ◌==◌, if◌then◌else◌,
}
use hashira_be_railway_deplo.Canonical.Values.{
  Json, Items, Fields, null, bool, num, string, arr, obj, nil, cons, end, field,
}
use hashira_be_railway_deplo.Canonical.Order.{sort_names}

abbrev is_digit : ℕ → Bool
is_digit c = leb b'0' c && leb c b'9'

-- The value of a text of digits, most significant first.
unfoldable pub digits_value : ℕ → Text → Option ℕ
digits_value acc [] = some acc
digits_value acc (c ∷ s) =
    let rest = digits_value (acc * 10 + (c - b'0')) s in if is_digit c then rest else none

abbrev below_limit : Option ℕ → Option ℕ
below_limit none = none
below_limit (some n) = if ltb n 4294967295 then some n else none

-- An array index: a decimal without leading zeros, below 2^32 - 1. The engine enumerates these keys
-- first, in ascending order.
unfoldable pub array_index : Text → Option ℕ
unfolding digits_value
array_index [] = none
array_index (c ∷ []) = below_limit (digits_value 0 (c ∷ []))
array_index (c ∷ d ∷ s) = if c == b'0' then none else below_limit (digits_value 0 (c ∷ d ∷ s))

abbrev index_before : Option ℕ → Option ℕ → Bool
index_before none j = false
index_before (some k) none = true
index_before (some k) (some j) = ltb k j

-- Whether the engine enumerates the first key, an array index, before the second.
unfoldable pub comes_before : Text → Text → Bool
unfolding array_index
comes_before k j = index_before (array_index k) (array_index j)

-- A new own property: an array index goes among the indices, any other key to the end.
unfoldable pub put : Text → Json → Fields → Fields
unfolding comes_before
put k v end = field k v end
put k v (field j u fs) =
    if text_eq k j
    then field j v fs
    else if comes_before k j
    then field k v (field j u fs)
    else field j u (put k v fs)

abbrev pub proto_key : Text
proto_key = str "__proto__"

-- `o[k] = v`: for the key __proto__ this sets the prototype and no property.
unfoldable pub assign : Text → Json → Fields → Fields
unfolding put
assign k v fs = if text_eq k proto_key then fs else put k v fs

-- `Object.keys(o)` and `o[k]`
unfoldable pub names : Fields → List Text
names end = []
names (field k v fs) = k ∷ names fs

unfoldable pub get : Text → Fields → Option Json
get k end = none
get k (field j v fs) = if text_eq k j then some v else get k fs

unfoldable pub assign_found : Text → Option Json → Fields → Fields
unfolding assign
assign_found k none fs = fs
assign_found k (some v) fs = assign k v fs

-- The loop over the sorted keys, from the properties that are already there.
unfoldable pub rebuild : Fields → List Text → Fields → Fields
unfolding assign_found get
rebuild sorted [] value = sorted
rebuild sorted (k ∷ ks) value = rebuild (assign_found k (get k value) sorted) ks value

-- The recursion comes first: `sort_fields` holds the results that the loop assigns.
unfoldable mutual
  pub sort_keys : Json → Json
  sort_keys null = null
  sort_keys (bool b) = bool b
  sort_keys (num n) = num n
  sort_keys (string s) = string s
  sort_keys (arr xs) = arr (sort_items xs)
  sort_keys (obj fs) = obj (rebuild end (sort_names (names fs)) (sort_fields fs))

  pub sort_items : Items → Items
  sort_items nil = nil
  sort_items (cons x xs) = cons (sort_keys x) (sort_items xs)

  pub sort_fields : Fields → Fields
  sort_fields end = end
  sort_fields (field k v fs) = field k (sort_keys v) (sort_fields fs)

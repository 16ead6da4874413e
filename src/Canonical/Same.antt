-- ===== src/Canonical/Same.antt =====
-- Two values that differ in the order of properties, at any depth, have one canonical text.
use hashira_be_railway_deplo.Base.{
  ◌≡◌, refl, ap, ◌∙◌, false, List, [], ◌∷◌, Text, text_eq, text_eq_iff, arith,
}
use hashira_be_railway_deplo.Canonical.Values.{Json, Items, Fields, arr, obj, nil, cons, end, field}
use hashira_be_railway_deplo.Canonical.Order.{sort_names, insert_name_comm}
use hashira_be_railway_deplo.Canonical.Object.{
  names, get, assign_found, rebuild, sort_keys, sort_items, sort_fields,
}

-- The same value up to the order of properties with different names.
mutual
  pub data SameJson : Json → Json → Type 0 where
    same : (v : Json) → SameJson v v
    same_arr : {xs ys : Items} → SameItems xs ys → SameJson (arr xs) (arr ys)
    same_obj : {fs gs : Fields} → SameFields fs gs → SameJson (obj fs) (obj gs)

  pub data SameItems : Items → Items → Type 0 where
    same_nil : SameItems nil nil
    same_cons :
        {x y : Json} {xs ys : Items}
        → SameJson x y
        → SameItems xs ys
        → SameItems (cons x xs) (cons y ys)

  pub data SameFields : Fields → Fields → Type 0 where
    same_end : SameFields end end
    same_field :
        (k : Text) {v u : Json} {fs gs : Fields}
        → SameJson v u
        → SameFields fs gs
        → SameFields (field k v fs) (field k u gs)
    swapped :
        (j k : Text) (v u : Json) (fs : Fields)
        → text_eq j k ≡ false
        → SameFields (field j v (field k u fs)) (field k u (field j v fs))
    followed : {fs gs hs : Fields} → SameFields fs gs → SameFields gs hs → SameFields fs hs

-- The loop sees of its source only what each key holds.
rebuild-ext :
    (sorted : Fields) (ks : List Text) (value other : Fields)
    → ((k : Text) → get k value ≡ get k other)
    → rebuild sorted ks value ≡ rebuild sorted ks other
unfolding rebuild
rebuild-ext sorted [] value other same_at = refl
rebuild-ext sorted (k ∷ ks) value other same_at =
    rw (same_at k) (rebuild-ext (assign_found k (get k other) sorted) ks value other same_at)

-- What the loop is given for two lists of properties.
abbrev Agree : Fields → Fields → Type 0
Agree fs gs =
    (sort_names (names fs) ≡ sort_names (names gs))
    × ((k : Text) → get k (sort_fields fs) ≡ get k (sort_fields gs))

Agree-refl : (fs : Fields) → Agree fs fs
Agree-refl fs = (refl, λ k. refl)

Agree-field :
    (k : Text) (v u : Json) (fs gs : Fields)
    → sort_keys v ≡ sort_keys u
    → Agree fs gs
    → Agree (field k v fs) (field k u gs)
unfolding sort_names names get sort_keys
Agree-field k v u fs gs e a = (rw (a.0), λ j. rw (e, a.1 j))

Agree-swap :
    (j k : Text) (v u : Json) (fs : Fields)
    → text_eq j k ≡ false
    → Agree (field j v (field k u fs)) (field k u (field j v fs))
unfolding sort_names names get sort_keys
Agree-swap j k v u fs ne = (
  insert_name_comm j k (sort_names (names fs)),
  λ i. ground (arith, text_eq_iff i j, text_eq_iff i k, text_eq_iff j k),
)

mutual
  unfolding sort_keys

  sort_keys-same : {v u : Json} → SameJson v u → sort_keys v ≡ sort_keys u
  sort_keys-same (same v) = refl
  sort_keys-same (same_arr s) = ap arr (sort_items-same s)
  sort_keys-same (same_obj {fs} {gs} s) =
      let (order, values) = fields-same s in
      ap obj (
        rw order (rebuild-ext end (sort_names (names gs)) (sort_fields fs) (sort_fields gs) values))

  sort_items-same : {xs ys : Items} → SameItems xs ys → sort_items xs ≡ sort_items ys
  sort_items-same same_nil = refl
  sort_items-same (same_cons s t) = cc (sort_keys-same s, sort_items-same t)

  fields-same : {fs gs : Fields} → SameFields fs gs → Agree fs gs
  fields-same same_end = Agree-refl end
  fields-same (same_field k {v} {u} {fs} {gs} s t) =
      Agree-field k v u fs gs (sort_keys-same s) (fields-same t)
  fields-same (swapped j k v u fs ne) = Agree-swap j k v u fs ne
  fields-same (followed s t) =
      let (a, b) = fields-same s in let (c, d) = fields-same t in (a ∙ c, λ k. b k ∙ d k)

-- Sorting the keys gives one object for all orders of the properties.
pub sort_keys-eq_of_SameJson : {v u : Json} → SameJson v u → sort_keys v ≡ sort_keys u
sort_keys-eq_of_SameJson s = sort_keys-same s

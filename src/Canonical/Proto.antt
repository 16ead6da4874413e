-- ===== src/Canonical/Proto.antt =====
-- Properties named __proto__ leave no trace in the canonical text.
use hashira_be_railway_deplo.Base.{
  ◌≡◌, refl, sym, ap, ◌∙◌, inl, inr, Option, none, some, List, [], ◌∷◌, Text, text_eq, text_eq_iff,
  Bool-cases,
}
use hashira_be_railway_deplo.Canonical.Values.{Json, Fields, obj, end, field}
use hashira_be_railway_deplo.Canonical.Order.{sort_names, insert_name, text_leb}
use hashira_be_railway_deplo.Canonical.Object.{
  names, get, assign_found, rebuild, sort_keys, sort_fields, proto_key,
}

assign_found_proto : (o : Option Json) (fs : Fields) → assign_found proto_key o fs ≡ fs
unfolding assign_found text_eq
assign_found_proto none fs = refl
assign_found_proto (some v) fs = refl

-- The loop skips the key wherever it stands among the sorted ones.
rebuild-insert_proto :
    (sorted : Fields) (ks : List Text) (value : Fields)
    → rebuild sorted (insert_name proto_key ks) value ≡ rebuild sorted ks value
unfolding rebuild insert_name
rebuild-insert_proto sorted [] value = assign_found_proto (get proto_key value) sorted
rebuild-insert_proto sorted (k ∷ ks) value = elim (Bool-cases (text_leb proto_key k)) [
  | inl first ↦
      rw first
        (ap (λ o. rebuild o (k ∷ ks) value) (assign_found_proto (get proto_key value) sorted))
  | inr later ↦ rw later (rebuild-insert_proto (assign_found k (get k value) sorted) ks value)
]

assign_found_other :
    (k : Text) (v : Json) (fs sorted : Fields)
    → assign_found k (get k (field proto_key v fs)) sorted ≡ assign_found k (get k fs) sorted
unfolding get
assign_found_other k v fs sorted = elim (Bool-cases (text_eq k proto_key)) [
  | inl same ↦
      rw ((text_eq_iff k proto_key).0 same)
        (assign_found_proto _ sorted ∙ sym (assign_found_proto (get proto_key fs) sorted))
  | inr other ↦ rw other refl
]

rebuild-field_proto :
    (sorted : Fields) (ks : List Text) (v : Json) (fs : Fields)
    → rebuild sorted ks (field proto_key v fs) ≡ rebuild sorted ks fs
unfolding rebuild
rebuild-field_proto sorted [] v fs = refl
rebuild-field_proto sorted (k ∷ ks) v fs =
    rw (assign_found_other k v fs sorted)
      (rebuild-field_proto (assign_found k (get k fs) sorted) ks v fs)

-- An object whose first property is named __proto__ sorts to the same object as without that
-- property, whatever its value.
pub sort_keys-proto :
    (v : Json) (fs : Fields) → sort_keys (obj (field proto_key v fs)) ≡ sort_keys (obj fs)
unfolding sort_keys sort_names names
sort_keys-proto v fs = ap obj (
    rebuild-insert_proto end (sort_names (names fs))
      (field proto_key (sort_keys v) (sort_fields fs))
    ∙ rebuild-field_proto end (sort_names (names fs)) (sort_keys v) (sort_fields fs))

-- ===== src/Canonical/Hash.antt =====
-- The canonical text of an event and the order of its metadata.
use hashira_be_railway_deplo.Base.{◌≡◌, ap, none, some, Text, text_eq, str, inl, inr, Bool-cases}
use hashira_be_railway_deplo.Canonical.{CanonicalEvent, event_object, canonicalise}
use hashira_be_railway_deplo.Canonical.Values.{Json, Fields, obj, field, end}
use hashira_be_railway_deplo.Canonical.Object.{put, assign, comes_before}
use hashira_be_railway_deplo.Canonical.Stringify.{stringify}
use hashira_be_railway_deplo.Canonical.Same.{
  SameJson, SameFields, same, same_obj, same_end, same_field, sort_keys-eq_of_SameJson,
}

SameFields-refl : (fs : Fields) → SameFields fs fs
SameFields-refl end = same_end
SameFields-refl (field k v fs) = same_field k (same v) (SameFields-refl fs)

put-same :
    (k : Text) (v u : Json) (fs : Fields) → SameJson v u → SameFields (put k v fs) (put k u fs)
unfolding put
put-same k v u end s = same_field k s same_end
put-same k v u (field j x fs) s = elim (Bool-cases (text_eq k j)) [
  | inl hit ↦ rw hit (same_field j s (SameFields-refl fs))
  | inr other ↦ elim (Bool-cases (comes_before k j)) [
    | inl ahead ↦ rw (other, ahead) (same_field k s (SameFields-refl (field j x fs)))
    | inr behind ↦ rw (other, behind) (same_field j (same x) (put-same k v u fs s))
  ]
]

-- Two events with metadata that agree in everything but the order of properties with different
-- names, at any depth of the metadata, have the same canonical text.
pub canonicalise-eq_of_SameFields :
    (e : CanonicalEvent) (m n : Fields)
    → SameFields m n
    → canonicalise (record e { metadata = some m }) ≡ canonicalise (record e { metadata = some n })
unfolding canonicalise assign text_eq
canonicalise-eq_of_SameFields e m n s = ap stringify (
    sort_keys-eq_of_SameJson (
      same_obj (
        put-same (str "metadata") (obj m) (obj n) (event_object (record e { metadata = none }))
          (same_obj s))))

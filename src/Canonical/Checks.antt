-- ===== src/Canonical/Checks.antt =====
-- Concrete metadata, and the theorems of Canonical at it.
use hashira_be_railway_deplo.Base.{◌≡◌, refl, str, none, some, text_eq}
use hashira_be_railway_deplo.Canonical.Values.{Fields, string, obj, field, end}
use hashira_be_railway_deplo.Canonical.Object.{sort_keys, proto_key}
use hashira_be_railway_deplo.Canonical.Same.{swapped}
use hashira_be_railway_deplo.Canonical.Proto.{sort_keys-proto}
use hashira_be_railway_deplo.Canonical.Hash.{canonicalise-eq_of_SameFields}
use hashira_be_railway_deplo.Canonical.{CanonicalEvent, canonicalise}

abbrev plain_event : CanonicalEvent
plain_event = record {
  prompt = str "hi";
  output = str "ho";
  model_id = str "m";
  timestamp = str "2025-01-01T00:00:00.000Z";
  workflow_id = none;
  metadata = none;
}

abbrev user_first : Fields
user_first = field (str "user") (string (str "ann")) (field (str "app") (string (str "x")) end)

abbrev user_last : Fields
user_last = field (str "app") (string (str "x")) (field (str "user") (string (str "ann")) end)

canonicalise-eq_of_SameFields_example :
    canonicalise (record plain_event { metadata = some user_first })
    ≡ canonicalise (record plain_event { metadata = some user_last })
unfolding text_eq
canonicalise-eq_of_SameFields_example =
    canonicalise-eq_of_SameFields plain_event user_first user_last
      (swapped (str "user") (str "app") (string (str "ann")) (string (str "x")) end refl)

sort_keys-proto_example :
    sort_keys (obj (field proto_key (string (str "lost")) user_last)) ≡ sort_keys (obj user_last)
sort_keys-proto_example = sort_keys-proto (string (str "lost")) user_last

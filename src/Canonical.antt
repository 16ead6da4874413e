-- ===== src/Canonical.antt =====
-- src/services/CanonicalisationService.ts: the text whose hash is anchored.
pub mod Values
pub mod Object
pub mod Stringify
pub mod Same
pub mod Order
pub mod Proto
pub mod Hash
mod Checks
use hashira_be_railway_deplo.Base.{Option, none, some, Text, str}
use hashira_be_railway_deplo.Canonical.Values.{Json, Fields, string, obj, field, end}
use hashira_be_railway_deplo.Canonical.Object.{assign, sort_keys}
use hashira_be_railway_deplo.Canonical.Stringify.{stringify}

-- The argument of `canonicalise`, with its timestamp as `toISOString` writes it.
pub record CanonicalEvent : Type 0 where
  pub prompt : Text
  pub output : Text
  pub model_id : Text
  pub timestamp : Text
  pub workflow_id : Option Text
  pub metadata : Option Fields

-- `if (x != null) { obj[key] = x; }`
abbrev assign_text : Text → Option Text → Fields → Fields
assign_text key none fs = fs
assign_text key (some s) fs = assign key (string s) fs

abbrev assign_object : Text → Option Fields → Fields → Fields
assign_object key none fs = fs
assign_object key (some m) fs = assign key (obj m) fs

unfoldable pub event_object : CanonicalEvent → Fields
event_object e = assign_object (str "metadata") e.metadata (
    assign_text (str "workflow_id") e.workflow_id (
      field (str "model_id") (string e.model_id) (
        field (str "output") (string e.output) (
          field (str "prompt") (string e.prompt)
            (field (str "timestamp") (string e.timestamp) end)))))

unfoldable pub canonicalise : CanonicalEvent → Text
unfolding event_object
canonicalise e = stringify (sort_keys (obj (event_object e)))

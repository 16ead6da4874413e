-- ===== src/Canonical/Values.antt =====
-- The JSON values of an event's metadata. A number is the text that JSON.stringify prints for it.
-- An object lists its own properties in the order in which the engine enumerates them.
use hashira_be_railway_deplo.Base.{Bool, Text}

mutual
  pub data Json : Type 0 where
    null : Json
    bool : Bool → Json
    num : Text → Json
    string : Text → Json
    arr : Items → Json
    obj : Fields → Json

  pub data Items : Type 0 where
    nil : Items
    cons : Json → Items → Items

  pub data Fields : Type 0 where
    end : Fields
    field : Text → Json → Fields → Fields

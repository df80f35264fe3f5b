-- ===== src/Schema/Json.antt =====
-- JSON values, as `json.loads` gives them.
use supersurf_billing_phase.Common.{Bool, Text}

-- A number is what `str` makes of it. The fields of an object are in the order of the dictionary.
mutual
  pub data Json : Type 0 where
    null : Json
    bool : Bool → Json
    number : Text → Json
    text : Text → Json
    arr : Items → Json
    obj : Fields → Json

  pub data Items : Type 0 where
    nil : Items
    cons : Json → Items → Items

  pub data Fields : Type 0 where
    end : Fields
    field : Text → Json → Fields → Fields

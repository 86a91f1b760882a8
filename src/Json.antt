-- ===== src/Json.antt =====
-- JSON values, as the packages pass them around: `JsonValue` and `Json` of
-- packages/agent-journal/src/index.ts, and the `unknown` values that the redactors walk.
-- A number is the text that `JSON.stringify` prints for it: the code carries numbers and compares
-- their texts, and computes with none. A member's key occurs once, as in a JavaScript object.
use botroost.Prelude.{Bool, String}

mutual
  pub data Json : Type 0 where
    null : Json
    bool : Bool → Json
    num : String → Json
    str : String → Json
    arr : Items → Json
    obj : Fields → Json

  pub data Items : Type 0 where
    nil : Items
    cons : Json → Items → Items

  pub data Fields : Type 0 where
    end : Fields
    field : String → Json → Fields → Fields

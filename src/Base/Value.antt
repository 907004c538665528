-- ===== src/Base/Value.antt =====
-- Go's `any` as the program uses it: what `encoding/json` decodes into.
use any_ns.Base.Int.{ℤ}
use any_ns.Base.Texts.{Text}
use mathlib.Core.Bool.{Bool}

mutual
  pub data Value : Type 0 where
    null : Value
    bool : Bool → Value
    num : ℤ → Value
    str : Text → Value
    arr : Items → Value
    obj : Fields → Value

  pub data Items : Type 0 where
    nil : Items
    cons : Value → Items → Items

  pub data Fields : Type 0 where
    end : Fields
    field : Text → Value → Fields → Fields

-- ===== src/Security/Value.antt =====
-- JSON values (the Any of the dataclasses in security_toolkit/src/core/models.py), for the parts of a record that the program passes through.
use csc512_distributed_syste.Prelude.{ℕ, Bool}
use csc512_distributed_syste.Prelude.Text.{Text}

mutual
  pub data Value : Type 0 where
    null : Value
    bool : Bool → Value
    num : ℕ → Value
    text : Text → Value
    arr : Items → Value
    obj : Fields → Value

  pub data Items : Type 0 where
    nil : Items
    cons : Value → Items → Items

  pub data Fields : Type 0 where
    end : Fields
    field : Text → Value → Fields → Fields

-- ===== src/Runtime/Dynamic.antt =====
-- Values of type `interface{}` as they come from JSON and from the peer's status.
use lmd.Prelude.{Bool, List, [], ◌∷◌, Bytes}
use lmd.Prelude.Int.{ℤ}

-- `list` is a `[]interface{}`, `dict` a `map[string]interface{}`.
mutual
  pub data Value (F : Type 0) : Type 0 where
    null : Value F
    bool : Bool → Value F
    float : F → Value F
    int : ℤ → Value F
    str : Bytes → Value F
    list : Values F → Value F
    dict : Fields F → Value F

  pub data Values (F : Type 0) : Type 0 where
    nil : Values F
    cons : Value F → Values F → Values F

  pub data Fields (F : Type 0) : Type 0 where
    end : Fields F
    field : Bytes → Value F → Fields F → Fields F

module _ {F : Type 0} where
  unfoldable pub to_list : Values F → List (Value F)
  to_list nil = []
  to_list (cons v vs) = v ∷ to_list vs

  unfoldable pub of_list : List (Value F) → Values F
  of_list [] = nil
  of_list (v ∷ vs) = cons v (of_list vs)

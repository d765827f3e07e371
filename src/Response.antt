-- ===== src/Response.antt =====
-- The response of lmd/response.go: its rows, and what `PostProcessing` makes of them.
pub mod Order
pub mod Window
pub mod Columns
pub mod Groups
pub mod Limit
mod Tests
use lmd.Prelude.{ℕ, Option, none, some, List, Bytes, get_elem?, Result, ok, err}
use lmd.Prelude.Int.{ℤ, pos, negsuc}
use lmd.Prelude.Dict.{Dict}
use lmd.Runtime.{Panic, index_out_of_range}
use lmd.Runtime.Dynamic.{Value}
use lmd.Objects.{Column}

-- `hash` is the map of custom variables that `interfaceToCustomVarHash` returns.
pub data Cell (F : Type 0) : Type 0 where
  value : Value F → Cell F
  hash : Dict (Value F) → Cell F

abbrev pub Row : Type 0 → Type 0
Row F = List (Cell F)

abbrev found {ℓ} : {A : Type ℓ} → Option A → Result Panic A
found none = err index_out_of_range
found (some a) = ok a

-- xs[i]
abbrev pub at {ℓ} : {A : Type ℓ} → List A → ℤ → Result Panic A
at xs (pos i) = found (get_elem? xs i)
at xs (negsuc i) = err index_out_of_range

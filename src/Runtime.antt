-- ===== src/Runtime.antt =====
-- Go's run-time panics, its dynamic values, and what it provides that is not modelled.
pub mod Dynamic
pub mod Sample
use lmd.Prelude.{Bytes, Bool, Option, ◌≡◌, Result, err}
use lmd.Prelude.Int.{ℤ}
use lmd.Runtime.Dynamic.{Value}

pub data Panic : Type 0 where
  index_out_of_range type_assertion nil_dereference : Panic
  -- `log.Panicf`, `log.Fatalf` and `panic` called by the program
  raised : Panic

abbrev pub Panics {ℓ} : {A : Type ℓ} → Result Panic A → Type ℓ
Panics {A} r = (p : Panic) × (r ≡ err p)

-- Go's float64 with its comparisons, sums and formats, the formats of other values, and the
-- regular expressions of package regexp. No law is assumed of them here.
pub record Go : Type 1 where
  pub Float : Type 0
  -- `==`, `<` and `<=`: `!=` is the negation of the first, and `>` and `>=` turn the others round
  pub float_eq : Float → Float → Bool
  pub float_lt : Float → Float → Bool
  pub float_le : Float → Float → Bool
  pub float_add : Float → Float → Float
  pub float_div : Float → Float → Float
  pub of_int : ℤ → Float
  pub to_int : Float → ℤ
  -- `strconv.ParseFloat`
  pub parse_float : Bytes → Option Float
  pub format_float : Float → Bytes
  -- `fmt.Sprintf("%v")` of a value that is neither a string nor nil
  pub format_value : Value Float → Bytes
  pub Regexp : Type 0
  pub compile : Bytes → Option Regexp
  pub match_string : Regexp → Bytes → Bool

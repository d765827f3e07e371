-- ===== src/Runtime/Sample.antt =====
-- An instance of what Go provides, for tests: numbers are integers, and a regular expression
-- matches itself alone.
use lmd.Prelude.{Bytes, equal, some, []}
use lmd.Prelude.Int.{ℤ, eqb_ℤ, ltb_ℤ, leb_ℤ, ◌+ℤ◌}
use lmd.Runtime.{Go}
use lmd.Runtime.Dynamic.{float}
use lmd.Text.Decimal.{atoi, format_int}

abbrev pub sample : Go
sample = record {
  Float = ℤ;
  float_eq = eqb_ℤ;
  float_lt = ltb_ℤ;
  float_le = leb_ℤ;
  float_add = ◌+ℤ◌;
  float_div = λ a b. a;
  of_int = λ i. i;
  to_int = λ i. i;
  parse_float = atoi;
  format_float = format_int;
  format_value = λ v. elim v [ float f ↦ format_int f | _ ↦ [] ];
  Regexp = Bytes;
  compile = λ s. some s;
  match_string = λ re s. equal re s;
}

-- ===== src/Request/Reader.antt =====
-- `NewRequest` of lmd/request.go with `ParseRequestAction` and `VerifyRequestIntegrity`. The input is
-- split at the line feeds: the last line ends with the input. Errors of the network are not
-- modelled.
pub mod Kept
pub mod Accepted
pub mod Framing
pub mod Panics
pub mod Left
use lmd.Prelude.{
  is_nil, ℕ, zero, suc, ◌+◌, Bool, true, false, ◌&&◌, ◌||◌, Option, none, some, List, [], ◌∷◌, ◌++◌,
  Bytes, codes, equal, Result, ok, err, ◌>>=◌, leb, ◌==◌, length, if◌then◌else◌, drop,
}
use lmd.Prelude.Int.{ℤ, pos, eqb_ℤ}
use lmd.Prelude.Dict.{lookup}
use lmd.Runtime.{Go, index_out_of_range}
use lmd.BadRequest.{
  Failure, bad, panicked, bad_action, no_such_table, no_wait_object, no_wait_timeout,
  no_wait_condition,
}
use lmd.Objects.{ObjectsType}
use lmd.Text.{has_prefix, trim_space}
use lmd.Request.{Request, no_request}
use lmd.Request.Header.{parse_request_header_line}

-- [a-z]+ up to the end
pub is_lower_word : Bytes → Bool
is_lower_word [] = false
is_lower_word (c ∷ []) = leb b'a' c && leb c b'z'
is_lower_word (c ∷ d ∷ s) = let rest = is_lower_word (d ∷ s) in leb b'a' c && leb c b'z' && rest

-- what stands behind the digits
pub skip_digits : Bytes → Bytes
skip_digits [] = []
skip_digits (c ∷ s) = let rest = skip_digits s in if leb b'0' c && leb c b'9' then rest else c ∷ s

abbrev is_digit : ℕ → Bool
is_digit c = leb b'0' c && leb c b'9'

abbrev closes : Bytes → Bool
closes [] = false
closes (c ∷ s) = c == b']'

-- \[\d+\].* up to the end
unfoldable pub is_command : Bytes → Bool
unfolding skip_digits
is_command (c ∷ d ∷ s) = c == b'[' && (is_digit d && closes (skip_digits s))
is_command _ = false

-- the length of a line with its line feed, which the last line lacks
abbrev pub line_size : Bytes → List Bytes → ℕ
line_size line [] = length line
line_size line (_ ∷ _) = length line + 1

module _ (go : Go) where
  -- The request, or `none` for an empty line. A command that does not match its expression leaves
  -- `matched` nil, and the index 0 out of its range.
  unfoldable pub parse_request_action :
      ObjectsType → Bytes → Request go → Result Failure (Option (Request go))
  unfolding is_lower_word is_command
  parse_request_action o line req =
      if has_prefix line (codes "GET ")
      then (let table = drop 4 line in
          if is_lower_word table
          then elim (lookup table o.tables) [
            | none ↦ err (bad (no_such_table table))
            | some _ ↦ ok (some (record req { table = table }))
          ]
          else err (bad (bad_action line)))
      else if has_prefix line (codes "COMMAND ")
      then (if is_command (drop 8 line)
          then ok (some (record req { command = line }))
          else err (panicked index_out_of_range))
      else if length line == 0
      then ok none
      else err (bad (bad_action line))

  -- a later error takes the place of an earlier one
  unfoldable pub verify_request_integrity : Request go → Result Failure (Request go)
  verify_request_integrity req =
      if is_nil req.wait_trigger
      then ok req
      else if is_nil req.wait_condition
      then err (bad no_wait_condition)
      else if eqb_ℤ req.wait_timeout (pos 0)
      then err (bad no_wait_timeout)
      else if is_nil req.wait_object
      then err (bad no_wait_object)
      else ok req

  -- A request, the bytes read, and the lines that are left.
  pub record Parsed : Type 0 where
    pub request : Option (Request go)
    pub size : ℕ
    pub left : List Bytes

  -- The header lines, up to an empty one or the end of the input.
  unfoldable pub read_headers :
      ObjectsType → List Bytes → ℕ → Request go → Result Failure (Request go × ℕ × List Bytes)
  read_headers o [] size req = ok (req, size, [])
  read_headers o (line ∷ rest) size req =
      let size' = size + line_size line rest in
      let more = (do
        req' ← parse_request_header_line go o (trim_space line) req
        read_headers o rest size' req') in
      if is_nil (trim_space line) then ok (req, size', rest) else more

  abbrev read_action : ObjectsType → List Bytes → ℕ → Option (Request go) → Result Failure Parsed
  read_action o rest size none = ok (record { request = none; size = size; left = rest })
  read_action o rest size (some req) = do
    (read, size', left) ← read_headers o rest size req
    verified ← verify_request_integrity read
    ok (record { request = some verified; size = size'; left = left })

  unfoldable pub new_request : ObjectsType → List Bytes → Result Failure Parsed
  unfolding parse_request_action read_headers verify_request_integrity
  new_request o [] = ok (record { request = none; size = 0; left = [] })
  new_request o (first_line ∷ rest) = do
    action ← parse_request_action o (trim_space first_line) (no_request go)
    read_action o rest (line_size first_line rest) action

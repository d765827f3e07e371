-- ===== src/Peer/Header.antt =====
-- The response header of the fixed16 format: `Send` of lmd/response.go writes it and
-- `CheckResponseHeader` of lmd/peer.go reads it.
pub mod Sent
use lmd.Prelude.{
  is_nil, ℕ, zero, suc, ◌+◌, ◌-◌, Bool, true, false, ◌&&◌, ◌||◌, Option, none, some, List, [], ◌∷◌,
  ◌++◌, Bytes, codes, leb, ltb, ◌==◌, if◌then◌else◌, length, take, drop, replicate,
}
use lmd.Text.Decimal.{format_ℕ, read_digits}
use lmd.Text.Decimal.Width.{is_digits}

pub data HeaderError : Type 0 where
  uncomplete_header bad_response : HeaderError
  bad_size : ℕ → ℕ → HeaderError

-- \s
abbrev pub is_blank : ℕ → Bool
is_blank c = c == b' ' || (c == 9 || (c == 10 || (c == 12 || c == 13)))

abbrev pub is_digit : ℕ → Bool
is_digit c = leb b'0' c && leb c b'9'

module _ (test : ℕ → Bool) where
  unfoldable pub take_while : Bytes → Bytes
  take_while [] = []
  take_while (c ∷ s) = let rest = take_while s in if test c then c ∷ rest else []

  unfoldable pub drop_while : Bytes → Bytes
  drop_while [] = []
  drop_while (c ∷ s) = let rest = drop_while s in if test c then rest else c ∷ s

-- The two groups of ^(\d+)\s+(\d+)$: a digit is no blank, so that the longest match is the only one.
unfoldable pub match_header : Bytes → Option (Bytes × Bytes)
unfolding take_while drop_while is_digits
match_header s =
    let code = take_while is_digit s in
    let blank = take_while is_blank (drop_while is_digit s) in
    let size = drop_while is_blank (drop_while is_digit s) in
    if is_nil code || (is_nil blank || is_nil size)
    then none
    else if is_digits size
    then some (code, size)
    else none

-- `strconv.Atoi` of at most 15 digits
abbrev pub number : Bytes → ℕ
number s = elim (read_digits 0 s) [ none ↦ 0 | some n ↦ n ]

-- `none` is no error
abbrev pub checked : ℕ → Option (Bytes × Bytes) → Option HeaderError
checked size none = some uncomplete_header
checked size (some (code, expected)) =
    if number code == 200
    then (if number expected == size then none else some (bad_size (number expected) size))
    else some bad_response

unfoldable pub check_response_header : Bytes → Option HeaderError
unfolding match_header
check_response_header bytes =
    if ltb (length bytes) 16
    then some uncomplete_header
    else checked (length bytes - 16) (match_header (take 15 bytes))

-- %11d
unfoldable pub pad_left : ℕ → Bytes → Bytes
pad_left width s = replicate (width - length s) b' ' ++ s

-- The header, the rows and a line feed; the code is that of the response.
unfoldable pub send_fixed16 : ℕ → Bytes → Bytes
unfolding pad_left format_ℕ
send_fixed16 code bytes =
    format_ℕ code ++ (b' ' ∷ pad_left 11 (format_ℕ (length bytes + 1)) ++ (10 ∷ (bytes ++ 10 ∷ [])))

-- ===== src/Request/Reader/Left.antt =====
-- How many lines `NewRequest` of lmd/request.go leaves.
use lmd.Prelude.{
  is_nil, ℕ, ◌-◌, ◌≤◌, Option, none, some, List, [], ◌∷◌, Bytes, ok, >>=-eq-ok, Bool-cases,
  ok-injective, length, ◌≡◌, ap, arith, inl, inr, ◌+◌,
}
use lmd.Runtime.{Go}
use lmd.Objects.{ObjectsType}
use lmd.Text.{trim_space}
use lmd.Request.{Request, no_request}
use lmd.Request.Header.{parse_request_header_line}
use lmd.Request.Reader.{
  Parsed, line_size, parse_request_action, verify_request_integrity, read_headers, read_action,
  new_request,
}

module _ (go : Go) (o : ObjectsType) where
  read_headers-left :
      (lines : List Bytes) (size : ℕ) (req : Request go) {req' : Request go} {size' : ℕ}
      {left : List Bytes}
      → read_headers go o lines size req ≡ ok (req', size', left)
      → length left ≤ length lines
  unfolding read_headers
  read_headers-left [] size req eq =
      let same = ap (λ r. length r.2) (ok-injective eq) in omega (arith, same)
  read_headers-left (line ∷ rest) size req eq = elim (Bool-cases (is_nil (trim_space line))) [
    | inl blank ↦
        let same = ap (λ r. length r.2) (ok-injective (rw blank at eq)) in omega (arith, same)
    | inr full ↦
        let (next, parsed, read) =
          >>=-eq-ok (parse_request_header_line go o (trim_space line) req)
            (λ next. read_headers go o rest (size + line_size line rest) next) (rw full at eq) in
        let fewer = read_headers-left rest (size + line_size line rest) next read in
        omega (arith, fewer)
  ]

  read_action-left :
      (rest : List Bytes) (size : ℕ) (action : Option (Request go)) {parsed : Parsed go}
      → read_action go o rest size action ≡ ok parsed
      → length parsed.left ≤ length rest
  read_action-left rest size none eq =
      let same = ap (λ p. length p.left) (ok-injective eq) in omega (arith, same)
  read_action-left rest size (some start) eq =
      let (read, headers, eq') = >>=-eq-ok _ _ eq in
      let (verified, is_verified, last) =
        >>=-eq-ok (verify_request_integrity go read.0)
          (λ verified. ok (record { request = some verified; size = read.1; left = read.2 })) eq' in
      let same = ap (λ p. length p.left) (ok-injective last) in
      let fewer = read_headers-left rest size start headers in omega (arith, same, fewer)

  -- A request takes its first line at least, unless there is none.
  pub new_request-left :
      (lines : List Bytes) {parsed : Parsed go}
      → new_request go o lines ≡ ok parsed
      → length parsed.left ≤ length lines - 1
  unfolding new_request
  new_request-left [] eq =
      let same = ap (λ p. length p.left) (ok-injective eq) in omega (arith, same)
  new_request-left (first_line ∷ rest) eq =
      let (action, parsed_action, eq') =
        >>=-eq-ok (parse_request_action go o (trim_space first_line) (no_request go))
          (read_action go o rest (line_size first_line rest)) eq in
      let fewer = read_action-left rest (line_size first_line rest) action eq' in
      omega (arith, fewer)

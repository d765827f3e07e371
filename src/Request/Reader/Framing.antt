-- ===== src/Request/Reader/Framing.antt =====
-- How much of its input `NewRequest` of lmd/request.go takes.
use lmd.Prelude.{
  is_nil, ℕ, ◌+◌, ◌≡◌, ap, Bool, true, false, Option, none, some, List, [], ◌∷◌, Bytes, Result, ok,
  >>=-eq-ok, if◌then◌else◌, ok-injective, arith,
}
use lmd.Runtime.{Go}
use lmd.BadRequest.{Failure}
use lmd.Objects.{ObjectsType}
use lmd.Text.{trim_space}
use lmd.Request.{Request, no_request}
use lmd.Request.Header.{parse_request_header_line}
use lmd.Request.Reader.{
  Parsed, line_size, parse_request_action, verify_request_integrity, read_headers, read_action,
  new_request,
}

-- the bytes of an input that is split at its line feeds
abbrev pub input_size : List Bytes → ℕ
input_size [] = 0
input_size (line ∷ rest) = line_size line rest + input_size rest

module _ (go : Go) (o : ObjectsType) where
  stop-size :
      (b : Bool) (req : Request go) (size : ℕ) (rest : List Bytes)
      (more : Result Failure (Request go × ℕ × List Bytes)) {req' : Request go} {size' : ℕ}
      {left : List Bytes}
      → (more ≡ ok (req', size', left) → size' + input_size left ≡ size + input_size rest)
      → (if b then ok (req, size, rest) else more) ≡ ok (req', size', left)
      → size' + input_size left ≡ size + input_size rest
  stop-size true req size rest more keeps eq =
      let taken = ap (λ r. r.1 + input_size r.2) (ok-injective eq) in omega (arith, taken)
  stop-size false req size rest more keeps eq = keeps eq

  read_headers-size :
      (lines : List Bytes) (size : ℕ) (req : Request go) {req' : Request go} {size' : ℕ}
      {left : List Bytes}
      → read_headers go o lines size req ≡ ok (req', size', left)
      → size' + input_size left ≡ size + input_size lines
  unfolding read_headers
  read_headers-size [] size req eq =
      let taken = ap (λ r. r.1 + input_size r.2) (ok-injective eq) in omega (arith, taken)
  read_headers-size (line ∷ rest) size req eq =
      let kept =
        stop-size (is_nil (trim_space line)) req (size + line_size line rest) rest _
          (λ eq'.
            let (next, parsed, read) =
              >>=-eq-ok (parse_request_header_line go o (trim_space line) req)
                (λ next. read_headers go o rest (size + line_size line rest) next) eq' in
            read_headers-size rest (size + line_size line rest) next read)
          eq in
      omega (arith, kept)

  read_action-size :
      (rest : List Bytes) (size : ℕ) (action : Option (Request go)) {parsed : Parsed go}
      → read_action go o rest size action ≡ ok parsed
      → parsed.size + input_size parsed.left ≡ size + input_size rest
  read_action-size rest size none eq =
      let taken = ap (λ p. p.size + input_size p.left) (ok-injective eq) in omega (arith, taken)
  read_action-size rest size (some start) eq =
      let (read, headers, eq') = >>=-eq-ok _ _ eq in
      let (verified, is_verified, last) =
        >>=-eq-ok (verify_request_integrity go read.0)
          (λ verified. ok (record { request = some verified; size = read.1; left = read.2 })) eq' in
      let taken = ap (λ p. p.size + input_size p.left) (ok-injective last) in
      let kept = read_headers-size rest size start headers in omega (arith, taken, kept)

  -- A request takes the bytes that it reports and leaves the others: its size and the size of the
  -- lines that are left make up the input.
  pub new_request-size :
      (lines : List Bytes) {parsed : Parsed go}
      → new_request go o lines ≡ ok parsed
      → parsed.size + input_size parsed.left ≡ input_size lines
  unfolding new_request
  new_request-size [] eq =
      let taken = ap (λ p. p.size + input_size p.left) (ok-injective eq) in omega (arith, taken)
  new_request-size (first_line ∷ rest) eq =
      let (action, parsed_action, eq') =
        >>=-eq-ok (parse_request_action go o (trim_space first_line) (no_request go))
          (read_action go o rest (line_size first_line rest)) eq in
      let kept = read_action-size rest (line_size first_line rest) action eq' in omega (arith, kept)

-- ===== src/Request/Reader/Accepted.antt =====
-- What a request that lmd/request.go accepts satisfies.
use mathlib.Core.Path.{subst, ap₂}
use lmd.Prelude.{
  is_nil, not, arith, length, ◌==◌, Option-cases, inl, inr, ap, ◌∙◌, ℕ, ◌≡◌, refl, Bool, true,
  false, ◌&&◌, ◌||◌, Option, none, some, List, [], ◌∷◌, Bytes, Result, ok, err, >>=-eq-ok,
  if◌then◌else◌, codes, drop, ok-injective,
}
use lmd.Prelude.Int.{pos, eqb_ℤ}
use lmd.Prelude.Dict.{lookup}
use lmd.Runtime.{Go}
use lmd.BadRequest.{Failure, bad, no_such_table}
use lmd.Objects.{ObjectsType}
use lmd.Text.{has_prefix, trim_space}
use lmd.Request.{Request, no_request}
use lmd.Request.Reader.{
  is_command, is_lower_word, parse_request_action, verify_request_integrity, read_action,
  new_request, Parsed,
}
use lmd.Request.Reader.Kept.{is_addressed, is_bounded, Keeps, read_headers-Keeps, is_some}

module _ (go : Go) (o : ObjectsType) where
  -- a trigger has an object, a timeout and a condition
  abbrev pub is_complete : Request go → Bool
  is_complete req =
      is_nil req.wait_trigger
      || (not (is_nil req.wait_condition)
          && (not (eqb_ℤ req.wait_timeout (pos 0)) && not (is_nil req.wait_object)))

  -- the tests of `verify_request_integrity`
  verdict :
      (t c z w : Bool) (e e' e'' : Failure) (req : Request go) {req' : Request go}
      → (if t
          then ok req
          else if c
          then err e
          else if z
          then err e'
          else if w
          then err e''
          else ok req)
        ≡ ok req'
      → (req ≡ req') × ((t || (not c && (not z && not w))) ≡ true)
  verdict true c z w e e' e'' req eq = (ok-injective eq, refl)
  verdict false true z w e e' e'' req eq = cc
  verdict false false true w e e' e'' req eq = cc
  verdict false false false true e e' e'' req eq = cc
  verdict false false false false e e' e'' req eq = (ok-injective eq, refl)

  verify_complete :
      (req : Request go) {req' : Request go}
      → verify_request_integrity go req ≡ ok req'
      → (req ≡ req') × (is_complete req ≡ true)
  unfolding verify_request_integrity
  verify_complete req eq =
      verdict (is_nil req.wait_trigger) (is_nil req.wait_condition) (eqb_ℤ req.wait_timeout (pos 0))
        (is_nil req.wait_object) _ _ _ req eq

  abbrev Starts : Request go → Type 0
  Starts req = (is_addressed go o req ≡ true) × (is_bounded go o req ≡ true)

  -- the branches of `parse_request_action`
  branch :
      (b : Bool) (m m' : Result Failure (Option (Request go))) {req : Request go}
      → (b ≡ true → m ≡ ok (some req) → Starts req)
      → (m' ≡ ok (some req) → Starts req)
      → (if b then m else m') ≡ ok (some req)
      → Starts req
  branch true m m' taken passed eq = taken refl eq
  branch false m m' taken passed eq = passed eq

  finish :
      (next : Request go) {req : Request go}
      → Starts next
      → ◌≡◌ {A = Result Failure (Option (Request go))} (ok (some next)) (ok (some req))
      → Starts req
  finish next {req} starts eq = let same : next ≡ req = cc in subst Starts same starts

  table_branch :
      (table : Bytes) {req : Request go}
      → (elim (lookup table o.tables) [
        | none ↦ err (bad (no_such_table table))
        | some _ ↦ ok (some (record (no_request go) { table = table }))
      ])
        ≡ ok (some req)
      → Starts req
  table_branch table {req} eq = elim (Option-cases (lookup table o.tables)) [
    | inl missing ↦ ground arith
    | inr (found, is) ↦
        let same : record (no_request go) { table = table } ≡ req = ground arith in
        subst Starts same (ground arith)
  ]

  action-addressed :
      (line : Bytes) {req : Request go}
      → parse_request_action go o line (no_request go) ≡ ok (some req)
      → Starts req
  unfolding parse_request_action
  action-addressed line eq =
      branch (has_prefix line (codes "GET ")) _ _
        (λ _. branch (is_lower_word (drop 4 line)) _ _ (λ _. table_branch (drop 4 line)) (λ e. cc))
        (branch (has_prefix line (codes "COMMAND ")) _ _
          (λ a.
            branch (is_command (drop 8 line)) _ _
              (λ b. finish (record (no_request go) { command = line }) (ground arith)) (λ e. cc))
          (branch (length line == 0) _ _ (λ _ e. cc) (λ e. cc)))
        eq

  abbrev IsAccepted : Request go → Type 0
  IsAccepted req =
      (is_addressed go o req ≡ true) × (is_bounded go o req ≡ true) × (is_complete req ≡ true)

  Starts-Keeps : (req next : Request go) → Starts req → Keeps go o req next → Starts next
  Starts-Keeps req next (addressed, bounded) (t, c, keeps) = (
    ap₂
          (λ table command.
            is_some (lookup table o.tables)
            || (has_prefix command (codes "COMMAND ") && is_command (drop 8 command)))
          t c
        ∙ addressed,
    keeps bounded,
  )

  read_action-IsAccepted :
      (rest : List Bytes) (size : ℕ) (action : Option (Request go)) {parsed : Parsed go}
      {req : Request go}
      → ((start : Request go) → action ≡ some start → Starts start)
      → read_action go o rest size action ≡ ok parsed
      → parsed.request ≡ some req
      → IsAccepted req
  read_action-IsAccepted rest size none starts eq some_eq = ground arith
  read_action-IsAccepted rest size (some start) {parsed} {req} starts eq some_eq =
      let (read, headers, eq') = >>=-eq-ok _ _ eq in
      let (verified, is_verified, last) = >>=-eq-ok _ _ eq' in
      let (same, complete) = verify_complete read.0 is_verified in
      let (addressed, bounded) =
        Starts-Keeps start read.0 (starts start refl)
          (read_headers-Keeps go o rest size start headers) in
      let reads : some verified ≡ parsed.request = ap (λ p. p.request) (ok-injective last) in
      let is : verified ≡ req = cc in subst IsAccepted (same ∙ is) (addressed, bounded, complete)

  -- A request that is accepted has a table of the store or is a command of its form, its limit,
  -- offset and timeout are not negative, and where it waits for a trigger it has an object, a
  -- timeout and a condition.
  pub new_request-accepted :
      (lines : List Bytes) {parsed : Parsed go} {req : Request go}
      → new_request go o lines ≡ ok parsed
      → parsed.request ≡ some req
      → (is_addressed go o req ≡ true) × (is_bounded go o req ≡ true) × (is_complete req ≡ true)
  unfolding new_request
  new_request-accepted [] eq some_eq = ground arith
  new_request-accepted (first_line ∷ rest) eq some_eq =
      let (action, parsed_action, eq') = >>=-eq-ok _ _ eq in
      read_action-IsAccepted rest _ action
        (λ _ is. action-addressed (trim_space first_line) (parsed_action ∙ ap ok is)) eq' some_eq

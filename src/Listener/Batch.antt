-- ===== src/Listener/Batch.antt =====
-- How `ParseRequests` of lmd/request.go ends.
use lmd.Prelude.{
  is_nil, ℕ, zero, suc, ◌-◌, ◌≤◌, ◌<◌, false, Option, some, List, [], ◌∷◌, Bytes, ok, err,
  Result-cases, Option-cases, Bool-cases, length, ◌≡◌, refl, arith, inl, inr,
}
use lmd.Prelude.Dict.{Dict}
use lmd.Runtime.{Go}
use lmd.Objects.{ObjectsType}
use lmd.Request.{Request}
use lmd.Request.Reader.{new_request}
use lmd.Request.Reader.Left.{new_request-left}
use lmd.Response.Columns.{expand_requested_backends}
use lmd.Listener.{Batch, with_rest, parse_requests}

module _ (go : Go) where
  -- only commands have requests behind them
  abbrev pub AreCommandsFirst : List (Request go) → Type 0
  AreCommandsFirst [] = Unit
  AreCommandsFirst (req ∷ []) = Unit
  AreCommandsFirst (req ∷ next ∷ reqs) =
      (is_nil req.command ≡ false) × AreCommandsFirst (next ∷ reqs)

  -- a batch from an input of so many lines
  abbrev pub IsBatch : ℕ → Batch go → Type 0
  IsBatch n (err f) = Unit
  IsBatch n (ok (reqs, left)) = AreCommandsFirst reqs × (length left ≤ n - 1)

  with_rest-IsBatch :
      (req : Request go) (left : List Bytes) (n : ℕ) (rest : Option (Batch go)) (r : Batch go)
      → length left ≤ n
      → rest ≡ some r
      → IsBatch (length left) r
      → (b : Batch go) × (with_rest go req left rest ≡ some b) × IsBatch (suc n) b
  with_rest-IsBatch req left n rest (err f) fewer is batch =
      elim (Bool-cases (is_nil req.command)) [
        | inl query ↦ (ok (req ∷ [], left), rw query refl, (tt, omega (arith, fewer)))
        | inr command ↦ (err f, rw (command, is) refl, tt)
      ]
  with_rest-IsBatch req left n rest (ok ([], left')) fewer is batch =
      elim (Bool-cases (is_nil req.command)) [
        | inl query ↦ (ok (req ∷ [], left), rw query refl, (tt, omega (arith, fewer)))
        | inr command ↦ (ok (req ∷ [], left'), rw (command, is) refl, (tt, omega (arith, batch.1)))
      ]
  with_rest-IsBatch req left n rest (ok (next ∷ reqs, left')) fewer is batch =
      elim (Bool-cases (is_nil req.command)) [
        | inl query ↦ (ok (req ∷ [], left), rw query refl, (tt, omega (arith, fewer)))
        | inr command ↦ (
          ok (req ∷ next ∷ reqs, left'),
          rw (command, is) refl,
          ((command, batch.0), omega (arith, batch.1)),
        )
      ]

  module _ (o : ObjectsType) (store : Dict Bytes) where
    no_input : (fuel : ℕ) → parse_requests go o store (suc fuel) [] ≡ some (ok ([], []))
    unfolding parse_requests new_request
    no_input fuel = refl

    -- With more rounds than lines `ParseRequests` ends: in an error, or with requests of which only commands have
    -- others behind them, and it takes a line at least, unless there is none.
    pub parse_requests-IsBatch :
        (fuel : ℕ) (lines : List Bytes)
        → length lines < fuel
        → (r : Batch go) × (parse_requests go o store fuel lines ≡ some r)
          × IsBatch (length lines) r
    unfolding parse_requests
    parse_requests-IsBatch zero lines h = absurd (omega arith)
    parse_requests-IsBatch (suc fuel) [] h = (ok ([], []), no_input fuel, (tt, omega arith))
    parse_requests-IsBatch (suc fuel) (line ∷ lines) h =
        elim (Result-cases (new_request go o (line ∷ lines))) [
          | inl (f, is) ↦ (err f, rw (is, parse_requests) refl, tt)
          | inr (parsed, is) ↦
              let fewer' = new_request-left go o (line ∷ lines) is in
              let fewer : length parsed.left ≤ length lines = omega (arith, fewer') in
              elim (Option-cases parsed.request) [
                | inl nothing ↦ (
                  ok ([], parsed.left),
                  rw (is, nothing, parse_requests) refl,
                  (tt, omega (arith, fewer)),
                )
                | inr (req, there) ↦ elim (Result-cases (expand_requested_backends go store req)) [
                  | inl (f, fails) ↦ (err f, rw (is, there, fails, parse_requests) refl, tt)
                  | inr (req', expanded) ↦
                      let (r, ends, batch) =
                        parse_requests-IsBatch fuel parsed.left (omega (arith, fewer)) in
                      let (b, whole, is_batch) =
                        with_rest-IsBatch req' parsed.left (length lines) _ r fewer ends batch in
                      (b, rw (is, there, expanded, parse_requests) whole, is_batch)
                ]
              ]
        ]

-- ===== src/Response/Columns/Backends.antt =====
-- What `ExpandRequestedBackends` of lmd/response.go establishes.
use mathlib.Core.Path.{subst}
use lmd.Prelude.{
  is_nil, ◌≡◌, ap, sym, true, false, some, List, [], ◌∷◌, Bytes, equal_iff, ok, ok-injective,
  >>=-eq-ok, ◌>>=◌, arith, Bool-cases, inl, inr, ◌⊎◌,
}
use lmd.Prelude.Dict.{Dict, lookup, insert, lookup-insert}
use lmd.Runtime.{Go}
use lmd.Request.{Request}
use lmd.Response.Columns.{has_key, expand_backends, expand_requested_backends}

-- what the loop puts into the map
expand_backends-known :
    (store : Dict Bytes) (bs : List Bytes) (m : Dict Bytes) {m' : Dict Bytes}
    → expand_backends store bs m ≡ ok m'
    → (id x : Bytes) → lookup id m' ≡ some x
    → ((has_key id store ≡ true) × (x ≡ id)) ⊎ (lookup id m ≡ some x)
unfolding expand_backends
expand_backends-known store [] m eq id x at =
    inr (subst (λ n. lookup id n ≡ some x) (sym (ok-injective eq)) at)
expand_backends-known store (b ∷ bs) m {m'} eq id x at = elim (Bool-cases (has_key b store)) [
  | inr missing ↦ absurd (ground arith)
  | inl known ↦
      let rest : expand_backends store bs (insert b b m) ≡ ok m' = ground arith in
      elim (expand_backends-known store bs (insert b b m) rest id x at) [
        | inl done ↦ inl done
        | inr before ↦ ground (arith, lookup-insert b id b m, equal_iff b id)
      ]
]

no_entry : (id x : Bytes) → ¬ (lookup id [] ≡ some x)
unfolding lookup
no_entry id x h = cc

-- Every backend in the map of a request that names some backends is in the store, under its own name.
pub expand_requested_backends-known :
    (go : Go) (store : Dict Bytes) (req : Request go) {req' : Request go}
    → is_nil req.backends ≡ false
    → expand_requested_backends go store req ≡ ok req'
    → (id x : Bytes) → lookup id req'.backends_map ≡ some x
    → (has_key id store ≡ true) × (x ≡ id)
unfolding expand_requested_backends
expand_requested_backends-known go store req {req'} named eq id x at =
    let expanded : (expand_backends store req.backends [] >>= λ m.
    ok (record req { backends_map = m }))
        ≡ ok req' =
      ground arith in
    let (m, entered, last) =
      >>=-eq-ok (expand_backends store req.backends []) (λ m. ok (record req { backends_map = m }))
        expanded in
    let is : m ≡ req'.backends_map = ap (λ r. r.backends_map) (ok-injective last) in
    elim (expand_backends-known store req.backends [] entered id x (rw is at)) [
      | inl known ↦ known
      | inr before ↦ absurd (no_entry id x before)
    ]

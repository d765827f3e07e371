-- ===== src/Prelude/Dict.antt =====
-- Go's maps with string keys, as association lists. The order of the entries is one of the orders
-- in which Go may iterate over the map.
use mathlib.Core.Path.{◌≡◌, refl}
use mathlib.Core.List.{List, [], ◌∷◌}
use mathlib.Core.Option.{Option, none, some}
use native.Mathlib.Omega.{arith}
use lmd.Prelude.Tests.{Bytes, equal, equal_iff, if◌then◌else◌}

abbrev pub Dict {ℓ} : Type ℓ → Type ℓ
Dict V = List (Bytes × V)

module _ {ℓ} {V : Type ℓ} where
  unfoldable pub lookup : Bytes → Dict V → Option V
  lookup key [] = none
  lookup key ((name, val) ∷ rest) =
      let found = lookup key rest in if equal name key then some val else found

  -- m[key] = val
  unfoldable pub insert : Bytes → V → Dict V → Dict V
  insert key val [] = (key, val) ∷ []
  insert key val ((name, old) ∷ rest) =
      let inserted = insert key val rest in
      if equal name key then (key, val) ∷ rest else (name, old) ∷ inserted

  -- delete(m, key)
  unfoldable pub delete : Bytes → Dict V → Dict V
  delete key [] = []
  delete key ((name, val) ∷ rest) =
      let left = delete key rest in if equal name key then left else (name, val) ∷ left

  pub lookup-insert :
      (key asked : Bytes) (val : V) (entries : Dict V)
      → lookup asked (insert key val entries)
        ≡ (if equal key asked then some val else lookup asked entries)
  unfolding lookup insert
  lookup-insert key asked val [] = refl
  lookup-insert key asked val ((name, old) ∷ rest) =
      let before = lookup-insert key asked val rest in
      ground (arith, before, equal_iff key asked, equal_iff name key, equal_iff name asked)

  pub lookup-delete :
      (key asked : Bytes) (entries : Dict V)
      → lookup asked (delete key entries) ≡ (if equal key asked then none else lookup asked entries)
  unfolding lookup delete
  lookup-delete key asked [] = ground arith
  lookup-delete key asked ((name, old) ∷ rest) =
      let before = lookup-delete key asked rest in
      ground (arith, before, equal_iff key asked, equal_iff name key, equal_iff name asked)

pub ruleset dict_laws = (lookup-insert, lookup-delete)

-- ===== src/Nodes/Update/Lists.antt =====
-- Membership in the lists of `updateBackends` of lmd/nodes.go.
use lmd.Prelude.{
  false, ◌&&◌, not, List, [], ◌∷◌, Bytes, equal, equal_iff, ◌≡◌, refl, arith, if◌then◌else◌,
}
use lmd.Nodes.{contains}
use lmd.Nodes.Update.{without, changes, note_backend}

pub contains-without :
    (b j : Bytes) (xs : List Bytes)
    → contains (without b xs) j ≡ (if equal b j then false else contains xs j)
unfolding contains without
contains-without b j [] = ground arith
contains-without b j (x ∷ xs) =
    ground (arith, contains-without b j xs, equal_iff x b, equal_iff x j, equal_iff b j)

-- no element twice
abbrev pub AllDistinct : List Bytes → Type 0
AllDistinct [] = Unit
AllDistinct (x ∷ xs) = (contains xs x ≡ false) × AllDistinct xs

module _ (ours before : List Bytes) where
  pub contains-add :
      (backends : List Bytes) (b : Bytes)
      → contains (changes ours before backends).add b
        ≡ (contains backends b && (contains ours b && not (contains before b)))
  unfolding changes contains note_backend
  contains-add [] b = refl
  contains-add (x ∷ backends) b = ground (arith, contains-add backends b, equal_iff x b)

  pub contains-rmv :
      (backends : List Bytes) (b : Bytes)
      → contains (changes ours before backends).rmv b
        ≡ (contains backends b && (contains before b && not (contains ours b)))
  unfolding changes contains note_backend
  contains-rmv [] b = refl
  contains-rmv (x ∷ backends) b = ground (arith, contains-rmv backends b, equal_iff x b)

  pub add-AllDistinct :
      (backends : List Bytes)
      → AllDistinct backends
      → AllDistinct (changes ours before backends).add
  unfolding changes note_backend
  add-AllDistinct [] h = tt
  add-AllDistinct (x ∷ backends) h =
      ground (arith, add-AllDistinct backends, contains-add backends x)

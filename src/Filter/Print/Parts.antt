-- ===== src/Filter/Print/Parts.antt =====
-- The parts into which a text is split at its first blank.
use lmd.Prelude.{
  ℕ, some, List, [], ◌∷◌, ◌++◌, Bytes, codes, ◌≡◌, refl, ap, ◌∙◌, arith, Option-cases, ◌⊎◌, inl,
  inr, drop,
}
use lmd.Text.{cut, split_n, has_prefix}

pub cut_joins : (x : ℕ) (s : Bytes) {a b : Bytes} → cut (x ∷ []) s ≡ some (a, b) → s ≡ a ++ x ∷ b
unfolding cut has_prefix
cut_joins x [] h = absurd (cc h)
cut_joins x (c ∷ s) h = elim (Option-cases (cut (x ∷ []) s)) [
  | inl no_cut ↦ ground arith
  | inr ((a', b'), is) ↦ ground (arith, cut_joins x s is)
]

pub split_some :
    (s : Bytes) → (first : Bytes) × (rest : List Bytes) × (split_n s (codes " ") 2 ≡ first ∷ rest)
unfolding split_n
split_some s = elim (Option-cases (cut (b' ' ∷ []) s)) [
  | inl whole ↦ (s, [], rw (whole, split_n) refl)
  | inr ((a, b), is) ↦ (a, b ∷ [], rw (is, split_n) refl)
]

pub split_two :
    (s : Bytes)
    → (split_n s (codes " ") 2 ≡ s ∷ [])
      ⊎ ((a : Bytes) × (b : Bytes) × (split_n s (codes " ") 2 ≡ a ∷ b ∷ []) × (s ≡ a ++ b' ' ∷ b))
unfolding split_n
split_two s = elim (Option-cases (cut (b' ' ∷ []) s)) [
  | inl whole ↦ inl (rw (whole, split_n) refl)
  | inr ((a, b), is) ↦ inr (a, b, rw (is, split_n) refl, cut_joins b' ' s is)
]

abbrev pub head_or : Bytes → List Bytes → Bytes
head_or s [] = s
head_or s (x ∷ xs) = x

pub joined :
    (y : ℕ) (tag text : Bytes) (rest : List Bytes) (a b : Bytes)
    → (y ∷ tag) ∷ text ∷ rest ≡ a ∷ b ∷ []
    → (y ∷ tag) ++ b' ' ∷ text ≡ a ++ b' ' ∷ b
joined y tag text rest a b eq =
    ap (λ s. s ++ b' ' ∷ text) (ap (head_or []) eq)
    ∙ ap (λ s. a ++ b' ' ∷ s) (ap (λ ps. head_or [] (drop 1 ps)) eq)

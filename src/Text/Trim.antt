-- ===== src/Text/Trim.antt =====
-- `strings.TrimSpace` on texts without blanks at their ends.
use mathlib.Core.List.{reverse, reverse-append, reverse-reverse}
use lmd.Prelude.{ℕ, false, [], ◌∷◌, ◌++◌, Bytes, ◌≡◌, refl, ap, sym, ◌∙◌}
use lmd.Text.{is_space, trim_left, trim_space}

trim_left-full : (x : ℕ) (s : Bytes) → is_space x ≡ false → trim_left (x ∷ s) ≡ x ∷ s
unfolding trim_left
trim_left-full x s full = rw full refl

-- A text with no blank at its ends is not trimmed.
pub trim_space-full :
    (x : ℕ) (s u : Bytes) (y : ℕ)
    → x ∷ s ≡ u ++ y ∷ []
    → is_space x ≡ false
    → is_space y ≡ false
    → trim_space (x ∷ s) ≡ x ∷ s
unfolding trim_space
trim_space-full x s u y is first last =
    ap (λ t. reverse (trim_left (reverse t))) (trim_left-full x s first)
    ∙ ap (λ t. reverse (trim_left t)) (ap reverse is ∙ reverse-append u (y ∷ []))
    ∙ ap reverse (trim_left-full y (reverse u) last)
    ∙ ap reverse (sym (ap reverse is ∙ reverse-append u (y ∷ [])))
    ∙ reverse-reverse (x ∷ s)

-- ===== src/Text/Cut.antt =====
-- Splitting what was joined, and cutting at a separator.
use lmd.Prelude.{
  ℕ, true, none, some, List, [], ◌∷◌, ◌++◌, Bytes, ◌≡◌, ◌≢◌, refl, arith, drop, length, ap, ◌∙◌,
}
use lmd.Text.{has_prefix, cut, split, join}

abbrev pub Lacks : ℕ → Bytes → Type 0
Lacks b [] = Unit
Lacks b (c ∷ s) = (c ≢ b) × Lacks b s

pub Lacks-append : (b : ℕ) (s t : Bytes) → Lacks b s → Lacks b t → Lacks b (s ++ t)
Lacks-append b [] t h h' = h'
Lacks-append b (c ∷ s) t h h' = (h.0, Lacks-append b s t h.1 h')

has_prefix-append : (p s : Bytes) → has_prefix (p ++ s) p ≡ true
unfolding has_prefix
has_prefix-append [] s = refl
has_prefix-append (c ∷ p) s = ground (arith, has_prefix-append p s)

drop-append : (p s : Bytes) → drop (length p) (p ++ s) ≡ s
drop-append [] s = refl
drop-append (c ∷ p) s = drop-append p s

-- A text is cut behind a part that lacks the first byte of the separator.
pub cut-append :
    (a : Bytes) (x : ℕ) (sep b : Bytes)
    → Lacks x a
    → cut (x ∷ sep) (a ++ ((x ∷ sep) ++ b)) ≡ some (a, b)
unfolding cut
cut-append [] x sep b h = ground (arith, has_prefix-append (x ∷ sep) b, drop-append (x ∷ sep) b)
cut-append (c ∷ a) x sep b h = ground (arith, cut-append a x sep b)

-- A text that lacks the first byte of the separator is not cut.
pub cut-none : (a : Bytes) (x : ℕ) (sep : Bytes) → Lacks x a → cut (x ∷ sep) a ≡ none
unfolding cut
cut-none [] x sep h = refl
cut-none (c ∷ a) x sep h = ground (arith, cut-none a x sep)

split-Lacks : (a : Bytes) (sep : ℕ) → Lacks sep a → split a sep ≡ a ∷ []
unfolding split
split-Lacks [] sep h = refl
split-Lacks (c ∷ a) sep h = ground (arith, split-Lacks a sep)

pub split-append :
    (a : Bytes) (sep : ℕ) (s : Bytes) → Lacks sep a → split (a ++ sep ∷ s) sep ≡ a ∷ split s sep
unfolding split
split-append [] sep s h = ground arith
split-append (c ∷ a) sep s h = ground (arith, split-append a sep s)

abbrev pub AllLack : ℕ → List Bytes → Type 0
AllLack b [] = Unit
AllLack b (p ∷ ps) = Lacks b p × AllLack b ps

-- Parts that lack the separator are read back from their join, if there is one at least.
pub split-join :
    (p : Bytes) (ps : List Bytes) (sep : ℕ)
    → AllLack sep (p ∷ ps)
    → split (join (p ∷ ps) (sep ∷ [])) sep ≡ p ∷ ps
unfolding join
split-join p [] sep h = split-Lacks p sep h.0
split-join p (q ∷ ps) sep h = split-append p sep _ h.0 ∙ ap (◌∷◌ p) (split-join q ps sep h.1)

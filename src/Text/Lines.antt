-- ===== src/Text/Lines.antt =====
-- Texts of lines that end in a line feed, and their split.
use lmd.Prelude.{ℕ, List, [], ◌∷◌, ◌++◌, Bytes, append_assoc, ◌≡◌, refl, ap, sym, ◌∙◌}
use lmd.Text.{split}
use lmd.Text.Cut.{AllLack, split-append}

-- lines, each with its line feed
unfoldable pub unlines : List Bytes → Bytes
unlines [] = []
unlines (l ∷ ls) = l ++ b'\n' ∷ unlines ls

pub unlines-append : (ks ls : List Bytes) → unlines (ks ++ ls) ≡ unlines ks ++ unlines ls
unfolding unlines
unlines-append [] ls = refl
unlines-append (k ∷ ks) ls =
    ap (λ s. k ++ b'\n' ∷ s) (unlines-append ks ls)
    ∙ sym (append_assoc k (b'\n' ∷ unlines ks) (unlines ls))

pub split-unlines : (ls : List Bytes) → AllLack b'\n' ls → split (unlines ls) b'\n' ≡ ls ++ [] ∷ []
unfolding unlines split
split-unlines [] h = refl
split-unlines (l ∷ ls) h = split-append l b'\n' (unlines ls) h.0 ∙ ap (◌∷◌ l) (split-unlines ls h.1)

pub AllLack-append :
    (b : ℕ) (ks ls : List Bytes) → AllLack b ks → AllLack b ls → AllLack b (ks ++ ls)
AllLack-append b [] ls h h' = h'
AllLack-append b (k ∷ ks) ls h h' = (h.0, AllLack-append b ks ls h.1 h')

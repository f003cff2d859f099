-- ===== src/Cli/Lines.antt =====
-- The lines that are printed are the SNIs of the pool.
use reality_hydra.Base.{
  ℕ, ◌≡◌, ◌≢◌, refl, ap, ◌∙◌, false, List, [], ◌∷◌, ◌++◌, All, Bytes, ◌==◌, if◌then◌else◌,
}
use reality_hydra.Cli.{newline, join_lines}

onto_first : ℕ → List Bytes → List Bytes
onto_first c [] = (c ∷ []) ∷ []
onto_first c (s ∷ ss) = (c ∷ s) ∷ ss

-- The text cut at its newlines.
unfoldable pub lines : Bytes → List Bytes
unfolding onto_first
lines [] = [] ∷ []
lines (c ∷ s) = let rest = lines s in if c == newline then [] ∷ rest else onto_first c rest

abbrev pub OneLine : Bytes → Type 0
OneLine s = All (λ c. (c == newline) ≡ false) s

lines-text : (s : Bytes) → OneLine s → lines s ≡ s ∷ []
unfolding lines
lines-text [] h = refl
lines-text (c ∷ s) h = rw (h.0, lines-text s h.1) refl

lines-append : (s rest : Bytes) → OneLine s → lines (s ++ (newline ∷ rest)) ≡ s ∷ lines rest
unfolding lines
lines-append [] rest h = refl
lines-append (c ∷ s) rest h = rw (h.0, lines-append s rest h.1) refl

-- One line for each, when no text has a line end of its own and there is a text.
pub lines-join_lines : (ts : List Bytes) → All OneLine ts → ts ≢ [] → lines (join_lines ts) ≡ ts
unfolding join_lines
lines-join_lines [] h some = absurd (some refl)
lines-join_lines (t ∷ []) h some = lines-text t h.0
lines-join_lines (t ∷ u ∷ ts) h some =
    lines-append t (join_lines (u ∷ ts)) h.0
    ∙ ap (λ (l : List Bytes). t ∷ l) (lines-join_lines (u ∷ ts) h.1 (λ e. cc))

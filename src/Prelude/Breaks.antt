-- ===== src/Prelude/Breaks.antt =====
-- Lines and the text that they make up: each gives the other back.
use Prim.Native.Nat.{ℕ}
use mathlib.Core.Path.{◌≡◌, refl, ap, ◌∙◌}
use mathlib.Core.Logic.{◌≢◌, inl, inr}
use mathlib.Core.Bool.{Bool, true, false}
use mathlib.Core.List.{List, [], ◌∷◌, ◌++◌}
use native.Mathlib.Omega.{arith}
use beacle.Prelude.Tests.{◌==◌, Bool-cases}
use beacle.Prelude.Lists.{All}
use beacle.Prelude.Texts.{Text}
use beacle.Prelude.Words.{lines, unlines, onto_line, fields_by, onto_word, starts_word}

-- A line: it holds no end of a line.
abbrev pub IsLine : Text → Type 0
IsLine l = All (λ c. c ≢ 10) l

pub lines-ne-nil : (s : Text) → lines s ≢ []
unfolding lines onto_line
lines-ne-nil [] = cc
lines-ne-nil (c ∷ s) = elim (c == 10) as (λ b. onto_line b c (lines s) ≢ []) [
  | true ↦ cc
  | false ↦ elim (lines s) as (λ ls. onto_line false c ls ≢ []) [ [] ↦ cc | l ∷ ls ↦ cc ]
]

unlines-onto_line :
    (c : ℕ) (ls : List Text) → ls ≢ [] → unlines (onto_line (c == 10) c ls) ≡ c ∷ unlines ls
unfolding unlines onto_line
unlines-onto_line c [] h = absurd (h refl)
unlines-onto_line c (l ∷ []) h = ground arith
unlines-onto_line c (l ∷ m ∷ ls) h = ground arith

pub unlines-lines : (s : Text) → unlines (lines s) ≡ s
unfolding lines
unlines-lines [] = unfold unlines in refl
unlines-lines (c ∷ s) =
    unlines-onto_line c (lines s) (lines-ne-nil s) ∙ ap (◌∷◌ c) (unlines-lines s)

-- A line in front of the end of a line, or at the end of the text.
lines-line : (l : Text) → IsLine l → lines l ≡ l ∷ []
unfolding lines onto_line
lines-line [] h = refl
lines-line (c ∷ l) (hc, h) = rw (lines-line l h) (ground arith)

lines-append : (l s : Text) → IsLine l → lines (l ++ (10 ∷ s)) ≡ l ∷ lines s
unfolding lines onto_line
lines-append [] s h = refl
lines-append (c ∷ l) s (hc, h) = rw (lines-append l s h) (ground arith)

lines-unlines_cons :
    (l : Text) (ls : List Text) → IsLine l → All IsLine ls → lines (unlines (l ∷ ls)) ≡ l ∷ ls
unfolding unlines
lines-unlines_cons l [] h hs = lines-line l h
lines-unlines_cons l (m ∷ ls) h hs =
    lines-append l (unlines (m ∷ ls)) h ∙ ap (◌∷◌ l) (lines-unlines_cons m ls hs.0 hs.1)

onto_line-IsLine : (c : ℕ) (ls : List Text) → All IsLine ls → All IsLine (onto_line (c == 10) c ls)
unfolding onto_line
onto_line-IsLine c [] h = ground arith
onto_line-IsLine c (l ∷ ls) h = ground arith

pub lines-IsLine : (s : Text) → All IsLine (lines s)
unfolding lines
lines-IsLine [] = (tt, tt)
lines-IsLine (c ∷ s) = onto_line-IsLine c (lines s) (lines-IsLine s)

pub lines-unlines : (ls : List Text) → ls ≢ [] → All IsLine ls → lines (unlines ls) ≡ ls
lines-unlines [] h hs = absurd (h refl)
lines-unlines (l ∷ ls) h hs = lines-unlines_cons l ls hs.0 hs.1

-- A word: it has a character, and none of its characters is a separator.
abbrev pub IsWord : (ℕ → Bool) → Text → Type 0
IsWord p w = (w ≢ []) × All (λ c. p c ≡ false) w

onto_word-All :
    (p : ℕ → Bool) (c : ℕ) (within : Bool) (ws : List Text)
    → All (IsWord p) ws
    → All (IsWord p) (onto_word (p c) c within ws)
unfolding onto_word
onto_word-All p c within ws h = elim (Bool-cases (p c)) [
  | inl e ↦ rw e h
  | inr f ↦ rw f (onto p c f within ws h)
]
  where
    onto :
        (p : ℕ → Bool) (c : ℕ)
        → p c ≡ false
        → (within : Bool) (ws : List Text) → All (IsWord p) ws
        → All (IsWord p) (onto_word false c within ws)
    onto p c f true [] h = (((cc), (f, tt)), tt)
    onto p c f true (w ∷ ws) h = (((cc), (f, h.0.1)), h.1)
    onto p c f false ws h = (((cc), (f, tt)), h)

pub fields_by-All : (p : ℕ → Bool) (s : Text) → All (IsWord p) (fields_by p s)
unfolding fields_by
fields_by-All p [] = tt
fields_by-All p (c ∷ s) = onto_word-All p c (starts_word p s) (fields_by p s) (fields_by-All p s)

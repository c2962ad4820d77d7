-- ===== src/Prelude/Words.antt =====
-- The functions of Go's package `strings` that the parsers use, on texts as lists of code points:
-- a file that is UTF-8 is read here by its characters, as `unicode.IsSpace` reads it.
use Prim.Native.Nat.{ℕ, ◌+◌}
use mathlib.Core.Bool.{Bool, true, false, not, ◌&&◌, ◌||◌}
use mathlib.Core.List.{List, [], ◌∷◌, ◌++◌}
use beacle.Prelude.Tests.{◌==◌, leb, if◌then◌else◌}
use beacle.Prelude.Lists.{is_nil}
use beacle.Prelude.Texts.{Text, is_empty}

-- `unicode.IsSpace`
is_space : ℕ → Bool
is_space c =
    (leb 9 c && leb c 13)
    || c == 0x20
    || c == 0x85
    || c == 0xA0
    || c == 0x1680
    || (leb 0x2000 c && leb c 0x200A)
    || c == 0x2028
    || c == 0x2029
    || c == 0x202F
    || c == 0x205F
    || c == 0x3000

trim_left : (ℕ → Bool) → Text → Text
trim_left p [] = []
trim_left p (c ∷ s) = if p c then trim_left p s else c ∷ s

-- `TrimRight` by a set of characters.
unfoldable pub trim_right : (ℕ → Bool) → Text → Text
trim_right p [] = []
trim_right p (c ∷ s) = let rest = trim_right p s in if is_nil rest && p c then [] else c ∷ rest

unfoldable pub trim_space : Text → Text
unfolding is_space trim_left trim_right
trim_space s = trim_right is_space (trim_left is_space s)

-- One character in front of the words of what follows it; `within` says whether it goes on with the
-- first of them.
unfoldable pub onto_word : Bool → ℕ → Bool → List Text → List Text
onto_word true c within ws = ws
onto_word false c true (w ∷ ws) = (c ∷ w) ∷ ws
onto_word false c true [] = (c ∷ []) ∷ []
onto_word false c false ws = (c ∷ []) ∷ ws

unfoldable pub starts_word : (ℕ → Bool) → Text → Bool
starts_word p [] = false
starts_word p (c ∷ s) = not (p c)

-- `FieldsFunc`: the longest runs of characters that are no separators.
unfoldable pub fields_by : (ℕ → Bool) → Text → List Text
unfolding onto_word starts_word
fields_by p [] = []
fields_by p (c ∷ s) = onto_word (p c) c (starts_word p s) (fields_by p s)

-- `Fields`
unfoldable pub fields : Text → List Text
unfolding fields_by is_space
fields s = fields_by is_space s

-- `Split` by the end of a line.
unfoldable pub onto_line : Bool → ℕ → List Text → List Text
onto_line true c ls = [] ∷ ls
onto_line false c [] = (c ∷ []) ∷ []
onto_line false c (l ∷ ls) = (c ∷ l) ∷ ls

unfoldable pub lines : Text → List Text
unfolding onto_line
lines [] = [] ∷ []
lines (c ∷ s) = onto_line (c == 10) c (lines s)

-- `Join` by the end of a line.
unfoldable pub unlines : List Text → Text
unlines [] = []
unlines (l ∷ []) = l
unlines (l ∷ m ∷ ls) = l ++ (10 ∷ unlines (m ∷ ls))

-- `Count` of one character.
unfoldable pub occurrences : ℕ → Text → ℕ
occurrences c [] = 0
occurrences c (d ∷ s) = (if d == c then 1 else 0) + occurrences c s

-- `s[:strings.Index(s, c)]`, for a text in which the character occurs.
unfoldable pub before : ℕ → Text → Text
before c [] = []
before c (d ∷ s) = if d == c then [] else d ∷ before c s

-- `HasPrefix`
unfoldable pub has_prefix : Text → Text → Bool
has_prefix [] s = true
has_prefix (c ∷ cs) [] = false
has_prefix (c ∷ cs) (d ∷ ds) = c == d && has_prefix cs ds

-- `TrimPrefix`
after_prefix : Text → Text → Text
after_prefix [] s = s
after_prefix (c ∷ cs) [] = []
after_prefix (c ∷ cs) (d ∷ ds) = after_prefix cs ds

unfoldable pub trim_prefix : Text → Text → Text
unfolding has_prefix after_prefix
trim_prefix p s = if has_prefix p s then after_prefix p s else s

-- `TrimSuffix` of one character.
unfoldable pub trim_suffix : ℕ → Text → Text
trim_suffix c [] = []
trim_suffix c (d ∷ s) = if d == c && is_empty s then [] else d ∷ trim_suffix c s

-- ===== src/Caddyfile/Scanning.antt =====
-- The rounds of the parser's loop (agent/caddyfile_parse.go, lines 55-95): their cases, and a scan
-- of lines that follow one another.
use beacle.Prelude.{
  ℕ, suc, ◌+◌, ◌-◌, ◌≡◌, ◌≢◌, ◌⊎◌, inl, inr, refl, ap, ◌∙◌, arith, Text, is_empty, ltb, ◌==◌,
  Bool-cases, List, [], ◌∷◌, ◌++◌, length, Option, none, some,
}
use beacle.Caddyfile.{
  Block, Scan, scan, scan_line, outside, inside, opened, closed, emit, code_of, opens, closes,
}

-- The variables after some lines.
unfoldable pub after : ℕ → List Text → Scan → Scan
after i [] s = s
after i (line ∷ ls) s = after (suc i) ls (scan_line i line s).1

-- The variables between two blocks.
abbrev pub Idle : Scan → Type 0
Idle s = s.depth ≡ 0

-- One round, when its outcome is known.
module _ (i : ℕ) (line : Text) (ls : List Text) (s : Scan) {t : Scan} where
  pub scan_found :
      {b : Block} → scan_line i line s ≡ (some b, t) → scan i (line ∷ ls) s ≡ b ∷ scan (suc i) ls t
  unfolding scan emit
  scan_found e = ap (λ r. emit r.0 (scan (suc i) ls r.1)) e

  pub scan_on : scan_line i line s ≡ (none, t) → scan i (line ∷ ls) s ≡ scan (suc i) ls t
  unfolding scan emit
  scan_on e = ap (λ r. emit r.0 (scan (suc i) ls r.1)) e

  pub scan_round :
      {o : Option Block}
      → scan_line i line s ≡ (o, t)
      → scan i (line ∷ ls) s ≡ emit o (scan (suc i) ls t)
  unfolding scan
  scan_round e = ap (λ r. emit r.0 (scan (suc i) ls r.1)) e

  pub after_round :
      {o : Option Block} → scan_line i line s ≡ (o, t) → after i (line ∷ ls) s ≡ after (suc i) ls t
  unfolding after
  after_round e = ap (λ r. after (suc i) ls r.1) e

pub scan-nil : (i : ℕ) (s : Scan) → scan i [] s ≡ []
unfolding scan
scan-nil i s = refl

pub after-nil : (i : ℕ) (s : Scan) → after i [] s ≡ s
unfolding after
after-nil i s = refl

emit-append : (o : Option Block) (xs ys : List Block) → emit o (xs ++ ys) ≡ emit o xs ++ ys
unfolding emit
emit-append none xs ys = refl
emit-append (some b) xs ys = refl

pub scan-append :
    (i : ℕ) (xs ys : List Text) (s : Scan)
    → scan i (xs ++ ys) s ≡ scan i xs s ++ scan (i + length xs) ys (after i xs s)
unfolding scan after
scan-append i [] ys s = ap (λ n. scan n ys s) (omega arith)
scan-append i (x ∷ xs) ys s =
    let (found, next) = scan_line i x s in
    let moved : suc i + length xs ≡ i + suc (length xs) = omega arith in
    ap (emit found) (scan-append (suc i) xs ys next)
    ∙ (emit-append found (scan (suc i) xs next) _
        ∙ ap (λ n. emit found (scan (suc i) xs next) ++ scan n ys (after (suc i) xs next)) moved)

pub after-append :
    (i : ℕ) (xs ys : List Text) (s : Scan)
    → after i (xs ++ ys) s ≡ after (i + length xs) ys (after i xs s)
unfolding after
after-append i [] ys s = ap (λ n. after n ys s) (omega arith)
after-append i (x ∷ xs) ys s =
    after-append (suc i) xs ys _
    ∙ ap (λ n. after n ys (after (suc i) xs (scan_line i x s).1)) (omega arith)

-- A line outside of any block opens one, or changes nothing.
pub outside-cases :
    (i : ℕ) (line : Text) (s : Scan)
    → Idle s
    → (scan_line i line s ≡ (none, s))
      ⊎ ((scan_line i line s ≡ (none, opened i line (code_of line)))
          × ((opened i line (code_of line)).depth ≢ 0))
unfolding scan_line outside opened
outside-cases i line s h = elim (Bool-cases (is_empty (code_of line))) [
  | inl e ↦ inl (ground arith)
  | inr f ↦ elim (Bool-cases (ltb (closes (code_of line)) (opens (code_of line)))) [
    | inl e ↦ inr (ground arith, ground arith)
    | inr g ↦ inl (ground arith)
  ]
]

-- The variables when a block goes on, and when it ends.
abbrev pub longer : ℕ → Text → Scan → Scan
longer d line s = record s { body = s.body ++ (line ∷ []); raw = s.raw ++ (line ∷ []); depth = d }

abbrev pub ended : Scan → Scan
ended s = record s { header = []; body = []; raw = []; depth = 0 }

-- A line inside a block ends it, or belongs to it.
pub inside-cases :
    (i : ℕ) (line : Text) (s : Scan)
    → s.depth ≢ 0
    → (scan_line i line s ≡ (some (closed i line s), ended s))
      ⊎ ((d : ℕ) × (scan_line i line s ≡ (none, longer d line s)) × (d ≢ 0))
unfolding scan_line inside
inside-cases i line s h =
    let d : ℕ = s.depth + opens (code_of line) - closes (code_of line) in
    elim (Bool-cases (d == 0)) [
      | inl e ↦ inl (ground arith)
      | inr f ↦ inr (d, ground arith, ground arith)
    ]

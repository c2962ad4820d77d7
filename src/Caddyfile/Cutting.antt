-- ===== src/Caddyfile/Cutting.antt =====
-- Where a block that the parser finds lies in its lines (agent/caddyfile_parse.go, lines 42-97).
use beacle.Prelude.{
  ℕ, suc, ◌+◌, ◌≡◌, ◌≢◌, inl, inr, refl, sym, ap, ◌∙◌, arith, Text, List, [], ◌∷◌, ◌++◌, length,
  none, some, unlines,
}
use mathlib.Core.List.{append_assoc}
use native.Mathlib.Numerals.{add-one}
use beacle.Caddyfile.{Block, Scan, scan, scan_line, opened, closed, code_of}
use beacle.Caddyfile.Scanning.{
  after, Idle, scan_found, scan_on, after_round, scan-nil, after-nil, outside-cases, inside-cases,
  longer, ended,
}

-- The rest of a block whose opening line has been read, and what follows it.
pub record Closing (i : ℕ) (ls : List Text) (s : Scan) (b : Block) (bs : List Block) : Type 0 where
  pub mid : List Text
  pub rest : List Text
  pub split : ls ≡ mid ++ rest
  pub ends : suc b.end_line ≡ i + length mid
  pub starts : b.start_line ≡ s.start
  pub text : b.raw ≡ unlines (s.raw ++ mid)
  pub block : scan i mid s ≡ b ∷ []
  pub idle : Idle (after i mid s)
  pub others : scan (i + length mid) rest (after i mid s) ≡ bs

-- A block anywhere in the list, with what stands before and after it. `bs` are the blocks before.
pub record Place (i : ℕ) (ls : List Text) (s : Scan) (bs : List Block) (b : Block) (cs : List Block)
    : Type 0 where
  pub head : List Text
  pub mid : List Text
  pub rest : List Text
  pub split : ls ≡ head ++ (mid ++ rest)
  pub starts : b.start_line ≡ i + length head
  pub ends : suc b.end_line ≡ i + length head + length mid
  pub text : b.raw ≡ unlines mid
  pub earlier : scan i head s ≡ bs
  pub before : Idle (after i head s)
  pub block : scan (i + length head) mid (after i head s) ≡ b ∷ []
  pub idle : Idle (after (i + length head) mid (after i head s))
  pub others :
      scan (i + length head + length mid) rest (after (i + length head) mid (after i head s)) ≡ cs

module _ (i : ℕ) (line : Text) (ls : List Text) (s : Scan) (b : Block) (bs : List Block) where
  closes_here :
      scan_line i line s ≡ (some (closed i line s), ended s)
      → scan i (line ∷ ls) s ≡ b ∷ bs
      → Closing i (line ∷ ls) s b bs
  unfolding closed
  closes_here e h =
      let found : closed i line s ∷ scan (suc i) ls (ended s) ≡ b ∷ bs =
        sym (scan_found i line ls s e) ∙ h in
      let here : closed i line s ≡ b = cc in
      let one : after i (line ∷ []) s ≡ ended s =
        after_round i line [] s e ∙ after-nil (suc i) (ended s) in
      record {
        mid = line ∷ [];
        rest = ls;
        split = refl;
        ends = omega (arith, ap (λ c. c.end_line) here);
        starts = sym (ap (λ c. c.start_line) here);
        text = sym (ap (λ c. c.raw) here);
        block = scan_found i line [] s e ∙ cc (scan-nil (suc i) (ended s));
        idle = ap (λ t. t.depth) one;
        others = rw one (cc (found, ap (λ n. scan n ls (ended s)) (add-one i)));
      }

  goes_on :
      (d : ℕ)
      → scan_line i line s ≡ (none, longer d line s)
      → Closing (suc i) ls (longer d line s) b bs
      → Closing i (line ∷ ls) s b bs
  goes_on d e c =
      let moved : suc i + length c.mid ≡ i + suc (length c.mid) = omega arith in
      record {
        mid = line ∷ c.mid;
        rest = c.rest;
        split = ap (◌∷◌ line) c.split;
        ends = omega (arith, c.ends);
        starts = c.starts;
        text = c.text ∙ ap unlines (append_assoc s.raw (line ∷ []) c.mid);
        block = scan_on i line c.mid s e ∙ c.block;
        idle = rw (after_round i line c.mid s e) c.idle;
        others = rw (after_round i line c.mid s e, ← moved) c.others;
      }

closing :
    (i : ℕ) (ls : List Text) (s : Scan) (b : Block) (bs : List Block)
    → s.depth ≢ 0
    → scan i ls s ≡ b ∷ bs
    → Closing i ls s b bs
closing i [] s b bs inner h = absurd (cc (scan-nil i s))
closing i (line ∷ ls) s b bs inner h = elim (inside-cases i line s inner) [
  | inl e ↦ closes_here i line ls s b bs e h
  | inr (d, e, deep) ↦
      goes_on i line ls s b bs d e
        (closing (suc i) ls (longer d line s) b bs deep (sym (scan_on i line ls s e) ∙ h))
]

module _ (i : ℕ) (line : Text) (ls : List Text) (s : Scan) (b : Block) (bs : List Block) where
  opens_here :
      Idle s
      → scan_line i line s ≡ (none, opened i line (code_of line))
      → Closing (suc i) ls (opened i line (code_of line)) b bs
      → Place i (line ∷ ls) s [] b bs
  unfolding opened
  opens_here quiet e c =
      let t : Scan = opened i line (code_of line) in
      let here : i + 0 ≡ i = omega arith in
      let moved : suc i + length c.mid ≡ i + suc (length c.mid) = omega arith in
      record {
        head = [];
        mid = line ∷ c.mid;
        rest = c.rest;
        split = ap (◌∷◌ line) c.split;
        starts = c.starts ∙ sym here;
        ends = omega (arith, c.ends);
        text = c.text;
        earlier = scan-nil i s;
        before = rw (after-nil i s) quiet;
        block = rw (here, after-nil i s) (scan_on i line c.mid s e ∙ c.block);
        idle = rw (here, after-nil i s, after_round i line c.mid s e) c.idle;
        others = rw (here, after-nil i s, after_round i line c.mid s e, ← moved) c.others;
      }

  skips :
      scan_line i line s ≡ (none, s) → Place (suc i) ls s [] b bs → Place i (line ∷ ls) s [] b bs
  skips e o =
      let moved : suc i + length o.head ≡ i + suc (length o.head) = omega arith in
      record {
        head = line ∷ o.head;
        mid = o.mid;
        rest = o.rest;
        split = ap (◌∷◌ line) o.split;
        starts = o.starts ∙ moved;
        ends = omega (arith, o.ends);
        text = o.text;
        earlier = scan_on i line o.head s e ∙ o.earlier;
        before = rw (after_round i line o.head s e) o.before;
        block = rw (after_round i line o.head s e, ← moved) o.block;
        idle = rw (after_round i line o.head s e, ← moved) o.idle;
        others = rw (after_round i line o.head s e, ← moved) o.others;
      }

pub opening :
    (i : ℕ) (ls : List Text) (s : Scan) (b : Block) (bs : List Block)
    → Idle s
    → scan i ls s ≡ b ∷ bs
    → Place i ls s [] b bs
opening i [] s b bs quiet h = absurd (cc (scan-nil i s))
opening i (line ∷ ls) s b bs quiet h = elim (outside-cases i line s quiet) [
  | inl e ↦
      skips i line ls s b bs e (opening (suc i) ls s b bs quiet (sym (scan_on i line ls s e) ∙ h))
  | inr (e, deep) ↦ opens_here i line ls s b bs quiet e (
      closing (suc i) ls (opened i line (code_of line)) b bs deep (sym (scan_on i line ls s e) ∙ h))
]

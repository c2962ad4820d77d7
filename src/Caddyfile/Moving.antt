-- ===== src/Caddyfile/Moving.antt =====
-- Lines are read alike wherever they stand: moving them changes no more than the places of the
-- blocks (agent/caddyfile_parse.go, lines 55-95).
use beacle.Prelude.{
  ℕ, suc, ◌+◌, ◌-◌, ◌≡◌, ◌≢◌, ◌⊎◌, inl, inr, refl, sym, ap, ◌∙◌, arith, Text, is_empty, ltb, ◌==◌,
  Bool-cases, List, [], ◌∷◌, ◌++◌, map, Option, none, some,
}
use beacle.Caddyfile.{
  Block, Scan, scan, scan_line, outside, inside, opened, closed, emit, code_of, opens, closes,
}
use beacle.Caddyfile.Scanning.{
  after, Idle, scan_round, after_round, scan-nil, after-nil, longer, ended,
}

-- A block without its place.
pub record Content : Type 0 where
  pub addresses : List Text
  pub body : Text
  pub raw : Text

abbrev pub content : Block → Content
content b = record { addresses = b.addresses; body = b.body; raw = b.raw }

-- Two rounds that go on alike.
record Same (s t : Scan) : Type 0 where
  header : s.header ≡ t.header
  body : s.body ≡ t.body
  raw : s.raw ≡ t.raw
  depth : s.depth ≡ t.depth

abbrev Like : Scan → Scan → Type 0
Like s t = (Idle s × Idle t) ⊎ Same s t

module _ (i j : ℕ) (line : Text) (s t : Scan) where
  both_outside :
      Idle s
      → Idle t
      → ((scan_line i line s ≡ (none, s)) × (scan_line j line t ≡ (none, t)))
        ⊎ ((scan_line i line s ≡ (none, opened i line (code_of line)))
            × (scan_line j line t ≡ (none, opened j line (code_of line))))
  unfolding scan_line outside
  both_outside h k = elim (Bool-cases (is_empty (code_of line))) [
    | inl e ↦ inl (ground arith, ground arith)
    | inr f ↦ elim (Bool-cases (ltb (closes (code_of line)) (opens (code_of line)))) [
      | inl e ↦ inr (ground arith, ground arith)
      | inr g ↦ inl (ground arith, ground arith)
    ]
  ]

  both_inside :
      s.depth ≢ 0
      → s.depth ≡ t.depth
      → ((scan_line i line s ≡ (some (closed i line s), ended s))
          × (scan_line j line t ≡ (some (closed j line t), ended t)))
        ⊎ ((d : ℕ) × (scan_line i line s ≡ (none, longer d line s))
            × (scan_line j line t ≡ (none, longer d line t)))
  unfolding scan_line inside
  both_inside h k =
      let d : ℕ = s.depth + opens (code_of line) - closes (code_of line) in
      elim (Bool-cases (d == 0)) [
        | inl e ↦ inl (ground arith, ground arith)
        | inr f ↦ inr (d, ground arith, ground arith)
      ]

opened-Same : (i j : ℕ) (line code : Text) → Same (opened i line code) (opened j line code)
unfolding opened
opened-Same i j line code = record { header = refl; body = refl; raw = refl; depth = refl }

longer-Same :
    (d : ℕ) (line : Text) (s t : Scan) → Same s t → Same (longer d line s) (longer d line t)
longer-Same d line s t e = record {
  header = e.header;
  body = ap (λ l. l ++ (line ∷ [])) e.body;
  raw = ap (λ l. l ++ (line ∷ [])) e.raw;
  depth = refl;
}

content-closed :
    (i j : ℕ) (line : Text) (s t : Scan)
    → Same s t
    → content (closed i line s) ≡ content (closed j line t)
unfolding closed
content-closed i j line s t e = rw (e.header, e.body, e.raw) refl

-- A round at two places.
record Round (i j : ℕ) (line : Text) (s t : Scan) : Type 0 where
  left : Option Block
  right : Option Block
  left_next : Scan
  right_next : Scan
  on_left : scan_line i line s ≡ (left, left_next)
  on_right : scan_line j line t ≡ (right, right_next)
  sites :
      (xs ys : List Block)
      → map content xs ≡ map content ys
      → map content (emit left xs) ≡ map content (emit right ys)
  like : Like left_next right_next

module _ (i j : ℕ) (line : Text) (s t : Scan) where
  Round-outside : Idle s → Idle t → Round i j line s t
  unfolding emit
  Round-outside h k = elim (both_outside i j line s t h k) [
    | inl (e, f) ↦ record {
      left = none;
      right = none;
      left_next = s;
      right_next = t;
      on_left = e;
      on_right = f;
      sites = λ xs ys same. same;
      like = inl (h, k);
    }
    | inr (e, f) ↦ record {
      left = none;
      right = none;
      left_next = opened i line (code_of line);
      right_next = opened j line (code_of line);
      on_left = e;
      on_right = f;
      sites = λ xs ys same. same;
      like = inr (opened-Same i j line (code_of line));
    }
  ]

  Round-inside : s.depth ≢ 0 → Same s t → Round i j line s t
  unfolding emit
  Round-inside h e = elim (both_inside i j line s t h e.depth) [
    | inl (l, r) ↦ record {
      left = some (closed i line s);
      right = some (closed j line t);
      left_next = ended s;
      right_next = ended t;
      on_left = l;
      on_right = r;
      sites = λ xs ys same.
          ap (λ a. a ∷ map content xs) (content-closed i j line s t e)
          ∙ ap (λ l. content (closed j line t) ∷ l) same;
      like = inl (refl, refl);
    }
    | inr (d, l, r) ↦ record {
      left = none;
      right = none;
      left_next = longer d line s;
      right_next = longer d line t;
      on_left = l;
      on_right = r;
      sites = λ xs ys same. same;
      like = inr (longer-Same d line s t e);
    }
  ]

  round : Like s t → Round i j line s t
  round (inl (h, k)) = Round-outside h k
  round (inr e) = elim (Bool-cases (s.depth == 0)) [
    | inl z ↦ Round-outside (ground arith) (ground (arith, e.depth))
    | inr n ↦ Round-inside (ground arith) e
  ]

scan-Like :
    (i j : ℕ) (ls : List Text) (s t : Scan)
    → Like s t
    → map content (scan i ls s) ≡ map content (scan j ls t)
scan-Like i j [] s t like = rw (scan-nil i s, scan-nil j t)
scan-Like i j (line ∷ ls) s t like =
    let r : Round i j line s t = round i j line s t like in
    rw (scan_round i line ls s r.on_left, scan_round j line ls t r.on_right)
      (r.sites _ _ (scan-Like (suc i) (suc j) ls r.left_next r.right_next r.like))

after-Like : (i j : ℕ) (ls : List Text) (s t : Scan) → Like s t → Like (after i ls s) (after j ls t)
after-Like i j [] s t like = rw (after-nil i s, after-nil j t) like
after-Like i j (line ∷ ls) s t like =
    let r : Round i j line s t = round i j line s t like in
    rw (after_round i line ls s r.on_left, after_round j line ls t r.on_right)
      (after-Like (suc i) (suc j) ls r.left_next r.right_next r.like)

-- From between two blocks, the same lines give the same sites.
pub scan_moved :
    (i j : ℕ) (ls : List Text) (s t : Scan)
    → Idle s
    → Idle t
    → map content (scan i ls s) ≡ map content (scan j ls t)
scan_moved i j ls s t h k = scan-Like i j ls s t (inl (h, k))

-- And they end a block, or leave one open, wherever they stand.
pub after_moved :
    (i j : ℕ) (ls : List Text) (s t : Scan)
    → Idle s
    → Idle t
    → Idle (after i ls s)
    → Idle (after j ls t)
after_moved i j ls s t h k z = elim (after-Like i j ls s t (inl (h, k))) [
  | inl (a, b) ↦ b
  | inr e ↦ sym e.depth ∙ z
]

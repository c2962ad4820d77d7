-- ===== src/Caddyfile/Editing.antt =====
-- An edit of one block by hand (`replaceBlock`, agent/caddyfile_parse.go, lines 115-128).
use beacle.Prelude.{
  suc, ◌+◌, ◌≤◌, ◌≡◌, ◌≢◌, refl, sym, ap, ◌∙◌, subst, arith, Text, List, [], ◌∷◌, ◌++◌, map, take,
  drop, length, length-append, take-length-append, drop-length-append, some, lines, unlines, All,
  All-append, All-append_left, All-append_right, IsLine, lines-ne-nil, lines-IsLine, lines-unlines,
  unlines-lines,
}
use native.Mathlib.Nat.{zero-add}
use mathlib.Core.List.{append_assoc, map-append}
use beacle.Caddyfile.{Block, Scan, scan, scan_start, parse, replace_block, trim_newlines}
use beacle.Caddyfile.Scanning.{after, Idle, scan-append, scan-nil}
use beacle.Caddyfile.Cutting.{Place}
use beacle.Caddyfile.Places.{place}
use beacle.Caddyfile.Moving.{content, scan_moved, after_moved}

-- The text ends every block that it begins.
abbrev pub IsComplete : Text → Type 0
IsComplete raw = Idle (after 0 (lines (trim_newlines raw)) scan_start)

module _ (src raw : Text) (bs : List Block) (b : Block) (cs : List Block)
    (p : Place 0 (lines src) scan_start bs b cs) where
  edited : List Text
  edited = p.head ++ (lines (trim_newlines raw) ++ p.rest)

  mid-ne-nil : p.mid ≢ []
  mid-ne-nil e =
      let nothing : scan (0 + length p.head) p.mid (after 0 p.head scan_start) ≡ [] =
        ap (λ m. scan (0 + length p.head) m (after 0 p.head scan_start)) e ∙ scan-nil _ _ in
      cc (nothing, p.block)

  length-pos : (l : List Text) → l ≢ [] → suc 0 ≤ length l
  length-pos [] h = absurd (h refl)
  length-pos (x ∷ l) h = omega arith

  take_head : take b.start_line (lines src) ≡ p.head
  take_head = rw (p.starts, zero-add, p.split) (take-length-append p.head (p.mid ++ p.rest))

  drop_rest : drop (suc b.end_line) (lines src) ≡ p.rest
  drop_rest =
      let far : suc b.end_line ≡ length (p.head ++ p.mid) =
        omega (arith, p.ends, length-append {0} p.head p.mid) in
      rw (far, p.split, ← append_assoc p.head p.mid p.rest)
        (drop-length-append (p.head ++ p.mid) p.rest)

  replaced : replace_block src b raw ≡ some (unlines edited)
  unfolding replace_block edited
  replaced =
      let size : length (lines src) ≡ length p.head + (length p.mid + length p.rest) =
        ap length p.split
        ∙ omega
            (arith, length-append {0} p.head (p.mid ++ p.rest), length-append {0} p.mid p.rest) in
      let some_line : suc 0 ≤ length p.mid = length-pos p.mid mid-ne-nil in
      rw (take_head, drop_rest) (ground (arith, size, some_line, p.starts, p.ends))

  edited-ne-nil : edited ≢ []
  unfolding edited
  edited-ne-nil e =
      let none_left : length p.head + (length (lines (trim_newlines raw)) + length p.rest) ≡ 0 =
        omega (
          arith,
          ap length e,
          length-append {0} p.head (lines (trim_newlines raw) ++ p.rest),
          length-append {0} (lines (trim_newlines raw)) p.rest,
        ) in
      absurd (
        omega (
          arith,
          none_left,
          length-pos (lines (trim_newlines raw)) (lines-ne-nil (trim_newlines raw)),
        ))

  edited-IsLine : All IsLine edited
  unfolding edited
  edited-IsLine =
      let all : All IsLine (p.head ++ (p.mid ++ p.rest)) =
        subst (All IsLine) p.split (lines-IsLine src) in
      All-append IsLine p.head _ (All-append_left IsLine p.head _ all) (
        All-append IsLine _ p.rest (lines-IsLine (trim_newlines raw))
          (All-append_right IsLine p.mid p.rest (All-append_right IsLine p.head _ all)))

  parse-edited :
      IsComplete raw
      → map content (parse (unlines edited))
        ≡ map content bs ++ (map content (parse (trim_newlines raw)) ++ map content cs)
  unfolding parse edited
  parse-edited complete =
      let new : List Text = lines (trim_newlines raw) in
      let s1 : Scan = after 0 p.head scan_start in
      let s2 : Scan = after (0 + length p.head) new s1 in
      let quiet : Idle s2 =
        after_moved 0 (0 + length p.head) new scan_start s1 refl p.before complete in
      rw
        (
          lines-unlines edited edited-ne-nil edited-IsLine,
          scan-append 0 p.head (new ++ p.rest) scan_start,
          scan-append (0 + length p.head) new p.rest s1,
          map-append content (scan 0 p.head scan_start),
          map-append content (scan (0 + length p.head) new s1),
          p.earlier,
          scan_moved (0 + length p.head) 0 new s1 scan_start p.before refl,
          scan_moved (0 + length p.head + length new) (0 + length p.head + length p.mid) p.rest s2
              (after (0 + length p.head) p.mid s1) quiet p.idle,
          p.others,
        )
        refl

pub replaces :
    (src raw : Text) (bs : List Block) (b : Block) (cs : List Block)
    → parse src ≡ bs ++ (b ∷ cs)
    → (next : Text) × (replace_block src b raw ≡ some next)
unfolding parse
replaces src raw bs b cs h =
    let p : Place 0 (lines src) scan_start bs b cs =
      place 0 (lines src) scan_start bs b cs refl h in
    (unlines (edited src raw bs b cs p), replaced src raw bs b cs p)

-- A block that the parser found in the file can be replaced, whatever the new text is. If that
-- text ends every block that it begins, the file then holds the sites that stood before the block,
-- the sites of the new text, and the sites that stood after the block, each with its addresses, its
-- body and its text as they were.
pub replace_block-keeps_others :
    (src raw : Text) (bs : List Block) (b : Block) (cs : List Block)
    → parse src ≡ bs ++ (b ∷ cs)
    → IsComplete raw
    → (next : Text) × (replace_block src b raw ≡ some next)
      × (map content (parse next)
          ≡ map content bs ++ (map content (parse (trim_newlines raw)) ++ map content cs))
unfolding parse
replace_block-keeps_others src raw bs b cs h complete =
    let p : Place 0 (lines src) scan_start bs b cs =
      place 0 (lines src) scan_start bs b cs refl h in
    (
      unlines (edited src raw bs b cs p),
      replaced src raw bs b cs p,
      parse-edited src raw bs b cs p complete,
    )

-- Saving a block with the text that the parser gave for it leaves the file as it was, to the last
-- character, unless that text ends in a carriage return.
pub replace_block-own :
    (src : Text) (bs : List Block) (b : Block) (cs : List Block)
    → parse src ≡ bs ++ (b ∷ cs)
    → trim_newlines b.raw ≡ b.raw
    → replace_block src b b.raw ≡ some src
unfolding parse edited
replace_block-own src bs b cs h trimmed =
    let p : Place 0 (lines src) scan_start bs b cs =
      place 0 (lines src) scan_start bs b cs refl h in
    let all : All IsLine (p.head ++ (p.mid ++ p.rest)) =
      subst (All IsLine) p.split (lines-IsLine src) in
    let own : lines (trim_newlines b.raw) ≡ p.mid =
      ap lines (trimmed ∙ p.text)
      ∙ lines-unlines p.mid (mid-ne-nil src b.raw bs b cs p)
          (All-append_left IsLine p.mid p.rest (All-append_right IsLine p.head _ all)) in
    replaced src b.raw bs b cs p
    ∙ ap (λ m. some (unlines (p.head ++ (m ++ p.rest)))) own
    ∙ ap (λ l. some (unlines l)) (sym p.split)
    ∙ ap some (unlines-lines src)

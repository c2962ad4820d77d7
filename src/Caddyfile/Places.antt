-- ===== src/Caddyfile/Places.antt =====
-- Every block that the parser finds stands in the file where it says it stands, between lines that
-- are read as if it were not there (agent/caddyfile_parse.go, lines 42-97).
use beacle.Prelude.{
  ℕ, ◌+◌, ◌≡◌, sym, ap, ◌∙◌, arith, Text, List, [], ◌∷◌, ◌++◌, length, length-append,
}
use mathlib.Core.List.{append_assoc}
use beacle.Caddyfile.{Block, Scan, scan}
use beacle.Caddyfile.Scanning.{after, Idle, scan-append, after-append}
use beacle.Caddyfile.Cutting.{Place, opening}

module _ (i : ℕ) (ls : List Text) (s : Scan) (a : Block) (bs : List Block) (b : Block)
    (cs : List Block) (o : Place i ls s [] a (bs ++ (b ∷ cs))) where
  abbrev resumed : Scan
  resumed = after (i + length o.head) o.mid (after i o.head s)

  abbrev resumed_at : ℕ
  resumed_at = i + length o.head + length o.mid

  behind : Place resumed_at o.rest resumed bs b cs → Place i ls s (a ∷ bs) b cs
  behind p =
      let head : List Text = o.head ++ (o.mid ++ p.head) in
      let far : i + length head ≡ resumed_at + length p.head =
        omega (arith, length-append {0} o.head (o.mid ++ p.head), length-append {0} o.mid p.head) in
      let state : after i head s ≡ after resumed_at p.head resumed =
        after-append i o.head (o.mid ++ p.head) s
        ∙ after-append (i + length o.head) o.mid p.head (after i o.head s) in
      record {
        head = head;
        mid = p.mid;
        rest = p.rest;
        split = o.split ∙ (ap (λ t. o.head ++ (o.mid ++ t)) p.split ∙ simp append_assoc);
        starts = p.starts ∙ sym far;
        ends = omega (arith, p.ends, far);
        text = p.text;
        earlier =
            scan-append i o.head (o.mid ++ p.head) s
            ∙ rw
                (
                  o.earlier,
                  scan-append (i + length o.head) o.mid p.head (after i o.head s),
                  o.block,
                )
                (ap (◌∷◌ a) p.earlier);
        before = rw state p.before;
        block = rw (state, far) p.block;
        idle = rw (state, far) p.idle;
        others = rw (state, far) p.others;
      }

pub place :
    (i : ℕ) (ls : List Text) (s : Scan) (bs : List Block) (b : Block) (cs : List Block)
    → Idle s
    → scan i ls s ≡ bs ++ (b ∷ cs)
    → Place i ls s bs b cs
place i ls s [] b cs quiet h = opening i ls s b cs quiet h
place i ls s (a ∷ bs) b cs quiet h =
    let o : Place i ls s [] a (bs ++ (b ∷ cs)) = opening i ls s a (bs ++ (b ∷ cs)) quiet h in
    behind i ls s a bs b cs o (
      place (resumed_at i ls s a bs b cs o) o.rest (resumed i ls s a bs b cs o) bs b cs o.idle
        o.others)

-- ===== src/Uptime/Loop.antt =====
-- The loop over merged runs reports no stretch that a run touches (backend/uptime_log.go,
-- `DownFrom`).
use beacle.Prelude.{
  ℕ, ◌≤◌, since, ltb, Bool, true, false, ◌&&◌, List, [], ◌∷◌, All, All-map, if◌then◌else◌, arith,
  ◌≡◌, ◌⊎◌, refl, inl, inr,
}
use beacle.Uptime.{Run, tail_gap, later, gap_loop, gap_after}

-- A run lies before a gap or behind it.
abbrev pub Apart : Run → Run → Type 0
Apart r g = (r.to ≤ g.from) ⊎ (g.to ≤ r.from)

-- Runs in the order of their beginnings.
abbrev pub InOrder : List Run → Type 0
InOrder [] = Unit
InOrder (r ∷ rs) = All (λ s. r.from ≤ s.from) rs × InOrder rs

-- The four ways of one round, each with what it knows.
by_case :
    (P : List Run → Type 0) (b c d : Bool) (s t n r : List Run)
    → (b ≡ true → P s)
    → (c ≡ true → P t)
    → (d ≡ true → P n)
    → P r
    → P (if b then s else if c then t else if d then n else r)
by_case P true c d s t n r hs ht hn hr = hs refl
by_case P false true d s t n r hs ht hn hr = ht refl
by_case P false false true s t n r hs ht hn hr = hn refl
by_case P false false false s t n r hs ht hn hr = hr

tail_gap-after : (n to cursor : ℕ) → n ≤ cursor → All (λ g. n ≤ g.from) (tail_gap to cursor)
unfolding tail_gap
tail_gap-after n to cursor h =
    elim (ltb gap_after (since to cursor))
      as (λ b.
        All {A = Run} (λ g. n ≤ g.from)
          (if b then record { from = cursor; to = to } ∷ [] else [])) [
            | true ↦ (h, tt)
            | false ↦ tt
          ]

later-le : (n cursor t : ℕ) → n ≤ cursor → n ≤ later cursor t
unfolding later
later-le n cursor t h = ground (arith, h)

later-ge : (cursor t : ℕ) → t ≤ later cursor t
unfolding later
later-ge cursor t = ground arith

gaps-after :
    (from to n cursor : ℕ) (rs : List Run)
    → n ≤ cursor
    → All (λ g. n ≤ g.from) (gap_loop from to cursor rs)
unfolding gap_loop
gaps-after from to n cursor [] h = tail_gap-after n to cursor h
gaps-after from to n cursor (r ∷ rs) h =
    let rest = gaps-after from to n (later cursor r.to) rs (later-le n cursor r.to h) in
    by_case (All {A = Run} (λ g. n ≤ g.from)) (ltb r.to from) (ltb to r.from)
      (ltb cursor r.from && ltb gap_after (since r.from cursor)) (gap_loop from to cursor rs)
      (tail_gap to cursor)
      (record { from = cursor; to = r.from } ∷ gap_loop from to (later cursor r.to) rs)
      (gap_loop from to (later cursor r.to) rs) (λ e. gaps-after from to n cursor rs h)
      (λ e. tail_gap-after n to cursor h) (λ e. (h, rest)) rest

-- A run that is apart from all gaps, in front of runs that are.
both :
    (r : Run) (rs gs : List Run)
    → All (λ g. r.to ≤ g.from) gs
    → All (λ g. All (λ s. Apart s g) rs) gs
    → All (λ g. All (λ s. Apart s g) (r ∷ rs)) gs
both r rs [] p q = tt
both r rs (g ∷ gs) p q = ((inl p.0, q.0), both r rs gs p.1 q.1)

tail_gap-Apart :
    (to cursor : ℕ) (rs : List Run)
    → All (λ r. to ≤ r.from) rs
    → All (λ g. All (λ r. Apart r g) rs) (tail_gap to cursor)
unfolding tail_gap
tail_gap-Apart to cursor rs h =
    elim (ltb gap_after (since to cursor))
      as (λ b.
        All (λ g. All (λ r. Apart r g) rs)
          (if b then record { from = cursor; to = to } ∷ [] else [])) [
            | true ↦ (All-map (λ r k. inr k) rs h, tt)
            | false ↦ tt
          ]

pub gap_loop-Apart :
    (from to cursor : ℕ) (rs : List Run)
    → from ≤ cursor
    → InOrder rs
    → All (λ g. All (λ r. Apart r g) rs) (gap_loop from to cursor rs)
unfolding gap_loop
gap_loop-Apart from to cursor [] h o = tail_gap-Apart to cursor [] tt
gap_loop-Apart from to cursor (r ∷ rs) h o =
    let next = later cursor r.to in
    let rest =
      both r rs _ (gaps-after from to r.to next rs (later-ge cursor r.to))
        (gap_loop-Apart from to next rs (later-le from cursor r.to h) o.1) in
    by_case (All {A = Run} (λ g. All (λ s. Apart s g) (r ∷ rs))) (ltb r.to from) (ltb to r.from)
      (ltb cursor r.from && ltb gap_after (since r.from cursor)) (gap_loop from to cursor rs)
      (tail_gap to cursor)
      (record { from = cursor; to = r.from } ∷ gap_loop from to (later cursor r.to) rs)
      (gap_loop from to (later cursor r.to) rs)
      (λ e.
        both r rs _ (gaps-after from to r.to cursor rs (ended r.to from cursor e h))
          (gap_loop-Apart from to cursor rs h o.1))
      (λ e.
        let behind = before to r.from e in
        tail_gap-Apart to cursor (r ∷ rs)
          (behind, All-map (λ s k. omega (arith, behind, k)) rs o.0))
      (λ e. ((inr (omega arith), All-map (λ s k. inr k) rs o.0), rest)) rest
  where
    ended : (t from cursor : ℕ) → ltb t from ≡ true → from ≤ cursor → t ≤ cursor
    ended t from cursor e h = ground (arith, e, h)

    before : (to t : ℕ) → ltb to t ≡ true → to ≤ t
    before to t e = ground (arith, e)

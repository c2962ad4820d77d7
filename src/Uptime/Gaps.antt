-- ===== src/Uptime/Gaps.antt =====
-- A stretch that is reported as down has no run of the panel in it (backend/uptime_log.go,
-- `DownFrom`).
use beacle.Prelude.{
  ℕ, ◌≤◌, Time, since, ltb, leb, true, false, List, [], ◌∷◌, ◌++◌, All, All-map, All-sort_insert,
  sort, sort_insert, if◌then◌else◌, arith, ◌≡◌, refl, sym, subst, inl, inr, Bool-cases, Mem-sort,
}
use mathlib.Core.List.{Memᴰ}
use mathlib.Core.List.Memᴰ
use beacle.Uptime.Loop.{Apart, InOrder, gap_loop-Apart}
use beacle.Uptime.{Run, Log, begins_before, merge_onto, merge_runs, gap_loop, down_from, gap_after}

-- Merging keeps the order, and the merged runs cover those that were merged.
merged-after :
    (n : ℕ) (m : Run) (rs : List Run)
    → n ≤ m.from
    → All (λ s. n ≤ s.from) rs
    → All (λ s. n ≤ s.from) (merge_onto m rs)
unfolding merge_onto
merged-after n m [] h k = (h, tt)
merged-after n m (r ∷ rs) h k =
    elim (leb (since r.from m.to) gap_after)
      as (λ b.
        All {A = Run} (λ s. n ≤ s.from)
          (if b
            then merge_onto (if ltb m.to r.to then record m { to = r.to } else m) rs
            else m ∷ merge_onto r rs)) [
              | true ↦
                  merged-after n (if ltb m.to r.to then record m { to = r.to } else m) rs
                    (ground (arith, h)) k.1
              | false ↦ (h, merged-after n r rs k.0 k.1)
            ]

merge_onto-InOrder : (m : Run) (rs : List Run) → InOrder (m ∷ rs) → InOrder (merge_onto m rs)
unfolding merge_onto
merge_onto-InOrder m [] o = o
merge_onto-InOrder m (r ∷ rs) o =
    elim (leb (since r.from m.to) gap_after)
      as (λ b. InOrder (
        if b
        then merge_onto (if ltb m.to r.to then record m { to = r.to } else m) rs
        else m ∷ merge_onto r rs)) [
          | true ↦
              elim (ltb m.to r.to)
                as (λ b. InOrder (merge_onto (if b then record m { to = r.to } else m) rs)) [
                  | true ↦ merge_onto-InOrder (record m { to = r.to }) rs (o.0.1, o.1.1)
                  | false ↦ merge_onto-InOrder m rs (o.0.1, o.1.1)
                ]
          | false ↦ (merged-after m.from r rs o.0.0 o.0.1, merge_onto-InOrder r rs o.1)
        ]

wider : Run → Run → Run
wider m r = if ltb m.to r.to then record m { to = r.to } else m

merge-near :
    (m r : Run) (rs : List Run)
    → leb (since r.from m.to) gap_after ≡ true
    → merge_onto m (r ∷ rs) ≡ merge_onto (wider m r) rs
unfolding merge_onto wider
merge-near m r rs e = ground (arith, e)

merge-far :
    (m r : Run) (rs : List Run)
    → leb (since r.from m.to) gap_after ≡ false
    → merge_onto m (r ∷ rs) ≡ m ∷ merge_onto r rs
unfolding merge_onto
merge-far m r rs e = ground (arith, e)

wider-bounds :
    (m r : Run) → ((wider m r).from ≡ m.from) × (m.to ≤ (wider m r).to) × (r.to ≤ (wider m r).to)
unfolding wider
wider-bounds m r =
    elim (ltb m.to r.to)
        as (λ b.
          ltb m.to r.to ≡ b
          → ((if b then record m { to = r.to } else m).from ≡ m.from)
            × (m.to ≤ (if b then record m { to = r.to } else m).to)
            × (r.to ≤ (if b then record m { to = r.to } else m).to)) [
              | true ↦ λ e. (refl, ground (arith, e), ground (arith, e))
              | false ↦ λ e. (refl, ground (arith, e), ground (arith, e))
            ]
      refl

narrowed : (g m r : Run) → m.from ≤ r.from → Apart (wider m r) g → Apart m g × Apart r g
narrowed g m r h (inl k) =
    let w = wider-bounds m r in (inl (omega (arith, w.1, k)), inl (omega (arith, w.2, k)))
narrowed g m r h (inr k) =
    let w = wider-bounds m r in (inr (omega (arith, w.0, k)), inr (omega (arith, w.0, h, k)))

merge_onto-covers :
    (g m : Run) (rs : List Run)
    → InOrder (m ∷ rs)
    → All (λ r. Apart r g) (merge_onto m rs)
    → All (λ r. Apart r g) (m ∷ rs)
unfolding merge_onto
merge_onto-covers g m [] o h = h
merge_onto-covers g m (r ∷ rs) o h = elim (Bool-cases (leb (since r.from m.to) gap_after)) [
  | inr e ↦
      let k = subst (All (λ r. Apart r g)) (merge-far m r rs e) h in
      (k.0, merge_onto-covers g r rs o.1 k.1)
  | inl e ↦
      let rest =
        merge_onto-covers g (wider m r) rs
          (subst (λ n. All (λ s. n ≤ s.from) rs) (sym (wider-bounds m r).0) o.0.1, o.1.1)
          (subst (All (λ r. Apart r g)) (merge-near m r rs e) h) in
      let two = narrowed g m r o.0.0 rest.0 in (two.0, (two.1, rest.1))
]

sort_insert-InOrder :
    (r : Run) (rs : List Run) → InOrder rs → InOrder (sort_insert begins_before r rs)
unfolding sort_insert begins_before
sort_insert-InOrder r [] o = (tt, tt)
sort_insert-InOrder r (s ∷ rs) o =
    elim (ltb s.from r.from)
        as (λ b.
          ltb s.from r.from ≡ b
          → InOrder (if b then s ∷ sort_insert begins_before r rs else r ∷ s ∷ rs)) [
            | true ↦ λ e. (
              All-sort_insert begins_before (λ t. s.from ≤ t.from) r rs (ground (arith, e)) o.0,
              sort_insert-InOrder r rs o.1,
            )
            | false ↦ λ e.
                let first : r.from ≤ s.from = ground (arith, e) in
                ((first, All-map (λ t k. omega (arith, first, k)) rs o.0), o)
          ]
      refl

sort-InOrder : (rs : List Run) → InOrder (sort begins_before rs)
unfolding sort
sort-InOrder [] = tt
sort-InOrder (r ∷ rs) = sort_insert-InOrder r (sort begins_before rs) (sort-InOrder rs)

merged-Apart :
    (from to : ℕ) (rs : List Run)
    → InOrder rs
    → All (λ g. All (λ r. Apart r g) rs) (gap_loop from to from (merge_runs rs))
unfolding merge_runs
merged-Apart from to [] o = gap_loop-Apart from to from [] (omega arith) tt
merged-Apart from to (r ∷ rs) o =
    All-map (λ g h. merge_onto-covers g r rs o h) _
      (gap_loop-Apart from to from (merge_onto r rs) (omega arith) (merge_onto-InOrder r rs o))

All-Mem : (P : Run → Type 0) (x : Run) (xs : List Run) → All P xs → Memᴰ x xs → P x
All-Mem P x [] h m = absurd (Memᴰ.not-nil m)
All-Mem P x (y ∷ ys) h (Memᴰ.head e) = subst P (sym e) h.0
All-Mem P x (y ∷ ys) h (Memᴰ.tail m) = All-Mem P x ys h.1 m

-- A stretch that is reported as one in which the panel did not run has no run in it: each run of
-- the record, the current one included, ends before the stretch begins or begins after it ends.
pub down_from-Apart :
    (from to : Time) (u : Log) (r : Run)
    → Memᴰ r (u.runs ++ (u.current ∷ []))
    → All (λ g. Apart r g) (down_from from to u)
unfolding down_from
down_from-Apart from to u r m =
    All-map
      (λ g h.
        All-Mem (λ r. Apart r g) r _ h
          ((Mem-sort begins_before r (u.runs ++ (u.current ∷ []))).0 m))
      _
      (merged-Apart from to (sort begins_before (u.runs ++ (u.current ∷ [])))
        (sort-InOrder (u.runs ++ (u.current ∷ []))))

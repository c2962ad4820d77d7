-- ===== src/SpikeRecords/Resent.antt =====
-- An agent sends a batch again that it could not confirm (`Record`, backend/spikes.go, lines 100-149).
use beacle.Prelude.{
  ℕ, ◌+◌, ◌≤◌, ◌==◌, Text, text_eq_refl, insert, lookup-insert, Time, true, false, not, ◌&&◌, List,
  [], ◌∷◌, ◌++◌, map, length, length-append, length-sort, is_nil, ◌≡◌, refl, sym, ap, ◌∙◌, ◌⊎◌,
  subst, arith, All, Bool-cases, inl, inr, sort,
}
use beacle.Registry.AlertRows.{newest}
use beacle.Spool.{SpikeRecord}
use beacle.SpikeRecords.{
  Archive, records_of, older, key_of, is_seen, is_admissible, take_in, write_records, record_spikes,
  max_per_vps,
}
use beacle.SpikeRecords.Seen.{keys, is_seen-sort, is_seen-more, is_seen-last, added_key, Covered}

module _ (now : Time) where
  take_in-grows :
      (rs : List SpikeRecord) (seen : List Text) (existing : List SpikeRecord) (added : ℕ)
      (k : Text)
      → is_seen k (keys existing) ≡ true
      → is_seen k (keys (take_in now rs seen existing added).0) ≡ true
  unfolding take_in
  take_in-grows [] seen existing added k h = h
  take_in-grows (r ∷ rs) seen existing added k h =
      elim (Bool-cases (is_admissible now r && not (is_seen (key_of r) seen))) [
        | inl fresh ↦ rw (fresh, take_in) (take_in-grows rs _ _ _ k (is_seen-more k existing r h))
        | inr stale ↦ rw (stale, take_in) (take_in-grows rs seen existing added k h)
      ]

  taken :
      (r : SpikeRecord) (rs : List SpikeRecord) (seen : List Text) (existing : List SpikeRecord)
      (added : ℕ)
      → (is_admissible now r && not (is_seen (key_of r) seen)) ≡ true
      → take_in now (r ∷ rs) seen existing added
        ≡ take_in now rs (key_of r ∷ seen) (existing ++ (r ∷ [])) (added + 1)
  unfolding take_in
  taken r rs seen existing added e = rw (e, take_in) refl

  passed :
      (r : SpikeRecord) (rs : List SpikeRecord) (seen : List Text) (existing : List SpikeRecord)
      (added : ℕ)
      → (is_admissible now r && not (is_seen (key_of r) seen)) ≡ false
      → take_in now (r ∷ rs) seen existing added ≡ take_in now rs seen existing added
  unfolding take_in
  passed r rs seen existing added e = rw (e, take_in) refl

  take_in-Covered :
      (rs : List SpikeRecord) (seen : List Text) (existing : List SpikeRecord) (added : ℕ)
      → ((k : Text) → is_seen k seen ≡ true → is_seen k (keys existing) ≡ true)
      → All (Covered now (take_in now rs seen existing added).0) rs
  take_in-Covered [] seen existing added agree = tt
  take_in-Covered (r ∷ rs) seen existing added agree =
      elim (Bool-cases (is_admissible now r && not (is_seen (key_of r) seen))) [
        | inl fresh ↦
            let held : is_seen (key_of r)
                  (keys (take_in now rs (key_of r ∷ seen) (existing ++ (r ∷ [])) (added + 1)).0)
                ≡ true =
              take_in-grows rs (key_of r ∷ seen) (existing ++ (r ∷ [])) (added + 1) (key_of r)
                (is_seen-last existing r) in
            subst (λ (t : List SpikeRecord × ℕ). All (Covered now t.0) (r ∷ rs))
              (sym (taken r rs seen existing added fresh))
              (
                ground (arith, held),
                take_in-Covered rs (key_of r ∷ seen) (existing ++ (r ∷ [])) (added + 1)
                    (λ k h. added_key k existing seen r (agree k) h),
              )
        | inr stale ↦
            subst (λ (t : List SpikeRecord × ℕ). All (Covered now t.0) (r ∷ rs))
              (sym (passed r rs seen existing added stale))
              (
                ground (
                  arith,
                  stale,
                  agree (key_of r),
                  take_in-grows rs seen existing added (key_of r),
                ),
                take_in-Covered rs seen existing added agree,
              )
      ]

  take_in-none :
      (rs held : List SpikeRecord) (added : ℕ)
      → All (Covered now held) rs
      → take_in now rs (keys held) held added ≡ (held, added)
  unfolding take_in
  take_in-none [] held added c = refl
  take_in-none (r ∷ rs) held added c = rw c.0 (take_in-none rs held added c.1)

  length-take_in :
      (rs : List SpikeRecord) (seen : List Text) (existing : List SpikeRecord) (added : ℕ)
      → length (take_in now rs seen existing added).0 ≤ length existing + length rs
  unfolding take_in
  length-take_in [] seen existing added = omega arith
  length-take_in (r ∷ rs) seen existing added =
      elim (Bool-cases (is_admissible now r && not (is_seen (key_of r) seen))) [
        | inl fresh ↦
            rw (fresh, take_in)
              (omega (
                arith,
                length-take_in rs (key_of r ∷ seen) (existing ++ (r ∷ [])) (added + 1),
                length-append {0} existing (r ∷ []),
              ))
        | inr stale ↦ rw (stale, take_in) (omega (arith, length-take_in rs seen existing added))
      ]

write_records-records :
    (v : Text) (rs : List SpikeRecord) (s : Archive)
    → records_of v (write_records v rs (record s { by_vps = insert v rs s.by_vps })) ≡ rs
unfolding write_records records_of
write_records-records v rs s = ground (arith, lookup-insert v v rs s.by_vps, text_eq_refl v)

newest-whole : (xs : List SpikeRecord) (n : ℕ) → length xs ≤ n → newest n xs ≡ xs
unfolding newest
newest-whole xs n h = ground (arith, h)

Covered-same :
    (now : Time) (held kept : List SpikeRecord) (rs : List SpikeRecord)
    → ((k : Text) → is_seen k (keys kept) ≡ is_seen k (keys held))
    → All (Covered now held) rs
    → All (Covered now kept) rs
Covered-same now held kept [] same c = tt
Covered-same now held kept (r ∷ rs) same c =
    (rw (same (key_of r)) c.0, Covered-same now held kept rs same c.1)

-- The call, when the records that are kept hold all that the batch offers.
record_spikes-none :
    (now : Time) (v : Text) (rs : List SpikeRecord) (s : Archive)
    → All (Covered now (records_of v s)) rs
    → record_spikes now v rs s ≡ (0, s)
unfolding record_spikes keys
record_spikes-none now v rs s c = elim (Bool-cases (is_nil rs)) [
  | inl e ↦ rw e refl
  | inr f ↦ ground (arith, f, take_in-none now rs (records_of v s) 0 c)
]

module _ (now : Time) (v : Text) (rs : List SpikeRecord) (s : Archive)
    (room : length (records_of v s) + length rs ≤ max_per_vps) where
  merged : List SpikeRecord
  merged = (take_in now rs (keys (records_of v s)) (records_of v s) 0).0

  -- What is kept after the first call, and the archive with it.
  kept : List SpikeRecord
  unfolding merged
  kept = newest max_per_vps (sort older merged)

  stored : Archive
  unfolding kept
  stored = write_records v kept (record s { by_vps = insert v kept s.by_vps })

  kept-whole : kept ≡ sort older merged
  unfolding kept
  kept-whole = newest-whole (sort older merged) max_per_vps (
      omega (
        arith,
        room,
        length-sort {0} older merged,
        length-take_in now rs (keys (records_of v s)) (records_of v s) 0,
      ))

  kept-Covered : All (Covered now kept) rs
  unfolding merged
  kept-Covered =
      Covered-same now merged kept rs
        (λ k. ap (λ l. is_seen k (keys l)) kept-whole ∙ is_seen-sort k merged)
        (take_in-Covered now rs (keys (records_of v s)) (records_of v s) 0 (λ k h. h))

  first_call :
      (record_spikes now v rs s ≡ (0, s)) ⊎ ((n : ℕ) × (record_spikes now v rs s ≡ (n, stored)))
  unfolding record_spikes stored keys
  first_call = elim (Bool-cases (is_nil rs)) [
    | inl e ↦ inl (rw e refl)
    | inr f ↦
        elim (Bool-cases
          ((take_in now rs (map key_of (records_of v s)) (records_of v s) 0).1 == 0)) [
            | inl z ↦ inl (ground (arith, f, z))
            | inr more ↦ inr (
              (take_in now rs (map key_of (records_of v s)) (records_of v s) 0).1,
              ground (arith, f, more),
            )
          ]
  ]

  stored-Covered : All (Covered now (records_of v stored)) rs
  unfolding stored
  stored-Covered =
      subst (λ l. All (Covered now l) rs) (sym (write_records-records v kept s)) kept-Covered

-- Where the series has room for them, records that are sent a second time at the same moment are
-- not new, and nothing changes.
pub record_spikes_twice :
    (now : Time) (v : Text) (rs : List SpikeRecord) (s : Archive)
    → length (records_of v s) + length rs ≤ max_per_vps
    → record_spikes now v rs (record_spikes now v rs s).1 ≡ (0, (record_spikes now v rs s).1)
record_spikes_twice now v rs s room = elim (first_call now v rs s room) [
  | inl e ↦ rw e e
  | inr (n, e) ↦
      rw e (record_spikes-none now v rs (stored now v rs s room) (stored-Covered now v rs s room))
]

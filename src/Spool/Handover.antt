-- ===== src/Spool/Handover.antt =====
-- A hand-over loses no record (agent/ws_client.go, `flushOffline`, `flushSpikes`).
use beacle.Prelude.{
  ℕ, ◌≤◌, Time, Bool, true, List, [], ◌∷◌, ◌++◌, All, All-map, Option, some, length, if◌then◌else◌,
  arith, ◌≡◌, ◌∙◌, refl, sym, ap, subst, inl, inr, Bool-cases,
}
use beacle.Spool.{Buffer, load, drop_up_to, last_at, chunks, flush_chunks, flush}
use beacle.Spool.Chunks.{concat, chunks_whole}
use beacle.Spool.Dropping.{Rising, Rising-after, All-after, load-dropped}
use mathlib.Core.List.{append_assoc}

-- A hand-over of `all`: what went out begins it, what is in the file ends it, and together they
-- cover it. `again` went out and is in the file too.
pub record Handed {A : Type 0} (all sent : List A) (file : Option (List A)) : Type 0 where
  pub gone : List A
  pub again : List A
  pub rest : List A
  pub whole : all ≡ gone ++ (again ++ rest)
  pub out : sent ≡ gone ++ again
  pub kept : file ≡ some (again ++ rest)

module _ {A : Type 0} (at : A → Time) (usable : A → Bool) (send : List A → Bool) where
  hand-chunks :
      (cs : List (List A)) (b : Buffer A)
      → All (λ c. 1 ≤ length c) cs
      → load at usable b ≡ some (concat cs)
      → Rising at usable (concat cs)
      → All (λ y. usable y ≡ true) (concat cs)
      → Handed
          (concat cs)
          (flush_chunks at usable send cs b).1
          (load at usable (flush_chunks at usable send cs b).0)
  unfolding flush_chunks
  hand-chunks [] b n e h u = record {
    gone = [];
    again = [];
    rest = [];
    whole = refl;
    out = refl;
    kept = e;
  }
  hand-chunks ([] ∷ cs) b n e h u = ground (arith, n.0)
  hand-chunks ((x ∷ c) ∷ cs) b n e h u =
      let r = concat cs in
      let d = drop_up_to at usable (last_at at (x ∷ c)) b in
      let after = load-dropped at usable x c r b e h u in
      elim (Bool-cases (send (x ∷ c))) [
        | inr s ↦ rw s (record {
          gone = [];
          again = [];
          rest = x ∷ (c ++ r);
          whole = refl;
          out = refl;
          kept = e;
        })
        | inl s ↦ elim (Bool-cases d.0) [
          | inr w ↦
              rw (s, w)
                (record {
                  gone = [];
                  again = x ∷ c;
                  rest = r;
                  whole = refl;
                  out = refl;
                  kept = after ∙ ap (λ t. some (if t then r else x ∷ (c ++ r))) w;
                })
          | inl w ↦
              let ih =
                hand-chunks cs d.1 n.1 (after ∙ ap (λ t. some (if t then r else x ∷ (c ++ r))) w)
                  (Rising-after at usable (x ∷ c) r h)
                  (All-after at usable (λ y. usable y ≡ true) (x ∷ c) r u) in
              rw (s, w)
                (record {
                  gone = x ∷ (c ++ ih.gone);
                  again = ih.again;
                  rest = ih.rest;
                  whole =
                      ap (λ y. (x ∷ c) ++ y) ih.whole
                      ∙ sym (append_assoc (x ∷ c) ih.gone (ih.again ++ ih.rest));
                  out = ap (λ y. (x ∷ c) ++ y) ih.out ∙ sym (append_assoc (x ∷ c) ih.gone ih.again);
                  kept = ih.kept;
                })
        ]
      ]

  flush-loaded :
      (usual : ℕ) (b : Buffer A) (all : List A)
      → load at usable b ≡ some all
      → flush at usable send usual b ≡ flush_chunks at usable send (chunks usual all usual) b
  unfolding flush
  flush-loaded usual b all e = rw (e, flush) refl

  -- A hand-over of a buffer whose records have different times loses none, whatever goes wrong: the
  -- records that went out begin those that were loaded, those that are in the file end them, and
  -- together they are all. A record that went out and could not be dropped is in both.
  pub hand_over :
      (usual : ℕ) (b : Buffer A) (all : List A)
      → 1 ≤ usual
      → load at usable b ≡ some all
      → Rising at usable all
      → All (λ y. usable y ≡ true) all
      → Handed all
          (flush at usable send usual b).1
          (load at usable (flush at usable send usual b).0)
  hand_over usual b all k e h u =
      let cut = chunks_whole usual all usual k in
      let cs = chunks usual all usual in
      let same : all ≡ concat cs = sym cut.0 in
      rw (flush-loaded usual b all e) (
        subst
          (λ xs.
            Handed xs (flush_chunks at usable send cs b).1
              (load at usable (flush_chunks at usable send cs b).0))
          cut.0
          (hand-chunks cs b (All-map (λ c p. p.0) cs cut.1) (e ∙ ap some same)
            (subst (Rising at usable) same h) (subst (All (λ y. usable y ≡ true)) same u)))

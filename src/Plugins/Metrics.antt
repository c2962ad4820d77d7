-- ===== src/Plugins/Metrics.antt =====
-- The declaration of a metric does not depend on the order in which Go walks the map
-- (`LookupMetric`, shared/plugin/manifest.go, lines 154-169).
use beacle.Prelude.{
  ◌≤◌, ◌<◌, Text, Map, lookup, has, text_eq, text_eq_iff, text_eq_refl, is_empty, ltb, true,
  Bool-cases, Option-cases, ◌&&◌, [], ◌∷◌, ◌++◌, length, Option, none, some, ◌≡◌, ◌⊎◌, inl, inr,
  refl, sym, ap, ◌∙◌, arith, length-append, if◌then◌else◌, trim_suffix, has_prefix,
}
use beacle.Plugins.{MetricDef, is_wildcard, covers, longest, def_at, no_def, lookup_metric}

-- Two texts that begin a third and are of one length.
same_prefix :
    (a b s : Text) → has_prefix a s ≡ true → has_prefix b s ≡ true → length a ≡ length b → a ≡ b
unfolding has_prefix
same_prefix [] [] s h k e = refl
same_prefix [] (d ∷ b) s h k e = absurd (omega (arith, e))
same_prefix (c ∷ a) [] s h k e = absurd (omega (arith, e))
same_prefix (c ∷ a) (d ∷ b) [] h k e = cc
same_prefix (c ∷ a) (d ∷ b) (x ∷ s) h k e = ground (arith, same_prefix a b s)

-- A wildcard is its prefix and a star.
star_last : (k : Text) → is_wildcard k ≡ true → k ≡ trim_suffix b'*' k ++ (b'*' ∷ [])
unfolding is_wildcard trim_suffix
star_last [] h = cc
star_last (c ∷ []) h = ground arith
star_last (c ∷ d ∷ s) h = ground (arith, star_last (d ∷ s))

same_wildcard :
    (name a b : Text) → covers name a ≡ true → covers name b ≡ true → length a ≡ length b → a ≡ b
unfolding covers
same_wildcard name a b h k e =
    let x : Text = trim_suffix b'*' a in
    let y : Text = trim_suffix b'*' b in
    let ea : a ≡ x ++ (b'*' ∷ []) = star_last a (ground arith) in
    let eb : b ≡ y ++ (b'*' ∷ []) = star_last b (ground arith) in
    let sizes : length x ≡ length y = omega (
      arith,
      e,
      ap length ea,
      ap length eb,
      length-append {0} x (b'*' ∷ []),
      length-append {0} y (b'*' ∷ []),
    ) in
    let same : x ≡ y = same_prefix x y name (ground arith) (ground arith) sizes in
    ea ∙ ap (λ t. t ++ (b'*' ∷ [])) same ∙ sym eb

-- What the loop finds, from `best` on.
record IsLongest (name best : Text) (m : Map MetricDef) (r : Text) : Type 0 where
  found : (r ≡ best) ⊎ ((covers name r ≡ true) × (has r m ≡ true))
  no_shorter : length best ≤ length r
  longest : (k : Text) → has k m ≡ true → covers name k ≡ true → length k ≤ length r

has-cons :
    (k j : Text) (d : MetricDef) (m : Map MetricDef)
    → has k ((j, d) ∷ m) ≡ (if text_eq j k then true else has k m)
unfolding has lookup
has-cons k j d m = ground arith

longest-IsLongest :
    (name best : Text) (m : Map MetricDef) → IsLongest name best m (longest name best m)
unfolding longest
longest-IsLongest name best [] = record {
  found = inl refl;
  no_shorter = omega arith;
  longest = λ k h c. absurd (unfold has in unfold lookup in cc);
}
longest-IsLongest name best ((j, d) ∷ m) =
    elim (Bool-cases (covers name j && ltb (length best) (length j))) [
      | inl better ↦
          let bigger : length best < length j = ground (arith, better) in
          let r : IsLongest name j m (longest name j m) = longest-IsLongest name j m in
          rw better (record {
            found = elim r.found [
              | inl e ↦
                  inr (rw e (ground arith), rw e (ground (arith, has-cons j j d m, text_eq_refl j)))
              | inr (c, h) ↦ inr (c, ground (arith, has-cons (longest name j m) j d m, h))
            ];
            no_shorter = omega (arith, r.no_shorter, bigger);
            longest = λ k h c. elim (Bool-cases (text_eq j k)) [
              | inl same ↦ omega (arith, r.no_shorter, ap length ((text_eq_iff j k).0 same))
              | inr other ↦ r.longest k (ground (arith, has-cons k j d m, h, other)) c
            ];
          })
      | inr worse ↦
          let r : IsLongest name best m (longest name best m) = longest-IsLongest name best m in
          rw worse (record {
            found = elim r.found [
              | inl e ↦ inl e
              | inr (c, h) ↦ inr (c, ground (arith, has-cons (longest name best m) j d m, h))
            ];
            no_shorter = r.no_shorter;
            longest = λ k h c. elim (Bool-cases (text_eq j k)) [
              | inl same ↦
                  let e : j ≡ k = (text_eq_iff j k).0 same in
                  let small : length j ≤ length best =
                    ground (arith, worse, ap (covers name) e, c) in
                  omega (arith, r.no_shorter, small, ap length e)
              | inr other ↦ r.longest k (ground (arith, has-cons k j d m, h, other)) c
            ];
          })
    ]

empty_text : (t : Text) → length t ≤ 0 → t ≡ []
empty_text [] h = refl
empty_text (c ∷ t) h = absurd (omega arith)

module _ (m n : Map MetricDef) (name : Text) (same : (k : Text) → lookup k m ≡ lookup k n) where
  has-same : (k : Text) → has k m ≡ has k n
  unfolding has
  has-same k = ground (arith, same k)

  longest-same : longest name [] m ≡ longest name [] n
  longest-same =
      let r : IsLongest name [] m (longest name [] m) = longest-IsLongest name [] m in
      let s : IsLongest name [] n (longest name [] n) = longest-IsLongest name [] n in
      elim r.found [
        | inl none_m ↦ elim s.found [
          | inl none_n ↦ none_m ∙ sym none_n
          | inr (c, h) ↦
              let short : length (longest name [] n) ≤ length (longest name [] m) =
                r.longest _ (has-same _ ∙ h) c in
              none_m ∙ sym (empty_text _ (omega (arith, short, ap length none_m)))
        ]
        | inr (c, h) ↦
            let long : length (longest name [] m) ≤ length (longest name [] n) =
              s.longest _ (sym (has-same _) ∙ h) c in
            elim s.found [
              | inl none_n ↦ empty_text _ (omega (arith, long, ap length none_n)) ∙ sym none_n
              | inr (c', h') ↦
                  same_wildcard name _ _ c c'
                    (omega (arith, long, r.longest _ (has-same _ ∙ h') c'))
            ]
      ]

  def_at-same : (k : Text) → def_at k m ≡ def_at k n
  unfolding def_at
  def_at-same k = ap (λ o. elim o as (λ q. MetricDef) [ some d ↦ d | none ↦ no_def ]) (same k)

-- The answer, from the three things that it is made of.
answer : Option MetricDef → Text → MetricDef → Option MetricDef
answer (some d) best other = some d
answer none best other = if is_empty best then none else some other

answer_lem :
    (m : Map MetricDef) (name : Text)
    → lookup_metric m name
      ≡ answer (lookup name m) (longest name [] m) (def_at (longest name [] m) m)
unfolding lookup_metric answer
answer_lem m name = elim (Option-cases (lookup name m)) [
  | inl e ↦ ground (arith, e)
  | inr (d, e) ↦ ground (arith, e)
]

-- A map may be walked in any order: two lists with the same entries give a metric the same
-- declaration.
pub lookup_metric_any_order :
    (m n : Map MetricDef) (name : Text)
    → ((k : Text) → lookup k m ≡ lookup k n)
    → lookup_metric m name ≡ lookup_metric n name
lookup_metric_any_order m n name same =
    let e : longest name [] m ≡ longest name [] n = longest-same m n name same in
    answer_lem m name
    ∙ rw (same name, e, def_at-same m n name same (longest name [] n)) (sym (answer_lem n name))

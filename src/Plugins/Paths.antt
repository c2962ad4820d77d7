-- ===== src/Plugins/Paths.antt =====
-- A path that a plugin is allowed to open lies under one of its prefixes (`allowedPath`,
-- shared/plugin/host.go, lines 67-82).
use beacle.Prelude.{
  ℕ, Text, codes, text_eq, text_eq_iff, ◌==◌, true, false, Bool-cases, List, [], ◌∷◌, ◌++◌, any,
  some, ◌≡◌, ◌≢◌, inl, inr, refl, sym, ap, ◌∙◌, subst, arith, All, All-append, All-map, has_prefix,
  trim_suffix, fields_by, fields_by-All, IsWord,
}
use mathlib.Core.List.{reverse, reverse-append, append_assoc, append-nil, Memᴰ}
use beacle.Plugins.{
  is_abs, enter, enter_all, components, slashed, rooted_path, clean, is_under, allowed_path,
}

-- A text without a slash.
abbrev HasNoSlash : Text → Type 0
HasNoSlash = All (λ c. c ≢ b'/')

-- The name of a file, or of a folder that is not "." or "..".
abbrev IsPlain : Text → Type 0
IsPlain c = (c ≢ []) × HasNoSlash c

-- A name that a path goes through, and neither stays nor goes back.
abbrev pub IsStep : Text → Type 0
IsStep c = IsPlain c × (c ≢ codes ".") × (c ≢ codes "..")

All-reverse : (P : Text → Type 0) (xs : List Text) → All P xs → All P (reverse xs)
All-reverse P [] h = tt
All-reverse P (x ∷ xs) h =
    rw (reverse-append (x ∷ []) xs)
      (All-append P (reverse xs) (x ∷ []) (All-reverse P xs h.1) (h.0, tt))

enter-IsStep :
    (stack : List Text) (c : Text) → IsPlain c → All IsStep stack → All IsStep (enter true stack c)
unfolding enter
enter-IsStep stack c plain h = elim (Bool-cases (text_eq c (codes "."))) [
  | inl e ↦ rw e h
  | inr not_dot ↦ elim (Bool-cases (text_eq c (codes ".."))) [
    | inl e ↦ rw (not_dot, e) (below stack h)
    | inr not_back ↦
        rw (not_dot, not_back)
          (
            (
              plain,
              ground (arith, text_eq_iff c (codes ".")),
              ground (arith, text_eq_iff c (codes "..")),
            ),
            h,
          )
  ]
]
  where
    below :
        (stack : List Text)
        → All IsStep stack
        → All IsStep (elim stack as (λ q. List Text) [ [] ↦ [] | top ∷ rest ↦ rest ])
    below [] h = tt
    below (top ∷ rest) h = h.1

enter_all-IsStep :
    (stack cs : List Text)
    → All IsPlain cs
    → All IsStep stack
    → All IsStep (enter_all true stack cs)
unfolding enter_all
enter_all-IsStep stack [] p h = h
enter_all-IsStep stack (c ∷ cs) p h =
    enter_all-IsStep (enter true stack c) cs p.1 (enter-IsStep stack c p.0 h)

no_slash : (w : Text) → All (λ c. (c == b'/') ≡ false) w → HasNoSlash w
no_slash [] h = tt
no_slash (c ∷ w) h = (ground (arith, h.0), no_slash w h.1)

plain : (w : Text) → IsWord (λ c. c == b'/') w → IsPlain w
plain w h = (h.0, no_slash w h.1)

components-IsStep : (p : Text) → is_abs p ≡ true → All IsStep (components p)
unfolding components
components-IsStep p abs =
    All-reverse IsStep (enter_all (is_abs p) [] (fields_by (λ c. c == b'/') p)) (
      rw abs (
        enter_all-IsStep [] (fields_by (λ c. c == b'/') p)
          (All-map plain (fields_by (λ c. c == b'/') p) (fields_by-All (λ c. c == b'/') p)) tt))

clean-rooted : (p : Text) → is_abs p ≡ true → clean p ≡ rooted_path (components p)
unfolding clean
clean-rooted p abs = rw abs

-- A text at whose end a component ends.
abbrev Breaks : Text → Type 0
Breaks [] = Unit {0}
Breaks (c ∷ s) = c ≡ b'/'

slashed-Breaks : (cs : List Text) → Breaks (slashed cs)
unfolding slashed
slashed-Breaks [] = tt
slashed-Breaks (c ∷ cs) = refl

-- A first component of a prefix is that of the path.
same_component :
    (b a x y : Text)
    → HasNoSlash b
    → HasNoSlash a
    → Breaks y
    → has_prefix (b ++ (b'/' ∷ x)) (a ++ y) ≡ true
    → (b ≡ a) × (has_prefix (b'/' ∷ x) y ≡ true)
unfolding has_prefix
same_component [] [] x y hb ha hy h = (refl, h)
same_component [] (c ∷ a) x y hb ha hy h = absurd (ground (arith, ha.0))
same_component (c ∷ b) [] x [] hb ha hy h = cc
same_component (c ∷ b) [] x (d ∷ y) hb ha hy h = absurd (ground (arith, hb.0))
same_component (c ∷ b) (d ∷ a) x y hb ha hy h =
    let e : c ≡ d = ground arith in
    let r : has_prefix (b ++ (b'/' ∷ x)) (a ++ y) ≡ true = ground arith in
    let (same, rest) = same_component b a x y hb.1 ha.1 hy r in (cc, rest)

slash_first : (bs : List Text) → (x : Text) × (slashed bs ++ codes "/" ≡ b'/' ∷ x)
unfolding slashed
slash_first [] = ([], refl)
slash_first (b ∷ bs) = ((b ++ slashed bs) ++ codes "/", refl)

-- A path that begins with a prefix and a slash goes through the components of the prefix.
under :
    (bs cs : List Text)
    → All IsStep bs
    → All IsStep cs
    → has_prefix (slashed bs ++ codes "/") (slashed cs) ≡ true
    → (rest : List Text) × (cs ≡ bs ++ rest)
unfolding slashed has_prefix
under [] cs hb hc h = (cs, refl)
under (b ∷ bs) [] hb hc h = cc
under (b ∷ bs) (c ∷ cs) hb hc h =
    let (x, e) = slash_first bs in
    let moved : (b ++ slashed bs) ++ codes "/" ≡ b ++ (b'/' ∷ x) =
      append_assoc b (slashed bs) (codes "/") ∙ ap (λ t. b ++ t) e in
    let first : has_prefix (b ++ (b'/' ∷ x)) (c ++ slashed cs) ≡ true =
      ap (λ t. has_prefix t (c ++ slashed cs)) (sym moved) ∙ h in
    let (same, more) =
      same_component b c x (slashed cs) hb.0.0.1 hc.0.0.1 (slashed-Breaks cs) first in
    let (rest, split) = under bs cs hb.1 hc.1 (ap (λ t. has_prefix t (slashed cs)) e ∙ more) in
    (rest, ap (λ l. c ∷ l) split ∙ ap (λ d. d ∷ (bs ++ rest)) (sym same))

-- A text that ends in another character than a slash.
EndsPlain : Text → Type 0
EndsPlain [] = ⊥
EndsPlain (c ∷ []) = c ≢ b'/'
EndsPlain (c ∷ d ∷ s) = EndsPlain (d ∷ s)

EndsPlain-cons : (c : ℕ) (s : Text) → EndsPlain s → EndsPlain (c ∷ s)
unfolding EndsPlain
EndsPlain-cons c [] h = absurd h
EndsPlain-cons c (d ∷ s) h = h

EndsPlain-append : (s t : Text) → EndsPlain t → EndsPlain (s ++ t)
EndsPlain-append [] t h = h
EndsPlain-append (c ∷ s) t h = EndsPlain-cons c (s ++ t) (EndsPlain-append s t h)

IsPlain-EndsPlain : (s : Text) → IsPlain s → EndsPlain s
unfolding EndsPlain
IsPlain-EndsPlain [] h = h.0 refl
IsPlain-EndsPlain (c ∷ []) h = h.1.0
IsPlain-EndsPlain (c ∷ d ∷ s) h = IsPlain-EndsPlain (d ∷ s) (cc, h.1.1)

slashed-EndsPlain : (c : Text) (cs : List Text) → All IsStep (c ∷ cs) → EndsPlain (slashed (c ∷ cs))
unfolding slashed
slashed-EndsPlain c [] h =
    EndsPlain-cons b'/' (c ++ []) (subst EndsPlain (sym (append-nil c)) (IsPlain-EndsPlain c h.0.0))
slashed-EndsPlain c (d ∷ cs) h =
    EndsPlain-cons b'/' (c ++ slashed (d ∷ cs))
      (EndsPlain-append c (slashed (d ∷ cs)) (slashed-EndsPlain d cs h.1))

trim-EndsPlain : (s : Text) → EndsPlain s → trim_suffix b'/' s ≡ s
unfolding EndsPlain trim_suffix
trim-EndsPlain [] h = refl
trim-EndsPlain (c ∷ []) h = ground arith
trim-EndsPlain (c ∷ d ∷ s) h = ground (arith, trim-EndsPlain (d ∷ s) h)

trimmed_prefix : (bs : List Text) → All IsStep bs → trim_suffix b'/' (rooted_path bs) ≡ slashed bs
unfolding rooted_path
trimmed_prefix [] h = unfold trim_suffix in unfold slashed in refl
trimmed_prefix (b ∷ bs) h = trim-EndsPlain (slashed (b ∷ bs)) (slashed-EndsPlain b bs h)

too_short :
    (b : Text) (bs : List Text)
    → b ≢ []
    → has_prefix (slashed (b ∷ bs) ++ codes "/") (codes "/") ≡ true
    → ⊥
unfolding slashed has_prefix
too_short [] bs ne h = ne refl
too_short (c ∷ b) bs ne h = cc

-- A path from the root that a prefix covers.
covered :
    (bs cs : List Text)
    → All IsStep bs
    → All IsStep cs
    → has_prefix (slashed bs ++ codes "/") (rooted_path cs) ≡ true
    → (rest : List Text) × (cs ≡ bs ++ rest)
unfolding rooted_path
covered bs (c ∷ cs) hb hc h = under bs (c ∷ cs) hb hc h
covered [] [] hb hc h = ([], refl)
covered (b ∷ bs) [] hb hc h = absurd (too_short b bs hb.0.0.0 h)

-- What it means that a clean path lies under one of the prefixes.
pub record IsUnder (prefixes : List Text) (q : Text) : Type 0 where
  pub allowed : Text
  pub is_listed : Memᴰ allowed prefixes
  pub base : List Text
  pub steps : List Text
  pub prefix : clean allowed ≡ rooted_path base
  pub path : q ≡ rooted_path (base ++ steps)
  pub steps_only : All IsStep (base ++ steps)

IsUnder-one :
    (prefixes : List Text) (pre : Text) (cs : List Text)
    → Memᴰ pre prefixes
    → is_abs pre ≡ true
    → All IsStep cs
    → is_under (rooted_path cs) pre ≡ true
    → IsUnder prefixes (rooted_path cs)
unfolding is_under
IsUnder-one prefixes pre cs m abs hc h =
    let bs : List Text = components pre in
    let hb : All IsStep bs = components-IsStep pre abs in
    let e : clean pre ≡ rooted_path bs = clean-rooted pre abs in
    elim (Bool-cases (text_eq (rooted_path cs) (clean pre))) [
      | inl same ↦ record {
        allowed = pre;
        is_listed = m;
        base = bs;
        steps = [];
        prefix = e;
        path = (text_eq_iff _ _).0 same ∙ e ∙ ap rooted_path (sym (append-nil bs));
        steps_only = rw (append-nil bs) hb;
      }
      | inr other ↦
          let second : has_prefix (trim_suffix b'/' (clean pre) ++ codes "/") (rooted_path cs)
              ≡ true =
            ground (arith, other) in
          let inside : has_prefix (slashed bs ++ codes "/") (rooted_path cs) ≡ true =
            sym (
              ap (λ t. has_prefix (t ++ codes "/") (rooted_path cs))
                (ap (trim_suffix b'/') e ∙ trimmed_prefix bs hb))
            ∙ second in
          let (rest, split) = covered bs cs hb hc inside in
          record {
            allowed = pre;
            is_listed = m;
            base = bs;
            steps = rest;
            prefix = e;
            path = ap rooted_path split;
            steps_only = subst (All IsStep) split hc;
          }
    ]

IsUnder-any :
    (prefixes all : List Text) (cs : List Text)
    → ((pre : Text) → Memᴰ pre prefixes → Memᴰ pre all)
    → All (λ pre. is_abs pre ≡ true) prefixes
    → All IsStep cs
    → any (is_under (rooted_path cs)) prefixes ≡ true
    → IsUnder all (rooted_path cs)
IsUnder-any [] all cs sub abs hc h = cc
IsUnder-any (pre ∷ prefixes) all cs sub abs hc h =
    elim (Bool-cases (is_under (rooted_path cs) pre)) [
      | inl here ↦ IsUnder-one all pre cs (sub pre (Memᴰ.head refl)) abs.0 hc here
      | inr other ↦
          IsUnder-any prefixes all cs (λ q m. sub q (Memᴰ.tail m)) abs.1 hc (ground (arith, other))
    ]

-- With absolute prefixes, as a manifest must have them, a path that is allowed is that of a prefix,
-- made clean, followed by names none of which is empty, ".", ".." or holds a slash.
pub allowed_path-IsUnder :
    (p : Text) (prefixes : List Text) (q : Text)
    → All (λ pre. is_abs pre ≡ true) prefixes
    → allowed_path p prefixes ≡ some q
    → IsUnder prefixes q
unfolding allowed_path
allowed_path-IsUnder p prefixes q abs h = elim (Bool-cases (is_abs p)) [
  | inl rooted ↦
      let cs : List Text = components p in
      let e : clean p ≡ rooted_path cs = clean-rooted p rooted in
      elim (Bool-cases (any (is_under (clean p)) prefixes)) [
        | inl found ↦
            let same : rooted_path cs ≡ q = sym e ∙ ground (arith, rooted, found) in
            subst (IsUnder prefixes) same (
              IsUnder-any prefixes prefixes cs (λ pre m. m) abs (components-IsStep p rooted)
                (ap (λ t. any (is_under t) prefixes) (sym e) ∙ found))
        | inr none_found ↦ absurd (ground (arith, rooted))
      ]
  | inr relative ↦ absurd (ground arith)
]

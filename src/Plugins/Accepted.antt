-- ===== src/Plugins/Accepted.antt =====
-- What holds of a manifest that `Validate` accepts (shared/plugin/manifest.go, lines 80-142), and
-- of the paths that its plugin may open.
use beacle.Prelude.{
  ◌≤◌, ◌*◌, second, Text, Map, text_eq, text_eq_iff, text_eq_refl, Bool, true, false, not, ◌&&◌,
  ◌||◌, Bool-cases, List, [], ◌∷◌, ◌++◌, Option, none, some, ◌≡◌, ◌≢◌, ◌==◌, ◌⊎◌, inl, inr, refl,
  subst, ap, sym, arith, All, All-append_left, All-append_right, Unique, is_named, values,
}
use beacle.Prelude.Ints.{ℤ, pos, negsuc, ltb_ℤ, leb_ℤ}
use beacle.Plugins.{MetricDef, ConfigField, Manifest, is_abs, is_wildcard, allowed_path}
use beacle.Plugins.Paths.{IsUnder, allowed_path-IsUnder}
use beacle.Plugins.Checks.{
  is_metric, Invalid, bad_path, bad_key, crit_below_warn, timeout_of, bad_timeout, check, first,
  each, contains, config_field, config_fields, is_zero, levels_ordered, metrics_ok,
  validate_manifest, manifest_timeout,
}

first-none : (a b : Option Invalid) → first a b ≡ none → (a ≡ none) × (b ≡ none)
first-none none b h = (refl, h)
first-none (some e) b h = cc

check-true : (b : Bool) (e : Invalid) → check b e ≡ none → b ≡ true
check-true true e h = refl
check-true false e h = cc

each-none {ℓ} :
    {A : Type ℓ} (p : A → Bool) (e : Invalid) (xs : List A)
    → each (λ x. check (p x) e) xs ≡ none
    → All (λ x. p x ≡ true) xs
each-none p e [] h = tt
each-none p e (x ∷ xs) h =
    let (here, rest) = first-none (check (p x) e) (each (λ y. check (p y) e) xs) h in
    (check-true (p x) e here, each-none p e xs rest)

-- The seven tests behind the first, in turn.
record Passed (m : Manifest) : Type 0 where
  paths : All (λ t. is_abs t ≡ true) (m.permissions.read ++ m.permissions.write)
  timeout : not (ltb_ℤ m.timeout (pos 0) || ltb_ℤ (pos 300) m.timeout) ≡ true
  config : config_fields [] m.config ≡ none
  metrics : metrics_ok m.metrics ≡ none

passed : (m : Manifest) → validate_manifest m ≡ none → Passed m
unfolding validate_manifest
passed m h =
    let (a, h1) = first-none _ _ h in
    let (b, h2) = first-none _ _ h1 in
    let (c, h3) = first-none _ _ h2 in
    let (d, h4) = first-none _ _ h3 in
    let (e, h5) = first-none _ _ h4 in
    let (f, h6) = first-none _ _ h5 in
    let (g, h7) = first-none _ _ h6 in
    let (i, j) = first-none _ _ h7 in
    record {
      paths = each-none is_abs bad_path (m.permissions.read ++ m.permissions.write) c;
      timeout = check-true _ bad_timeout e;
      config = f;
      metrics = j;
    }

later :
    (seen : List Text) (j key : Text) → contains seen key ≡ true → contains (j ∷ seen) key ≡ true
unfolding contains
later seen j key h = ground arith

itself : (seen : List Text) (key : Text) → contains (key ∷ seen) key ≡ true
unfolding contains
itself seen key = rw (text_eq_refl key) refl

old_key :
    (seen : List Text) (j key : Text)
    → j ≡ key
    → contains seen key ≡ true
    → contains seen j ≡ false
    → ⊥
old_key seen j key e h k = cc (ap (contains seen) e)

last_test : (a b c : Bool) → (a && b && not c) ≡ true → c ≡ false
last_test a b c h = ground arith

-- A key that a later setting has is not among those seen.
unseen :
    (seen : List Text) (fs : List ConfigField) (key : Text)
    → contains seen key ≡ true
    → config_fields seen fs ≡ none
    → is_named (λ f. f.key) key fs ≡ false
unfolding config_fields
unseen seen [] key k h = refl
unseen seen (f ∷ fs) key k h =
    let (here, h1) = first-none _ _ h in
    let (kind, rest) = first-none (config_field f) _ h1 in
    let new : contains seen f.key ≡ false =
      last_test (is_metric f.key) (not (is_wildcard f.key)) _ (check-true _ bad_key here) in
    elim (Bool-cases (text_eq f.key key)) [
      | inl same ↦ absurd (old_key seen f.key key ((text_eq_iff f.key key).0 same) k new)
      | inr other ↦ rw other (unseen (f.key ∷ seen) fs key (later seen f.key key k) rest)
    ]

config_fields-Unique :
    (seen : List Text) (fs : List ConfigField)
    → config_fields seen fs ≡ none
    → Unique (λ f. f.key) fs
unfolding config_fields
config_fields-Unique seen [] h = tt
config_fields-Unique seen (f ∷ fs) h =
    let (here, h1) = first-none _ _ h in
    let (kind, rest) = first-none _ _ h1 in
    (
      unseen (f.key ∷ seen) fs f.key (itself seen f.key) rest,
      config_fields-Unique (f.key ∷ seen) fs rest,
    )

-- Where both levels of a metric are set, the critical one is not the lower one.
abbrev pub HasOrder : MetricDef → Type 0
HasOrder d = d.warn ≢ pos 0 → d.crit ≢ pos 0 → leb_ℤ d.warn d.crit ≡ true

is_zero-ne : (z : ℤ) → z ≢ pos 0 → is_zero z ≡ false
unfolding is_zero
is_zero-ne (pos n) h = elim (Bool-cases (n == 0)) [
  | inl e ↦ absurd (h (ap pos (ground (arith, e))))
  | inr e ↦ e
]
is_zero-ne (negsuc n) h = refl

levels_ordered-HasOrder : (d : MetricDef) → levels_ordered d ≡ true → HasOrder d
unfolding levels_ordered
levels_ordered-HasOrder d h w c = ground (arith, is_zero-ne d.warn w, is_zero-ne d.crit c, h)

metrics_ok-HasOrder : (ms : Map MetricDef) → metrics_ok ms ≡ none → All HasOrder (values ms)
unfolding metrics_ok
metrics_ok-HasOrder [] h = tt
metrics_ok-HasOrder ((name, d) ∷ ms) h =
    let (here, h1) = first-none _ _ h in
    let (levels, rest) = first-none _ _ h1 in
    (levels_ordered-HasOrder d (check-true _ crit_below_warn levels), metrics_ok-HasOrder ms rest)

timeout_bounds :
    (t : ℤ)
    → not (ltb_ℤ t (pos 0) || ltb_ℤ (pos 300) t) ≡ true
    → (second ≤ timeout_of t) × (timeout_of t ≤ 300 * second)
unfolding timeout_of
timeout_bounds (pos n) h = ground arith
timeout_bounds (negsuc n) h = omega arith

-- A manifest that is accepted has no two settings with the same key and no metric whose critical
-- level is below its warning level, where both are set; a call of its plugin may run for 1 to 300
-- seconds.
pub accepted_limits :
    (m : Manifest)
    → validate_manifest m ≡ none
    → Unique (λ f. f.key) m.config
      × All HasOrder (values m.metrics)
      × (second ≤ manifest_timeout m)
      × (manifest_timeout m ≤ 300 * second)
unfolding manifest_timeout
accepted_limits m h =
    let p : Passed m = passed m h in
    let (low, high) = timeout_bounds m.timeout p.timeout in
    (config_fields-Unique [] m.config p.config, metrics_ok-HasOrder m.metrics p.metrics, low, high)

-- The plugin of a manifest that is accepted can open for reading, and for writing, only paths under
-- one of the prefixes that the manifest lists for that: the prefix, made clean, followed by names
-- none of which is empty, "." or "..", or holds a slash.
pub accepted_paths :
    (m : Manifest) (prefixes : List Text) (p q : Text)
    → validate_manifest m ≡ none
    → (prefixes ≡ m.permissions.read) ⊎ (prefixes ≡ m.permissions.write)
    → allowed_path p prefixes ≡ some q
    → IsUnder prefixes q
accepted_paths m prefixes p q h which a =
    let paths : All (λ t. is_abs t ≡ true) (m.permissions.read ++ m.permissions.write) =
      (passed m h).paths in
    let absolute : All (λ t. is_abs t ≡ true) prefixes = elim which [
      | inl reads ↦
          subst (All (λ t. is_abs t ≡ true)) (sym reads)
            (All-append_left (λ t. is_abs t ≡ true) m.permissions.read m.permissions.write paths)
      | inr writes ↦
          subst (All (λ t. is_abs t ≡ true)) (sym writes)
            (All-append_right (λ t. is_abs t ≡ true) m.permissions.read m.permissions.write paths)
    ] in
    allowed_path-IsUnder p prefixes q absolute a

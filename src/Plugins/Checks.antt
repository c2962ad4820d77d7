-- ===== src/Plugins/Checks.antt =====
-- The checks of a manifest (`Manifest.Validate`, shared/plugin/manifest.go, lines 71-142). The
-- numbers that JSON gave are taken as they are; a level is a signed number of hundredths.
use beacle.Prelude.{
  ℕ, Text, Map, codes, text_eq, is_empty, is_nil, leb, ltb, ◌==◌, Bool, true, false, not, ◌&&◌,
  ◌||◌, List, [], ◌∷◌, ◌++◌, any, length, Option, none, some, if◌then◌else◌, trim_space,
  trim_suffix, trim_prefix, has_prefix, second, Duration, ◌*◌,
}
use beacle.Prelude.Ints.{ℤ, pos, negsuc, ltb_ℤ}
use beacle.Plugins.{MetricDef, ConfigField, Permissions, Manifest, is_wildcard, is_abs}

-- The errors.
pub data Invalid : Type 0 where
  bad_id no_name bad_path bad_api bad_timeout bad_key bad_type no_options bad_exec bad_host
        bad_metric crit_below_warn :
      Invalid

unfoldable pub every : (ℕ → Bool) → Text → Bool
every p [] = true
every p (c ∷ s) = p c && every p s

is_lower : ℕ → Bool
is_lower c = leb b'a' c && leb c b'z'

is_digit : ℕ → Bool
is_digit c = leb b'0' c && leb c b'9'

-- `^[a-z0-9_-]{1,32}$`
unfoldable pub is_plugin_id : Text → Bool
unfolding every is_lower is_digit
is_plugin_id s =
    leb 1 (length s)
    && leb (length s) 32
    && every (λ c. is_lower c || is_digit c || c == b'_' || c == b'-') s

-- `^[a-z0-9_]{1,32}\*?$`
unfoldable pub is_metric : Text → Bool
unfolding every is_lower is_digit trim_suffix
is_metric s =
    let name : Text = trim_suffix b'*' s in
    leb 1 (length name)
    && leb (length name) 32
    && every (λ c. is_lower c || is_digit c || c == b'_') name

is_api_char : ℕ → Bool
unfolding is_lower is_digit
is_api_char c =
    is_lower c
    || is_digit c
    || (leb b'A' c && leb c b'Z')
    || c == b'_'
    || c == b'.'
    || c == b'/'
    || c == b'*'
    || c == b'{'
    || c == b'}'
    || c == b'-'

methods : List Text
methods =
    codes "* /api/"
    ∷ codes "GET /api/"
    ∷ codes "POST /api/"
    ∷ codes "PUT /api/"
    ∷ codes "PATCH /api/"
    ∷ codes "DELETE /api/"
    ∷ []

has_dots : Text → Bool
unfolding has_prefix
has_dots [] = false
has_dots (c ∷ s) = has_prefix (codes "..") (c ∷ s) || has_dots s

-- `^(\*|GET|POST|PUT|PATCH|DELETE) /api/[A-Za-z0-9_./*{}-]*$`, and no "..".
unfoldable pub is_api : Text → Bool
unfolding methods every is_api_char has_dots has_prefix trim_prefix
is_api a =
    any (λ m. has_prefix m a && every is_api_char (trim_prefix m a)) methods && not (has_dots a)

has_any : Text → Text → Bool
has_any cs s = any (λ c. any (λ d. c == d) cs) s

config_types : List Text
config_types =
    []
    ∷ codes "text"
    ∷ codes "secret"
    ∷ codes "number"
    ∷ codes "bool"
    ∷ codes "url"
    ∷ codes "select"
    ∷ []

unfoldable pub contains : List Text → Text → Bool
unfolding text_eq
contains xs t = any (λ x. text_eq x t) xs

-- One test: its error, where it fails.
abbrev pub check : Bool → Invalid → Option Invalid
check passed e = if passed then none else some e

-- The tests after a test are made only if it passes.
abbrev pub first : Option Invalid → Option Invalid → Option Invalid
first (some e) rest = some e
first none rest = rest

abbrev pub each {ℓ} : {A : Type ℓ} → (A → Option Invalid) → List A → Option Invalid
each f [] = none
each f (x ∷ xs) = first (f x) (each f xs)

unfoldable pub config_field : ConfigField → Option Invalid
unfolding contains config_types text_eq
config_field f =
    first (check (contains config_types f.kind) bad_type)
      (check (not (text_eq f.kind (codes "select") && is_nil f.options)) no_options)

-- The loop over the settings, with the keys seen so far.
unfoldable pub config_fields : List Text → List ConfigField → Option Invalid
unfolding is_metric is_wildcard contains config_field
config_fields seen [] = none
config_fields seen (f ∷ fs) =
    first (check (is_metric f.key && not (is_wildcard f.key) && not (contains seen f.key)) bad_key)
      (first (config_field f) (config_fields (f.key ∷ seen) fs))

unfoldable pub is_program : Text → Bool
unfolding has_any
is_program c = not (is_empty c) && not (has_any (b' ' ∷ 9 ∷ []) c)

unfoldable pub is_host : Text → Bool
unfolding has_any
is_host h = not (is_empty h) && not (has_any (codes "/: ") h)

unfoldable pub is_zero : ℤ → Bool
is_zero (pos n) = n == 0
is_zero (negsuc n) = false

unfoldable pub levels_ordered : MetricDef → Bool
unfolding is_zero
levels_ordered d = is_zero d.warn || is_zero d.crit || not (ltb_ℤ d.crit d.warn)

unfoldable pub metrics_ok : Map MetricDef → Option Invalid
unfolding is_metric levels_ordered
metrics_ok [] = none
metrics_ok ((name, d) ∷ ms) =
    first (check (is_metric name) bad_metric)
      (first (check (levels_ordered d) crit_below_warn) (metrics_ok ms))

abbrev pub max_timeout : ℤ
max_timeout = pos 300

-- `Validate`: `none` accepts the manifest.
unfoldable pub validate_manifest : Manifest → Option Invalid
unfolding is_plugin_id trim_space is_abs is_api config_fields is_program is_host metrics_ok
validate_manifest m =
    let p : Permissions = m.permissions in
    first (check (is_plugin_id m.id) bad_id) (
      first (check (not (is_empty (trim_space m.name) || is_empty (trim_space m.version))) no_name)
        (first (each (λ t. check (is_abs t) bad_path) (p.read ++ p.write)) (
          first (each (λ a. check (is_api a) bad_api) p.api) (
            first (check (not (ltb_ℤ m.timeout (pos 0) || ltb_ℤ max_timeout m.timeout)) bad_timeout)
              (first (config_fields [] m.config) (
                first (each (λ c. check (is_program c) bad_exec) p.exec) (
                  first (each (λ h. check (is_host h) bad_host) p.http)
                    (metrics_ok m.metrics))))))))

-- `CallTimeout`; the constant is that of runtime.go.
abbrev pub call_timeout : Duration
call_timeout = 10 * second

unfoldable pub timeout_of : ℤ → Duration
timeout_of (pos n) = if ltb 0 n then n * second else call_timeout
timeout_of (negsuc n) = call_timeout

unfoldable pub manifest_timeout : Manifest → Duration
unfolding timeout_of
manifest_timeout m = timeout_of m.timeout

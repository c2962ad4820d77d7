-- ===== src/Plugins.antt =====
-- What a plugin may touch, and which of its metrics have levels: the manifest and the path check of
-- shared/plugin (manifest.go; host.go, lines 67-82). A regular expression is written out as a test.
pub mod Paths
pub mod Metrics
pub mod Checks
pub mod Accepted
mod Tests
use beacle.Prelude.{
  ℕ, suc, ◌+◌, ◌≤◌, Text, Map, codes, text_eq, is_empty, ltb, leb, ◌==◌, Bool, true, false, not,
  ◌&&◌, ◌||◌, List, [], ◌∷◌, ◌++◌, any, length, lookup, Option, none, some, if◌then◌else◌,
  trim_space, trim_suffix, has_prefix, fields_by,
}
use mathlib.Core.List.{reverse}
use beacle.Prelude.Ints.{ℤ, pos, ltb_ℤ}

-- `MetricDef`
pub record MetricDef : Type 0 where
  pub label : Text
  pub unit : Text
  pub warn : ℤ
  pub crit : ℤ

-- `ConfigField`, less its default and its help
pub record ConfigField : Type 0 where
  pub key : Text
  pub label : Text
  pub kind : Text
  pub options : List Text

-- `Permissions`
pub record Permissions : Type 0 where
  pub read : List Text
  pub exec : List Text
  pub http : List Text
  pub write : List Text
  pub api : List Text

-- `Manifest`
pub record Manifest : Type 0 where
  pub id : Text
  pub name : Text
  pub version : Text
  pub permissions : Permissions
  pub metrics : Map MetricDef
  pub config : List ConfigField
  pub timeout : ℤ

-- `strings.CutSuffix(k, "*")` finds a suffix.
unfoldable pub is_wildcard : Text → Bool
is_wildcard [] = false
is_wildcard (c ∷ s) = if is_empty s then c == b'*' else is_wildcard s

unfoldable pub covers : Text → Text → Bool
unfolding is_wildcard has_prefix trim_suffix
covers name k = is_wildcard k && has_prefix (trim_suffix b'*' k) name

-- The loop of `LookupMetric` over the map.
unfoldable pub longest : Text → Text → Map MetricDef → Text
unfolding covers
longest name best [] = best
longest name best ((k, d) ∷ defs) =
    longest name (if covers name k && ltb (length best) (length k) then k else best) defs

abbrev no_def : MetricDef
no_def = record { label = []; unit = []; warn = pos 0; crit = pos 0 }

-- `defs[best]`
def_at : Text → Map MetricDef → MetricDef
unfolding lookup
def_at k defs = elim (lookup k defs) [ some d ↦ d | none ↦ no_def ]

-- `LookupMetric`
unfoldable pub lookup_metric : Map MetricDef → Text → Option MetricDef
unfolding longest def_at lookup
lookup_metric defs name = elim (lookup name defs) [
  | some d ↦ some d
  | none ↦
      let best = longest name [] defs in if is_empty best then none else some (def_at best defs)
]

-- `filepath.IsAbs`
unfoldable pub is_abs : Text → Bool
is_abs [] = false
is_abs (c ∷ s) = c == b'/'

-- The components of a path in front of one more, the last one first: "." is dropped, and ".."
-- takes one back, at the root none.
unfoldable pub enter : Bool → List Text → Text → List Text
unfolding text_eq
enter rooted stack c =
    if text_eq c (codes ".")
    then stack
    else if text_eq c (codes "..")
    then elim stack [
      | [] ↦ if rooted then [] else c ∷ []
      | top ∷ rest ↦ if not rooted && text_eq top (codes "..") then c ∷ top ∷ rest else rest
    ]
    else c ∷ stack

unfoldable pub enter_all : Bool → List Text → List Text → List Text
unfolding enter
enter_all rooted stack [] = stack
enter_all rooted stack (c ∷ cs) = enter_all rooted (enter rooted stack c) cs

unfoldable pub components : Text → List Text
unfolding enter_all is_abs fields_by
components p = reverse (enter_all (is_abs p) [] (fields_by (λ c. c == b'/') p))

-- Each component behind a slash.
unfoldable pub slashed : List Text → Text
slashed [] = []
slashed (c ∷ cs) = b'/' ∷ (c ++ slashed cs)

joined : List Text → Text
unfolding slashed
joined [] = codes "."
joined (c ∷ cs) = c ++ slashed cs

-- The path with these components from the root.
unfoldable pub rooted_path : List Text → Text
unfolding slashed
rooted_path [] = codes "/"
rooted_path (c ∷ cs) = slashed (c ∷ cs)

-- `filepath.Clean`
unfoldable pub clean : Text → Text
unfolding joined rooted_path components is_abs
clean p = if is_abs p then rooted_path (components p) else joined (components p)

-- One prefix of `allowedPath`, for a clean path.
unfoldable pub is_under : Text → Text → Bool
unfolding clean text_eq has_prefix trim_suffix
is_under p pre = text_eq p (clean pre) || has_prefix (trim_suffix b'/' (clean pre) ++ codes "/") p

-- `allowedPath`
unfoldable pub allowed_path : Text → List Text → Option Text
unfolding is_abs clean is_under
allowed_path p prefixes =
    let q = clean p in if is_abs p && any (is_under q) prefixes then some q else none

-- ===== src/Caddyfile.antt =====
-- The Caddyfile parser of the agent (agent/caddyfile_parse.go). A file is the list of its code
-- points. The parser never fails: what it cannot read it skips.
pub mod Scanning
pub mod Cutting
pub mod Places
pub mod Moving
pub mod Editing
pub mod Saving
pub mod Saved
pub mod Swap
mod Tests
use beacle.Prelude.{
  ℕ, zero, suc, ◌+◌, ◌-◌, Text, codes, text_eq, is_empty, ltb, leb, ◌==◌, Bool, true, false, not,
  ◌&&◌, ◌||◌, List, [], ◌∷◌, ◌++◌, map, filter, any, take, drop, length, Option, none, some,
  if◌then◌else◌, trim_space, trim_right, trim_suffix, trim_prefix, has_prefix, fields, fields_by,
  lines, unlines, occurrences, before,
}

-- `caddyBlock`
pub record Block : Type 0 where
  pub addresses : List Text
  pub body : Text
  pub raw : Text
  pub start_line : ℕ
  pub end_line : ℕ

-- The loop of `stripComments`, with `inQuote` and the character before.
uncommented : Bool → ℕ → Text → Text
uncommented in_quote previous [] = []
uncommented in_quote previous (c ∷ s) =
    let quote : Bool = c == b'"' && not (previous == b'\\') in
    let rest = uncommented (if quote then not in_quote else in_quote) c s in
    if c == b'#' && not in_quote then [] else c ∷ rest

unfoldable pub strip_comments : Text → Text
unfolding uncommented
strip_comments line = uncommented false 0 line

-- What `parseCaddyfile` and the readers of a body look at in a line.
unfoldable pub code_of : Text → Text
unfolding strip_comments trim_space
code_of line = trim_space (strip_comments line)

unfoldable pub split_addresses : Text → List Text
unfolding fields_by trim_space
split_addresses addr =
    filter (λ p. not (is_empty p))
      (map trim_space (fields_by (λ c. c == b',' || c == b' ' || c == 9) addr))

-- The variables of the loop of `parseCaddyfile`.
pub record Scan : Type 0 where
  pub header : List Text
  pub body : List Text
  pub raw : List Text
  pub depth : ℕ
  pub start : ℕ

abbrev pub scan_start : Scan
scan_start = record { header = []; body = []; raw = []; depth = 0; start = 0 }

unfoldable pub opens : Text → ℕ
unfolding occurrences
opens code = occurrences b'{' code

unfoldable pub closes : Text → ℕ
unfolding occurrences
closes code = occurrences b'}' code

unfoldable pub opened : ℕ → Text → Text → Scan
unfolding opens closes split_addresses trim_space before
opened i line code = record {
  header = split_addresses (trim_space (before b'{' code));
  body = [];
  raw = line ∷ [];
  depth = opens code - closes code;
  start = i;
}

-- A line outside of any block.
unfoldable pub outside : ℕ → Text → Text → Scan → Scan
unfolding opened opens closes
outside i line code s =
    if is_empty code then s else if ltb (closes code) (opens code) then opened i line code else s

unfoldable pub closed : ℕ → Text → Scan → Block
closed i line s = record {
  addresses = s.header;
  body = unlines s.body;
  raw = unlines (s.raw ++ (line ∷ []));
  start_line = s.start;
  end_line = i;
}

-- A line inside a block. The depth in the source is signed, and tested for being at most 0.
unfoldable pub inside : ℕ → Text → Text → Scan → Option Block × Scan
unfolding opens closes closed
inside i line code s =
    let deeper : ℕ = s.depth + opens code - closes code in
    if deeper == 0
    then (some (closed i line s), record s { header = []; body = []; raw = []; depth = 0 })
    else (
      none,
      record s { body = s.body ++ (line ∷ []); raw = s.raw ++ (line ∷ []); depth = deeper },
    )

-- One round: the block that the line ends, if it ends one, and the variables after it.
unfoldable pub scan_line : ℕ → Text → Scan → Option Block × Scan
unfolding outside inside code_of
scan_line i line s =
    if s.depth == 0 then (none, outside i line (code_of line) s) else inside i line (code_of line) s

unfoldable pub emit : Option Block → List Block → List Block
emit none bs = bs
emit (some b) bs = b ∷ bs

unfoldable pub scan : ℕ → List Text → Scan → List Block
unfolding scan_line emit
scan i [] s = []
scan i (line ∷ ls) s = let (found, next) = scan_line i line s in emit found (scan (suc i) ls next)

-- `parseCaddyfile`
unfoldable pub parse : Text → List Block
unfolding scan lines
parse src = scan 0 (lines src) scan_start

is_newline : ℕ → Bool
is_newline c = c == 13 || c == 10

-- `strings.TrimRight(raw, "\r\n")`
unfoldable pub trim_newlines : Text → Text
unfolding is_newline trim_right
trim_newlines raw = trim_right is_newline raw

-- `replaceBlock`: `none` is its error.
unfoldable pub replace_block : Text → Block → Text → Option Text
unfolding lines unlines trim_newlines
replace_block src b raw =
    let all : List Text = lines src in
    if ltb b.end_line b.start_line || leb (length all) b.end_line
    then none
    else some (
        unlines (take b.start_line all ++ (lines (trim_newlines raw) ++ drop (suc b.end_line) all)))

unfoldable pub bare_host : Text → Text
unfolding trim_prefix
bare_host addr = trim_prefix (codes "http://") (trim_prefix (codes "https://") addr)

-- The words of the lines of a body.
unfoldable pub directives : Text → List (List Text)
unfolding lines fields code_of
directives body = map (λ line. fields (code_of line)) (lines body)

-- The loop of `directiveArg`.
first_arg : Text → List (List Text) → Text
unfolding trim_suffix text_eq
first_arg directive [] = []
first_arg directive ((name ∷ arg ∷ more) ∷ ls) =
    if text_eq name directive && not (text_eq arg (codes "{"))
    then trim_suffix b'{' arg
    else first_arg directive ls
first_arg directive (_ ∷ ls) = first_arg directive ls

unfoldable pub directive_arg : Text → Text → Text
unfolding first_arg directives
directive_arg body directive = first_arg directive (directives body)

abbrev names : Text → List Text → Bool
names directive [] = false
names directive (name ∷ more) = text_eq (trim_suffix b'{' name) directive

unfoldable pub has_directive : Text → Text → Bool
unfolding directives trim_suffix text_eq
has_directive body directive = any (names directive) (directives body)

-- `caddySiteKind`
pub data Kind : Type 0 where
  proxy static mixed other : Kind

unfoldable pub classify : Text → Kind
unfolding has_directive
classify body =
    let proxied : Bool = has_directive body (codes "reverse_proxy") in
    let files : Bool =
      has_directive body (codes "file_server") || has_directive body (codes "root") in
    if proxied && files then mixed else if proxied then proxy else if files then static else other

-- The directives that the form does not model.
abbrev unsupported : List Text
unsupported = map codes (
    "handle" ∷ "handle_path" ∷ "route" ∷ "try_files" ∷ "file_server" ∷ "root" ∷ "rewrite" ∷ "redir"
    ∷ "php_fastcgi" ∷ "templates" ∷ "respond" ∷ "map" ∷ "forward_auth" ∷ "reverse_proxy_to"
    ∷ "import" ∷ "uri" ∷ "vars" ∷ [])

-- A line of the body that the form can write.
unfoldable pub is_supported : Text → Bool
unfolding has_prefix trim_suffix fields text_eq
is_supported code = elim (fields code) [
  | [] ↦ true
  | name ∷ more ↦
      not (has_prefix (codes "@") code)
      && not (any (λ u. text_eq (trim_suffix b'{' name) u) unsupported)
]

is_proxy : Kind → Bool
is_proxy proxy = true
is_proxy _ = false

is_single : List Text → Bool
is_single (a ∷ []) = true
is_single _ = false

all_supported : List Text → Bool
unfolding is_supported code_of
all_supported [] = true
all_supported (line ∷ ls) = is_supported (code_of line) && all_supported ls

unfoldable pub editable_by_form : Block → Bool
unfolding is_proxy is_single all_supported classify lines
editable_by_form b =
    is_single b.addresses && is_proxy (classify b.body) && all_supported (lines b.body)

-- `tlsMode`
unfoldable pub tls_mode : Block → Text
unfolding directive_arg has_prefix text_eq
tls_mode b =
    let arg = directive_arg b.body (codes "tls") in
    if text_eq arg (codes "internal")
    then codes "internal"
    else if not (is_empty arg)
    then codes "custom"
    else elim b.addresses [
      | [] ↦ codes "auto"
      | first ∷ more ↦ if has_prefix (codes "http://") first then codes "none" else codes "auto"
    ]

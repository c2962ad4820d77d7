-- ===== src/Caddyfile/Saving.antt =====
-- A block of the main Caddyfile is replaced by hand-written text (`UpdateSiteRaw`,
-- `updateCaddyfileRaw` and `writeChecked`, agent/proxy_caddy.go, lines 657-718 and 754-785). The
-- disk, and Caddy, which checks and loads a configuration, are parameters. What the call reports
-- back of a saved site is left out.
use beacle.Prelude.{
  Text, is_empty, Bool, true, false, not, List, [], ◌∷◌, Option, none, some, if◌then◌else◌,
  trim_space,
}
use beacle.Caddyfile.{Block, parse, replace_block, bare_host}

-- What the operating system and Caddy answer. `torn` is what a file holds after a write that
-- failed; `same_host` is `strings.EqualFold`.
pub record Around : Type 0 where
  pub reads : Bool
  pub writes : Text → Bool
  pub torn : Option Text → Text → Option Text
  pub removes : Bool
  pub backs_up : Bool
  pub valid : Option Text → Bool
  pub loads : Option Text → Bool
  pub same_host : Text → Text → Bool

-- How a call ends: the errors of the source, and `saved`.
pub data Outcome : Type 0 where
  saved empty no_block unreadable gone moved write_failed rejected not_reloaded : Outcome

-- The file, its `.bak` copy, the configuration that Caddy runs, and `lastError`.
pub record Files : Type 0 where
  pub file : Option Text
  pub bak : Option Text
  pub running : Option Text
  pub last_error : Option Outcome

-- `Reload`: whether it worked.
unfoldable pub reload : Around → Files → Bool × Files
reload net d = if net.loads d.file then (true, record d { running = d.file }) else (false, d)

-- `os.WriteFile`
unfoldable pub write_file : Around → Text → Files → Bool × Files
write_file net content d =
    if net.writes content
    then (true, record d { file = some content })
    else (false, record d { file = net.torn d.file content })

-- `restore`, whose errors are ignored.
unfoldable pub restore : Around → Option Text → Files → Files
unfolding write_file
restore net (some prev) d = (write_file net prev d).1
restore net none d = if net.removes then record d { file = none } else d

-- The `.bak` copy; an error is ignored.
unfoldable pub back_up : Around → Option Text → Files → Files
back_up net none d = d
back_up net (some prev) d = if net.backs_up then record d { bak = some prev } else d

unfoldable pub previous : Around → Files → Option Text
previous net d = if net.reads then d.file else none

unfoldable pub write_checked : Around → Text → Files → Outcome × Files
unfolding previous write_file restore back_up reload
write_checked net content d =
    let prev : Option Text = previous net d in
    let (written, d1) = write_file net content d in
    let (loaded, d2) = reload net d1 in
    if not written
    then (write_failed, d1)
    else if not (net.valid d1.file)
    then (rejected, restore net prev d1)
    else if not loaded
    then (not_reloaded, (reload net (restore net prev d2)).1)
    else (saved, back_up net prev d2)

-- The loop that looks for the block of a domain.
unfoldable pub serves : Around → Text → Block → Bool
unfolding bare_host
serves net domain b = elim b.addresses [
  | [] ↦ false
  | first ∷ more ↦ net.same_host (bare_host first) domain
]

unfoldable pub find_block : Around → Text → List Block → Option Block
unfolding serves
find_block net domain [] = none
find_block net domain (b ∷ bs) = if serves net domain b then some b else find_block net domain bs

-- The write, and `lastError` after it.
unfoldable pub noted : Outcome × Files → Outcome × Files
noted (saved, d) = (saved, record d { last_error = none })
noted (o, d) = (o, record d { last_error = some o })

unfoldable pub update_caddyfile_raw : Around → Text → Text → Files → Outcome × Files
unfolding parse find_block replace_block write_checked noted
update_caddyfile_raw net domain raw d = elim (if net.reads then d.file else none) [
  | none ↦ (unreadable, d)
  | some src ↦ elim (find_block net domain (parse src)) [
    | none ↦ (gone, d)
    | some target ↦ elim (replace_block src target raw) [
      | none ↦ (moved, d)
      | some next ↦ noted (write_checked net next d)
    ]
  ]
]

-- The first block of the new text must be that of a site.
has_site : List Block → Bool
has_site [] = false
has_site (b ∷ bs) = elim b.addresses [ [] ↦ false | first ∷ more ↦ true ]

-- `UpdateSiteRaw`, for a site of the main Caddyfile.
unfoldable pub update_site_raw : Around → Text → Text → Files → Outcome × Files
unfolding trim_space parse has_site update_caddyfile_raw
update_site_raw net domain raw d =
    let text : Text = trim_space raw in
    if is_empty text
    then (empty, d)
    else if not (has_site (parse text))
    then (no_block, d)
    else update_caddyfile_raw net domain text d

-- ===== src/Caddyfile/Tests.antt =====
-- Runs of the parser on small files.
use beacle.Prelude.{
  ◌≡◌, ◌≢◌, refl, codes, ◌++◌, ◌∷◌, [], Text, true, false, some, none, unlines, map, List, ℕ, All,
  text_eq, trim_space,
}
use beacle.Caddyfile.{parse, Block, replace_block, directive_arg, trim_newlines}
use beacle.Caddyfile.Scanning.{after}
use beacle.Caddyfile.Moving.{content}
use beacle.Caddyfile.Editing.{IsComplete, replace_block-own}
use beacle.Caddyfile.Saving.{
  Around, Files, saved, moved, serves, write_checked, update_caddyfile_raw, update_site_raw,
}
use beacle.Caddyfile.Swap.{Swap, write_checked-Swap}
use beacle.Caddyfile.Saved.{update_site_raw-keeps_others, update_caddyfile_raw-ne-moved}

-- A site, a comment, and a second site.
abbrev two_sites : Text
two_sites = unlines (
    codes "a.com, www.a.com {"
    ∷ codes "\treverse_proxy localhost:80 # main"
    ∷ codes "}"
    ∷ codes "# note"
    ∷ codes "b.org {"
    ∷ codes " root * /srv"
    ∷ codes " handle {"
    ∷ codes " }"
    ∷ codes "}"
    ∷ [])

places : List Block → List (ℕ × ℕ)
places bs = map (λ b. (b.start_line, b.end_line)) bs

found_places : places (parse two_sites) ≡ (0, 2) ∷ (4, 8) ∷ []
unfolding parse places unlines
found_places = refl

www :
    map (λ b. b.addresses) (parse two_sites)
    ≡ (codes "a.com" ∷ codes "www.a.com" ∷ []) ∷ (codes "b.org" ∷ []) ∷ []
unfolding parse unlines
www = refl

proxy_arg :
    map (λ b. directive_arg b.body (codes "reverse_proxy")) (parse two_sites)
    ≡ codes "localhost:80" ∷ [] ∷ []
unfolding parse unlines directive_arg
proxy_arg = refl

-- A quoted brace counts: this block never ends.
quoted_brace : parse (unlines (codes "a.com {" ∷ codes "respond \"{\"" ∷ codes "}" ∷ [])) ≡ []
unfolding parse unlines
quoted_brace = refl

abbrev first_site : Block
first_site = record {
  addresses = codes "a.com" ∷ codes "www.a.com" ∷ [];
  body = codes "\treverse_proxy localhost:80 # main";
  raw =
      unlines
        (codes "a.com, www.a.com {" ∷ codes "\treverse_proxy localhost:80 # main" ∷ codes "}" ∷ []);
  start_line = 0;
  end_line = 2;
}

abbrev second_site : Block
second_site = record {
  addresses = codes "b.org" ∷ [];
  body = unlines (codes " root * /srv" ∷ codes " handle {" ∷ codes " }" ∷ []);
  raw =
      unlines
        (codes "b.org {" ∷ codes " root * /srv" ∷ codes " handle {" ∷ codes " }" ∷ codes "}" ∷ []);
  start_line = 4;
  end_line = 8;
}

two_sites_blocks : parse two_sites ≡ first_site ∷ second_site ∷ []
unfolding parse unlines
two_sites_blocks = refl

abbrev static_site : Text
static_site = unlines (codes "c.net {" ∷ codes " file_server" ∷ codes "}" ∷ [])

static_site-IsComplete : IsComplete static_site
unfolding parse after trim_newlines unlines
static_site-IsComplete = refl

trimmed_second : trim_newlines second_site.raw ≡ second_site.raw
unfolding trim_newlines unlines
trimmed_second = refl

replace_block-own_example : replace_block two_sites second_site second_site.raw ≡ some two_sites
replace_block-own_example =
    replace_block-own two_sites (first_site ∷ []) second_site [] two_sites_blocks trimmed_second

-- Files can be written, and Caddy takes every configuration.
abbrev willing : Around
willing = record {
  reads = true;
  writes = λ t. true;
  torn = λ before t. before;
  removes = true;
  backs_up = true;
  valid = λ c. true;
  loads = λ c. true;
  same_host = text_eq;
}

abbrev disk : Files
disk = record { file = some two_sites; bak = none; running = some two_sites; last_error = none }

write_checked-Swap_example :
    Swap static_site disk
      (write_checked willing static_site disk).0
      (write_checked willing static_site disk).1
write_checked-Swap_example =
    write_checked-Swap willing static_site disk refl (λ t. refl) refl refl refl

abbrev edited_sites : Text
edited_sites = unlines (
    codes "a.com, www.a.com {"
    ∷ codes "\treverse_proxy localhost:80 # main"
    ∷ codes "}"
    ∷ codes "# note"
    ∷ codes "c.net {"
    ∷ codes " file_server"
    ∷ codes "}"
    ∷ [])

abbrev edited_disk : Files
edited_disk = record {
  file = some edited_sites;
  bak = some two_sites;
  running = some edited_sites;
  last_error = none;
}

update_saves : update_site_raw willing (codes "b.org") static_site disk ≡ (saved, edited_disk)
unfolding update_site_raw unlines text_eq
update_saves = refl

trimmed_static-IsComplete : IsComplete (trim_space static_site)
unfolding parse after trim_newlines unlines trim_space
trimmed_static-IsComplete = refl

update_site_raw-keeps_others_example :
    (src : Text) × (pre : List Block) × (b : Block) × (post : List Block) × (next : Text)
    × (disk.file ≡ some src)
    × (parse src ≡ pre ++ (b ∷ post))
    × (serves willing (codes "b.org") b ≡ true)
    × All (λ c. serves willing (codes "b.org") c ≡ false) pre
    × (edited_disk.file ≡ some next)
    × (edited_disk.running ≡ some next)
    × (map content (parse next)
        ≡ map content pre
          ++ (map content (parse (trim_newlines (trim_space static_site))) ++ map content post))
update_site_raw-keeps_others_example =
    update_site_raw-keeps_others willing (codes "b.org") static_site disk edited_disk update_saves
      trimmed_static-IsComplete

update_caddyfile_raw-ne-moved_example :
    (update_caddyfile_raw willing (codes "b.org") static_site disk).0 ≢ moved
update_caddyfile_raw-ne-moved_example =
    update_caddyfile_raw-ne-moved willing (codes "b.org") static_site disk

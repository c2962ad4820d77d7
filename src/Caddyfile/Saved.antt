-- ===== src/Caddyfile/Saved.antt =====
-- What a save by hand leaves behind (agent/proxy_caddy.go, lines 657-718).
use beacle.Prelude.{
  Text, true, false, List, [], ◌∷◌, ◌++◌, map, Option, none, some, ◌≡◌, ◌≢◌, inl, inr, refl, subst,
  ap, ◌∙◌, arith, All, Bool-cases, Option-cases, if◌then◌else◌, trim_space,
}
use beacle.Caddyfile.{Block, parse, replace_block, trim_newlines}
use beacle.Caddyfile.Moving.{content}
use beacle.Caddyfile.Editing.{IsComplete, replaces, replace_block-keeps_others}
use beacle.Caddyfile.Saving.{
  Around, Outcome, Files, saved, unreadable, gone, moved, reload, write_file, back_up, previous,
  write_checked, serves, find_block, noted, update_caddyfile_raw, update_site_raw,
}
use beacle.Caddyfile.Swap.{backed_up}

-- The search finds the first block of the domain.
find_block-first :
    (net : Around) (domain : Text) (bs : List Block) (b : Block)
    → find_block net domain bs ≡ some b
    → (pre : List Block) × (post : List Block) × (bs ≡ pre ++ (b ∷ post))
      × (serves net domain b ≡ true)
      × All (λ c. serves net domain c ≡ false) pre
unfolding find_block
find_block-first net domain [] b h = cc
find_block-first net domain (c ∷ bs) b h = elim (Bool-cases (serves net domain c)) [
  | inl yes_c ↦ ([], bs, ground arith, ground arith, tt)
  | inr no_c ↦
      let (pre, post, split, here, before) = find_block-first net domain bs b (ground arith) in
      (c ∷ pre, post, ap (◌∷◌ c) split, here, (no_c, before))
]

-- A write that is reported as saved has put the text in the file, and Caddy runs it.
write_checked-saved :
    (net : Around) (content : Text) (d : Files)
    → (write_checked net content d).0 ≡ saved
    → ((write_checked net content d).1.file ≡ some content)
      × ((write_checked net content d).1.running ≡ some content)
unfolding write_checked write_file reload
write_checked-saved net content d h = elim (Bool-cases (net.writes content)) [
  | inl w ↦ elim (Bool-cases (net.valid (some content))) [
    | inl v ↦ elim (Bool-cases (net.loads (some content))) [
      | inl l ↦
          let r : (write_checked net content d) ≡ (
            saved,
            back_up net (previous net d) (record d { file = some content; running = some content }),
          ) =
            ground (arith) in
          rw r (
            backed_up net (previous net d)
              (record d { file = some content; running = some content }))
      | inr l ↦ absurd (ground arith)
    ]
    | inr v ↦ absurd (ground arith)
  ]
  | inr w ↦ absurd (ground arith)
]

noted-saved :
    (r : Outcome × Files) (d' : Files)
    → noted r ≡ (saved, d')
    → (r.0 ≡ saved) × (d'.file ≡ r.1.file) × (d'.running ≡ r.1.running)
unfolding noted
noted-saved (saved, d) d' h = ground arith
noted-saved (_, d) d' h = ground arith

module _ (net : Around) (domain : Text) (d d' : Files) where
  record Save (text : Text) : Type 0 where
    src : Text
    target : Block
    next : Text
    read : d.file ≡ some src
    found : find_block net domain (parse src) ≡ some target
    replaced : replace_block src target text ≡ some next
    file : d'.file ≡ some next
    running : d'.running ≡ some next

  saved_block :
      (text src : Text) (target : Block)
      → d.file ≡ some src
      → find_block net domain (parse src) ≡ some target
      → (o : Option Text) → replace_block src target text ≡ o
      → (elim o as (λ q. Outcome × Files) [
        | none ↦ (moved, d)
        | some next ↦ noted (write_checked net next d)
      ])
        ≡ (saved, d')
      → Save text
  saved_block text src target r f none e h = cc
  saved_block text src target r f (some next) e h =
      let n : ((write_checked net next d).0 ≡ saved)
          × (d'.file ≡ (write_checked net next d).1.file)
          × (d'.running ≡ (write_checked net next d).1.running) =
        noted-saved (write_checked net next d) d' h in
      let w : ((write_checked net next d).1.file ≡ some next)
          × ((write_checked net next d).1.running ≡ some next) =
        write_checked-saved net next d n.0 in
      record {
        src = src;
        target = target;
        next = next;
        read = r;
        found = f;
        replaced = e;
        file = n.1 ∙ w.0;
        running = n.2 ∙ w.1;
      }

  saved_target :
      (text src : Text)
      → d.file ≡ some src
      → (o : Option Block) → find_block net domain (parse src) ≡ o
      → (elim o as (λ q. Outcome × Files) [
        | none ↦ (gone, d)
        | some target ↦ elim (replace_block src target text) [
          | none ↦ (moved, d)
          | some next ↦ noted (write_checked net next d)
        ]
      ])
        ≡ (saved, d')
      → Save text
  saved_target text src r none e h = cc
  saved_target text src r (some target) e h = saved_block text src target r e _ refl h

  saved_source :
      (text : Text) (o : Option Text)
      → (if net.reads then d.file else none) ≡ o
      → (elim o as (λ q. Outcome × Files) [
        | none ↦ (unreadable, d)
        | some src ↦ elim (find_block net domain (parse src)) [
          | none ↦ (gone, d)
          | some target ↦ elim (replace_block src target text) [
            | none ↦ (moved, d)
            | some next ↦ noted (write_checked net next d)
          ]
        ]
      ])
        ≡ (saved, d')
      → Save text
  saved_source text none e h = cc
  saved_source text (some src) e h = saved_target text src (ground arith) _ refl h

  saved_file : (text : Text) → update_caddyfile_raw net domain text d ≡ (saved, d') → Save text
  unfolding update_caddyfile_raw
  saved_file text h = saved_source text _ refl h

  saved_site :
      (raw : Text)
      → update_site_raw net domain raw d ≡ (saved, d')
      → update_caddyfile_raw net domain (trim_space raw) d ≡ (saved, d')
  unfolding update_site_raw
  saved_site raw h = ground arith

-- Where a save of hand-written text succeeds, and that text ends every block that it begins, the
-- file and the configuration that Caddy runs are the same text; it has the sites that the file had
-- before and after the first block of the domain, as they were, and between them those of the new
-- text.
pub update_site_raw-keeps_others :
    (net : Around) (domain raw : Text) (d d' : Files)
    → update_site_raw net domain raw d ≡ (saved, d')
    → IsComplete (trim_space raw)
    → (src : Text) × (pre : List Block) × (b : Block) × (post : List Block) × (next : Text)
      × (d.file ≡ some src)
      × (parse src ≡ pre ++ (b ∷ post))
      × (serves net domain b ≡ true)
      × All (λ c. serves net domain c ≡ false) pre
      × (d'.file ≡ some next)
      × (d'.running ≡ some next)
      × (map content (parse next)
          ≡ map content pre
            ++ (map content (parse (trim_newlines (trim_space raw))) ++ map content post))
update_site_raw-keeps_others net domain raw d d' h complete =
    let s : Save net domain d d' (trim_space raw) =
      saved_file net domain d d' (trim_space raw) (saved_site net domain d d' raw h) in
    let (pre, post, split, here, before) =
      find_block-first net domain (parse s.src) s.target s.found in
    let (next, replaced, sites) =
      replace_block-keeps_others s.src (trim_space raw) pre s.target post split complete in
    let same : next ≡ s.next = cc (replaced, s.replaced) in
    (
      s.src,
      pre,
      s.target,
      post,
      s.next,
      s.read,
      split,
      here,
      before,
      s.file,
      s.running,
      subst
          (λ t.
            map content (parse t)
            ≡ map content pre
              ++ (map content (parse (trim_newlines (trim_space raw))) ++ map content post))
          same sites,
    )

write_checked-ne-moved :
    (net : Around) (content : Text) (d : Files) → (noted (write_checked net content d)).0 ≢ moved
unfolding write_checked noted
write_checked-ne-moved net content d h = elim (Bool-cases (write_file net content d).0) [
  | inl w ↦ elim (Bool-cases (net.valid (write_file net content d).1.file)) [
    | inl v ↦ elim (Bool-cases (reload net (write_file net content d).1).0) [
      | inl l ↦ ground arith
      | inr l ↦ ground arith
    ]
    | inr v ↦ ground arith
  ]
  | inr w ↦ ground arith
]

-- The error that a block is no longer where it was parsed from never comes up: the file is read
-- and parsed in the same call.
pub update_caddyfile_raw-ne-moved :
    (net : Around) (domain raw : Text) (d : Files)
    → (update_caddyfile_raw net domain raw d).0 ≢ moved
unfolding update_caddyfile_raw
update_caddyfile_raw-ne-moved net domain raw d h =
    elim (Option-cases (if net.reads then d.file else none)) [
      | inl e ↦ cc
      | inr (src, e) ↦ elim (Option-cases (find_block net domain (parse src))) [
        | inl f ↦ cc
        | inr (b, f) ↦
            let (pre, post, split, here, before) = find_block-first net domain (parse src) b f in
            let (next, r) = replaces src raw pre b post split in
            write_checked-ne-moved net next d (ground (arith, e, f, r))
      ]
    ]

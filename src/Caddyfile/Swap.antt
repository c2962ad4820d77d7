-- ===== src/Caddyfile/Swap.antt =====
-- A save is all or nothing (`writeChecked`, agent/proxy_caddy.go, lines 754-785).
use beacle.Prelude.{
  Text, true, false, Option, none, some, ◌≡◌, ◌≢◌, inl, inr, refl, ◌∙◌, arith, Bool-cases,
}
use beacle.Caddyfile.Saving.{
  Around, Outcome, Files, saved, rejected, not_reloaded, reload, write_file, restore, back_up,
  previous, write_checked,
}

pub backed_up :
    (net : Around) (o : Option Text) (e : Files)
    → ((back_up net o e).file ≡ e.file) × ((back_up net o e).running ≡ e.running)
unfolding back_up
backed_up net none e = (refl, refl)
backed_up net (some t) e = ground arith

-- What a save promises: all of the new text, or nothing.
pub data Swap (content : Text) (d : Files) : Outcome → Files → Type 0 where
  swapped :
      (d' : Files) → d'.file ≡ some content → d'.running ≡ some content → Swap content d saved d'
  kept :
      (o : Outcome) (d' : Files)
      → o ≢ saved
      → d'.file ≡ d.file
      → d'.running ≡ d.file
      → d'.bak ≡ d.bak
      → Swap content d o d'

module _ (net : Around) (content : Text) (d : Files) (reads : net.reads ≡ true)
    (writes : (t : Text) → net.writes t ≡ true) (removes : net.removes ≡ true)
    (loads : net.loads d.file ≡ true) (current : d.running ≡ d.file) where
  restored : (o : Option Text) (e : Files) → (restore net o e).file ≡ o
  unfolding restore
  restored none e = ground (arith, removes)
  restored (some t) e = ground (arith, writes t)

  restored-rest :
      (o : Option Text) (e : Files)
      → ((restore net o e).running ≡ e.running) × ((restore net o e).bak ≡ e.bak)
  unfolding restore write_file
  restored-rest none e = ground (arith, removes)
  restored-rest (some t) e = ground (arith, writes t)

  abbrev filled : Files
  filled = record d { file = some content }

  on_rejected :
      net.valid (some content) ≡ false
      → write_checked net content d ≡ (rejected, restore net d.file filled)
  unfolding write_checked write_file previous
  on_rejected v = ground (arith, reads, writes content)

  on_failed :
      net.valid (some content) ≡ true
      → net.loads (some content) ≡ false
      → write_checked net content d ≡ (not_reloaded, (reload net (restore net d.file filled)).1)
  unfolding write_checked write_file previous reload
  on_failed v l = ground (arith, reads, writes content)

  on_saved :
      net.valid (some content) ≡ true
      → net.loads (some content) ≡ true
      → write_checked net content d
        ≡ (saved, back_up net d.file (record filled { running = some content }))
  unfolding write_checked write_file previous reload
  on_saved v l = ground (arith, reads, writes content)

  reloaded-kept :
      (e : Files)
      → e.file ≡ d.file
      → ((reload net e).1.file ≡ d.file)
        × ((reload net e).1.running ≡ d.file)
        × ((reload net e).1.bak ≡ e.bak)
  unfolding reload
  reloaded-kept e f = rw (f, loads) (refl, refl, refl)

  -- Where files can be read, written and removed, and Caddy runs the configuration that the file
  -- holds and can load it again, a save swaps the file and what Caddy runs for the new text, or
  -- leaves the file, its copy and what Caddy runs as they were and reports an error.
  pub write_checked-Swap :
      Swap content d (write_checked net content d).0 (write_checked net content d).1
  write_checked-Swap =
      let back : Files = restore net d.file filled in
      elim (Bool-cases (net.valid (some content))) [
        | inl v ↦ elim (Bool-cases (net.loads (some content))) [
          | inl l ↦
              rw (on_saved v l) (swapped _ (backed_up net d.file _).0 (backed_up net d.file _).1)
          | inr l ↦
              let k : ((reload net back).1.file ≡ d.file)
                  × ((reload net back).1.running ≡ d.file)
                  × ((reload net back).1.bak ≡ back.bak) =
                reloaded-kept back (restored d.file filled) in
              rw (on_failed v l)
                (kept not_reloaded _ (cc) k.0 k.1 (k.2 ∙ (restored-rest d.file filled).1))
        ]
        | inr v ↦ rw (on_rejected v) (
            kept rejected _ (cc) (restored d.file filled)
              ((restored-rest d.file filled).0 ∙ current) (restored-rest d.file filled).1)
      ]

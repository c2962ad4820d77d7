-- ===== src/Merge/Tests.antt =====
-- Frames of a server that is known, of one that is rebooting and of one that was deleted.
use beacle.Prelude.{◌*◌, codes, lookup, insert, true, [], ◌∷◌, some, refl, arith, has, text_eq, ◌≡◌}
use beacle.Prelude.Ints.{pos, negsuc}
use beacle.Models.{high_load, pending}
use beacle.Registry.Invariant.{IsValid}
use beacle.Alerts.{Snapshot}
use beacle.Alerts.Evaluate.{day}
use beacle.Alerts.Tracking.{IsTracked}
use beacle.Alerts.Samples.{engine, entry, store, ids, dates, hot, engine-IsTracked}
use beacle.History.{History, series}
use beacle.History.Invariant.{HistoryIsValid}
use beacle.Merge.{World, merge_snapshot, worst_disk, mounts_of, status_of, frame_entry}
use beacle.Merge.Agree.{IsShown, merge_snapshot-IsShown}
use beacle.Merge.Keeps.{RecordIsValid, merge_snapshot-IsValid}

abbrev blank : History
blank = record { samples = []; last_at = []; files = []; writable = true }

abbrev backend : World
backend = record { engine = engine; history = some blank; updates = [] }

-- A frame with the numbers of `hot`.
abbrev metrics : Snapshot → Snapshot
metrics old = record hot { vps = old.vps }

backend-IsValid : IsValid store.state
unfolding has lookup text_eq
backend-IsValid = record {
  servers_distinct = (refl, tt);
  servers_filed = (refl, tt);
  links_distinct = tt;
  links_filed = tt;
  alerts_bounded = omega arith;
  actions_bounded = omega arith;
}

blank-IsValid : HistoryIsValid blank
unfolding lookup series
blank-IsValid = record {
  distinct = tt;
  valid = λ v. record { ascending = tt; bounded = omega arith; covered = refl };
}

busiest :
    worst_disk (pos 0) (
      record { mount = codes "/"; used_percent = pos 4567 }
      ∷ record { mount = codes "/d"; used_percent = pos 123 }
      ∷ [])
    ≡ pos 4567
unfolding worst_disk
busiest = refl

rounded :
    mounts_of [] (
      record { mount = codes "/"; used_percent = pos 4565 }
      ∷ record { mount = codes "/d"; used_percent = negsuc 13 }
      ∷ [])
    ≡ (codes "/", pos 4570) ∷ (codes "/d", negsuc 9) ∷ []
unfolding mounts_of insert text_eq
rounded = refl

busy : status_of hot ≡ high_load
unfolding status_of
busy = refl

still_pending :
    (frame_entry day [] high_load
      (record entry { vps = record (entry.vps) { status = pending } })).vps.status
    ≡ pending
unfolding frame_entry
still_pending = refl

merge_snapshot-IsShown_example :
    IsShown
      (9 * day)
      (codes "a1")
      backend
      (merge_snapshot ids dates (9 * day) (codes "a1") (codes "1.1") metrics backend)
unfolding lookup text_eq
merge_snapshot-IsShown_example =
    merge_snapshot-IsShown ids dates (9 * day) (codes "a1") backend (codes "1.1") metrics entry
      backend-IsValid refl

merge_snapshot-IsValid_example :
    let m = merge_snapshot ids dates (9 * day) (codes "a1") (codes "1.1") metrics backend in
    IsTracked m.engine × RecordIsValid m.history
merge_snapshot-IsValid_example =
    merge_snapshot-IsValid ids dates (9 * day) (codes "a1") (codes "1.1") metrics backend
      (ground arith) backend-IsValid engine-IsTracked blank-IsValid

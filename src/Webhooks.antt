-- ===== src/Webhooks.antt =====
-- The notification service of the backend (backend/webhooks.go; ValidateWebhookTarget of
-- shared/webhooks.go): its settings and its queue. The children elect the two servers that send,
-- push them their settings and hand them the messages.
pub mod Election
mod Beside
pub mod Seats
pub mod Choice
pub mod Delivery
pub mod Pushed
pub mod Changes
mod Tests
use beacle.Prelude.{
  ℕ, ◌*◌, ◌+◌, Text, codes, leb, ltb, ◌==◌, Bool, true, false, not, ◌&&◌, ◌||◌, List, [], ◌∷◌, ◌++◌,
  length, Option, none, some, if◌then◌else◌, text_eq, is_empty,
}
use mathlib.Core.Logic.{◌⊎◌, inl, inr}
use beacle.Alerts.{Message}
use beacle.Watchdog.{Target}
use beacle.Registry.{Store}
use beacle.Registry.Servers.{get_vps}

-- `webhooksFile`
pub record Settings : Type 0 where
  pub targets : List Target
  pub primary : Text
  pub secondary : Text
  pub panel_quiet_min : ℕ

-- `WebhookService`, with the contents of its file, whether the file can be written, and the queue.
pub record Service : Type 0 where
  pub settings : Settings
  pub file : Option Settings
  pub writable : Bool
  pub queue : List Message
  pub pushed : Text

abbrev pub queue_size : ℕ
queue_size = 64

-- The errors of the service.
pub data Error : Type 0 where
  missing_url : Text → Error
  bad_url : Text → Error
  missing_bot : Error
  unknown_kind : Text → Error
  bad_delay : Error
  same_server : Error
  unknown_server : Text → Error
  not_saved : Error
  no_watcher : Error

-- `NewWebhookService`: settings that are not there, or that cannot be read, are blank.
unfoldable pub new_service : Option Settings → Bool → Service
new_service file writable = record {
  settings = elim file [
    | some s ↦ s
    | none ↦ record { targets = []; primary = []; secondary = []; panel_quiet_min = 0 }
  ];
  file = file;
  writable = writable;
  queue = [];
  pushed = [];
}

-- `persistLocked`: the error, and the file.
unfoldable pub save : Service → Option Error × Service
save w = if w.writable then (none, record w { file = some w.settings }) else (some not_saved, w)

starts_with : Text → Text → Bool
starts_with [] s = true
starts_with (c ∷ cs) [] = false
starts_with (c ∷ cs) (d ∷ ds) = c == d && starts_with cs ds

-- `stringNormalize`
unfoldable pub normalize : Text → Text
normalize s =
    if text_eq s (codes "Discord") || text_eq s (codes "DISCORD")
    then codes "discord"
    else if text_eq s (codes "Ntfy") || text_eq s (codes "NTFY")
    then codes "ntfy"
    else if text_eq s (codes "Telegram") || text_eq s (codes "TELEGRAM")
    then codes "telegram"
    else s

-- `is_blank` is the test `strings.TrimSpace(s) == ""`.
module _ (is_blank : Text → Bool) where
  -- `ValidateWebhookTarget`
  unfoldable pub validate : Target → Option Error
  unfolding starts_with
  validate t =
      if text_eq t.kind (codes "discord") || text_eq t.kind (codes "ntfy")
      then if is_blank t.url
        then some (missing_url t.kind)
        else if not (starts_with (codes "https://") t.url)
            && not (starts_with (codes "http://") t.url)
        then some (bad_url t.kind)
        else none
      else if text_eq t.kind (codes "telegram")
      then if is_blank t.url || is_blank t.chat_id then some missing_bot else none
      else some (unknown_kind t.kind)

  -- The loop of `SetTargets`; `new_id` draws an identifier for each target that has none.
  unfoldable pub prepare : (ℕ → Text) → ℕ → List Target → Error ⊎ List Target
  prepare new_id n [] = inr []
  prepare new_id n (t ∷ ts) =
      let filled = record t {
        kind = normalize t.kind;
        id = if is_empty t.id then new_id n else t.id;
      } in
      let rest = prepare new_id (n + 1) ts in
      elim (validate filled) [
        | some e ↦ inl e
        | none ↦ elim rest [ inl e ↦ inl e | inr done ↦ inr (filled ∷ done) ]
      ]

  -- `SetTargets`
  unfoldable pub set_targets : (ℕ → Text) → List Target → Service → Option Error × Service
  set_targets new_id ts w = elim (prepare new_id 0 ts) [
    | inl e ↦ (some e, w)
    | inr done ↦ save (record w { settings = record w.settings { targets = done } })
  ]

-- `SetPanelQuiet`
unfoldable pub set_panel_quiet : ℕ → Service → Option Error × Service
set_panel_quiet min w =
    if not (min == 0) && (ltb min 5 || ltb (24 * 60) min)
    then (some bad_delay, w)
    else save (record w { settings = record w.settings { panel_quiet_min = min } })

-- `Enqueue`: a message that finds the queue full is dropped.
unfoldable pub enqueue : Message → Service → Service
enqueue m w =
    if ltb (length w.queue) queue_size then record w { queue = w.queue ++ (m ∷ []) } else w

module _ {Snapshot : Type 0} where
  -- The loop of `SetPins` over the two names.
  unknown_pin : Store Snapshot → List Text → Option Error
  unknown_pin s [] = none
  unknown_pin s (id ∷ ids) =
      if is_empty id
      then unknown_pin s ids
      else elim (get_vps id s) [ none ↦ some (unknown_server id) | some v ↦ unknown_pin s ids ]

  -- `SetPins`
  unfoldable pub set_pins : Store Snapshot → Text → Text → Service → Option Error × Service
  unfolding unknown_pin
  set_pins s primary secondary w =
      if not (is_empty primary) && text_eq primary secondary
      then (some same_server, w)
      else elim (unknown_pin s (primary ∷ secondary ∷ [])) [
        | some e ↦ (some e, w)
        | none ↦
            save (record w {
              settings = record w.settings { primary = primary; secondary = secondary };
            })
      ]

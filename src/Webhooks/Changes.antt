-- ===== src/Webhooks/Changes.antt =====
-- What the settings of the service satisfy, and that they survive a restart (backend/webhooks.go,
-- `SetTargets`, `SetPanelQuiet`, `SetPins`, `persistLocked`, `NewWebhookService`).
use beacle.Prelude.{
  ℕ, ◌*◌, ◌+◌, ◌≤◌, Text, Bool, false, not, ◌&&◌, ◌||◌, List, [], ◌∷◌, All, Option, none, some,
  if◌then◌else◌, text_eq, is_empty, arith, ◌≡◌, ◌∙◌, ◌⊎◌, refl, subst, sym, ap, Option-cases, inl,
  inr, ltb, ◌==◌, Bool-cases,
}
use beacle.Registry.{Store}
use beacle.Watchdog.{Target}
use beacle.Webhooks.{
  Service, Settings, Error, validate, prepare, set_targets, set_panel_quiet, set_pins, save,
  new_service, normalize, unknown_pin, bad_delay, same_server,
}

-- A change of the settings that the panel asks for.
pub data Change : Type 0 where
  to_targets : List Target → Change
  to_delay : ℕ → Change
  to_pins : Text → Text → Change

-- What every accepted change keeps: valid destinations, a delay of 0 or of 5 minutes to a day, and
-- pins that do not name one server twice.
pub record IsSettled (is_blank : Text → Bool) (s : Settings) : Type 0 where
  pub targets : All (λ t. validate is_blank t ≡ none) s.targets
  pub delay : (s.panel_quiet_min ≡ 0) ⊎ ((5 ≤ s.panel_quiet_min) × (s.panel_quiet_min ≤ 24 * 60))
  pub pins : (not (is_empty s.primary) && text_eq s.primary s.secondary) ≡ false

Sum-cases : {A B : Type 0} (x : A ⊎ B) → ((a : A) × (x ≡ inl a)) ⊎ ((b : B) × (x ≡ inr b))
Sum-cases (inl a) = inl (a, refl)
Sum-cases (inr b) = inr (b, refl)

inr_inj : {a b : List Target} → ◌≡◌ {A = Error ⊎ List Target} (inr a) (inr b) → a ≡ b
inr_inj {a} e = ap (λ x. elim x [ inr b ↦ b | inl e ↦ a ]) e

restart-save :
    (w : Service) (b : Bool)
    → (save w).0 ≡ none
    → (new_service (save w).1.file b).settings ≡ (save w).1.settings
unfolding save new_service
restart-save w b h = ground arith

module _ {Snapshot : Type 0} (is_blank : Text → Bool) (new_id : ℕ → Text) (s : Store Snapshot) where
  unfoldable pub apply : Change → Service → Option Error × Service
  apply (to_targets ts) w = set_targets is_blank new_id ts w
  apply (to_delay min) w = set_panel_quiet min w
  apply (to_pins p q) w = set_pins s p q w

  prepared :
      (n : ℕ) (ts done : List Target)
      → prepare is_blank new_id n ts ≡ inr done
      → All (λ t. validate is_blank t ≡ none) done
  unfolding prepare
  prepared n [] done h = subst (All (λ t. validate is_blank t ≡ none)) (inr_inj h) tt
  prepared n (t ∷ ts) done h =
      let filled = record t {
        kind = normalize t.kind;
        id = if is_empty t.id then new_id n else t.id;
      } in
      elim (Option-cases (validate is_blank filled)) [
        | inl ok ↦ elim (Sum-cases (prepare is_blank new_id (n + 1) ts)) [
          | inl (e, bad) ↦ ground (arith, ok, bad, h)
          | inr (rest, good) ↦
              let all : inr (filled ∷ rest) ≡ inr done = ground (arith, ok, good, h) in
              subst (All (λ t. validate is_blank t ≡ none)) (inr_inj all)
                (ok, prepared (n + 1) ts rest good)
        ]
        | inr (e, bad) ↦ ground (arith, bad, h)
      ]

  -- A change is refused and changes nothing, or its settings are saved.
  Outcome : Change → Service → Type 0
  Outcome c w =
      ((e : Error) × (apply c w ≡ (some e, w)))
      ⊎ ((x : Service) × (apply c w ≡ save x)
          × (IsSettled is_blank w.settings → IsSettled is_blank x.settings))

  outcome : (c : Change) (w : Service) → Outcome c w
  unfolding Outcome apply set_targets set_panel_quiet set_pins
  outcome (to_targets ts) w = elim (Sum-cases (prepare is_blank new_id 0 ts)) [
    | inl (e, bad) ↦ inl (e, rw (bad, set_targets) refl)
    | inr (done, good) ↦ inr (
      record w { settings = record w.settings { targets = done } },
      rw (good, set_targets) refl,
      λ v. record { targets = prepared 0 ts done good; delay = v.delay; pins = v.pins },
    )
  ]
  outcome (to_delay min) w =
      elim (Bool-cases (not (min == 0) && (ltb min 5 || ltb (24 * 60) min))) [
        | inl bad ↦ inl (bad_delay, rw (bad, set_panel_quiet) refl)
        | inr good ↦ inr (
          record w { settings = record w.settings { panel_quiet_min = min } },
          rw (good, set_panel_quiet) refl,
          λ v. record { targets = v.targets; delay = ground (arith, good); pins = v.pins },
        )
      ]
  outcome (to_pins p q) w = elim (Bool-cases (not (is_empty p) && text_eq p q)) [
    | inl bad ↦ inl (same_server, rw (bad, set_pins) refl)
    | inr good ↦ elim (Option-cases (unknown_pin s (p ∷ q ∷ []))) [
      | inr (e, bad) ↦ inl (e, rw (good, bad, set_pins) refl)
      | inl known ↦ inr (
        record w { settings = record w.settings { primary = p; secondary = q } },
        rw (good, known, set_pins) refl,
        λ v. record { targets = v.targets; delay = v.delay; pins = good },
      )
    ]
  ]

  -- A change that is accepted and saved is there after a restart.
  pub restart-apply :
      (c : Change) (w : Service) (b : Bool)
      → (apply c w).0 ≡ none
      → (new_service (apply c w).1.file b).settings ≡ (apply c w).1.settings
  unfolding Outcome
  restart-apply c w b h = elim (outcome c w) [
    | inl (e, bad) ↦ ground (arith, bad, h)
    | inr (x, saved, keeps) ↦ rw saved (restart-save x b (sym (ap (λ r. r.0) saved) ∙ h))
  ]

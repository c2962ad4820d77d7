-- ===== src/Alerts/Evaluate/Certs.antt =====
-- The levels of a certificate (backend/alerts.go, `evaluateCerts`).
use beacle.Prelude.{
  ℕ, Text, Time, Bool, true, false, [], ◌∷◌, if◌then◌else◌, text_eq, text_eq_iff, arith, ◌≡◌, ◌≢◌,
  refl, Bool-cases, inl, inr, ap, ◌++◌, ◌∙◌, sym, ◌&&◌,
}
use beacle.Models.{Vps}
use beacle.Alerts.{Engine, active_key, is_active, fire, clear, cert_expiring}
use beacle.Alerts.Keys.{is_active-insert, is_active-erase}
use beacle.Alerts.Evaluate.{
  CertLevel, good, warn, crit, expired, level_name, cert_key, cert_level, clear_levels, check_cert,
  settle_cert,
}

-- Is the condition of this level of the domain's certificate active?
abbrev pub level_active : Text → Text → CertLevel → Engine → Bool
level_active vps_id domain level e =
    is_active (active_key vps_id cert_expiring (cert_key domain level)) e.active

text_eq-append : (a x y : Text) → text_eq (a ++ x) (a ++ y) ≡ text_eq x y
unfolding text_eq
text_eq-append [] x y = refl
text_eq-append (c ∷ a) x y = ground (arith, text_eq-append a x y)

off_stays_off :
    (key id : Text) (e : Engine)
    → is_active key e.active ≡ false
    → is_active id e.active ≡ (if text_eq key id then false else is_active id e.active)
off_stays_off key id e off = elim (Bool-cases (text_eq key id)) [
  | inl same ↦ rw same (rw (sym ((text_eq_iff key id).0 same)) off)
  | inr other ↦ rw other refl
]

on_stays_on :
    (key id : Text) (e : Engine)
    → is_active key e.active ≡ true
    → is_active id e.active ≡ (if text_eq key id then true else is_active id e.active)
on_stays_on key id e on = elim (Bool-cases (text_eq key id)) [
  | inl same ↦ rw same (rw (sym ((text_eq_iff key id).0 same)) on)
  | inr other ↦ rw other refl
]

is_active-clear :
    (v k x : Text) (id : Text) (e : Engine)
    → is_active id (clear v k x e).active
      ≡ (if text_eq (active_key v k x) id then false else is_active id e.active)
unfolding clear
is_active-clear v k x id e = elim (Bool-cases (is_active (active_key v k x) e.active)) [
  | inl on ↦ rw (on, clear) (is_active-erase (active_key v k x) id e.active)
  | inr off ↦ rw (off, clear) (off_stays_off (active_key v k x) id e off)
]

is_active-fire :
    (new_id : ℕ → Text) (now : Time) (vps : Vps) (k sev x msg id : Text) (e : Engine)
    → is_active id (fire new_id now vps k sev x msg e).active
      ≡ (if text_eq (active_key vps.id k x) id then true else is_active id e.active)
unfolding fire
is_active-fire new_id now vps k sev x msg id e =
    elim (Bool-cases (is_active (active_key vps.id k x) e.active)) [
      | inl on ↦ rw (on, fire) (on_stays_on (active_key vps.id k x) id e on)
      | inr off ↦ rw (off, fire) (is_active-insert (active_key vps.id k x) id e.active)
    ]

-- Two levels of one domain have one condition only if they have one name.
level_key :
    (v domain : Text) (l m : CertLevel)
    → text_eq
        (active_key v cert_expiring (cert_key domain l))
        (active_key v cert_expiring (cert_key domain m))
      ≡ text_eq (level_name l) (level_name m)
unfolding active_key cert_key text_eq
level_key v domain l m =
    text_eq-append v _ _ ∙ text_eq-append domain (b'|' ∷ level_name l) (b'|' ∷ level_name m)

level_active-clear :
    (v domain : Text) (l m : CertLevel) (e : Engine)
    → level_active v domain m (clear v cert_expiring (cert_key domain l) e)
      ≡ (if text_eq (level_name l) (level_name m) then false else level_active v domain m e)
level_active-clear v domain l m e =
    is_active-clear v cert_expiring (cert_key domain l)
      (active_key v cert_expiring (cert_key domain m)) e
    ∙ rw (level_key v domain l m) refl

-- What one turn of the loop that spares level `l` leaves of a condition of level `m`.
abbrev after_turn : CertLevel → CertLevel → CertLevel → Bool → Bool
after_turn k l m b =
    if text_eq (level_name k) (level_name l)
    then b
    else if text_eq (level_name k) (level_name m)
    then false
    else b

level_active-turn :
    (v domain : Text) (k l m : CertLevel) (e : Engine)
    → level_active v domain m (
        if text_eq (level_name k) (level_name l)
        then e
        else clear v cert_expiring (cert_key domain k) e)
      ≡ after_turn k l m (level_active v domain m e)
level_active-turn v domain k l m e = elim (Bool-cases (text_eq (level_name k) (level_name l))) [
  | inl same ↦ rw same refl
  | inr other ↦ rw other (level_active-clear v domain k m e)
]

after_turns :
    (l m : CertLevel) (b : Bool)
    → m ≢ good
    → after_turn expired l m (after_turn crit l m (after_turn warn l m b))
      ≡ text_eq (level_name l) (level_name m) && b
unfolding text_eq
after_turns l good b h = absurd (h refl)
after_turns good warn b h = refl
after_turns good crit b h = refl
after_turns good expired b h = refl
after_turns warn warn b h = refl
after_turns warn crit b h = refl
after_turns warn expired b h = refl
after_turns crit warn b h = refl
after_turns crit crit b h = refl
after_turns crit expired b h = refl
after_turns expired warn b h = refl
after_turns expired crit b h = refl
after_turns expired expired b h = refl

level_active-clear_levels :
    (v domain : Text) (l m : CertLevel) (e : Engine)
    → m ≢ good
    → level_active v domain m (clear_levels v domain l e)
      ≡ text_eq (level_name l) (level_name m) && level_active v domain m e
unfolding clear_levels
level_active-clear_levels v domain l m e h =
    level_active-turn v domain expired l m _
    ∙ ap (after_turn expired l m) (
        level_active-turn v domain crit l m _
        ∙ ap (after_turn crit l m) (level_active-turn v domain warn l m e))
    ∙ after_turns l m (level_active v domain m e) h

no_good :
    (m : CertLevel) (b : Bool)
    → m ≢ good
    → text_eq [] (level_name m) && b ≡ text_eq [] (level_name m)
unfolding text_eq
no_good good b h = absurd (h refl)
no_good warn b h = refl
no_good crit b h = refl
no_good expired b h = refl

or_none : (t b : Bool) → (if t then true else t && b) ≡ t
or_none true b = refl
or_none false b = refl

level_active-raised :
    (new_id : ℕ → Text) (now : Time) (vps : Vps) (domain sev msg : Text) (l m : CertLevel)
    (e : Engine)
    → m ≢ good
    → level_active vps.id domain m (
        fire new_id now vps cert_expiring sev
          (cert_key domain l)
          msg
          (clear_levels vps.id domain l e))
      ≡ text_eq (level_name l) (level_name m)
level_active-raised new_id now vps domain sev msg l m e h =
    let fired =
      is_active-fire new_id now vps cert_expiring sev (cert_key domain l) msg
        (active_key vps.id cert_expiring (cert_key domain m)) (clear_levels vps.id domain l e) in
    let cleared = level_active-clear_levels vps.id domain l m e h in
    fired
    ∙ rw (level_key vps.id domain l m) (
        rw cleared
          (or_none (text_eq (level_name l) (level_name m)) (level_active vps.id domain m e)))

level_active-settle_cert :
    (new_id : ℕ → Text) (date_text : Time → Text) (now : Time) (vps : Vps) (domain : Text)
    (end : Time) (l m : CertLevel) (e : Engine)
    → m ≢ good
    → level_active vps.id domain m (settle_cert new_id date_text now vps domain end l e)
      ≡ text_eq (level_name l) (level_name m)
unfolding settle_cert
level_active-settle_cert new_id date_text now vps domain end good m e h =
    level_active-clear_levels vps.id domain good m e h
    ∙ no_good m (level_active vps.id domain m e) h
level_active-settle_cert new_id date_text now vps domain end warn m e h =
    level_active-raised new_id now vps domain _ _ warn m e h
level_active-settle_cert new_id date_text now vps domain end crit m e h =
    level_active-raised new_id now vps domain _ _ crit m e h
level_active-settle_cert new_id date_text now vps domain end expired m e h =
    level_active-raised new_id now vps domain _ _ expired m e h

-- After one certificate is looked at, its alerts show exactly its level: of the levels "warn",
-- "crit" and "expired" the one that its end date gives has an active condition, the others have
-- none, and a good certificate has none.
pub check_cert_exclusive :
    (new_id : ℕ → Text) (date_text : Time → Text) (now : Time) (vps : Vps) (domain : Text)
    (end : Time) (m : CertLevel) (e : Engine)
    → m ≢ good
    → level_active vps.id domain m (check_cert new_id date_text now vps domain end e)
      ≡ text_eq (level_name (cert_level end now)) (level_name m)
unfolding check_cert
check_cert_exclusive new_id date_text now vps domain end m e h =
    level_active-settle_cert new_id date_text now vps domain end (cert_level end now) m e h

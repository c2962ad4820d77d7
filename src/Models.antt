-- ===== src/Models.antt =====
-- The records that backend and agents share: shared/models.go and shared/webhooks.go. Fields that
-- no modelled code reads or writes (map coordinates, location, tags) are
-- left out. A Go string type with constants (AlertType, AlertSeverity) is a text, as in the source.
-- A percentage or another float64 is a signed number of hundredths.
use beacle.Prelude.{ℕ, Text, codes, Map, Time, Bool, true, false, Option, text_eq}
use beacle.Prelude.Ints.{ℤ}

-- `VPSStatus`
pub data Status : Type 0 where
  online offline high_load pending agent_down restarting powered_off : Status

-- The comparison `==` of two statuses.
unfoldable pub status_eq : Status → Status → Bool
status_eq online online = true
status_eq offline offline = true
status_eq high_load high_load = true
status_eq pending pending = true
status_eq agent_down agent_down = true
status_eq restarting restarting = true
status_eq powered_off powered_off = true
status_eq _ _ = false

-- `VPSThresholds`
pub record Thresholds : Type 0 where
  pub cpu_high : ℤ
  pub mem_high : ℤ
  pub disk_high : ℤ
  pub plugins : Map ℤ

-- `VPS`
pub record Vps : Type 0 where
  pub id : Text
  pub name : Text
  pub host : Text
  pub tailscale_name : Text
  pub public_ip : Text
  pub transport : Text
  pub wg_endpoint : Text
  pub wg_tunnel_ip : Text
  pub wg_public_key : Text
  pub weight : ℕ
  pub status : Status
  pub thresholds : Option Thresholds
  pub agent_port : ℕ
  pub agent_ver : Text
  pub agent_digest : Text
  pub arch : Text
  pub lan_ip : Text
  pub created_at : Time
  pub last_seen : Time

abbrev pub transport_wireguard : Text
transport_wireguard = codes "wireguard"

abbrev pub default_agent_port : ℕ
default_agent_port = 8931

-- `VPS.IsWireGuard`
unfoldable pub is_wireguard : Vps → Bool
is_wireguard v = text_eq v.transport transport_wireguard

-- `VPSLink`, less its measurements
pub record Link : Type 0 where
  pub id : Text
  pub from_vps : Text
  pub to_vps : Text
  pub status : Text

-- `Alert`
pub record Alert : Type 0 where
  pub id : Text
  pub vps_id : Text
  pub vps_name : Text
  pub kind : Text
  pub severity : Text
  pub message : Text
  pub key : Text
  pub created_at : Time
  pub resolved : Bool

-- `ActionLog`
pub record ActionLog : Type 0 where
  pub id : Text
  pub vps_id : Text
  pub vps_name : Text
  pub action : Text
  pub detail : Text
  pub succeeded : Bool
  pub created_at : Time

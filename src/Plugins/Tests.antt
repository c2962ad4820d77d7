-- ===== src/Plugins/Tests.antt =====
-- Runs of the checks on a small manifest.
use beacle.Prelude.{
  ◌≤◌, ◌*◌, second, Text, Map, codes, text_eq, text_eq_iff, arith, inl, lookup, values, [], ◌∷◌,
  none, some, ◌≡◌, refl, All, Unique,
}
use beacle.Prelude.Ints.{pos}
use beacle.Plugins.{MetricDef, Manifest, clean, allowed_path, lookup_metric}
use beacle.Plugins.Paths.{IsUnder}
use beacle.Plugins.Metrics.{lookup_metric_any_order}
use beacle.Plugins.Checks.{validate_manifest, manifest_timeout}
use beacle.Plugins.Accepted.{HasOrder, accepted_limits, accepted_paths}

cleaned : clean (codes "/var//log/./x/../../lib/") ≡ codes "/var/lib"
unfolding clean text_eq
cleaned = refl

cleaned_relative : clean (codes "../a/../../b") ≡ codes "../../b"
unfolding clean text_eq
cleaned_relative = refl

cleaned_root : clean (codes "/..//") ≡ codes "/"
unfolding clean text_eq
cleaned_root = refl

inside_log :
    allowed_path (codes "/var/log/../log/syslog") (codes "/var/log/" ∷ [])
    ≡ some (codes "/var/log/syslog")
unfolding allowed_path text_eq
inside_log = refl

escapes : allowed_path (codes "/var/log/../../etc/passwd") (codes "/var/log" ∷ []) ≡ none
unfolding allowed_path text_eq
escapes = refl

sibling : allowed_path (codes "/var/logs") (codes "/var/log" ∷ []) ≡ none
unfolding allowed_path text_eq
sibling = refl

abbrev disk_def : MetricDef
disk_def = record { label = []; unit = codes "%"; warn = pos 8000; crit = pos 9000 }

abbrev sda_def : MetricDef
sda_def = record { label = codes "sda"; unit = codes "%"; warn = pos 0; crit = pos 9500 }

abbrev metrics : Map MetricDef
metrics = (codes "disk_*", disk_def) ∷ (codes "disk_sd*", sda_def) ∷ []

abbrev metrics_turned : Map MetricDef
metrics_turned = (codes "disk_sd*", sda_def) ∷ (codes "disk_*", disk_def) ∷ []

longest_wins : lookup_metric metrics (codes "disk_sda") ≡ some sda_def
unfolding lookup_metric text_eq
longest_wins = refl

same_entries : (k : Text) → lookup k metrics ≡ lookup k metrics_turned
unfolding lookup
same_entries k = ground (arith, text_eq_iff (codes "disk_*") k, text_eq_iff (codes "disk_sd*") k)

lookup_metric_any_order_example :
    lookup_metric metrics (codes "disk_sda") ≡ lookup_metric metrics_turned (codes "disk_sda")
lookup_metric_any_order_example =
    lookup_metric_any_order metrics metrics_turned (codes "disk_sda") same_entries

abbrev manifest : Manifest
manifest = record {
  id = codes "disks";
  name = codes "Disks";
  version = codes "1.0";
  permissions = record {
    read = codes "/proc/" ∷ [];
    exec = codes "smartctl" ∷ [];
    http = [];
    write = codes "/var/lib/disks" ∷ [];
    api = codes "GET /api/vps/*" ∷ [];
  };
  metrics = metrics;
  config =
      record { key = codes "token"; label = []; kind = codes "secret"; options = [] }
      ∷ record { key = codes "host"; label = []; kind = codes "url"; options = [] }
      ∷ [];
  timeout = pos 30;
}

is_accepted : validate_manifest manifest ≡ none
unfolding validate_manifest text_eq
is_accepted = refl

accepted_limits_example :
    Unique (λ f. f.key) manifest.config
    × All HasOrder (values manifest.metrics)
    × (second ≤ manifest_timeout manifest)
    × (manifest_timeout manifest ≤ 300 * second)
accepted_limits_example = accepted_limits manifest is_accepted

opens_mdstat :
    allowed_path (codes "/proc/mdstat") (codes "/proc/" ∷ []) ≡ some (codes "/proc/mdstat")
unfolding allowed_path text_eq
opens_mdstat = refl

accepted_paths_example : IsUnder (codes "/proc/" ∷ []) (codes "/proc/mdstat")
accepted_paths_example =
    accepted_paths manifest (codes "/proc/" ∷ []) (codes "/proc/mdstat") (codes "/proc/mdstat")
      is_accepted (inl refl) opens_mdstat

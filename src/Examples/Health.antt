-- ===== src/Examples/Health.antt =====
-- A healthy sample within its limits.
use risi.Prelude.{pos, ◌≡◌, ◌↔◌, [], ◌∷◌}
use risi.Canonical.{Json, Fields, finite, entries}
use risi.Health.{HealthSample, HealthLimits, health_stop_reasons}
use risi.Health.Reasons.{IsWithin, health_stop_reasons-iff_IsWithin}

abbrev sample : HealthSample
sample = record {
  sample_sequence = 0;
  services = entries (("api", Json.str "healthy") ∷ ("worker", Json.str "healthy") ∷ []);
  cpu_percent = finite (pos 12) (pos 0);
  memory_bytes = 100;
  storage_bytes = 200;
  restart_count = 0;
  oom_kill_count = 0;
  firewall_denied_count = 3;
  metadata = Fields.end;
}

abbrev limits : HealthLimits
limits = record {
  max_cpu_percent = finite (pos 90) (pos 0);
  max_memory_bytes = 1000;
  max_storage_bytes = 1000;
  max_restart_count = 0;
  max_oom_kill_count = 0;
}

health_stop_reasons-iff_IsWithin_example :
    (health_stop_reasons sample limits ≡ []) ↔ IsWithin sample limits
health_stop_reasons-iff_IsWithin_example = health_stop_reasons-iff_IsWithin sample limits

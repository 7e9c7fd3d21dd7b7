-- ===== src/Health.antt =====
-- src/risi/health.py: the health samples of a target and the reasons to stop that they give.
pub mod Reasons
use Prim.Native.String
use risi.Prelude.{
  ℕ, ℤ, pos, negsuc, pos_part, neg_part, ltb_ℤ, ◌*◌, ◌-◌, ◌+◌, ◌^◌, suc, ltb, String, Bool, true,
  false, not, ◌&&◌, Option, none, some, List, [], ◌∷◌, ◌++◌, ◌==◌, map, if◌then◌else◌,
}
use risi.Prelude.Failure.{Result, value_error, raise_if}
use risi.Prelude.Text.{sorted}
use risi.Canonical.{Json, Fields, Float, finite, infinite, nan, obj, real, null, entries, nat}
use risi.Operator.Safety.{reason_if}

-- Counts are natural numbers, as the constructor requires.
pub record HealthSample : Type 0 where
  pub sample_sequence : ℕ
  pub services : Fields
  pub cpu_percent : Float
  pub memory_bytes : ℕ
  pub storage_bytes : ℕ
  pub restart_count : ℕ
  pub oom_kill_count : ℕ
  pub firewall_denied_count : ℕ
  pub metadata : Fields

pub record HealthLimits : Type 0 where
  pub max_cpu_percent : Float
  pub max_memory_bytes : ℕ
  pub max_storage_bytes : ℕ
  pub max_restart_count : ℕ
  pub max_oom_kill_count : ℕ

-- n * k
abbrev pub times : ℤ → ℕ → ℤ
times (pos n) k = pos (n * k)
times (negsuc n) k = negsuc (suc n * k - 1)

-- `x > y` on floats.
unfoldable pub exceeds : Float → Float → Bool
exceeds (finite m e) (finite n f) =
    ltb_ℤ (times n (10 ^ (pos_part f + neg_part e))) (times m (10 ^ (pos_part e + neg_part f)))
exceeds (finite m e) (infinite positive) = not positive
exceeds (infinite positive) (finite n f) = positive
exceeds (infinite a) (infinite b) = a && not b
exceeds _ _ = false

-- `0.0 <= cpu_percent <= 100.0`
unfoldable pub is_percent : Float → Bool
is_percent (finite m e) =
    not (exceeds (finite (pos 0) (pos 0)) (finite m e))
    && not (exceeds (finite m e) (finite (pos 100) (pos 0)))
is_percent x = false

unfoldable pub check_sample : HealthSample → Result (Unit {0})
check_sample s =
    raise_if (not (is_percent s.cpu_percent))
      (value_error "cpu_percent must be between zero and one hundred")

abbrev pub percent_json : Float → Json
percent_json (finite m e) = real m e
percent_json x = null

unfoldable pub sample_json : HealthSample → Json
sample_json s = obj (
    entries (
      ("schema_version", nat 1)
      ∷ ("sample_sequence", nat s.sample_sequence)
      ∷ ("services", obj s.services)
      ∷ ("cpu_percent", percent_json s.cpu_percent)
      ∷ ("memory_bytes", nat s.memory_bytes)
      ∷ ("storage_bytes", nat s.storage_bytes)
      ∷ ("restart_count", nat s.restart_count)
      ∷ ("oom_kill_count", nat s.oom_kill_count)
      ∷ ("firewall_denied_count", nat s.firewall_denied_count)
      ∷ ("metadata", obj s.metadata)
      ∷ []))

-- `state != "healthy"`
abbrev pub is_healthy : Json → Bool
is_healthy (Json.str s) = s == "healthy"
is_healthy j = false

unfoldable pub unhealthy_services : Fields → List String
unhealthy_services Fields.end = []
unhealthy_services (Fields.field name state rest) =
    let later = unhealthy_services rest in if is_healthy state then later else name ∷ later

abbrev pub service_reasons : List String → List String
service_reasons names = map (λ name. String.◌++◌ "service_unhealthy:" name) names

unfoldable pub health_stop_reasons : HealthSample → HealthLimits → List String
health_stop_reasons s l =
    reason_if (exceeds s.cpu_percent l.max_cpu_percent) "cpu_ceiling_exceeded" (
      reason_if (ltb l.max_memory_bytes s.memory_bytes) "memory_ceiling_exceeded" (
        reason_if (ltb l.max_storage_bytes s.storage_bytes) "storage_ceiling_exceeded" (
          reason_if (ltb l.max_restart_count s.restart_count) "service_restart_observed" (
            reason_if (ltb l.max_oom_kill_count s.oom_kill_count) "oom_kill_observed"
              (service_reasons (sorted (unhealthy_services s.services)))))))

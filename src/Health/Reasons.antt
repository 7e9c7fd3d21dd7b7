-- ===== src/Health/Reasons.antt =====
-- When a health sample gives no reason to stop (src/risi/health.py).
use risi.Prelude.{
  ◌≤◌, ◌≡◌, ◌↔◌, refl, ap, String, Bool, true, false, not, ◌&&◌, ltb, eq_iff, List, [], ◌∷◌, arith,
}
use risi.Prelude.Text.{sorted, insert_text}
use risi.Canonical.{Json, Fields}
use risi.Operator.Safety.{no_reasons}
use risi.Health.{
  HealthSample, HealthLimits, exceeds, is_healthy, unhealthy_services, service_reasons,
  health_stop_reasons,
}

-- Every service is in the state "healthy".
abbrev pub AllHealthy : Fields → Type 0
AllHealthy Fields.end = Unit
AllHealthy (Fields.field name state rest) = (state ≡ Json.str "healthy") × AllHealthy rest

pub record IsWithin (s : HealthSample) (l : HealthLimits) : Type 0 where
  pub cpu : exceeds s.cpu_percent l.max_cpu_percent ≡ false
  pub memory : s.memory_bytes ≤ l.max_memory_bytes
  pub storage : s.storage_bytes ≤ l.max_storage_bytes
  pub restarts : s.restart_count ≤ l.max_restart_count
  pub kills : s.oom_kill_count ≤ l.max_oom_kill_count
  pub services : AllHealthy s.services

abbrev empty_texts : List String → Bool
empty_texts xs = no_reasons xs

empty-insert_text : (x : String) (xs : List String) → empty_texts (insert_text x xs) ≡ false
empty-insert_text x [] = refl
empty-insert_text x (y ∷ ys) = ground arith

empty-sorted : (xs : List String) → empty_texts (sorted xs) ≡ empty_texts xs
empty-sorted [] = refl
empty-sorted (x ∷ xs) = empty-insert_text x (sorted xs)

empty-service_reasons : (xs : List String) → no_reasons (service_reasons xs) ≡ empty_texts xs
empty-service_reasons [] = refl
empty-service_reasons (x ∷ xs) = refl

is_healthy→ : (j : Json) → is_healthy j ≡ true → j ≡ Json.str "healthy"
is_healthy→ (Json.str s) h = ap Json.str ((eq_iff s "healthy").0 h)
is_healthy→ Json.null h = cc
is_healthy→ (Json.bool b) h = cc
is_healthy→ (Json.int n) h = cc
is_healthy→ (Json.real m e) h = cc
is_healthy→ (Json.arr xs) h = cc
is_healthy→ (Json.obj fs) h = cc

unhealthy→ : (fs : Fields) → empty_texts (unhealthy_services fs) ≡ true → AllHealthy fs
unfolding unhealthy_services
unhealthy→ Fields.end h = tt
unhealthy→ (Fields.field name state rest) h =
    (is_healthy→ state (ground arith), unhealthy→ rest (ground arith))

→unhealthy : (fs : Fields) → AllHealthy fs → empty_texts (unhealthy_services fs) ≡ true
unfolding unhealthy_services
→unhealthy Fields.end h = refl
→unhealthy (Fields.field name state rest) h = rw h.0 (→unhealthy rest h.1)

module _ (s : HealthSample) (l : HealthLimits) where
  reasons_test : no_reasons (health_stop_reasons s l) ≡ (
      not (exceeds s.cpu_percent l.max_cpu_percent)
      && not (ltb l.max_memory_bytes s.memory_bytes)
      && not (ltb l.max_storage_bytes s.storage_bytes)
      && not (ltb l.max_restart_count s.restart_count)
      && not (ltb l.max_oom_kill_count s.oom_kill_count)
      && empty_texts (unhealthy_services s.services))
  unfolding health_stop_reasons
  reasons_test = ground (
    arith,
    empty-sorted (unhealthy_services s.services),
    empty-service_reasons (sorted (unhealthy_services s.services)),
  )

  no_reasons_iff : (xs : List String) → (xs ≡ []) ↔ (no_reasons xs ≡ true)
  no_reasons_iff [] = ground arith
  no_reasons_iff (x ∷ xs) = grind arith

  within→ : no_reasons (health_stop_reasons s l) ≡ true → IsWithin s l
  within→ h = record {
    cpu = ground (arith, reasons_test);
    memory = ground (arith, reasons_test);
    storage = ground (arith, reasons_test);
    restarts = ground (arith, reasons_test);
    kills = ground (arith, reasons_test);
    services = unhealthy→ s.services (ground (arith, reasons_test));
  }

  →within : IsWithin s l → no_reasons (health_stop_reasons s l) ≡ true
  →within w = ground (
    arith,
    reasons_test,
    w.cpu,
    w.memory,
    w.storage,
    w.restarts,
    w.kills,
    →unhealthy s.services w.services,
  )

  -- A sample gives no reason to stop exactly if its use of the processor, its memory, its storage,
  -- its restarts and its kills are within the limits, and every service is healthy.
  pub health_stop_reasons-iff_IsWithin : (health_stop_reasons s l ≡ []) ↔ IsWithin s l
  health_stop_reasons-iff_IsWithin = (
    (λ h. within→ ((no_reasons_iff (health_stop_reasons s l)).0 h)),
    (λ w. (no_reasons_iff (health_stop_reasons s l)).1 (→within w)),
  )

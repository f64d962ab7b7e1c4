-- ===== src/RateLimiter/Tests.antt =====
-- A limiter of two requests by minute, and its theorems at it.
use mini_paa_s.Common.{
  arith, ℕ, ◌+◌, ◌-◌, ◌*◌, min, ◌≤◌, ◌<◌, ◌≡◌, refl, true, false, String, List, [], ◌∷◌, length,
  trim,
}
use mini_paa_s.RateLimiter.{
  RateLimiter, allow, admit, client_key, open_window, count_request, bound, max_tracked_clients,
  retry_after_seconds, second,
}
use mini_paa_s.RateLimiter.Window.{admitted, requests_of, window_quota}
use mini_paa_s.RateLimiter.Refusals.{allow-bounded, refused_retry, retry_after_seconds_lem}

-- One client has used its two requests.
abbrev exhausted : RateLimiter
exhausted = record {
  limit = 2;
  window = 60;
  clients = ("10.0.0.1", record { started = 100; count = 2 }) ∷ [];
}

abbrev used_once : RateLimiter
used_once = record exhausted { clients = ("10.0.0.1", record { started = 100; count = 1 }) ∷ [] }

refused : (allow exhausted "10.0.0.1" 130).0 ≡ false
unfolding allow admit client_key open_window count_request bound trim
refused = refl

allow-bounded_example : length (allow exhausted "10.0.0.2" 130).2.clients ≤ max_tracked_clients
allow-bounded_example = allow-bounded exhausted "10.0.0.2" 130 (omega arith)

refused_retry_example :
    let (ok, delay, l') = allow exhausted "10.0.0.1" 130 in
    (delay ≤ 60) × ((allow l' "10.0.0.1" (130 + delay)).0 ≡ true)
refused_retry_example = refused_retry exhausted "10.0.0.1" 130 refused

abbrev burst : List (String × ℕ)
burst = ("10.0.0.1", 110) ∷ ("10.0.0.2", 111) ∷ (" 10.0.0.1 ", 112) ∷ []

window_quota_example : admitted used_once "10.0.0.1" burst ≡ min 1 (requests_of "10.0.0.1" burst)
window_quota_example =
    window_quota burst used_once "10.0.0.1" 100 1 refl (omega arith)
      ((omega arith, omega arith), ((omega arith, omega arith), ((omega arith, omega arith), tt)))
      (omega arith)

retry_after_seconds_lem_example :
    let seconds = retry_after_seconds 1500000000 in
    (1 ≤ seconds) × (1500000000 ≤ seconds * second) × ((seconds - 1) * second < 1500000000)
retry_after_seconds_lem_example = retry_after_seconds_lem 1500000000 (omega arith)

-- ===== src/RateLimiter/Refusals.antt =====
-- The size of the rate limiter and the delay of a refusal.
use mini_paa_s.Common.{
  ℕ, ◌+◌, ◌-◌, ◌*◌, ◌≤◌, ◌<◌, ◌≡◌, refl, true, false, String, Option, none, some, leb, length,
  arith, Bool-cases, inl, inr,
}
use mini_paa_s.RateLimiter.{
  RateLimiter, RateLimitState, lookup, put, admit, allow, client_key, is_current,
  max_tracked_clients, retry_after_seconds, second,
}
use mini_paa_s.RateLimiter.Clients.{length-put, length-bound}

admit-bounded :
    (l : RateLimiter) (k : String) (now : ℕ) (o : Option RateLimitState)
    → lookup k l.clients ≡ o
    → length l.clients ≤ max_tracked_clients
    → length (admit l k now o).2.clients ≤ max_tracked_clients
unfolding admit
admit-bounded l k now none e h =
    length-bound l.window now (put k (record { started = now; count = 1 }) l.clients)
admit-bounded l k now (some s) e h = elim (Bool-cases (is_current l.window now s)) [
  | inl c ↦ rw c (elim (Bool-cases (leb l.limit s.count)) [
    | inl full ↦ rw full h
    | inr free ↦ rw free (rw (length-put k (record s { count = s.count + 1 }) s l.clients e) h)
  ])
  | inr c ↦ rw c (length-bound l.window now (put k (record { started = now; count = 1 }) l.clients))
]

-- A limiter that tracks at most 1024 clients still does after any request.
pub allow-bounded :
    (l : RateLimiter) (key : String) (now : ℕ)
    → length l.clients ≤ max_tracked_clients
    → length (allow l key now).2.clients ≤ max_tracked_clients
unfolding allow
allow-bounded l key now h = admit-bounded l (client_key key) now _ refl h

-- The delay of a refusal ends exactly when the window is over.
over :
    (window now : ℕ) (s : RateLimitState)
    → is_current window now s ≡ true
    → let delay = window - (now - s.started) in
      (delay ≤ window) × (is_current window (now + delay) s ≡ false)
over window now s h = (omega arith, ground arith)

-- Refused, with that delay, and nothing has changed.
abbrev Refused : RateLimiter → String → ℕ → Option RateLimitState → Type 0
Refused l k now o =
    let (ok, delay, l') = admit l k now o in
    (delay ≤ l.window) × ((admit l k (now + delay) o).0 ≡ true) × (l' ≡ l)

admit_retry :
    (l : RateLimiter) (k : String) (now : ℕ) (o : Option RateLimitState)
    → (admit l k now o).0 ≡ false
    → Refused l k now o
unfolding admit
admit_retry l k now none h = absurd (cc)
admit_retry l k now (some s) h = elim (Bool-cases (is_current l.window now s)) [
  | inl c ↦ elim (Bool-cases (leb l.limit s.count)) [
    | inl full ↦
        let (short, late) = over l.window now s c in rw (c, full) (short, rw late refl, refl)
    | inr free ↦ absurd (cc (h, c, free))
  ]
  | inr c ↦ absurd (cc (h, c))
]

-- A refused request comes with a delay that is no longer than the window, and a request of the
-- same client when exactly that delay has passed is let through, if no other request came between.
pub refused_retry :
    (l : RateLimiter) (key : String) (now : ℕ)
    → (allow l key now).0 ≡ false
    → let (ok, delay, l') = allow l key now in
      (delay ≤ l.window) × ((allow l' key (now + delay)).0 ≡ true)
unfolding allow
refused_retry l key now h =
    let (short, retry, same) =
      admit_retry l (client_key key) now (lookup (client_key key) l.clients) h in
    (short, rw same retry)

-- The `Retry-After` header is at least one second and the least number of whole seconds that is not
-- shorter than the delay, for a delay that is not zero.
pub retry_after_seconds_lem :
    (delay : ℕ)
    → 1 ≤ delay
    → let seconds = retry_after_seconds delay in
      (1 ≤ seconds) × (delay ≤ seconds * second) × ((seconds - 1) * second < delay)
unfolding retry_after_seconds
retry_after_seconds_lem delay h = ground (arith, h)

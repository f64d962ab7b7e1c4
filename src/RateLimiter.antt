-- ===== src/RateLimiter.antt =====
-- handler/middleware/ratelimit.go: the fixed-window limiter of requests by client. Times and
-- durations are nanoseconds. The map of clients is a list in the order in which Go ranges over it;
-- a new key may stand anywhere in that order, and stands last here.
use text.Mathlib.Text.{◌==◌ as str_eq}
use mini_paa_s.Common.{
  ℕ, ◌+◌, ◌-◌, ◌*◌, ◌/◌, Bool, true, false, ◌&&◌, ◌||◌, not, String, List, [], ◌∷◌, Option, none,
  some, leb, ltb, ◌==◌, if◌then◌else◌, length, trim,
}
pub mod Clients
pub mod Refusals
pub mod Window
mod Tests

pub record RateLimitState : Type 0 where
  pub started : ℕ
  pub count : ℕ

abbrev pub Clients : Type 0
Clients = List (String × RateLimitState)

pub record RateLimiter : Type 0 where
  pub limit : ℕ
  pub window : ℕ
  pub clients : Clients

abbrev pub max_tracked_clients : ℕ
max_tracked_clients = 1024

-- `time.Second` and `time.Minute`
abbrev pub second : ℕ
second = 1000000000

abbrev pub minute : ℕ
minute = 60000000000

-- `NewRateLimiter`
unfoldable pub new_rate_limiter : ℕ → ℕ → RateLimiter
new_rate_limiter limit window = record {
  limit = if ltb limit 1 then 1 else limit;
  window = if window == 0 then minute else window;
  clients = [];
}

-- `clients[key]`
abbrev pub lookup : String → Clients → Option RateLimitState
lookup k [] = none
lookup k ((c, s) ∷ cs) = if str_eq c k then some s else lookup k cs

-- `clients[key] = state`
abbrev pub put : String → RateLimitState → Clients → Clients
put k s [] = (k, s) ∷ []
put k s ((c, old) ∷ cs) = if str_eq c k then (c, s) ∷ cs else (c, old) ∷ put k s cs

-- `delete(clients, key)`
abbrev pub delete : String → Clients → Clients
delete k [] = []
delete k ((c, s) ∷ cs) = let rest = delete k cs in if str_eq c k then rest else (c, s) ∷ rest

-- The window of this client is over: `now.Sub(state.started) >= l.window`.
abbrev pub is_expired : ℕ → ℕ → RateLimitState → Bool
is_expired window now s = leb (s.started + window) now

-- The pass that deletes the expired windows.
unfoldable pub live : ℕ → ℕ → Clients → Clients
live window now [] = []
live window now ((c, s) ∷ cs) =
    let rest = live window now cs in if is_expired window now s then rest else (c, s) ∷ rest

-- The key of the oldest live window, as the same pass finds it.
unfoldable pub oldest_key : Clients → String → ℕ → String
oldest_key [] key oldest = key
oldest_key ((c, s) ∷ cs) key oldest = elim (str_eq key "" || ltb s.started oldest) [
  | true ↦ oldest_key cs c s.started
  | false ↦ oldest_key cs key oldest
]

-- The last loop, which deletes any client while there are too many.
unfoldable pub shrink : Clients → Clients
shrink [] = []
shrink (c ∷ cs) =
    let rest = shrink cs in if ltb max_tracked_clients (length (c ∷ cs)) then rest else c ∷ cs

-- The eviction of the oldest one, after the expired ones are gone.
unfoldable pub evict_oldest : ℕ → Clients → Clients
unfolding oldest_key
evict_oldest now cs =
    let key = oldest_key cs "" now in
    if ltb max_tracked_clients (length cs) && not (str_eq key "") then delete key cs else cs

unfoldable pub bound : ℕ → ℕ → Clients → Clients
unfolding live evict_oldest shrink
bound window now cs =
    if ltb max_tracked_clients (length cs)
    then shrink (evict_oldest now (live window now cs))
    else cs

-- The first request of a window.
unfoldable pub open_window : RateLimiter → String → ℕ → Bool × ℕ × RateLimiter
unfolding bound
open_window l key now = (
  true,
  0,
  record l {
    clients = bound l.window now (put key (record { started = now; count = 1 }) l.clients);
  },
)

-- A further request of a window: refused with the delay once the limit is reached.
unfoldable pub count_request : RateLimiter → String → ℕ → RateLimitState → Bool × ℕ × RateLimiter
count_request l key now s =
    if leb l.limit s.count
    then (false, l.window - (now - s.started), l)
    else (true, 0, record l { clients = put key (record s { count = s.count + 1 }) l.clients })

-- `now.Sub(state.started) >= 0 && now.Sub(state.started) < l.window`
abbrev pub is_current : ℕ → ℕ → RateLimitState → Bool
is_current window now s = leb s.started now && ltb (now - s.started) window

unfoldable pub admit : RateLimiter → String → ℕ → Option RateLimitState → Bool × ℕ × RateLimiter
unfolding open_window count_request
admit l key now none = open_window l key now
admit l key now (some s) =
    if is_current l.window now s then count_request l key now s else open_window l key now

unfoldable pub client_key : String → String
client_key key = let k = trim key in if str_eq k "" then "unknown" else k

-- `Allow` at a time, with the limiter that it leaves
unfoldable pub allow : RateLimiter → String → ℕ → Bool × ℕ × RateLimiter
unfolding admit
allow l key now = let k = client_key key in admit l k now (lookup k l.clients)

-- The `Retry-After` header of `RateLimit`, in seconds
unfoldable pub retry_after_seconds : ℕ → ℕ
retry_after_seconds delay =
    let seconds = (delay + second - 1) / second in if ltb seconds 1 then 1 else seconds

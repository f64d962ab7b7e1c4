-- ===== src/RateLimiter/Window.antt =====
-- What the rate limiter promises for a window: its quota.
use text.Mathlib.Text.{◌==◌ as str_eq}
use text.Mathlib.TextEquality.{eq_iff}
use mini_paa_s.Common.{
  ℕ, suc, ◌+◌, ◌-◌, min, ◌≤◌, ◌<◌, ◌≡◌, ◌≢◌, refl, sym, subst, ◌∙◌, ap, Bool, true, false, ◌&&◌,
  String, List, [], ◌∷◌, Option, none, some, ltb, leb, if◌then◌else◌, length, arith, Bool-cases,
  inl, inr, All,
}
use mini_paa_s.RateLimiter.{
  RateLimiter, RateLimitState, lookup, put, open_window, admit, allow, client_key, is_current,
  max_tracked_clients,
}
use mini_paa_s.RateLimiter.Clients.{lookup-put_self, lookup-put_ne, length-put_le, bound_small}

-- How many requests of the client `k` are let through, and how many it makes.
abbrev pub admitted : RateLimiter → String → List (String × ℕ) → ℕ
admitted l k [] = 0
admitted l k ((key, now) ∷ rs) =
    let (ok, _, l') = allow l key now in
    (if ok && str_eq (client_key key) k then 1 else 0) + admitted l' k rs

abbrev pub requests_of : String → List (String × ℕ) → ℕ
requests_of k [] = 0
requests_of k ((key, now) ∷ rs) = (if str_eq (client_key key) k then 1 else 0) + requests_of k rs

-- One request: what the limiter answers and how it goes on, seen from the client `k`.
abbrev Answer : RateLimiter → String → ℕ → ℕ → Bool → Bool × ℕ × RateLimiter → Type 0
Answer l k started count own (ok, delay, l') =
    (c : ℕ) × (lookup k l'.clients ≡ some (record { started = started; count = c }))
    × (l'.limit ≡ l.limit)
    × (l'.window ≡ l.window)
    × (length l'.clients ≤ suc (length l.clients))
    × (c ≡ count + (if ok && own then 1 else 0))
    × ((own ≡ true) → (ok ≡ ltb count l.limit))

own_request :
    (l : RateLimiter) (k : String) (now started count : ℕ)
    → lookup k l.clients ≡ some (record { started = started; count = count })
    → (started ≤ now) × (now < started + l.window)
    → Answer l k started count true
        (admit l k now (some (record { started = started; count = count })))
unfolding admit
own_request l k now started count at h =
    let c : is_current l.window now (record { started = started; count = count }) ≡ true =
      ground (arith, h) in
    rw c (elim (Bool-cases (leb l.limit count)) [
      | inl full ↦
          rw full (count, at, refl, refl, omega arith, omega arith, λ _. ground (arith, full))
      | inr free ↦ rw free (
        count + 1,
        lookup-put_self k _ l.clients,
        refl,
        refl,
        length-put_le k _ l.clients,
        omega arith,
        λ _. ground (arith, free),
      )
    ])

-- A request of another client, while the map has room for one more.
opened :
    (l : RateLimiter) (j : String) (now : ℕ)
    → length l.clients < max_tracked_clients
    → (open_window l j now).2.clients ≡ put j (record { started = now; count = 1 }) l.clients
unfolding open_window
opened l j now room =
    bound_small l.window now (put j (record { started = now; count = 1 }) l.clients)
      (omega (arith, length-put_le j (record { started = now; count = 1 }) l.clients))

open_other :
    (l : RateLimiter) (j k : String) (now started count : ℕ)
    → j ≢ k
    → length l.clients < max_tracked_clients
    → lookup k l.clients ≡ some (record { started = started; count = count })
    → Answer l k started count false (open_window l j now)
unfolding open_window
open_other l j k now started count n room at =
    let new : RateLimitState = record { started = now; count = 1 } in
    let e = opened l j now room in
    (
      count,
      ap (lookup k) e ∙ lookup-put_ne j k new l.clients n ∙ at,
      refl,
      refl,
      subst (λ cs. length cs ≤ suc (length l.clients)) (sym e) (length-put_le j new l.clients),
      omega arith,
      λ x. absurd (cc x),
    )

other_request :
    (l : RateLimiter) (j k : String) (now started count : ℕ) (o : Option RateLimitState)
    → j ≢ k
    → length l.clients < max_tracked_clients
    → lookup k l.clients ≡ some (record { started = started; count = count })
    → Answer l k started count false (admit l j now o)
unfolding admit
other_request l j k now started count none n room at = open_other l j k now started count n room at
other_request l j k now started count (some s) n room at =
    elim (Bool-cases (is_current l.window now s)) [
      | inl c ↦ elim (Bool-cases (leb l.limit s.count)) [
        | inl full ↦
            rw (c, full) (count, at, refl, refl, omega arith, omega arith, λ x. absurd (cc x))
        | inr free ↦
            rw (c, free)
              (
                count,
                lookup-put_ne j k _ l.clients n ∙ at,
                refl,
                refl,
                length-put_le j _ l.clients,
                omega arith,
                λ x. absurd (cc x),
              )
      ]
      | inr c ↦ rw c (open_other l j k now started count n room at)
    ]

any_request :
    (l : RateLimiter) (key k : String) (now started count : ℕ)
    → length l.clients < max_tracked_clients
    → lookup k l.clients ≡ some (record { started = started; count = count })
    → (started ≤ now) × (now < started + l.window)
    → Answer l k started count (str_eq (client_key key) k) (allow l key now)
unfolding allow
any_request l key k now started count room at h = elim (Bool-cases (str_eq (client_key key) k)) [
  | inl own ↦
      let same : client_key key ≡ k = (eq_iff (client_key key) k).0 own in
      rw own (rw same (rw at (own_request l k now started count at h)))
  | inr other ↦
      let differ : client_key key ≢ k = λ e. absurd (cc (other, (eq_iff (client_key key) k).1 e)) in
      rw other (other_request l (client_key key) k now started count _ differ room at)
]

-- The arithmetic of one step.
within :
    (ok own : Bool) (limit limit' count c : ℕ)
    → (own ≡ true → ok ≡ ltb count limit)
    → c ≡ count + (if ok && own then 1 else 0)
    → limit' ≡ limit
    → count ≤ limit
    → c ≤ limit'
within true true limit limit' count c g s e h = let t = g refl in ground (arith, t, s, e, h)
within false own limit limit' count c g s e h = omega (arith, s, e, h)
within true false limit limit' count c g s e h = omega (arith, s, e, h)

counted :
    (ok own : Bool) (limit limit' count c rest n : ℕ)
    → (own ≡ true → ok ≡ ltb count limit)
    → c ≡ count + (if ok && own then 1 else 0)
    → limit' ≡ limit
    → count ≤ limit
    → rest ≡ min (limit' - c) n
    → (if ok && own then 1 else 0) + rest ≡ min (limit - count) ((if own then 1 else 0) + n)
counted true true limit limit' count c rest n g s e h r =
    let t = g refl in ground (arith, t, s, e, h, r)
counted false true limit limit' count c rest n g s e h r =
    let t = g refl in ground (arith, t, s, e, h, r)
counted true false limit limit' count c rest n g s e h r = omega (arith, s, e, h, r)
counted false false limit limit' count c rest n g s e h r = omega (arith, s, e, h, r)

-- While the window of a client lasts, exactly as many of its requests are let through as the limit
-- leaves, or all where it makes fewer, however the requests of other clients come between, as long
-- as the map has room for them all.
pub window_quota :
    (rs : List (String × ℕ)) (l : RateLimiter) (k : String) (started count : ℕ)
    → lookup k l.clients ≡ some (record { started = started; count = count })
    → count ≤ l.limit
    → All (λ r. (started ≤ r.1) × (r.1 < started + l.window)) rs
    → length l.clients + length rs ≤ max_tracked_clients
    → admitted l k rs ≡ min (l.limit - count) (requests_of k rs)
window_quota [] l k started count at le times room = omega arith
window_quota ((key, now) ∷ rs) l k started count at le times room =
    let l' : RateLimiter = (allow l key now).2 in
    let ok : Bool = (allow l key now).0 in
    let own : Bool = str_eq (client_key key) k in
    let (c, at', lim, win, len, sum, grants) =
      any_request l key k now started count (omega arith) at times.0 in
    let rest : admitted l' k rs ≡ min (l'.limit - c) (requests_of k rs) =
      window_quota rs l' k started c at' (within ok own l.limit l'.limit count c grants sum lim le)
        (rw win times.1) (omega arith) in
    counted ok own l.limit l'.limit count c (admitted l' k rs) (requests_of k rs) grants sum lim le
      rest

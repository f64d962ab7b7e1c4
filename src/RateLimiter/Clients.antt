-- ===== src/RateLimiter/Clients.antt =====
-- The map of clients of the rate limiter: reading after writing, and its size.
use text.Mathlib.Text.{◌==◌ as str_eq}
use text.Mathlib.TextEquality.{eq_iff}
use mini_paa_s.Common.{
  ℕ, suc, ◌≤◌, ◌≡◌, ◌≢◌, refl, sym, subst, ◌∙◌, ap, false, String, [], ◌∷◌, some, ltb,
  if◌then◌else◌, length, arith, Bool-cases, inl, inr,
}
use mini_paa_s.RateLimiter.{
  RateLimitState, Clients, lookup, put, live, shrink, evict_oldest, bound, max_tracked_clients,
}

str_eq-false : (a b : String) → a ≢ b → str_eq a b ≡ false
str_eq-false a b n = elim (Bool-cases (str_eq a b)) [
  | inl e ↦ absurd (n ((eq_iff a b).0 e))
  | inr e ↦ e
]

pub lookup-put_self :
    (k : String) (s : RateLimitState) (cs : Clients) → lookup k (put k s cs) ≡ some s
lookup-put_self k s [] = rw ((eq_iff k k).1 refl) refl
lookup-put_self k s ((c, old) ∷ cs) = elim (Bool-cases (str_eq c k)) [
  | inl e ↦ rw e (rw e refl)
  | inr e ↦ rw e (rw e (lookup-put_self k s cs))
]

pub lookup-put_ne :
    (k j : String) (s : RateLimitState) (cs : Clients) → k ≢ j → lookup j (put k s cs) ≡ lookup j cs
lookup-put_ne k j s [] n = rw (str_eq-false k j n) refl
lookup-put_ne k j s ((c, old) ∷ cs) n = elim (Bool-cases (str_eq c k)) [
  | inl e ↦
      let i : c ≡ k = (eq_iff c k).0 e in
      let m : str_eq c j ≡ false = str_eq-false c j (λ p. n (sym i ∙ p)) in rw e (rw m refl)
  | inr e ↦ rw e (ap (λ r. if str_eq c j then some old else r) (lookup-put_ne k j s cs n))
]

pub length-put_le :
    (k : String) (s : RateLimitState) (cs : Clients) → length (put k s cs) ≤ suc (length cs)
length-put_le k s [] = omega arith
length-put_le k s ((c, old) ∷ cs) = elim (Bool-cases (str_eq c k)) [
  | inl e ↦ rw e (omega arith)
  | inr e ↦ rw e (omega (arith, length-put_le k s cs))
]

pub length-put :
    (k : String) (s old : RateLimitState) (cs : Clients)
    → lookup k cs ≡ some old
    → length (put k s cs) ≡ length cs
length-put k s old [] h = cc
length-put k s old ((c, o) ∷ cs) h = elim (Bool-cases (str_eq c k)) [
  | inl e ↦ rw e refl
  | inr e ↦
      let next : lookup k cs ≡ some old =
        subst (λ b. (if b then some o else lookup k cs) ≡ some old) e h in
      rw e (ap suc (length-put k s old cs next))
]

pub length-shrink : (cs : Clients) → length (shrink cs) ≤ max_tracked_clients
unfolding shrink
length-shrink [] = omega arith
length-shrink (c ∷ cs) = ground (arith, length-shrink cs)

-- Whatever the map held, it is within its bound after `bound`.
pub length-bound :
    (window now : ℕ) (cs : Clients) → length (bound window now cs) ≤ max_tracked_clients
unfolding bound
length-bound window now cs = elim (Bool-cases (ltb max_tracked_clients (length cs))) [
  | inl e ↦ rw e (length-shrink (evict_oldest now (live window now cs)))
  | inr e ↦ rw e (ground arith)
]

pub bound_small :
    (window now : ℕ) (cs : Clients) → length cs ≤ max_tracked_clients → bound window now cs ≡ cs
unfolding bound
bound_small window now cs h =
    let e : ltb max_tracked_clients (length cs) ≡ false = ground arith in rw e refl

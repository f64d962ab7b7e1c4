-- ===== src/Deploy/Runs.antt =====
-- What the summary of a request becomes when an action is carried out, and the rules by which that
-- follows from the parts of the action.
use mini_paa_s.Common.{ℕ, ◌≡◌, refl, Bool, true, false, if◌then◌else◌, Bool-cases, inl, inr}
use mini_paa_s.Domain.{Error, external}
use mini_paa_s.Deploy.Effects.{
  Call, Ctx, Trace, Result, ok, err, Action, pure, raise, ◌>>=◌, or_else, ignore, deferred, gets,
  Env, perform, asked, answered, Lookup,
}
use mini_paa_s.Deploy.View.{View, observe, advance}

-- From every trace with the summary `v`, the action ends as `Q` says.
pub record Runs {A : Type 0} (dep : ℕ) (m : Action A) (v : View) (Q : Result A → View → Type 0)
    : Type 0 where
  pub at : (t : Trace) → observe dep t ≡ v → Q (m t).0 (observe dep (m t).1)

-- The rules, one for each way to build an action. In each the postcondition of a part comes before
-- that of the whole.
module _ {A B : Type 0} (dep : ℕ) where
  bind_at :
      (f : A → Action B) (r : Result A) (t : Trace) (P : Result A → View → Type 0)
      (Q : Result B → View → Type 0)
      → P r (observe dep t)
      → ((a : A) (w : View) → P (ok a) w → Runs dep (f a) w Q)
      → ((e : Error) (w : View) → P (err e) w → Q (err e) w)
      → let s : Result B × Trace = elim r [ ok a ↦ f a t | err e ↦ (err e, t) ] in
        Q s.0 (observe dep s.1)
  bind_at f (ok a) t P Q p k x = (k a (observe dep t) p).at t refl
  bind_at f (err e) t P Q p k x = x e (observe dep t) p

  pub Runs-bind :
      {m : Action A} {f : A → Action B} {v : View} (P : Result A → View → Type 0)
      {Q : Result B → View → Type 0}
      → Runs dep m v P
      → ((a : A) (w : View) → P (ok a) w → Runs dep (f a) w Q)
      → ((e : Error) (w : View) → P (err e) w → Q (err e) w)
      → Runs dep (m >>= f) v Q
  unfolding ◌>>=◌
  Runs-bind {m} {f} {v} P {Q} p k x = record {
    at = λ t e. bind_at f (m t).0 (m t).1 P Q (p.at t e) k x;
  }

-- From this trace, the action ends as `Q` says.
pub record RunsAt {A : Type 0} (dep : ℕ) (m : Action A) (t : Trace) (Q : Result A → View → Type 0)
    : Type 0 where
  pub holds : Q (m t).0 (observe dep (m t).1)

-- Where the first part succeeds, the whole is the second part at the trace that it left.
pub bind_ok :
    {A B : Type 0} (m : Action A) (f : A → Action B) (t : Trace) (a : A)
    → (m t).0 ≡ ok a
    → (m >>= f) t ≡ f a (m t).1
unfolding ◌>>=◌
bind_ok m f t a e = rw (◌>>=◌, e) refl

module _ {A B : Type 0} (dep : ℕ) where
  -- The rule for a second part that is known only at the trace that the first one leaves.
  pub RunsAt-bind :
      {m : Action A} {f : A → Action B} {t : Trace} (P : Result A → View → Type 0)
      {Q : Result B → View → Type 0}
      → RunsAt dep m t P
      → ((a : A) → (m t).0 ≡ ok a → P (ok a) (observe dep (m t).1) → RunsAt dep (f a) (m t).1 Q)
      → ((e : Error) (w : View) → P (err e) w → Q (err e) w)
      → RunsAt dep (m >>= f) t Q
  unfolding ◌>>=◌
  RunsAt-bind {m} {f} {t} P {Q} p k x = record { holds = by_result (m t).0 refl p.holds }
    where
      by_result :
          (r : Result A)
          → (m t).0 ≡ r
          → P r (observe dep (m t).1)
          → let s : Result B × Trace = elim r [ ok a ↦ f a (m t).1 | err e ↦ (err e, (m t).1) ] in
            Q s.0 (observe dep s.1)
      by_result (ok a) i h = (k a i h).holds
      by_result (err e) i h = x e (observe dep (m t).1) h

module _ {A : Type 0} (dep : ℕ) where
  pub RunsAt-deferred :
      {m : Action A} {last : Action (Unit {0})} {t : Trace} (P : Result A → View → Type 0)
      {Q : Result A → View → Type 0}
      → RunsAt dep m t P
      → ((r : Result A) (w : View) → P r w → Runs dep last w (λ _ w'. Q r w'))
      → RunsAt dep (deferred m last) t Q
  unfolding deferred
  RunsAt-deferred {m} {last} {t} P p k = record {
    holds = (k (m t).0 (observe dep (m t).1) p.holds).at (m t).1 refl;
  }

  pub Runs-RunsAt :
      {m : Action A} {t : Trace} {v : View} {Q : Result A → View → Type 0}
      → Runs dep m v Q
      → observe dep t ≡ v
      → RunsAt dep m t Q
  Runs-RunsAt {m} {t} p e = record { holds = p.at t e }

module _ {A : Type 0} (dep : ℕ) where
  else_at :
      (h : Action A) (r : Result A) (t : Trace) (P Q : Result A → View → Type 0)
      → P r (observe dep t)
      → ((a : A) (w : View) → P (ok a) w → Q (ok a) w)
      → ((e : Error) (w : View) → P (err e) w → Runs dep h w Q)
      → let s : Result A × Trace = elim r [ ok a ↦ (ok a, t) | err e ↦ h t ] in
        Q s.0 (observe dep s.1)
  else_at h (ok a) t P Q p k x = k a (observe dep t) p
  else_at h (err e) t P Q p k x = (x e (observe dep t) p).at t refl

  pub Runs-or_else :
      {m h : Action A} {v : View} (P : Result A → View → Type 0) {Q : Result A → View → Type 0}
      → Runs dep m v P
      → ((a : A) (w : View) → P (ok a) w → Q (ok a) w)
      → ((e : Error) (w : View) → P (err e) w → Runs dep h w Q)
      → Runs dep (or_else m h) v Q
  unfolding or_else
  Runs-or_else {m} {h} {v} P {Q} p k x = record {
    at = λ t e. else_at h (m t).0 (m t).1 P Q (p.at t e) k x;
  }

  pub Runs-if :
      (b : Bool) {m n : Action A} {v : View} {Q : Result A → View → Type 0}
      → Runs dep m v Q
      → Runs dep n v Q
      → Runs dep (if b then m else n) v Q
  Runs-if true p q = p
  Runs-if false p q = q

  pub Runs-case :
      (b : Bool) {m n : Action A} {v : View} {Q : Result A → View → Type 0}
      → (b ≡ true → Runs dep m v Q)
      → (b ≡ false → Runs dep n v Q)
      → Runs dep (if b then m else n) v Q
  Runs-case true p q = p refl
  Runs-case false p q = q refl

  pub Runs-deferred :
      {m : Action A} {last : Action (Unit {0})} {v : View} (P : Result A → View → Type 0)
      {Q : Result A → View → Type 0}
      → Runs dep m v P
      → ((r : Result A) (w : View) → P r w → Runs dep last w (λ _ w'. Q r w'))
      → Runs dep (deferred m last) v Q
  unfolding deferred
  Runs-deferred {m} P p k = record {
    at = λ t e. (k (m t).0 (observe dep (m t).1) (p.at t e)).at (m t).1 refl;
  }

  pub Runs-weaken :
      {m : Action A} {v : View} (P : Result A → View → Type 0) {Q : Result A → View → Type 0}
      → Runs dep m v P
      → ((r : Result A) (w : View) → P r w → Q r w)
      → Runs dep m v Q
  Runs-weaken {m} P p k = record { at = λ t e. k (m t).0 (observe dep (m t).1) (p.at t e) }

  -- The summary under another name.
  pub Runs-from :
      {m : Action A} {v w : View} {Q : Result A → View → Type 0}
      → w ≡ v
      → Runs dep m v Q
      → Runs dep m w Q
  Runs-from e p = rw e p

  pub Runs-ignored :
      {m : Action A} {v : View} (P : Result A → View → Type 0)
      {Q : Result (Unit {0}) → View → Type 0}
      → Runs dep m v P
      → ((r : Result A) (w : View) → P r w → Q (ok tt) w)
      → Runs dep (ignore m) v Q
  unfolding ignore
  Runs-ignored {m} P p k = record { at = λ t e. k (m t).0 (observe dep (m t).1) (p.at t e) }

  pub Runs-gets :
      (f : Trace → A) {v : View} {Q : Result A → View → Type 0}
      → ((a : A) → Q (ok a) v)
      → Runs dep (gets f) v Q
  unfolding gets
  Runs-gets f q = record { at = λ t e. rw e (q (f t)) }

  pub Runs-pure :
      (a : A) {v : View} {Q : Result A → View → Type 0} → Q (ok a) v → Runs dep (pure a) v Q
  unfolding pure
  Runs-pure a q = record { at = λ t e. rw e q }

  pub Runs-raise :
      (x : Error) {v : View} {Q : Result A → View → Type 0} → Q (err x) v → Runs dep (raise x) v Q
  unfolding raise
  Runs-raise x q = record { at = λ t e. rw e q }

module _ (env : Env) (dep : ℕ) where
  pub Runs-perform :
      (ctx : Ctx) (c : Call) {v : View} {Q : Result (Unit {0}) → View → Type 0}
      → Q (ok tt) (advance dep c ctx true v)
      → Q (err external) (advance dep c ctx false v)
      → Runs dep (perform env ctx c) v Q
  unfolding perform
  Runs-perform ctx c p q = record {
    at = λ t e. elim (Bool-cases (env.succeeds t ctx c)) [
      | inl s ↦ rw (s, e) p
      | inr s ↦ rw (s, e) q
    ];
  }

  pub Runs-ignore :
      (ctx : Ctx) (c : Call) {v : View} {Q : Result (Unit {0}) → View → Type 0}
      → Q (ok tt) (advance dep c ctx true v)
      → Q (ok tt) (advance dep c ctx false v)
      → Runs dep (ignore (perform env ctx c)) v Q
  unfolding perform ignore
  Runs-ignore ctx c p q = record {
    at = λ t e. elim (Bool-cases (env.succeeds t ctx c)) [
      | inl s ↦ rw (s, e) p
      | inr s ↦ rw (s, e) q
    ];
  }

  -- A query at one given trace: its answer is the one of that trace, and nothing changes.
  pub RunsAt-asked :
      {A : Type 0} (ctx : Ctx) (c : Call) (f : Trace → Lookup A) {t : Trace} {v : View}
      {Q : Result (Lookup A) → View → Type 0}
      → observe dep t ≡ v
      → ((b : Bool) → advance dep c ctx b v ≡ v)
      → Q (ok (f t)) v
      → RunsAt dep (asked env ctx c f) t Q
  unfolding asked
  RunsAt-asked ctx c f {t} e k q = record { holds = rw (e, k (answered (f t))) q }

  -- A query answers anything and changes nothing.
  pub Runs-asked :
      {A : Type 0} (ctx : Ctx) (c : Call) (f : Trace → Lookup A) {v : View}
      {Q : Result (Lookup A) → View → Type 0}
      → ((b : Bool) → advance dep c ctx b v ≡ v)
      → ((t : Trace) → Q (ok (f t)) v)
      → Runs dep (asked env ctx c f) v Q
  unfolding asked
  Runs-asked ctx c f k q = record { at = λ t e. rw (e, k (answered (f t))) (q t) }

-- ===== src/Webhook/Once.antt =====
-- A delivery starts deployments once.
use mini_paa_s.Common.{
  ℕ, ◌≡◌, refl, ◌∙◌, true, false, ◌&&◌, ◌||◌, List, [], ◌∷◌, ◌++◌, Option, none, some, ◌==◌,
  if◌then◌else◌, text_eq, codes, trim_prefix, arith, Bool-cases, inl, inr,
}
use mini_paa_s.GitSources.{GitSource}
use mini_paa_s.Webhook.{
  Delivery, Created, State, Push, Env, Status, is_claimed, complete_rows, complete, is_zero_sha,
  matches, can_create, start_all, finish, process, claim, is_invalid, with_payload, handle,
}

-- The deployments that a delivery created
abbrev pub of_delivery : ℕ → List Created → List Created
of_delivery d [] = []
of_delivery d (c ∷ cs) = if c.delivery == d then c ∷ of_delivery d cs else of_delivery d cs

-- A request: what it meets, the event, the delivery and the payload.
abbrev pub Request : Type 0
Request = Env × List ℕ × ℕ × Option Push

pub run : List Request → State → State
unfolding handle
run [] st = st
run ((env, event, d, payload) ∷ rs) st = run rs (handle env event d payload st).0

-- The delivery is claimed, and what it created is this.
abbrev Settled : ℕ → List Created → State → Type 0
Settled d cs st = (is_claimed d st.deliveries ≡ true) × (of_delivery d st.created ≡ cs)

complete_rows-is_claimed :
    (d x : ℕ) (status : Status) (rows : List Delivery)
    → is_claimed d (complete_rows x status rows) ≡ is_claimed d rows
complete_rows-is_claimed d x status [] = refl
complete_rows-is_claimed d x status (r ∷ rows) =
    ground (arith, complete_rows-is_claimed d x status rows)

complete-Settled :
    (env : Env) (d x : ℕ) (status : Status) (cs : List Created) (st : State)
    → Settled d cs st
    → Settled d cs (complete env x status st)
complete-Settled env d x status cs st (c, o) = elim (Bool-cases env.completes) [
  | inl y ↦ rw y (complete_rows-is_claimed d x status st.deliveries ∙ c, o)
  | inr n ↦ rw n (c, o)
]

start_all-of_delivery :
    (env : Env) (push : Push) (branch : List ℕ) (d x : ℕ) (ss : List GitSource)
    → (x == d) ≡ false
    → of_delivery d (start_all env push branch x ss) ≡ []
unfolding start_all
start_all-of_delivery env push branch d x [] n = refl
start_all-of_delivery env push branch d x (s ∷ ss) n =
    elim (Bool-cases (matches push branch s && can_create env branch s)) [
      | inl y ↦ rw (y, n) (start_all-of_delivery env push branch d x ss n)
      | inr m ↦ rw m (start_all-of_delivery env push branch d x ss n)
    ]

of_delivery-append :
    (d : ℕ) (cs ds : List Created)
    → of_delivery d cs ≡ []
    → of_delivery d (cs ++ ds) ≡ of_delivery d ds
of_delivery-append d [] ds h = refl
of_delivery-append d (c ∷ cs) ds h = elim (Bool-cases (c.delivery == d)) [
  | inl y ↦ absurd (cc (rw y at h))
  | inr n ↦ rw n (of_delivery-append d cs ds (rw n at h))
]

finish-Settled :
    (env : Env) (d x : ℕ) (new cs : List Created) (st : State)
    → of_delivery d new ≡ []
    → Settled d cs st
    → Settled d cs (finish env x new st).0
finish-Settled env d x [] cs st e h = complete-Settled env d x Status.ignored cs st h
finish-Settled env d x (c ∷ new) cs st e (k, o) =
    complete-Settled env d x Status.accepted cs (record st { created = (c ∷ new) ++ st.created })
      (k, of_delivery-append d (c ∷ new) st.created e ∙ o)

process-Settled :
    (env : Env) (push : Push) (d x : ℕ) (cs : List Created) (st : State)
    → (x == d) ≡ false
    → Settled d cs st
    → Settled d cs (process env push x st).0
unfolding process
process-Settled env push d x cs st n h =
    let branch : List ℕ = trim_prefix push.ref (codes "refs/heads/") in
    elim (Bool-cases (push.deleted || text_eq branch push.ref || is_zero_sha push.after)) [
      | inl y ↦ rw y (complete-Settled env d x Status.ignored cs st h)
      | inr m ↦ rw m (elim (Bool-cases env.lists) [
        | inl l ↦
            rw l (finish-Settled env d x _ cs st (start_all-of_delivery env push branch d x _ n) h)
        | inr l ↦ rw l (complete-Settled env d x Status.failed cs st h)
      ])
    ]

unclaimed_other :
    (d x : ℕ) (rows : List Delivery)
    → is_claimed x rows ≡ false
    → is_claimed d rows ≡ true
    → (x == d) ≡ false
unclaimed_other d x rows new old = elim (Bool-cases (x == d)) [
  | inl y ↦ let i : x ≡ d = ground (arith, y) in absurd (cc (i, new, old))
  | inr n ↦ n
]

claim-Settled :
    (env : Env) (push : Push) (d x : ℕ) (cs : List Created) (st : State)
    → Settled d cs st
    → Settled d cs (claim env push x st).0
unfolding claim
claim-Settled env push d x cs st h = elim (Bool-cases env.claims) [
  | inr n ↦ rw n h
  | inl y ↦ rw y (elim (Bool-cases (is_claimed x st.deliveries)) [
    | inl old ↦ rw old h
    | inr new ↦ rw new (
        process-Settled env push d x cs
          (record st { deliveries = record { id = x; status = Status.received } ∷ st.deliveries })
          (unclaimed_other d x st.deliveries new h.0) (ground (arith, h.0), h.1))
  ])
]

handle-Settled :
    (env : Env) (event : List ℕ) (d x : ℕ) (payload : Option Push) (cs : List Created) (st : State)
    → Settled d cs st
    → Settled d cs (handle env event x payload st).0
unfolding handle with_payload
handle-Settled env event d x none cs st h = elim (Bool-cases (text_eq event (codes "push"))) [
  | inl y ↦ rw y h
  | inr n ↦ rw n h
]
handle-Settled env event d x (some push) cs st h =
    elim (Bool-cases (text_eq event (codes "push"))) [
      | inl y ↦ rw y (elim (Bool-cases (is_invalid x push)) [
        | inl bad ↦ rw bad h
        | inr good ↦ rw good (claim-Settled env push d x cs st h)
      ])
      | inr n ↦ rw n h
    ]

-- Once a delivery is claimed, no request creates a deployment for it any more: whatever requests
-- follow, for it or for other deliveries, with whatever payloads and failures, the deployments that
-- it created stay those that it had created then.
pub run-of_delivery :
    (rs : List Request) (d : ℕ) (st : State)
    → is_claimed d st.deliveries ≡ true
    → of_delivery d (run rs st).created ≡ of_delivery d st.created
unfolding run
run-of_delivery rs d st h = (settled rs st (h, refl)).1
  where
    settled :
        (rs : List Request) (st' : State)
        → Settled d (of_delivery d st.created) st'
        → Settled d (of_delivery d st.created) (run rs st')
    settled [] st' k = k
    settled ((env, event, x, payload) ∷ rs) st' k =
        settled rs (handle env event x payload st').0 (handle-Settled env event d x payload _ st' k)

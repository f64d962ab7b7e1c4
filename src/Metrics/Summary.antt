-- ===== src/Metrics/Summary.antt =====
-- The summary against counts of the statuses, and its bounds.
use mini_paa_s.Common.{
  ℕ, ◌+◌, ◌*◌, ◌/◌, ◌≤◌, ◌<◌, ◌≡◌, refl, ◌∙◌, Bool, true, false, List, [], ◌∷◌, ltb, if◌then◌else◌,
  length, total, arith, All, Bool-cases, inl, inr,
}
use mini_paa_s.Domain.{DeploymentStatus}
use mini_paa_s.Metrics.{
  Item, Tally, count_status, count_duration, count_items, with_average, summarize,
}

-- The deployments that were published once, and those that ended before
abbrev pub was_published : DeploymentStatus → Bool
was_published DeploymentStatus.running = true
was_published DeploymentStatus.superseded = true
was_published DeploymentStatus.rolled_back = true
was_published DeploymentStatus.stopped = true
was_published _ = false

abbrev pub has_failed : DeploymentStatus → Bool
has_failed DeploymentStatus.failed = true
has_failed DeploymentStatus.cancelled = true
has_failed _ = false

abbrev pub count_of : (DeploymentStatus → Bool) → List Item → ℕ
count_of p items = total (λ i. if p i.status then 1 else 0) items

abbrev pub durations : List Item → ℕ
durations items = total (λ i. i.duration) items

abbrev pub timed : List Item → ℕ
timed items = total (λ i. if ltb 0 i.duration then 1 else 0) items

-- What the loop adds to the tally that it starts with.
record Adds (items : List Item) (m m' : Tally) : Type 0 where
  kept : (m'.total ≡ m.total) × (m'.average_duration ≡ m.average_duration)
  published : m'.successful ≡ m.successful + count_of was_published items
  failures : m'.failed ≡ m.failed + count_of has_failed items
  parts :
      m'.successful + m'.failed + m'.in_progress
      ≡ m.successful + m.failed + m.in_progress + length items
  time : m'.duration_total ≡ m.duration_total + durations items
  count : m'.duration_count ≡ m.duration_count + timed items

status_one :
    (status : DeploymentStatus) (m : Tally)
    → let n = count_status status m in
      (n.total ≡ m.total)
      × (n.average_duration ≡ m.average_duration)
      × (n.successful ≡ m.successful + (if was_published status then 1 else 0))
      × (n.failed ≡ m.failed + (if has_failed status then 1 else 0))
      × (n.successful + n.failed + n.in_progress ≡ m.successful + m.failed + m.in_progress + 1)
      × (n.duration_total ≡ m.duration_total)
      × (n.duration_count ≡ m.duration_count)
status_one status m = ground arith

count_one :
    (i : Item) (m : Tally) → Adds (i ∷ []) m (count_duration i.duration (count_status i.status m))
count_one i m =
    let (t, a, p, f, all, d, c) = status_one i.status m in
    elim (Bool-cases (ltb 0 i.duration)) [
      | inl timed ↦ rw timed (record {
        kept = (t, a);
        published = omega (arith, p);
        failures = omega (arith, f);
        parts = omega (arith, all);
        time = omega (arith, d);
        count = rw timed (omega (arith, c));
      })
      | inr untimed ↦ rw untimed (record {
        kept = (t, a);
        published = omega (arith, p);
        failures = omega (arith, f);
        parts = omega (arith, all);
        time = ground (arith, untimed, d);
        count = rw untimed (omega (arith, c));
      })
    ]

Adds-trans :
    (i : Item) (is : List Item) (m n k : Tally)
    → Adds (i ∷ []) m n
    → Adds is n k
    → Adds (i ∷ is) m k
Adds-trans i is m n k a b = record {
  kept = (b.kept.0 ∙ a.kept.0, b.kept.1 ∙ a.kept.1);
  published = omega (arith, a.published, b.published);
  failures = omega (arith, a.failures, b.failures);
  parts = omega (arith, a.parts, b.parts);
  time = omega (arith, a.time, b.time);
  count = omega (arith, a.count, b.count);
}

durations-bounded :
    (items : List Item)
    → All (λ i. i.duration < 2147483648) items
    → durations items ≤ length items * 2147483648
durations-bounded [] h = omega arith
durations-bounded (i ∷ is) h = omega (arith, h.0, durations-bounded is h.1)

count_items-Adds : (items : List Item) (m : Tally) → Adds items m (count_items items m)
unfolding count_items
count_items-Adds [] m = record {
  kept = (refl, refl);
  published = omega arith;
  failures = omega arith;
  parts = omega arith;
  time = omega arith;
  count = omega arith;
}
count_items-Adds (i ∷ is) m =
    Adds-trans i is m _ _ (count_one i m)
      (count_items-Adds is (count_duration i.duration (count_status i.status m)))

abbrev empty : List Item → Tally
empty items = record {
  total = length items;
  successful = 0;
  failed = 0;
  in_progress = 0;
  duration_total = 0;
  duration_count = 0;
  average_duration = 0;
}

-- What the summary of the deployments is.
abbrev pub Summarizes : List Item → Tally → Type 0
Summarizes items s =
    (s.total ≡ length items)
    × (s.successful ≡ count_of was_published items)
    × (s.failed ≡ count_of has_failed items)
    × (s.successful + s.failed + s.in_progress ≡ s.total)
    × (s.average_duration ≡ (if ltb 0 (timed items) then durations items / timed items else 0))
    × (s.duration_total < 9223372036854775808)

with_average-Summarizes :
    (items : List Item) (m : Tally)
    → length items ≤ 200
    → durations items ≤ length items * 2147483648
    → Adds items (empty items) m
    → Summarizes items (with_average m)
with_average-Summarizes items m l d a =
    let c : timed items ≡ m.duration_count = omega (arith, a.count) in
    let t : durations items ≡ m.duration_total = omega (arith, a.time) in
    let w : m.successful ≡ count_of was_published items = omega (arith, a.published) in
    let f : m.failed ≡ count_of has_failed items = omega (arith, a.failures) in
    let p : m.successful + m.failed + m.in_progress ≡ m.total = omega (arith, a.parts, a.kept.0) in
    let b : m.duration_total < 9223372036854775808 = omega (arith, l, d, t) in
    elim (Bool-cases (ltb 0 m.duration_count)) [
      | inl some_timed ↦ rw some_timed (a.kept.0, w, f, p, rw (c, t, some_timed) refl, b)
      | inr untimed ↦ rw untimed (a.kept.0, w, f, p, rw (c, untimed) a.kept.1, b)
    ]

-- The summary counts every deployment once, by whether it was published, failed, or goes on; the
-- published ones are those that run or ran, the failed ones those that failed or were cancelled. The
-- average is that of the durations that are positive, 0 where there is none. With 200 deployments
-- at most, as `Get` asks for, and durations that an `int32` holds, the sum of the durations fits an
-- `int64`.
pub summarize_lem :
    (items : List Item)
    → length items ≤ 200
    → All (λ i. i.duration < 2147483648) items
    → Summarizes items (summarize items)
unfolding summarize
summarize_lem items l b =
    with_average-Summarizes items _ l (durations-bounded items b)
      (count_items-Adds items (empty items))

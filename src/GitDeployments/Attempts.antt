-- ===== src/GitDeployments/Attempts.antt =====
-- What the retries in the table of the deployments repeat.
use mini_paa_s.Common.{
  ℕ, suc, ◌+◌, ◌≤◌, ◌<◌, ◌≡◌, refl, ◌∙◌, ap, false, not, List, [], ◌∷◌, Option, none, ◌==◌, arith,
  length,
}
use mini_paa_s.Common.Results.{Result, ok, err, Satisfies, guard-Satisfies, or_err-Satisfies}
use mini_paa_s.SourceGit.{normalize_branch}
use mini_paa_s.GitSources.{get, or_branch, Table as Sources}
use mini_paa_s.GitDeployments.{
  Error, Row, find, has_id, insert, next_attempt, is_retryable, create_upload, create_git,
  create_triggered, retry, Op, uploads, creates, triggers, retries, updates, after, serve, run,
}
use mini_paa_s.GitDeployments.Origins.{
  IsRecorded, find-own, find-insert, length-update_status, All-IsRecorded-insert,
  All-IsRecorded-status, Recorded, next_attempt_lem, found-IsRecorded, attempt-positive,
}

-- A well-formed table, with one row more at most
abbrev Grown : List Row → List Row → Type 0
Grown t t' = Recorded t' × (length t' ≤ suc (length t))

insert-Recorded :
    (stored : Option ℕ) (row : ℕ → Row) (t : List Row)
    → ((id : ℕ) → (row id).id ≡ id)
    → Recorded t
    → ((id : ℕ) → has_id id t ≡ false → IsRecorded (row id ∷ t) (row id))
    → Satisfies (Grown t) (insert stored row t)
unfolding insert
insert-Recorded stored row t named h new = or_err-Satisfies (Grown t) stored _ _ λ id s.
    guard-Satisfies (Grown t) (not (has_id id t)) _ _ λ free.
      let f : has_id id t ≡ false = ground (arith, free) in
      let g : has_id (row id).id t ≡ false = ap (λ i. has_id i t) (named id) ∙ f in
      ((new id f, All-IsRecorded-insert (row id) t t g h), omega arith)

first-Recorded :
    (stored : Option ℕ) (row : ℕ → Row) (t : List Row)
    → ((id : ℕ) → ((row id).id ≡ id) × ((row id).retry_of ≡ none) × ((row id).attempt ≡ 1))
    → Recorded t
    → Satisfies (Grown t) (insert stored row t)
first-Recorded stored row t f h =
    insert-Recorded stored row t (λ id. (f id).0) h
      λ id free. (rw (f id).1 (f id).2, rw (f id).2 (omega arith))

retry-Recorded :
    (app : Option ℕ) (target_id : ℕ) (sources : Sources) (stored : Option ℕ) (t : List Row)
    → length t < 2147483647
    → Recorded t
    → Satisfies (Grown t) (retry app target_id sources stored t)
unfolding retry
retry-Recorded app target_id sources stored t l h = or_err-Satisfies (Grown t) app _ _ λ id a.
    or_err-Satisfies (Grown t) (find target_id t) _ _ λ target found.
      guard-Satisfies (Grown t) (target.app == id) _ _ λ same.
        guard-Satisfies (Grown t) target.is_git _ _ λ git.
          guard-Satisfies (Grown t) (is_retryable target.status) _ _ λ ended.
            or_err-Satisfies (Grown t) (get id sources) _ _ λ source s.
              let r = found-IsRecorded target_id target t t found h in
              let n : next_attempt target.attempt ≡ suc target.attempt =
                next_attempt_lem target.attempt (attempt-positive t target r)
                  (omega (arith, r.1, l)) in
              insert-Recorded stored _ t (λ own. refl) h
                λ own free. (
                  (
                    target,
                    find-insert _ target target.id t free (find-own target_id target t found),
                    ground (arith, same),
                    git,
                    refl,
                    n,
                  ),
                  rw n (omega (arith, r.1)),
                )

after-Grown :
    (t : List Row) (m : Result Error (List Row))
    → Recorded t
    → Satisfies (Grown t) m
    → Grown t (after t m)
after-Grown t (ok t') h g = g
after-Grown t (err e) h g = (h, omega arith)

serve-Grown : (op : Op) (t : List Row) → length t < 2147483647 → Recorded t → Grown t (serve op t)
unfolding serve create_upload create_git create_triggered
serve-Grown (uploads app stored) t l h = after-Grown t _ h (
    or_err-Satisfies (Grown t) app _ _
      λ id a. first-Recorded stored _ t (λ own. (refl, refl, refl)) h)
serve-Grown (creates app sources branch stored) t l h = after-Grown t _ h (
    or_err-Satisfies (Grown t) app _ _ λ id a.
      or_err-Satisfies (Grown t) (get id sources) _ _ λ source s.
        or_err-Satisfies (Grown t) (normalize_branch (or_branch branch source.branch)) _ _
          λ chosen b. first-Recorded stored _ t (λ own. (refl, refl, refl)) h)
serve-Grown (triggers app source branch delivery stored) t l h = after-Grown t _ h (
    or_err-Satisfies (Grown t) (normalize_branch (or_branch branch source.branch)) _ _ λ chosen b.
      or_err-Satisfies (Grown t) app _ _
        λ id a. first-Recorded stored _ t (λ own. (refl, refl, refl)) h)
serve-Grown (retries app target sources stored) t l h =
    after-Grown t _ h (retry-Recorded app target sources stored t l h)
serve-Grown (updates id status) t l h =
    (All-IsRecorded-status id status t t h, omega (arith, length-update_status id status t))

run_from :
    (ops : List Op) (t : List Row)
    → length ops + length t ≤ 2147483647
    → Recorded t
    → Recorded (run ops t)
unfolding run
run_from [] t l h = h
run_from (op ∷ ops) t l h =
    let g = serve-Grown op t (omega (arith, l)) h in
    run_from ops (serve op t) (omega (arith, l, g.1)) g.0

-- After any requests from an empty table, fewer than 2 ^ 31, whatever the stores and the sources
-- answer and however statuses change in between: a deployment that was no retry is attempt 1, and
-- each retry names a deployment of the table, of the same app and from Git like the retry, and has
-- the attempt after it. So an attempt is one more than the retries before it, and at most the number
-- of deployments.
pub run-Recorded : (ops : List Op) → length ops ≤ 2147483647 → Recorded (run ops [])
run-Recorded ops l = run_from ops [] (omega (arith, l)) tt

-- ===== src/GitSources/Runs.antt =====
-- Every request keeps the table of sources well formed.
use mini_paa_s.Common.{
  ℕ, ◌≡◌, refl, ap, ◌∙◌, Bool, true, false, not, ◌&&◌, ◌||◌, List, [], ◌∷◌, Option, none, some,
  arith, All,
}
use mini_paa_s.Common.Results.{Result, ok, err, ◌>>=◌, ◌>>◌, guard, or_err}
use mini_paa_s.GitSources.{
  GitSource, Error, is_public, Table, get, normalized, Request, store, configure, answer_of,
  is_configured, configure_github_app, delete, set_auto_deploy,
}
use mini_paa_s.GitSources.Stored.{
  IsStored, has_ids, normalized-Normal, put-IsStored, remove-IsStored, set_auto-IsStored,
}

-- A table that is answered is well formed.
abbrev Answers : Result Error Table → Type 0
Answers (ok t) = All IsStored t
Answers (err e) = Unit

Answers-guard :
    (b : Bool) (e : Error) (m : Result Error Table)
    → (b ≡ true → Answers m)
    → Answers (guard b e >> m)
Answers-guard true e m h = h refl
Answers-guard false e m h = tt

Answers-bind :
    {A : Type 0} (m : Result Error A) (f : A → Result Error Table)
    → ((a : A) → m ≡ ok a → Answers (f a))
    → Answers (m >>= f)
Answers-bind (ok a) f h = h a refl
Answers-bind (err e) f h = tt

Answers-or_err :
    {A : Type 0} (o : Option A) (e : Error) (f : A → Result Error Table)
    → ((a : A) → o ≡ some a → Answers (f a))
    → Answers (or_err o e >>= f)
Answers-or_err none e f h = tt
Answers-or_err (some a) e f h = h a refl

store-Answers :
    (r : Request) (source : GitSource) (t : Table)
    → (is_public source.access_mode || has_ids source) ≡ true
    → All IsStored t
    → Answers (store r source t)
unfolding store
store-Answers r source t i h = Answers-bind (normalized source) _ λ s n.
    let m = normalized-Normal source s n in
    let k : (is_public s.access_mode || has_ids s) ≡ true =
      ap (λ x. is_public x || has_ids s) m.mode
      ∙ (ap (λ x. is_public source.access_mode || x) m.ids ∙ i) in
    Answers-guard r.writes _ _ λ w. put-IsStored s t m.named k h

pub data Op : Type 0 where
  configures : List ℕ → GitSource → Op
  configures_app : List ℕ → ℕ → ℕ → List ℕ → List ℕ → List ℕ → Op
  deletes : List ℕ → Op
  sets_auto : List ℕ → Bool → Op

pub serve : Request → Op → Table → Result Error Table
unfolding configure configure_github_app delete set_auto_deploy
serve r (configures name source) t = configure r name source t
serve r (configures_app name i w branch context dockerfile) t =
    configure_github_app r name i w branch context dockerfile t
serve r (deletes name) t = delete r name t
serve r (sets_auto name enabled) t = set_auto_deploy r name enabled t

serve-Answers : (r : Request) (op : Op) (t : Table) → All IsStored t → Answers (serve r op t)
unfolding serve
serve-Answers r (configures name source) t h =
    Answers-bind (r.app_of name) _ λ app e. store-Answers r _ t refl h
serve-Answers r (configures_app name i w branch context dockerfile) t h =
    Answers-guard (is_configured r.github) _ _ λ c.
      Answers-bind (r.app_of name) _
        λ app e. Answers-bind (answer_of r.github i w) _ λ found g. store-Answers r _ t refl h
serve-Answers r (deletes name) t h = Answers-bind (r.app_of name) _ λ app e.
    Answers-or_err (get app t) _ _ λ s g. Answers-guard r.writes _ _ λ w. remove-IsStored app t h
serve-Answers r (sets_auto name enabled) t h = Answers-bind (r.app_of name) _ λ app e.
    Answers-or_err (get app t) _ _ λ s g.
      Answers-guard (not (enabled && is_public s.access_mode)) _ _ λ m.
        Answers-guard r.writes _ _ λ w. set_auto-IsStored app enabled s t g (ground (arith, m)) h

abbrev pub after : Table → Result Error Table → Table
after t (ok t') = t'
after t (err e) = t

after-IsStored :
    (t : Table) (m : Result Error Table) → Answers m → All IsStored t → All IsStored (after t m)
after-IsStored t (ok t') a h = a
after-IsStored t (err e) a h = h

pub run : List (Request × Op) → Table → Table
run [] t = t
run ((r, op) ∷ ops) t = run ops (after t (serve r op t))

-- After any sequence of requests, each of which may meet any user, any failure of the store and any
-- answer of GitHub, every source in the table has a repository of the form owner/name, a branch that
-- the normaliser keeps, a build context and a Dockerfile that stay inside the checkout, deploys by
-- itself only if it is a source of the GitHub App, and then has an installation and a repository id.
pub run-IsStored :
    (ops : List (Request × Op)) (t : Table) → All IsStored t → All IsStored (run ops t)
unfolding run
run-IsStored [] t h = h
run-IsStored ((r, op) ∷ ops) t h =
    run-IsStored ops (after t (serve r op t))
      (after-IsStored t (serve r op t) (serve-Answers r op t h) h)

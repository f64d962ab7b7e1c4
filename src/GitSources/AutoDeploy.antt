-- ===== src/GitSources/AutoDeploy.antt =====
-- The sources that a repository deploys by itself.
use mini_paa_s.Common.{
  ℕ, ◌≡◌, refl, true, false, not, ◌&&◌, List, [], ◌∷◌, arith, Bool-cases, inl, inr, All, Elem,
}
use mini_paa_s.GitSources.{GitSource, Table, list_auto_deploy, is_repository, is_public}

-- A source of the table that deploys by itself from the repository.
pub record Listed (wanted : ℕ) (t : Table) (s : GitSource) : Type 0 where
  pub member : Elem s t
  pub auto : s.auto_deploy ≡ true
  pub by_app : is_public s.access_mode ≡ false
  pub same_repository : is_repository s.repository_id wanted ≡ true

weaken :
    (wanted : ℕ) (r : GitSource) (t : Table) (ss : List GitSource)
    → All (Listed wanted t) ss
    → All (Listed wanted (r ∷ t)) ss
weaken wanted r t [] h = tt
weaken wanted r t (s ∷ ss) h = (
  record {
    member = inr h.0.member;
    auto = h.0.auto;
    by_app = h.0.by_app;
    same_repository = h.0.same_repository;
  },
  weaken wanted r t ss h.1,
)

pub list_auto_deploy-Listed :
    (wanted : ℕ) (t : Table) → All (Listed wanted t) (list_auto_deploy wanted t)
unfolding list_auto_deploy
list_auto_deploy-Listed wanted [] = tt
list_auto_deploy-Listed wanted (r ∷ rs) =
    let rest =
      weaken wanted r rs (list_auto_deploy wanted rs) (list_auto_deploy-Listed wanted rs) in
    elim (Bool-cases
      (is_repository r.repository_id wanted && not (is_public r.access_mode) && r.auto_deploy)) [
        | inl y ↦ rw y (
          record {
            member = inl refl;
            auto = ground (arith, y);
            by_app = ground (arith, y);
            same_repository = ground (arith, y);
          },
          rest,
        )
        | inr n ↦ rw n rest
      ]

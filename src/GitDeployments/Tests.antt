-- ===== src/GitDeployments/Tests.antt =====
-- A deployment that fails twice, is repeated twice and then runs.
use mini_paa_s.Common.{ℕ, ◌≡◌, refl, false, List, [], ◌∷◌, Option, none, some, codes, arith, map}
use mini_paa_s.Domain.{DeploymentStatus}
use mini_paa_s.GitSources.{AccessMode, Table as Sources}
use mini_paa_s.GitDeployments.{Op, uploads, creates, retries, updates, run}
use mini_paa_s.GitDeployments.Origins.{Recorded}
use mini_paa_s.GitDeployments.Attempts.{run-Recorded}

abbrev sources : Sources
sources =
    record {
      app_id = 7;
      repository = codes "acme/shop";
      branch = codes "main";
      build_context = codes ".";
      dockerfile_path = codes "Dockerfile";
      access_mode = AccessMode.public;
      installation_id = none;
      repository_id = none;
      is_private = false;
      auto_deploy = false;
      expected_commit_sha = [];
    }
    ∷ []

abbrev requests : List Op
requests =
    creates (some 7) sources [] (some 1)
    ∷ retries (some 7) 1 sources (some 2)
    ∷ updates 1 DeploymentStatus.failed
    ∷ retries (some 7) 1 sources (some 2)
    ∷ uploads (some 7) (some 3)
    ∷ updates 2 DeploymentStatus.cancelled
    ∷ retries (some 8) 2 sources (some 4)
    ∷ retries (some 7) 2 sources (some 5)
    ∷ updates 5 DeploymentStatus.running
    ∷ []

counted :
    map {B = ℕ × ℕ × Option ℕ} (λ r. (r.id, r.attempt, r.retry_of)) (run requests [])
    ≡ (5, 3, some 2) ∷ (3, 1, none) ∷ (2, 2, some 1) ∷ (1, 1, none) ∷ []
unfolding run mini_paa_s.SourceGit.normalize_branch mini_paa_s.Common.trim_space
counted = refl

run-Recorded_example : Recorded (run requests [])
run-Recorded_example = run-Recorded requests (omega arith)

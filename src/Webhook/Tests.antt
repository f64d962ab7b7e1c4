-- ===== src/Webhook/Tests.antt =====
-- A push that comes twice.
use mini_paa_s.Common.{
  ℕ, ◌≡◌, refl, ◌⊎◌, true, false, List, [], ◌∷◌, ◌++◌, some, codes, text_eq, trim_space, space_left,
  space_right, is_space, arith,
}
use mini_paa_s.GitSources.{GitSource, AccessMode}
use mini_paa_s.Webhook.{State, Push, Env, Status, handle}
use mini_paa_s.Webhook.Requests.{verify_signature, Verdict, webhook}
use mini_paa_s.Webhook.Once.{Request, of_delivery, run, run-of_delivery}
use mini_paa_s.Webhook.Matching.{Adds, handle-Adds}
use mini_paa_s.Webhook.Signatures.{hex_encode, IsSigned, verify_signature-genuine, webhook-IsSigned}

abbrev shop : GitSource
shop = record {
  app_id = 3;
  repository = codes "acme/shop";
  branch = codes "main";
  build_context = codes ".";
  dockerfile_path = codes "Dockerfile";
  access_mode = AccessMode.github_app;
  installation_id = some 70;
  repository_id = some 5;
  is_private = true;
  auto_deploy = true;
  expected_commit_sha = [];
}

abbrev push : Push
push = record {
  ref = codes "refs/heads/main";
  after = codes "c0ffee";
  deleted = false;
  repository_id = 5;
  full_name = codes "Acme/shop";
  installation_id = 70;
}

abbrev env : Env
env = record {
  claims = true;
  completes = true;
  lists = true;
  finds_app = λ app. true;
  creates = λ app. true;
}

abbrev before : State
before = record { sources = shop ∷ []; deliveries = []; created = [] }

abbrev claimed : State
claimed = record {
  sources = shop ∷ [];
  deliveries = record { id = 12; status = Status.failed } ∷ [];
  created = [];
}

abbrev redelivery : List Request
redelivery = (env, codes "push", 12, some push) ∷ (env, codes "push", 13, some push) ∷ []

-- A delivery that failed is not made up for by sending it again.
run-of_delivery_example :
    of_delivery 12 (run redelivery claimed).created ≡ of_delivery 12 claimed.created
run-of_delivery_example = run-of_delivery redelivery 12 claimed refl

handle-Adds_example : Adds push 12 before (handle env (codes "push") 12 (some push) before).0
handle-Adds_example = handle-Adds env (codes "push") 12 push before

abbrev digest : List ℕ → List ℕ → List ℕ
digest secret payload = 0xab ∷ 0x07 ∷ []

solid : text_eq (trim_space (codes "s3cret")) [] ≡ false
unfolding trim_space space_left space_right is_space
solid = refl

verify_signature-genuine_example :
    verify_signature digest
      (λ body. some push)
      (codes "s3cret")
      (codes "{}")
      (codes "sha256=" ++ hex_encode (0xab ∷ 0x07 ∷ []))
    ≡ Verdict.genuine
verify_signature-genuine_example =
    verify_signature-genuine digest (λ body. some push) (codes "s3cret") (codes "{}") solid
      (omega arith)

webhook-IsSigned_example :
    ((webhook digest
        (λ body. some push)
        (codes "s3cret")
        env
        (codes "sha256=ab08")
        (codes "push")
        12
        (some (codes "{}"))
        before).0
      ≡ before)
    ⊎ IsSigned digest (codes "s3cret") (codes "{}") (codes "sha256=ab08")
webhook-IsSigned_example =
    webhook-IsSigned digest (λ body. some push) (codes "s3cret") (codes "sha256=ab08")
      (codes "push") (codes "{}") env 12 before

-- ===== src/GitSources/Tests.antt =====
-- A source that is configured, replaced and set to deploy by itself.
use mini_paa_s.Common.{true, false, List, [], ◌∷◌, none, some, codes, All}
use mini_paa_s.Common.Results.{ok}
use mini_paa_s.GitSources.{GitSource, AccessMode, Request}
use mini_paa_s.GitSources.Stored.{IsStored}
use mini_paa_s.GitSources.Runs.{Op, configures, configures_app, sets_auto, run, run-IsStored}

abbrev request : Request
request = record {
  app_of = λ name. ok 3;
  writes = true;
  github = some (λ i w. ok (record {
    id = w;
    full_name = codes "acme/shop";
    is_private = true;
    default_branch = codes "main";
  }));
}

abbrev asked : GitSource
asked = record {
  app_id = 0;
  repository = codes "https://github.com/acme/shop.git";
  branch = [];
  build_context = codes "./services/../api";
  dockerfile_path = [];
  access_mode = AccessMode.public;
  installation_id = none;
  repository_id = none;
  is_private = false;
  auto_deploy = true;
  expected_commit_sha = [];
}

abbrev requests : List (Request × Op)
requests =
    (request, configures (codes "shop") asked)
    ∷ (request, sets_auto (codes "shop") true)
    ∷ (request, configures_app (codes "shop") 70 5 [] (codes ".") [])
    ∷ (request, sets_auto (codes "shop") true)
    ∷ []

run-IsStored_example : All IsStored (run requests [])
run-IsStored_example = run-IsStored requests [] tt

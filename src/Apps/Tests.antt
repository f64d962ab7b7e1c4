-- ===== src/Apps/Tests.antt =====
-- A user at the quota, and another one.
use mini_paa_s.Common.{ℕ, ◌≤◌, ◌≡◌, refl, true, List, [], ◌∷◌, Option, some, codes, arith}
use mini_paa_s.Domain.{AppStatus}
use mini_paa_s.Apps.{Table, list, count, Op, creates, deletes, sets_status, run}
use mini_paa_s.Apps.Quota.{run-count}
use mini_paa_s.Apps.Isolation.{run-list}
use mini_paa_s.Apps.Names.{IsNamed, run-IsNamed}

abbrev requests : List (Option ℕ × Op)
requests =
    (some 7, creates 1 (codes "shop") true true)
    ∷ (some 7, creates 2 (codes "blog") true true)
    ∷ (some 9, creates 3 (codes "shop") true true)
    ∷ (some 7, creates 4 (codes "wiki-2") true true)
    ∷ (some 9, deletes 1)
    ∷ []

run-count_example : count (some 7) (run 2 requests []) ≤ 2
run-count_example = run-count 2 7 requests [] (omega arith) (omega arith)

run-IsNamed_example : IsNamed (run 2 requests [])
run-IsNamed_example = run-IsNamed 2 requests [] tt

abbrev shop : Table
shop =
    record {
      id = 1;
      name = codes "shop";
      owner = some 7;
      status = AppStatus.running;
      public_url = [];
    }
    ∷ []

abbrev strangers : List (Option ℕ × Op)
strangers = (some 9, deletes 1) ∷ (some 8, sets_status 1 AppStatus.stopped) ∷ []

run-list_example : list (some 7) (run 2 strangers shop) ≡ list (some 7) shop
run-list_example = run-list 2 7 strangers shop (refl, (refl, tt))

-- ===== src/GitHubApp/Pages.antt =====
-- The loop over the pages of repositories.
use mini_paa_s.Common.{
  ℕ, zero, suc, ◌<◌, ◌≡◌, refl, ap, ◌∙◌, true, false, List, [], ◌++◌, some, arith, ltb, length,
}
use mathlib.Core.List.{append_assoc}
use mini_paa_s.Common.Results.{ok}
use mini_paa_s.GitHubApp.{Repository, pages_from}

-- The pages that follow: `k` full ones from page `n`, and a last one that is not full.
abbrev pub Full : (ℕ → List Repository) → ℕ → ℕ → Type 0
Full page n zero = ltb (length (page n)) 100 ≡ true
Full page n (suc k) = (ltb (length (page n)) 100 ≡ false) × Full page (suc n) k

abbrev pub all_pages : (ℕ → List Repository) → ℕ → ℕ → List Repository
all_pages page n zero = page n
all_pages page n (suc k) = page n ++ all_pages page (suc n) k

from :
    (page : ℕ → List Repository) (fuel k n : ℕ) (found : List Repository)
    → k < fuel
    → Full page n k
    → pages_from fuel n (λ i. ok (page i)) found ≡ some (ok (found ++ all_pages page n k))
unfolding pages_from
from page zero k n found l h = absurd (omega arith)
from page (suc fuel) zero n found l h = rw h refl
from page (suc fuel) (suc k) n found l h = rw h.0 (
    from page fuel k (suc n) (found ++ page n) (omega arith) h.1
    ∙ ap (λ r. some (ok r)) (append_assoc found (page n) (all_pages page (suc n) k)))

-- Where GitHub answers `k` pages of at least 100 repositories and then a shorter one, the loop ends
-- after that page, with the repositories of all pages in their order; so
-- every fuel above `k` is enough.
pub pages_from-all_pages :
    (page : ℕ → List Repository) (fuel k : ℕ)
    → k < fuel
    → Full page 1 k
    → pages_from fuel 1 (λ i. ok (page i)) [] ≡ some (ok (all_pages page 1 k))
pages_from-all_pages page fuel k l h = from page fuel k 1 [] l h

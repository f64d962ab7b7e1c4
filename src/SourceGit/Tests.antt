-- ===== src/SourceGit/Tests.antt =====
-- Names and archives of concrete sources.
use mini_paa_s.Common.{
  trim_space, space_left, space_right, is_space, ◌≡◌, refl, [], none, some, ◌⊎◌, codes, split,
  has_prefix, All, if◌then◌else◌, ltb, ◌&&◌, false,
}
use mini_paa_s.SourceGit.{
  clean, clean_parts, rev_onto, cut_prefix, normalize_relative_path, normalize_branch,
  normalize_repository,
}
use mini_paa_s.SourceGit.Paths.{IsPlain}
use mini_paa_s.SourceGit.Inside.{normalize_relative_path-IsPlain}
use mini_paa_s.SourceGit.Stable.{normalize_relative_path-stable}
use mini_paa_s.SourceGit.Branches.{normalize_branch-stable}
use mini_paa_s.SourceGit.Repositories.{IsRepository, normalize_repository-IsRepository}
use mini_paa_s.SourceGit.Archive.{
  Entries, file, link, dir, nil, cons, pack_directory, listing, size_of, pack_directory_lem,
}

services_api :
    normalize_relative_path (codes "./services/x/..//api/") (codes ".")
    ≡ some (codes "services/api")
unfolding normalize_relative_path clean clean_parts rev_onto trim_space space_left space_right
    is_space
services_api = refl

escape_refused : normalize_relative_path (codes "a/../../b") (codes ".") ≡ none
unfolding normalize_relative_path clean clean_parts rev_onto trim_space space_left space_right
    is_space
escape_refused = refl

-- White space at an end can appear when the path is cleaned, and is lost when it is normalised again.
space_appears : normalize_relative_path (codes "x/../ b") (codes ".") ≡ some (codes " b")
unfolding normalize_relative_path clean clean_parts rev_onto trim_space space_left space_right
    is_space
space_appears = refl

space_lost : normalize_relative_path (codes " b") (codes ".") ≡ some (codes "b")
unfolding normalize_relative_path clean clean_parts rev_onto trim_space space_left space_right
    is_space
space_lost = refl

ssh_form : normalize_repository (codes " git@github.com:acme/shop.git") ≡ some (codes "acme/shop")
unfolding normalize_repository cut_prefix trim_space space_left space_right is_space
ssh_form = refl

-- A part `.` is refused, a part `..` is not.
dots_pass : normalize_repository (codes "acme/..") ≡ some (codes "acme/..")
unfolding normalize_repository cut_prefix trim_space space_left space_right is_space
dots_pass = refl

branch_kept : normalize_branch (codes " release/2.1 ") ≡ some (codes "release/2.1")
unfolding normalize_branch trim_space space_left space_right is_space
branch_kept = refl

trimmed : trim_space (codes "services/api") ≡ codes "services/api"
unfolding trim_space space_left space_right is_space
trimmed = refl

normalize_relative_path-IsPlain_example :
    (codes "services/api" ≡ codes ".") ⊎ All IsPlain (split b'/' (codes "services/api"))
normalize_relative_path-IsPlain_example =
    normalize_relative_path-IsPlain (codes "./services/x/..//api/") (codes ".")
      (codes "services/api") services_api

normalize_relative_path-stable_example :
    normalize_relative_path (codes "services/api") (codes "Dockerfile")
    ≡ some (codes "services/api")
normalize_relative_path-stable_example =
    normalize_relative_path-stable (codes "./services/x/..//api/") (codes ".")
      (codes "services/api") (codes "Dockerfile") services_api trimmed

normalize_branch-stable_example :
    (normalize_branch (codes "release/2.1") ≡ some (codes "release/2.1"))
    × (has_prefix (codes "release/2.1") (codes "-") ≡ false)
normalize_branch-stable_example =
    normalize_branch-stable (codes " release/2.1 ") (codes "release/2.1") branch_kept

normalize_repository-IsRepository_example : IsRepository (codes "acme/shop")
normalize_repository-IsRepository_example =
    normalize_repository-IsRepository (codes " git@github.com:acme/shop.git") (codes "acme/shop")
      ssh_form

abbrev checkout : Entries
checkout = cons (dir (codes ".git") (cons (file (codes "HEAD") 23) nil)) (
    cons (file (codes "Dockerfile") 120) (
      cons (link (codes "etc"))
        (cons (dir (codes "src") (cons (file (codes "main.go") 900) nil)) nil)))

pack_directory_lem_example : pack_directory 1000 checkout ≡ (
    if ltb 0 1000 && ltb 1000 (size_of (listing [] checkout))
    then none
    else some
        (record { written = listing [] checkout; total_size = size_of (listing [] checkout) }))
pack_directory_lem_example = pack_directory_lem 1000 checkout

-- ===== src/SourceGit/Archive.antt =====
-- `packDirectory`: the tree that `filepath.Walk` goes through, and what is written to the archive.
-- Reading and writing meet no error here; sizes add up below 2^63.
use mini_paa_s.Common.{
  ℕ, ◌+◌, ◌≡◌, refl, ap, ◌∙◌, Bool, true, false, ◌&&◌, List, [], ◌∷◌, ◌++◌, Option, none, some,
  arith, codes, ltb, text_eq, if◌then◌else◌, Bool-cases, inl, inr, total, total-append,
}
use mathlib.Core.List.{append-nil, append_assoc}

-- What a directory holds: regular files with their size, symbolic links, directories, and others
-- such as devices.
mutual
  pub data Entry : Type 0 where
    file : List ℕ → ℕ → Entry
    link : List ℕ → Entry
    other : List ℕ → Entry
    dir : List ℕ → Entries → Entry

  pub data Entries : Type 0 where
    nil : Entries
    cons : Entry → Entries → Entries

-- A header of the archive: the path, and the size of the content that follows it.
pub record Item : Type 0 where
  pub path : List (List ℕ)
  pub size : ℕ

pub record Packed : Type 0 where
  pub written : List Item
  pub total_size : ℕ

abbrev pub put : List (List ℕ) → ℕ → Packed → Packed
put path size acc = record acc {
  written = acc.written ++ (record { path = path; size = size } ∷ []);
}

infixl 5 ◌>>=◌
abbrev pub ◌>>=◌ : Option Packed → (Packed → Option Packed) → Option Packed
none >>= f = none
some a >>= f = f a

abbrev pub is_over : ℕ → ℕ → Bool
is_over limit size = ltb 0 limit && ltb limit size

abbrev pub pack_file : ℕ → List (List ℕ) → ℕ → Packed → Option Packed
pack_file limit path size acc =
    if is_over limit (acc.total_size + size)
    then none
    else some (put path size (record acc { total_size = acc.total_size + size }))

abbrev pub is_git : List ℕ → Bool
is_git name = text_eq name (codes ".git")

-- The function of `filepath.Walk`, at the entries below the path `at`; `none` is the error of the
-- size limit.
mutual
  pub pack_entry : ℕ → List (List ℕ) → Entry → Packed → Option Packed
  pack_entry limit at (file name size) acc = pack_file limit (at ++ (name ∷ [])) size acc
  pack_entry limit at (link name) acc = some acc
  pack_entry limit at (other name) acc = some (put (at ++ (name ∷ [])) 0 acc)
  pack_entry limit at (dir name es) acc =
      let inner = pack_entries limit (at ++ (name ∷ [])) es (put (at ++ (name ∷ [])) 0 acc) in
      if is_git name then some acc else inner

  pub pack_entries : ℕ → List (List ℕ) → Entries → Packed → Option Packed
  pack_entries limit at nil acc = some acc
  pack_entries limit at (cons e es) acc =
      pack_entry limit at e acc >>= λ acc'. pack_entries limit at es acc'

-- `packDirectory`, on what the directory holds
pub pack_directory : ℕ → Entries → Option Packed
unfolding pack_entry pack_entries
pack_directory limit es = pack_entries limit [] es (record { written = []; total_size = 0 })

-- What an archive without a limit holds: every file and directory in the order of the walk, but no
-- link, and nothing that is or stands below a directory `.git`.
mutual
  pub listing_entry : List (List ℕ) → Entry → List Item
  listing_entry at (file name size) = record { path = at ++ (name ∷ []); size = size } ∷ []
  listing_entry at (link name) = []
  listing_entry at (other name) = record { path = at ++ (name ∷ []); size = 0 } ∷ []
  listing_entry at (dir name es) =
      if is_git name
      then []
      else record { path = at ++ (name ∷ []); size = 0 } ∷ listing (at ++ (name ∷ [])) es

  pub listing : List (List ℕ) → Entries → List Item
  listing at nil = []
  listing at (cons e es) = listing_entry at e ++ listing at es

abbrev pub size_of : List Item → ℕ
size_of = total (λ i. i.size)

abbrev limited : ℕ → List Item → ℕ → Option Packed
limited limit items size =
    if is_over limit size then none else some (record { written = items; total_size = size })

-- What follows when these items are written.
abbrev writes : ℕ → Packed → List Item → Option Packed
writes limit acc items = limited limit (acc.written ++ items) (acc.total_size + size_of items)

writes-nil :
    (limit : ℕ) (acc : Packed)
    → is_over limit acc.total_size ≡ false
    → some acc ≡ writes limit acc []
writes-nil limit acc h =
    let z : acc.total_size + 0 ≡ acc.total_size = omega arith in
    rw (z, h, append-nil acc.written) refl

-- Writing items and then more is writing them all.
writes-append :
    (limit : ℕ) (acc : Packed) (xs ys : List Item) (f : Packed → Option Packed)
    → ((acc' : Packed) → is_over limit acc'.total_size ≡ false → f acc' ≡ writes limit acc' ys)
    → (writes limit acc xs >>= f) ≡ writes limit acc (xs ++ ys)
writes-append limit acc xs ys f h =
    let before : ℕ = acc.total_size + size_of xs in
    let sum : before + size_of ys ≡ acc.total_size + size_of (xs ++ ys) =
      omega (arith, total-append (λ (i : Item). i.size) xs ys) in
    elim (Bool-cases (is_over limit before)) [
      | inl y ↦
          let o : is_over limit (acc.total_size + size_of (xs ++ ys)) ≡ true =
            ground (arith, y, sum) in
          rw (y, o) refl
      | inr n ↦
          let acc' : Packed = record { written = acc.written ++ xs; total_size = before } in
          rw n (h acc' n ∙ cc (ap (limited limit) (append_assoc acc.written xs ys), sum))
    ]

pack_file-writes :
    (limit : ℕ) (path : List (List ℕ)) (size : ℕ) (acc : Packed)
    → pack_file limit path size acc ≡ writes limit acc (record { path = path; size = size } ∷ [])
pack_file-writes limit path size acc =
    let z : acc.total_size + (size + 0) ≡ acc.total_size + size = omega arith in rw z refl

put-writes :
    (limit : ℕ) (path : List (List ℕ)) (acc : Packed)
    → is_over limit acc.total_size ≡ false
    → some (put path 0 acc) ≡ writes limit acc (record { path = path; size = 0 } ∷ [])
put-writes limit path acc h =
    let z : acc.total_size + (0 + 0) ≡ acc.total_size = omega arith in rw (z, h) refl

mutual
  unfolding pack_entry pack_entries listing_entry listing

  pack_entry-writes :
      (limit : ℕ) (at : List (List ℕ)) (e : Entry) (acc : Packed)
      → is_over limit acc.total_size ≡ false
      → pack_entry limit at e acc ≡ writes limit acc (listing_entry at e)
  pack_entry-writes limit at (file name size) acc h =
      pack_file-writes limit (at ++ (name ∷ [])) size acc
  pack_entry-writes limit at (link name) acc h = writes-nil limit acc h
  pack_entry-writes limit at (other name) acc h = put-writes limit (at ++ (name ∷ [])) acc h
  pack_entry-writes limit at (dir name es) acc h = elim (Bool-cases (is_git name)) [
    | inl y ↦ rw y (writes-nil limit acc h)
    | inr n ↦ rw n (
        ap (λ o. o >>= λ a. pack_entries limit (at ++ (name ∷ [])) es a)
          (put-writes limit (at ++ (name ∷ [])) acc h)
        ∙ writes-append limit acc (record { path = at ++ (name ∷ []); size = 0 } ∷ [])
            (listing (at ++ (name ∷ [])) es) (λ a. pack_entries limit (at ++ (name ∷ [])) es a)
            (λ a o. pack_entries-writes limit (at ++ (name ∷ [])) es a o))
  ]

  pack_entries-writes :
      (limit : ℕ) (at : List (List ℕ)) (es : Entries) (acc : Packed)
      → is_over limit acc.total_size ≡ false
      → pack_entries limit at es acc ≡ writes limit acc (listing at es)
  pack_entries-writes limit at nil acc h = writes-nil limit acc h
  pack_entries-writes limit at (cons e es) acc h =
      ap (λ o. o >>= λ a. pack_entries limit at es a) (pack_entry-writes limit at e acc h)
      ∙ writes-append limit acc (listing_entry at e) (listing at es)
          (λ a. pack_entries limit at es a) (λ a o. pack_entries-writes limit at es a o)

-- For any directory and any limit, the archive is the listing of the directory: every file, but no
-- symbolic link and nothing of a `.git`; and it is refused exactly where there is a limit and the
-- files of the listing are larger together.
pub pack_directory_lem :
    (limit : ℕ) (es : Entries)
    → pack_directory limit es ≡ (
        if ltb 0 limit && ltb limit (size_of (listing [] es))
        then none
        else some (record { written = listing [] es; total_size = size_of (listing [] es) }))
unfolding pack_directory
pack_directory_lem limit es =
    let e : 0 + size_of (listing [] es) ≡ size_of (listing [] es) = omega arith in
    rw (← e)
      (pack_entries-writes limit [] es (record { written = []; total_size = 0 }) (ground arith))

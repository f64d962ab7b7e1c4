-- ===== src/EnvVars/Table.antt =====
-- The table of the variables, read through the cipher.
use mini_paa_s.Common.{
  ℕ, ◌≡◌, refl, Bool, true, false, ◌&&◌, ◌||◌, List, [], ◌∷◌, ◌==◌, text_eq, text_eq_path,
  text_eq_refl, arith, Bool-cases, inl, inr,
}
use mini_paa_s.EnvVars.{Row, is_row, upsert, remove}

module _ {Secret : Type 0} where
  abbrev pub has_row : ℕ → List ℕ → List (Row Secret) → Bool
  has_row app key [] = false
  has_row app key (r ∷ rs) = is_row app key r || has_row app key rs

  -- `(app_id, key)` is the key of the table.
  abbrev pub IsKeyed : List (Row Secret) → Type 0
  IsKeyed [] = Unit
  IsKeyed (r ∷ rs) = (has_row r.app r.key rs ≡ false) × IsKeyed rs

  has_row-upsert :
      (app x nonce : ℕ) (key k : List ℕ) (value : Secret) (t : List (Row Secret))
      → (is_row x k (record { app = app; key = key; value = value; nonce = nonce })
          || has_row x k t)
        ≡ false
      → has_row x k (upsert app key value nonce t) ≡ false
  unfolding upsert
  has_row-upsert app x nonce key k value [] h = h
  has_row-upsert app x nonce key k value (r ∷ rs) h = elim (Bool-cases (is_row app key r)) [
    | inl y ↦ rw y (ground (arith, h))
    | inr n ↦ rw n (ground (arith, h, has_row-upsert app x nonce key k value rs))
  ]

  pub has_row-remove :
      (app x : ℕ) (key k : List ℕ) (t : List (Row Secret))
      → has_row x k t ≡ false
      → has_row x k (remove app key t) ≡ false
  unfolding remove
  has_row-remove app x key k [] h = refl
  has_row-remove app x key k (r ∷ rs) h = ground (arith, has_row-remove app x key k rs)

  pub remove-IsKeyed :
      (app : ℕ) (key : List ℕ) (t : List (Row Secret)) → IsKeyed t → IsKeyed (remove app key t)
  unfolding remove
  remove-IsKeyed app key [] h = tt
  remove-IsKeyed app key (r ∷ rs) h = elim (Bool-cases (is_row app key r)) [
    | inl y ↦ rw y (remove-IsKeyed app key rs h.1)
    | inr n ↦ rw n (has_row-remove app r.app key r.key rs h.0, remove-IsKeyed app key rs h.1)
  ]

  -- Rows of the same key are the same row to every query.
  pub is_row-same :
      (app x : ℕ) (key k : List ℕ) (r : Row Secret)
      → is_row app key r ≡ true
      → is_row x k r ≡ (app == x && text_eq key k)
  is_row-same app x key k r y =
      let a : r.app ≡ app = ground (arith, y) in
      let b : r.key ≡ key = text_eq_path r.key key (ground (arith, y)) in cc (a, b)

  pub is_row-other :
      (app x : ℕ) (key k : List ℕ) (r : Row Secret)
      → is_row app key r ≡ false
      → is_row x k r ≡ true
      → (app == x && text_eq key k) ≡ false
  is_row-other app x key k r n y = elim (Bool-cases (app == x && text_eq key k)) [
    | inr m ↦ m
    | inl m ↦
        let a : app ≡ x = ground (arith, m) in
        let b : key ≡ k = text_eq_path key k (ground (arith, m)) in absurd (cc (a, b, n, y))
  ]

  new_row-other :
      (app nonce : ℕ) (key : List ℕ) (value : Secret) (r : Row Secret)
      → is_row app key r ≡ false
      → is_row r.app r.key (record { app = app; key = key; value = value; nonce = nonce }) ≡ false
  new_row-other app nonce key value r n = elim (Bool-cases (app == r.app && text_eq key r.key)) [
    | inr m ↦ m
    | inl m ↦
        let a : app ≡ r.app = ground (arith, m) in
        let b : key ≡ r.key = text_eq_path key r.key (ground (arith, m)) in
        let s : is_row r.app r.key r ≡ true = ground (arith, text_eq_refl r.key) in
        absurd (cc (a, b, n, s))
  ]

  pub upsert-IsKeyed :
      (app nonce : ℕ) (key : List ℕ) (value : Secret) (t : List (Row Secret))
      → IsKeyed t
      → IsKeyed (upsert app key value nonce t)
  unfolding upsert
  upsert-IsKeyed app nonce key value [] h = (refl, tt)
  upsert-IsKeyed app nonce key value (r ∷ rs) h = elim (Bool-cases (is_row app key r)) [
    | inl y ↦ rw y h
    | inr n ↦ rw n (
      has_row-upsert app r.app nonce key r.key value rs
          (ground (arith, new_row-other app nonce key value r n, h.0)),
      upsert-IsKeyed app nonce key value rs h.1,
    )
  ]

-- ===== src/EnvVars/View.antt =====
-- What the table has for a key, and what `Decrypted` answers.
use mini_paa_s.Common.{
  ℕ, ◌≡◌, refl, ap, ◌∙◌, false, ◌&&◌, ◌||◌, List, [], ◌∷◌, Option, none, some, ◌==◌, if◌then◌else◌,
  text_eq, text_eq_path, arith, Bool-cases, inl, inr, All,
}
use mini_paa_s.Common.Results.{Result, ok}
use mini_paa_s.EnvVars.{Row, is_row, Values, write, upsert, remove, decrypt, decrypt_rows, Error}
use mini_paa_s.EnvVars.Table.{has_row, IsKeyed, is_row-same, is_row-other}

module _ {Secret : Type 0} (seal : ℕ → List ℕ → Secret) (open_secret : ℕ → Secret → Option (List ℕ))
    (opens : (nonce : ℕ) (text : List ℕ) → open_secret nonce (seal nonce text) ≡ some text) where
  -- What the table has for a key, read through the cipher.
  abbrev pub view : ℕ → List ℕ → List (Row Secret) → Option (List ℕ)
  view x k [] = none
  view x k (r ∷ rs) = if is_row x k r then open_secret r.nonce r.value else view x k rs

  abbrev pub IsSealed : Row Secret → Type 0
  IsSealed r = (text : List ℕ) × (r.value ≡ seal r.nonce text)

  pub view-upsert :
      (app x nonce : ℕ) (key k text : List ℕ) (t : List (Row Secret))
      → view x k (upsert app key (seal nonce text) nonce t)
        ≡ (if app == x && text_eq key k then some text else view x k t)
  unfolding upsert
  view-upsert app x nonce key k text [] = rw (opens nonce text) refl
  view-upsert app x nonce key k text (r ∷ rs) = elim (Bool-cases (is_row app key r)) [
    | inl y ↦ rw y (ground (arith, is_row-same app x key k r y, opens nonce text))
    | inr n ↦
        rw n (ground (arith, view-upsert app x nonce key k text rs, is_row-other app x key k r n))
  ]

  pub view-remove :
      (app x : ℕ) (key k : List ℕ) (t : List (Row Secret))
      → view x k (remove app key t) ≡ (if app == x && text_eq key k then none else view x k t)
  unfolding remove
  view-remove app x key k [] = ground arith
  view-remove app x key k (r ∷ rs) = elim (Bool-cases (is_row app key r)) [
    | inl y ↦ rw y (ground (arith, view-remove app x key k rs, is_row-same app x key k r y))
    | inr n ↦ rw n (ground (arith, view-remove app x key k rs, is_row-other app x key k r n))
  ]

  pub upsert-IsSealed :
      (app nonce : ℕ) (key text : List ℕ) (t : List (Row Secret))
      → All IsSealed t
      → All IsSealed (upsert app key (seal nonce text) nonce t)
  unfolding upsert
  upsert-IsSealed app nonce key text [] h = ((text, refl), tt)
  upsert-IsSealed app nonce key text (r ∷ rs) h = elim (Bool-cases (is_row app key r)) [
    | inl y ↦ rw y ((text, refl), h.1)
    | inr n ↦ rw n (h.0, upsert-IsSealed app nonce key text rs h.1)
  ]

  pub remove-IsSealed :
      (app : ℕ) (key : List ℕ) (t : List (Row Secret))
      → All IsSealed t
      → All IsSealed (remove app key t)
  unfolding remove
  remove-IsSealed app key [] h = tt
  remove-IsSealed app key (r ∷ rs) h = elim (Bool-cases (is_row app key r)) [
    | inl y ↦ rw y (remove-IsSealed app key rs h.1)
    | inr n ↦ rw n (h.0, remove-IsSealed app key rs h.1)
  ]

  -- The loop reads the whole table of an app; what it does not have is as it was.
  abbrev pub Reads : ℕ → List (Row Secret) → Values → Result Error Values → Type 0
  Reads app t out m =
      (out' : Values) × (m ≡ ok out')
      × ((k : List ℕ) → out' k ≡ (if has_row app k t then view app k t else out k))

  pub decrypt_rows-Reads :
      (app : ℕ) (t : List (Row Secret)) (out : Values)
      → IsKeyed t
      → All IsSealed t
      → Reads app t out (decrypt_rows seal open_secret app t out)
  unfolding decrypt_rows decrypt
  decrypt_rows-Reads app [] out u h = (out, refl, λ k. refl)
  decrypt_rows-Reads app (r ∷ rs) out u h = elim (Bool-cases (r.app == app)) [
    | inr n ↦ let (out', e, at) = decrypt_rows-Reads app rs out u.1 h.1 in rw n (out', e, at)
    | inl y ↦
        let text : List ℕ = h.0.0 in
        let opened : open_secret r.nonce r.value ≡ some text =
          ap (open_secret r.nonce) h.0.1 ∙ opens r.nonce text in
        let (out', e, at) = decrypt_rows-Reads app rs (write r.key text out) u.1 h.1 in
        let merged : (k : List ℕ)
            → (if has_row app k rs then view app k rs else write r.key text out k) ≡ (
                if text_eq r.key k || has_row app k rs
                then (if text_eq r.key k then some text else view app k rs)
                else out k) =
          λ k. elim (Bool-cases (text_eq r.key k)) [
            | inr n ↦ rw n refl
            | inl s ↦
                let i : r.app ≡ app = ground (arith, y) in
                let j : r.key ≡ k = text_eq_path r.key k s in
                let gone : has_row app k rs ≡ false = cc (i, j, u.0) in rw (gone, s) refl
          ] in
        rw (y, opened) (out', e, λ k. at k ∙ merged k)
  ]

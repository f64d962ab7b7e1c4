-- ===== src/EnvVars.antt =====
-- service/env.go, crypto/aes.go and store/postgres/env.go: the environment variables of the apps,
-- kept encrypted. Keys and values are lists of code points.
use mini_paa_s.Common.{
  ℕ, Bool, true, false, ◌&&◌, ◌||◌, List, [], ◌∷◌, Option, none, some, ◌==◌, if◌then◌else◌, text_eq,
}
use mini_paa_s.Common.Results.{Result, ok, err, ◌>>=◌, ◌>>◌, guard, or_err}
use mini_paa_s.SourceGit.{is_upper, is_lower, is_digit}
pub mod Table
pub mod View
pub mod Refinement
mod Tests

pub data Error : Type 0 where
  key_invalid no_randomness undecipherable store_failed : Error

-- `envKeyRE`, `^[A-Za-z_][A-Za-z0-9_]*$`
abbrev pub is_key_start : ℕ → Bool
is_key_start c = is_upper c || is_lower c || c == b'_'

abbrev pub all_key_codes : List ℕ → Bool
all_key_codes [] = true
all_key_codes (c ∷ s) = (is_key_start c || is_digit c) && all_key_codes s

abbrev pub valid_key : List ℕ → Bool
valid_key [] = false
valid_key (c ∷ s) = is_key_start c && all_key_codes s

-- A row of `env_vars`, with a ciphertext of the type `Secret`
pub record Row (Secret : Type 0) : Type 0 where
  pub app : ℕ
  pub key : List ℕ
  pub value : Secret
  pub nonce : ℕ

abbrev pub is_row : {Secret : Type 0} → ℕ → List ℕ → Row Secret → Bool
is_row app key r = r.app == app && text_eq r.key key

-- A map from keys to values, and a write to it
abbrev pub Values : Type 0
Values = List ℕ → Option (List ℕ)

abbrev pub write : List ℕ → List ℕ → Values → Values
write key value m k = if text_eq key k then some value else m k

module _ {Secret : Type 0} where
  -- `INSERT … ON CONFLICT (app_id, key) DO UPDATE`
  pub upsert : ℕ → List ℕ → Secret → ℕ → List (Row Secret) → List (Row Secret)
  upsert app key value nonce [] = record { app = app; key = key; value = value; nonce = nonce } ∷ []
  upsert app key value nonce (r ∷ rs) =
      let rest = upsert app key value nonce rs in
      if is_row app key r then record r { value = value; nonce = nonce } ∷ rs else r ∷ rest

  -- `Delete`
  pub remove : ℕ → List ℕ → List (Row Secret) → List (Row Secret)
  remove app key [] = []
  remove app key (r ∷ rs) =
      let rest = remove app key rs in if is_row app key r then rest else r ∷ rest

-- The cipher: `seal` and `open` are AES-GCM with the key of the server, under a nonce.
module _ {Secret : Type 0} (seal : ℕ → List ℕ → Secret)
    (open_secret : ℕ → Secret → Option (List ℕ)) where
  -- `Encrypt`, with the nonce that the random source gives
  pub encrypt : Option ℕ → List ℕ → Result Error (Secret × ℕ)
  encrypt random value = do nonce ← or_err random Error.no_randomness; ok (seal nonce value, nonce)

  -- `Decrypt`
  pub decrypt : Secret → ℕ → Result Error (List ℕ)
  decrypt value nonce = or_err (open_secret nonce value) Error.undecipherable

  -- `Set`
  pub set_var :
      Bool → Option ℕ → ℕ → List ℕ → List ℕ → List (Row Secret) → Result Error (List (Row Secret))
  unfolding encrypt upsert
  set_var writes random app key value t = do
    guard (valid_key key) Error.key_invalid
    sealed ← encrypt random value
    guard writes Error.store_failed
    ok (upsert app key sealed.0 sealed.1 t)

  -- The loop of `Decrypted`, over the rows of the app
  pub decrypt_rows : ℕ → List (Row Secret) → Values → Result Error Values
  unfolding decrypt
  decrypt_rows app [] out = ok out
  decrypt_rows app (r ∷ rs) out =
      let read = decrypt r.value r.nonce >>= λ value. decrypt_rows app rs (write r.key value out) in
      let skipped = decrypt_rows app rs out in if r.app == app then read else skipped

  -- `Decrypted`, on what the store answers for the rows
  pub decrypted : ℕ → Option (List (Row Secret)) → Result Error Values
  unfolding decrypt_rows
  decrypted app none = err Error.store_failed
  decrypted app (some t) = decrypt_rows app t (λ k. none)

abbrev pub after :
    {Secret : Type 0} → List (Row Secret) → Result Error (List (Row Secret)) → List (Row Secret)
after t (ok t') = t'
after t (err e) = t

-- Requests, with the randomness and whether the store writes
pub data Op : Type 0 where
  sets : ℕ → List ℕ → List ℕ → Option ℕ → Bool → Op
  deletes : ℕ → List ℕ → Bool → Op

module _ {Secret : Type 0} (seal : ℕ → List ℕ → Secret)
    (open_secret : ℕ → Secret → Option (List ℕ)) where
  pub run : List Op → List (Row Secret) → List (Row Secret)
  unfolding set_var remove
  run [] t = t
  run (sets app key value random writes ∷ ops) t =
      run ops (after t (set_var seal open_secret writes random app key value t))
  run (deletes app key writes ∷ ops) t = run ops (if writes then remove app key t else t)

-- ===== src/EnvVars/Refinement.antt =====
-- The variables of the apps are a map that forgets the cipher.
use mini_paa_s.Common.{
  ℕ, ◌≡◌, refl, ap, ◌∙◌, Bool, true, false, ◌&&◌, List, [], ◌∷◌, Option, none, some, ◌==◌,
  if◌then◌else◌, text_eq, arith, Bool-cases, inl, inr, All,
}
use mini_paa_s.Common.Results.{Result, ok}
use mini_paa_s.EnvVars.{
  Row, Values, valid_key, remove, encrypt, set_var, decrypted, after, Op, sets, deletes, run, Error,
}
use mini_paa_s.EnvVars.Table.{has_row, IsKeyed, upsert-IsKeyed, remove-IsKeyed}
use mini_paa_s.EnvVars.View.{
  view, IsSealed, view-upsert, view-remove, upsert-IsSealed, remove-IsSealed, decrypt_rows-Reads,
}

-- The abstract store: the value that each app has for each key.
abbrev pub Vars : Type 0
Vars = ℕ → List ℕ → Option (List ℕ)

abbrev pub assign : ℕ → List ℕ → Option (List ℕ) → Vars → Vars
assign app key value f x k = if app == x && text_eq key k then value else f x k

abbrev pub is_set : List ℕ → Option ℕ → Bool → Bool
is_set key none writes = false
is_set key (some nonce) writes = valid_key key && writes

-- The same requests on the abstract store: one that is refused or fails changes nothing.
pub replay : List Op → Vars → Vars
replay [] f = f
replay (sets app key value random writes ∷ ops) f =
    replay ops (if is_set key random writes then assign app key (some value) f else f)
replay (deletes app key writes ∷ ops) f = replay ops (if writes then assign app key none f else f)

module _ {Secret : Type 0} (seal : ℕ → List ℕ → Secret) (open_secret : ℕ → Secret → Option (List ℕ))
    (opens : (nonce : ℕ) (text : List ℕ) → open_secret nonce (seal nonce text) ≡ some text) where
  -- The table is one of sealed rows, one for a key at most, and reads as the abstract store.
  record Represents (t : List (Row Secret)) (f : Vars) : Type 0 where
    keyed : IsKeyed t
    sealed : All (IsSealed seal open_secret opens) t
    reads : (x : ℕ) (k : List ℕ) → view seal open_secret opens x k t ≡ f x k

  set_var-Represents :
      (app : ℕ) (key value : List ℕ) (random : Option ℕ) (writes : Bool) (t : List (Row Secret))
      (f : Vars)
      → Represents t f
      → Represents
          (after t (set_var seal open_secret writes random app key value t))
          (if is_set key random writes then assign app key (some value) f else f)
  unfolding set_var encrypt
  set_var-Represents app key value none writes t f r = elim (Bool-cases (valid_key key)) [
    | inl y ↦ rw y r
    | inr n ↦ rw n r
  ]
  set_var-Represents app key value (some nonce) writes t f r = elim (Bool-cases (valid_key key)) [
    | inr n ↦ rw n r
    | inl y ↦ elim (Bool-cases writes) [
      | inr m ↦ rw (y, m) r
      | inl w ↦
          rw (y, w)
            (record {
              keyed = upsert-IsKeyed app nonce key (seal nonce value) t r.keyed;
              sealed = upsert-IsSealed seal open_secret opens app nonce key value t r.sealed;
              reads = λ x k.
                  view-upsert seal open_secret opens app x nonce key k value t
                  ∙ ap (λ v. if app == x && text_eq key k then some value else v) (r.reads x k);
            })
    ]
  ]

  remove-Represents :
      (app : ℕ) (key : List ℕ) (writes : Bool) (t : List (Row Secret)) (f : Vars)
      → Represents t f
      → Represents
          (if writes then remove app key t else t)
          (if writes then assign app key none f else f)
  remove-Represents app key false t f r = r
  remove-Represents app key true t f r = record {
    keyed = remove-IsKeyed app key t r.keyed;
    sealed = remove-IsSealed seal open_secret opens app key t r.sealed;
    reads = λ x k.
        view-remove seal open_secret opens app x key k t
        ∙ ap (λ v. if app == x && text_eq key k then none else v) (r.reads x k);
  }

  run-Represents :
      (ops : List Op) (t : List (Row Secret)) (f : Vars)
      → Represents t f
      → Represents (run seal open_secret ops t) (replay ops f)
  unfolding run replay
  run-Represents [] t f r = r
  run-Represents (sets app key value random writes ∷ ops) t f r =
      run-Represents ops _ _ (set_var-Represents app key value random writes t f r)
  run-Represents (deletes app key writes ∷ ops) t f r =
      run-Represents ops _ _ (remove-Represents app key writes t f r)

  -- Rows that the table lacks have no value either.
  absent :
      (x : ℕ) (k : List ℕ) (t : List (Row Secret))
      → (if has_row x k t then view seal open_secret opens x k t else none)
        ≡ view seal open_secret opens x k t
  absent x k [] = refl
  absent x k (r ∷ rs) = ground (arith, absent x k rs)

  -- The variables of an app, as the map that `Decrypted` answers.
  abbrev pub AnswersAs : Result Error Values → Values → Type 0
  AnswersAs m f = (out : Values) × (m ≡ ok out) × ((k : List ℕ) → out k ≡ f k)

  -- Where the cipher opens what it sealed under the same nonce: after any requests that set and
  -- delete variables, from an empty table and with any failures of the store and of the random
  -- source, `Decrypted` of any app whose rows can be read succeeds, and has for each key the value that was last set with a
  -- valid key and not deleted since, and no value for any other key.
  pub run_refines :
      (ops : List Op) (app : ℕ)
      → AnswersAs
          (decrypted seal open_secret app (some (run seal open_secret ops [])))
          (replay ops (λ x k. none) app)
  unfolding decrypted
  run_refines ops app =
      let r =
        run-Represents ops [] (λ x k. none)
          (record { keyed = tt; sealed = tt; reads = λ x k. refl }) in
      let t : List (Row Secret) = run seal open_secret ops [] in
      let (out, e, at) =
        decrypt_rows-Reads seal open_secret opens app t (λ k. none) r.keyed r.sealed in
      (out, e, λ k. at k ∙ (absent app k t ∙ r.reads app k))

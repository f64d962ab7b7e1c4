-- ===== src/Webhook/Signatures.antt =====
-- Only GitHub's requests change anything.
use mini_paa_s.Common.{
  ℕ, ◌+◌, ◌-◌, ◌*◌, ◌/◌, ◌%◌, ◌<◌, ◌≡◌, refl, ap, ◌⊎◌, true, false, List, [], ◌∷◌, ◌++◌, Option,
  none, some, ltb, if◌then◌else◌, text_eq, text_eq_path, text_eq_refl, codes, has_prefix, drop,
  trim_space, arith, Bool-cases, inl, inr, All,
}
use mini_paa_s.Webhook.{State, Push, Env}
use mini_paa_s.Webhook.Requests.{
  hex_value, hex_decode, Verdict, genuine, not_configured, invalid, compared, verify_signature,
  by_verdict, webhook,
}

-- Lower-case hexadecimal, as GitHub writes a digest.
abbrev pub hex_digit : ℕ → ℕ
hex_digit d = if ltb d 10 then b'0' + d else b'a' + (d - 10)

abbrev pub hex_encode : List ℕ → List ℕ
hex_encode [] = []
hex_encode (b ∷ bs) = hex_digit (b / 16) ∷ hex_digit (b % 16) ∷ hex_encode bs

hex_value-hex_digit : (d : ℕ) → d < 16 → hex_value (hex_digit d) ≡ some d
hex_value-hex_digit d h = ground arith

pub hex_decode-hex_encode :
    (bs : List ℕ) → All (λ b. b < 256) bs → hex_decode (hex_encode bs) ≡ some bs
unfolding hex_decode
hex_decode-hex_encode [] h = refl
hex_decode-hex_encode (b ∷ bs) h =
    let e : b / 16 * 16 + b % 16 ≡ b = omega arith in
    rw
      (
        hex_value-hex_digit (b / 16) (omega arith),
        hex_value-hex_digit (b % 16) (omega arith),
        hex_decode-hex_encode bs h.1,
        e,
      )
      refl

-- The signature is the digest of the payload under the secret.
abbrev pub IsSigned : (List ℕ → List ℕ → List ℕ) → List ℕ → List ℕ → List ℕ → Type 0
IsSigned mac secret payload signature =
    (has_prefix signature (codes "sha256=") ≡ true)
    × (hex_decode (drop 7 signature) ≡ some (mac secret payload))

module _ (mac : List ℕ → List ℕ → List ℕ) (decode : List ℕ → Option Push) where
  -- Where the secret is not blank and the digest consists of bytes, the signature that GitHub sends,
  -- `sha256=` and the digest of the payload in hexadecimal, is accepted.
  pub verify_signature-genuine :
      (secret payload : List ℕ)
      → text_eq (trim_space secret) [] ≡ false
      → All (λ b. b < 256) (mac secret payload)
      → verify_signature mac decode secret payload
          (codes "sha256=" ++ hex_encode (mac secret payload))
        ≡ genuine
  unfolding verify_signature
  verify_signature-genuine secret payload s b =
      rw (s, hex_decode-hex_encode (mac secret payload) b, text_eq_refl (mac secret payload)) refl

  compared-genuine :
      (digest : List ℕ) (provided : Option (List ℕ))
      → compared digest provided ≡ genuine
      → provided ≡ some digest
  compared-genuine digest none h = cc
  compared-genuine digest (some p) h = elim (Bool-cases (text_eq p digest)) [
    | inl y ↦ ap some (text_eq_path p digest y)
    | inr n ↦ absurd (cc (rw n at h))
  ]

  signed :
      (secret payload signature : List ℕ)
      → verify_signature mac decode secret payload signature ≡ genuine
      → IsSigned mac secret payload signature
  unfolding verify_signature
  signed secret payload signature h = elim (Bool-cases (text_eq (trim_space secret) [])) [
    | inl y ↦ absurd (cc (rw y at h))
    | inr n ↦ elim (Bool-cases (has_prefix signature (codes "sha256="))) [
      | inl p ↦ (
        p,
        compared-genuine (mac secret payload) (hex_decode (drop 7 signature)) (rw (n, p) at h),
      )
      | inr p ↦ absurd (cc (rw (n, p) at h))
    ]
  ]

  -- Whatever a request to the webhook's address holds, it changes no delivery and creates no
  -- deployment, unless its signature is the digest of its body under the secret.
  pub webhook-IsSigned :
      (secret signature event payload : List ℕ) (env : Env) (delivery : ℕ) (st : State)
      → ((webhook mac decode secret env signature event delivery (some payload) st).0 ≡ st)
        ⊎ IsSigned mac secret payload signature
  unfolding webhook by_verdict
  webhook-IsSigned secret signature event payload env delivery st =
      elim (Bool-cases (text_eq secret [])) [
        | inl y ↦ inl (rw y refl)
        | inr n ↦ rw n (judged (verify_signature mac decode secret payload signature) refl)
      ]
    where
      judged :
          (v : Verdict)
          → verify_signature mac decode secret payload signature ≡ v
          → ((by_verdict mac decode env event delivery payload st v).0 ≡ st)
            ⊎ IsSigned mac secret payload signature
      judged genuine e = inr (signed secret payload signature e)
      judged not_configured e = inl refl
      judged invalid e = inl refl

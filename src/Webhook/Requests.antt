-- ===== src/Webhook/Requests.antt =====
-- githubapp/webhook.go and handler/github_webhook.go: the signature of a request, and its answer.
use mini_paa_s.Common.{
  ℕ, ◌+◌, ◌*◌, ◌&&◌, List, [], ◌∷◌, Option, none, some, leb, ◌-◌, if◌then◌else◌, codes, text_eq,
  has_prefix, trim_space, drop,
}
use mini_paa_s.SourceGit.{is_digit}
use mini_paa_s.Webhook.{State, Push, Env, Outcome, error, handle}

-- One hexadecimal digit of `hex.DecodeString`
abbrev pub hex_value : ℕ → Option ℕ
hex_value c =
    if is_digit c
    then some (c - b'0')
    else if leb b'a' c && leb c b'f'
    then some (c - b'a' + 10)
    else if leb b'A' c && leb c b'F'
    then some (c - b'A' + 10)
    else none

abbrev pub hex_byte : Option ℕ → Option ℕ → Option (List ℕ) → Option (List ℕ)
hex_byte (some h) (some l) (some bytes) = some ((h * 16 + l) ∷ bytes)
hex_byte _ _ _ = none

unfoldable pub hex_decode : List ℕ → Option (List ℕ)
hex_decode [] = some []
hex_decode (c ∷ []) = none
hex_decode (c ∷ d ∷ s) = hex_byte (hex_value c) (hex_value d) (hex_decode s)

pub data Verdict : Type 0 where
  genuine not_configured invalid : Verdict

abbrev pub compared : List ℕ → Option (List ℕ) → Verdict
compared mac none = invalid
compared mac (some provided) = if text_eq provided mac then genuine else invalid

-- `mac` is the HMAC with SHA-256 of a payload under a secret, and `decode` reads a push from JSON.
module _ (mac : List ℕ → List ℕ → List ℕ) (decode : List ℕ → Option Push) where
  -- `VerifyWebhookSignature`
  unfoldable pub verify_signature : List ℕ → List ℕ → List ℕ → Verdict
  unfolding hex_decode
  verify_signature secret payload signature =
      if text_eq (trim_space secret) []
      then not_configured
      else if has_prefix signature (codes "sha256=")
      then compared (mac secret payload) (hex_decode (drop 7 signature))
      else invalid

  abbrev pub status_of : Outcome → ℕ
  status_of error = 500
  status_of _ = 202

  abbrev pub respond : State × Outcome → State × ℕ
  respond (st, outcome) = (st, status_of outcome)

  unfoldable pub by_verdict : Env → List ℕ → ℕ → List ℕ → State → Verdict → State × ℕ
  unfolding handle
  by_verdict env event delivery payload st genuine =
      respond (handle env event delivery (decode payload) st)
  by_verdict env event delivery payload st not_configured = (st, 503)
  by_verdict env event delivery payload st invalid = (st, 401)

  -- `Handle` of the handler: the new state and the HTTP status. `body` is `none` where it cannot be
  -- read or has more than a mebibyte.
  unfoldable pub webhook : List ℕ → Env → List ℕ → List ℕ → ℕ → Option (List ℕ) → State → State × ℕ
  unfolding verify_signature by_verdict
  webhook secret env signature event delivery none st = (st, if text_eq secret [] then 503 else 400)
  webhook secret env signature event delivery (some payload) st =
      if text_eq secret []
      then (st, 503)
      else by_verdict env event delivery payload st (verify_signature secret payload signature)

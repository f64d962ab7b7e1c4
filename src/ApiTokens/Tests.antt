-- ===== src/ApiTokens/Tests.antt =====
-- A token from its creation to its revocation.
use mini_paa_s.Common.{
  ℕ, zero, suc, ◌≡◌, refl, true, false, String, List, [], ◌∷◌, Option, none, some,
}
use mini_paa_s.Common.Results.{ok}
use mini_paa_s.Auth.{ApiToken, AuthResult, granted, denied, unauthorized}
use mini_paa_s.ApiTokens.{Row, create, authenticated}
use mini_paa_s.ApiTokens.Requests.{Op, creates, revokes, uses, run}
use mini_paa_s.ApiTokens.Life.{AuthenticatesAs, create-AuthenticatesAs}

abbrev plain : String → String
plain text = text

abbrev letters : ℕ → String
letters zero = String.[]
letters (suc n) = String.◌∷◌ "A" (letters n)

abbrev decoded : String → Option ℕ
decoded text = some 32

abbrev bot : ApiToken
bot = record { id = 9; user_id = 4; scopes = "deploy" ∷ []; expires_at = some 500; revoked = false }

abbrev bot_row : Row
bot_row = record {
  token = bot;
  name = "bot";
  hash = "mpat_AAA";
  prefix = "mpat_AAA";
  last_used = none;
}

abbrev requests : List Op
requests =
    uses true true 120 "mpat_AAA"
    ∷ revokes true 5 9
    ∷ creates 130 (some 3) (some 10) 5 "same secret" [] none
    ∷ revokes true 4 9
    ∷ []

created :
    create plain letters plain 100 (some 3) (some 9) 4 " bot " ("deploy" ∷ []) (some 500) []
    ≡ ok (bot, "mpat_AAA", bot_row ∷ [])
unfolding create mini_paa_s.Common.is_empty mini_paa_s.Common.trim mini_paa_s.Auth.normalize_scopes
created = refl

create-AuthenticatesAs_example : AuthenticatesAs plain letters decoded plain bot requests 200 (
    authenticated plain decoded true
      (run plain letters decoded plain requests (bot_row ∷ []))
      200
      "mpat_AAA")
create-AuthenticatesAs_example =
    create-AuthenticatesAs plain letters decoded plain (λ n. refl) 100 200 (some 3) (some 9) 4
      " bot " ("deploy" ∷ []) (some 500) [] (bot_row ∷ []) bot "mpat_AAA" requests created

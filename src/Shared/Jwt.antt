-- ===== src/Shared/Jwt.antt =====
-- pkg/shared/jwt/jwt.go: the access tokens of users and agents. The library that signs and parses
-- is the parameter `Library`: it is given the options that the code passes to it. A time is a
-- number of seconds, `now` what `time.Now` reads and `token_id` the next random UUID.
pub mod Roundtrip
mod Tests
use n.Base.{
  ℕ, ◌+◌, Bool, true, false, not, ◌&&◌, ◌||◌, List, [], ◌∷◌, Bytes, codes, eq, is_empty,
  if◌then◌else◌,
}
use n.Job.Backend.{Error, message, wrap, Result, ok, err}

pub record Claims : Type 0 where
  pub subject : Bytes
  pub issuer : Bytes
  pub audience : List Bytes
  pub expires_at : ℕ
  pub issued_at : ℕ
  pub id : Bytes
  pub user_id : Bytes
  pub email : Bytes
  pub token_type : Bytes

pub record Manager : Type 0 where
  pub secret : Bytes
  pub issuer : Bytes
  pub expiry : ℕ

-- What `Verify` asks of a token: `WithValidMethods`, `WithIssuer`, `WithAudience`,
-- `WithExpirationRequired` and `WithIssuedAt`, under the secret of the key function.
pub record Options : Type 0 where
  pub secret : Bytes
  pub methods : List Bytes
  pub issuer : Bytes
  pub audience : Bytes
  pub needs_expiry : Bool
  pub checks_issued_at : Bool

-- A parsed token; `valid` is its flag.
pub record Token : Type 0 where
  pub claims : Claims
  pub valid : Bool

-- `sign` is `SignedString` under HS256.
pub record Library : Type 0 where
  pub sign : Bytes → Claims → Result Bytes
  pub parse : Options → ℕ → Bytes → Result Token

abbrev pub platform : Bytes
platform = codes "n0-platform"

abbrev pub options_of : Manager → Options
options_of m = record {
  secret = m.secret;
  methods = codes "HS256" ∷ [];
  issuer = m.issuer;
  audience = platform;
  needs_expiry = true;
  checks_issued_at = true;
}

abbrev pub user_claims : Manager → ℕ → Bytes → Bytes → Bytes → Claims
user_claims m now token_id user_id email = record {
  subject = user_id;
  issuer = m.issuer;
  audience = platform ∷ [];
  expires_at = now + m.expiry;
  issued_at = now;
  id = token_id;
  user_id = user_id;
  email = email;
  token_type = codes "user";
}

abbrev pub agent_claims : Manager → ℕ → Bytes → Bytes → Bytes → Claims
agent_claims m now token_id agent_id user_id = record {
  subject = agent_id;
  issuer = m.issuer;
  audience = platform ∷ [];
  expires_at = now + m.expiry;
  issued_at = now;
  id = token_id;
  user_id = user_id;
  email = [];
  token_type = codes "agent";
}

abbrev pub lacks_claims : Claims → Bool
lacks_claims c =
    is_empty c.user_id
    || not (eq c.token_type (codes "user")) && not (eq c.token_type (codes "agent"))

abbrev pub checked : Result Token → Result Claims
checked (err e) = err (wrap (codes "parse token") e)
checked (ok token) =
    if not token.valid
    then err (message (codes "invalid token"))
    else if lacks_claims token.claims
    then err (message (codes "invalid token claims"))
    else ok token.claims

module _ (lib : Library) where
  -- `GenerateUserToken`.
  unfoldable pub generate_user_token : Manager → ℕ → Bytes → Bytes → Bytes → Result Bytes
  generate_user_token m now token_id user_id email =
      lib.sign m.secret (user_claims m now token_id user_id email)

  -- `GenerateAgentToken`.
  unfoldable pub generate_agent_token : Manager → ℕ → Bytes → Bytes → Bytes → Result Bytes
  generate_agent_token m now token_id agent_id user_id =
      lib.sign m.secret (agent_claims m now token_id agent_id user_id)

  -- `Verify`.
  unfoldable pub verify : Manager → ℕ → Bytes → Result Claims
  unfolding eq
  verify m now token = checked (lib.parse (options_of m) now token)

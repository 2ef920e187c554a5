-- ===== src/Auth/Services.antt =====
-- What internal/auth uses and does not implement: random bytes, base64, AES-GCM, the OAuth
-- endpoints and HTTP requests to the Discord API. A remote answer depends on the step at which
-- the request is made; `none` is an error.
use discord_lite_server.Base.{ℕ, String, Option, some, List, ◌≡◌}
use discord_lite_server.Base.Lists.{length}

-- crypto/rand, encoding/base64, crypto/aes and crypto/cipher, on lists of bytes.
pub record Crypto : Type 0 where
  pub random : ℕ → ℕ → Option (List ℕ)
  pub to_base64 : List ℕ → String
  pub to_base64_url : List ℕ → String
  pub from_base64 : String → Option (List ℕ)
  pub bytes : String → List ℕ
  pub text : List ℕ → String
  pub seal : List ℕ → List ℕ → List ℕ → List ℕ
  pub unseal : List ℕ → List ℕ → List ℕ → Option (List ℕ)

-- What their documentation promises.
pub record IsCrypto (c : Crypto) : Type 0 where
  pub random_length : (step n : ℕ) (b : List ℕ) → c.random step n ≡ some b → length b ≡ n
  pub base64 : (b : List ℕ) → c.from_base64 (c.to_base64 b) ≡ some b
  pub text-bytes : (s : String) → c.text (c.bytes s) ≡ s
  pub unseal-seal : (key nonce b : List ℕ) → c.unseal key nonce (c.seal key nonce b) ≡ some b

-- golang.org/x/oauth2.Token
pub record RemoteToken : Type 0 where
  pub access_token : String
  pub refresh_token : String
  pub token_type : String
  pub expiry : ℕ

pub record Response : Type 0 where
  pub status_code : ℕ
  pub body : String

-- internal/auth/discord.go: DiscordUser
pub record DiscordUser : Type 0 where
  pub id : String
  pub username : String
  pub discriminator : String
  pub avatar : String
  pub email : String

pub record Remote : Type 0 where
  pub exchange : ℕ → String → Option RemoteToken
  pub refresh : ℕ → String → Option RemoteToken
  pub auth_code_url : String → String
  -- an HTTP GET of a path with an Authorization header
  pub get : ℕ → String → String → Option Response
  -- encoding/json
  pub decode_user : String → Option DiscordUser
  -- github.com/google/uuid
  pub new_uuid : ℕ → String

-- The fields of internal/config.Config that this part reads.
pub record Settings : Type 0 where
  pub encryption_key : List ℕ
  pub scopes : List String
  pub state_expiry_minutes : ℕ
  pub session_expiry_hours : ℕ

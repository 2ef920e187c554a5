-- ===== src/Tests/Services.antt =====
-- The environment of the examples: a database that answers, a clock that shows the step, a remote
-- side that knows one user, and encodings in place of the cryptography.
use discord_lite_server.Base.{leb, ℕ, zero, suc, ◌≡◌, refl, ap, false, some, List, [], ◌∷◌, arith}
use discord_lite_server.Base.Lists.{length}
use discord_lite_server.Effect.{Env}
use discord_lite_server.Auth.Services.{Crypto, IsCrypto, RemoteToken, DiscordUser, Remote, Settings}
use discord_lite_server.Tests.Encoding.{
  codes, from_codes, from_codes-codes, spell, read, read-spell,
}

abbrev pub env : Env
env = record {
  fails = λ step. false;
  clock = λ step. step;
  text_le = λ a b. leb (length (codes a)) (length (codes b));
}

abbrev repeat : ℕ → List ℕ
repeat zero = []
repeat (suc n) = 0 ∷ repeat n

length-repeat : (n : ℕ) → length (repeat n) ≡ n
length-repeat zero = refl
length-repeat (suc n) = ap suc (length-repeat n)

abbrev pub crypto : Crypto
crypto = record {
  random = λ step n. some (repeat n);
  to_base64 = spell;
  to_base64_url = spell;
  from_base64 = λ s. some (read s);
  bytes = codes;
  text = from_codes;
  seal = λ key nonce b. b;
  unseal = λ key nonce b. some b;
}

pub crypto-IsCrypto : IsCrypto crypto
crypto-IsCrypto = record {
  random_length = λ step n b e. drawn n b e;
  base64 = λ b. ap some (read-spell b);
  text-bytes = from_codes-codes;
  unseal-seal = λ key nonce b. refl;
}
  where
    drawn : (n : ℕ) (b : List ℕ) → some (repeat n) ≡ some b → length b ≡ n
    drawn n b e = ground (arith, length-repeat n)

abbrev ann : DiscordUser
ann = record { id = "7"; username = "ann"; discriminator = "0"; avatar = ""; email = "" }

abbrev token : RemoteToken
token = record { access_token = "!"; refresh_token = "#"; token_type = "Bearer"; expiry = 100 }

abbrev pub remote : Remote
remote = record {
  exchange = λ step code. some token;
  refresh = λ step code. some token;
  auth_code_url = λ state. state;
  get = λ step path header. some (record { status_code = 200; body = "" });
  decode_user = λ body. some ann;
  new_uuid = λ step. "session";
}

abbrev pub settings : Settings
settings = record {
  encryption_key = repeat 32;
  scopes = "identify" ∷ [];
  state_expiry_minutes = 10;
  session_expiry_hours = 24;
}

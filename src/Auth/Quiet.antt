-- ===== src/Auth/Quiet.antt =====
-- The actions of internal/auth that leave the tables alone.
use discord_lite_server.Base.{ℕ, Option, String, arith}
use discord_lite_server.Models.{Tables, OauthToken}
use discord_lite_server.Effect.{Env}
use discord_lite_server.Effect.Moves.{Order, Moves, moves_rules}
use discord_lite_server.Auth.Services.{Crypto, Remote, Settings}
use discord_lite_server.Auth.Cipher.{random_bytes, encrypt_token, decrypt_token}
use discord_lite_server.Auth.Discord.{
  request, exchange_code, get_user_info, refresh_token, refresh_if_needed,
}
use discord_lite_server.Auth.StateManager.{generate_state}

module _ {R : Tables → Tables → Type 0} (o : Order R) where
  pub random_bytes-quiet : (c : Crypto) (n : ℕ) → Moves R (random_bytes c n)
  unfolding random_bytes
  random_bytes-quiet c n = record { at = λ w. ground (arith, o.same w.tables) }

  pub request-quiet : {A : Type 0} (f : ℕ → Option A) → Moves R (request f)
  unfolding request
  request-quiet f = record { at = λ w. ground (arith, o.same w.tables) }

  pub encrypt_token-quiet :
      (c : Crypto) (s : Settings) (text : String) → Moves R (encrypt_token c s text)
  unfolding encrypt_token
  encrypt_token-quiet c s text = search (moves_rules, random_bytes-quiet)

  pub decrypt_token-quiet :
      (c : Crypto) (s : Settings) (text : String) → Moves R (decrypt_token c s text)
  unfolding decrypt_token
  decrypt_token-quiet c s text = search moves_rules depth 8

  pub exchange_code-quiet : (r : Remote) (code : String) → Moves R (exchange_code r code)
  unfolding exchange_code
  exchange_code-quiet r code = search (moves_rules, request-quiet)

  pub get_user_info-quiet : (r : Remote) (token : String) → Moves R (get_user_info r token)
  unfolding get_user_info
  get_user_info-quiet r token = search (moves_rules, request-quiet)

  pub refresh_token-quiet : (r : Remote) (token : String) → Moves R (refresh_token r token)
  unfolding refresh_token
  refresh_token-quiet r token = search (moves_rules, request-quiet)

  pub refresh_if_needed-quiet :
      (env : Env) (r : Remote) (c : Crypto) (s : Settings) (k : OauthToken)
      → Moves R (refresh_if_needed env r c s k)
  unfolding refresh_if_needed
  refresh_if_needed-quiet env r c s k =
      search (moves_rules, refresh_token-quiet, encrypt_token-quiet, decrypt_token-quiet) depth 9

  pub generate_state-quiet : (c : Crypto) → Moves R (generate_state c)
  unfolding generate_state
  generate_state-quiet c = search (moves_rules, random_bytes-quiet)

pub ruleset quiet_rules = (
  random_bytes-quiet, request-quiet, encrypt_token-quiet, decrypt_token-quiet, exchange_code-quiet,
  get_user_info-quiet, refresh_token-quiet, refresh_if_needed-quiet, generate_state-quiet,
)

-- ===== src/Auth/Discord.antt =====
-- internal/auth/discord.go: the code exchange, the user request and the refresh of a token.
pub mod Refresh
use Prim.Native.String.{◌++◌}
use discord_lite_server.Base.{
  ℕ, suc, ◌+◌, ◌*◌, Bool, true, false, String, Option, none, some, ◌==◌, nat_eq, ltb, if◌then◌else◌,
}
use discord_lite_server.Models.{OauthToken}
use discord_lite_server.Effect.{
  Env, Action, World, Result, ok, err, external, message, http_status, wrap, raise, pure, or_fail,
  now, ◌>>=◌,
}
use discord_lite_server.Auth.Services.{Crypto, Remote, RemoteToken, Response, DiscordUser, Settings}
use discord_lite_server.Auth.Cipher.{encrypt_token, decrypt_token}

-- time.Minute, in nanoseconds
abbrev pub minute : ℕ
minute = 60 * 1000000000

-- A request: one step, at which the remote side answers.
unfoldable pub request : {A : Type 0} → (ℕ → Option A) → Action A
unfolding or_fail
request f w = or_fail external (f w.step) (record w { step = suc w.step })

module _ (remote : Remote) where
  unfoldable pub exchange_code : String → Action RemoteToken
  exchange_code code =
      wrap "failed to exchange code for token" (request (λ step. remote.exchange step code))

  unfoldable pub get_user_info : String → Action DiscordUser
  get_user_info access_token = do
    resp ←
        wrap "failed to fetch user info"
          (request (λ step. remote.get step "/users/@me" ("Bearer " ++ access_token)))
    if resp.status_code == 200
        then wrap "failed to decode user info" (or_fail external (remote.decode_user resp.body))
        else raise (http_status resp.status_code resp.body)

  unfoldable pub refresh_token : String → Action RemoteToken
  refresh_token token = wrap "failed to refresh token" (request (λ step. remote.refresh step token))

-- What RefreshIfNeeded returns, and the token as its caller finds it afterwards.
pub record Refreshed : Type 0 where
  pub access_token : String
  pub was_refreshed : Bool
  pub oauth_token : OauthToken

module _ (env : Env) (remote : Remote) (c : Crypto) (s : Settings) where
  unfoldable pub renew : OauthToken → Action Refreshed
  renew k = do
    old ← wrap "failed to decrypt refresh token" (decrypt_token c s k.refresh_token)
    new ← wrap "failed to refresh token" (refresh_token remote old)
    access ← wrap "failed to encrypt access token" (encrypt_token c s new.access_token)
    again ← wrap "failed to encrypt refresh token" (encrypt_token c s new.refresh_token)
    pure (record {
      access_token = new.access_token;
      was_refreshed = true;
      oauth_token = record k { access_token = access; refresh_token = again; expiry = new.expiry };
    })

  unfoldable pub reuse : OauthToken → Action Refreshed
  reuse k = do
    access ← wrap "failed to decrypt access token" (decrypt_token c s k.access_token)
    pure (record { access_token = access; was_refreshed = false; oauth_token = k })

  -- A token that expires within five minutes is refreshed.
  unfoldable pub refresh_if_needed : OauthToken → Action Refreshed
  unfolding renew reuse
  refresh_if_needed k = do
    instant ← now env
    if ltb k.expiry (instant + 5 * minute) then renew k else reuse k

-- ===== src/Grpc/Session.antt =====
-- internal/grpc/channel_service.go and message_service.go: what every call of them begins with.
use discord_lite_server.Base.{ℕ, Bool, true, false, String, Option, none, some, List, [], ◌∷◌}
use discord_lite_server.Effect.{
  Env, Action, Result, ok, err, status, unauthenticated, internal, raise, pure, or_return, or_fail,
  ◌>>=◌, ◌>>◌,
}
use discord_lite_server.Database.Sound.{is_authenticated}
use discord_lite_server.Database.Sessions.{get_auth_session}
use discord_lite_server.Database.Tokens.{get_oauth_token}
use discord_lite_server.Auth.Services.{Crypto, Remote, Settings}
use discord_lite_server.Auth.Discord.{refresh_if_needed}
use discord_lite_server.Websocket.Manager.Connections.{store_if_refreshed}

abbrev pub require : Bool → Action (Unit {0}) → Action (Unit {0})
require true refuse = pure tt
require false refuse = refuse

module _ (env : Env) where
  -- The user of an authenticated session. The expiry of the session is not looked at.
  unfoldable pub session_user : String → Action ℕ
  session_user sid = do
    session ← or_return (status unauthenticated "invalid session") (get_auth_session env sid)
    require (is_authenticated session.auth_status)
        (raise (status unauthenticated "session not authenticated"))
    or_fail (status internal "session has no user") session.user_id

  module _ (remote : Remote) (c : Crypto) (s : Settings) where
    -- The user's access token, refreshed and stored where it is due.
    unfoldable pub fresh_token : ℕ → Action String
    fresh_token uid = do
      oauth_token ←
          or_return (status internal "failed to get OAuth token") (get_oauth_token env uid)
      r ←
          or_return (status unauthenticated "failed to refresh OAuth token")
            (refresh_if_needed env remote c s oauth_token)
      store_if_refreshed env remote c s r
      pure r.access_token

-- `err == nil && cacheValid`
abbrev pub is_hit : Result Bool → Bool
is_hit (ok b) = b
is_hit (err e) = false

-- The rows of a query, none where it fails.
abbrev pub rows_of : {A : Type 0} → Result (List A) → List A
rows_of (ok rows) = rows
rows_of (err e) = []

abbrev pub prepend : {A : Type 0} → Option A → List A → List A
prepend none rest = rest
prepend (some a) rest = a ∷ rest

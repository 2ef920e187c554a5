-- ===== src/Grpc/AuthServer.antt =====
-- internal/grpc/auth_service.go.
pub mod Sound
pub mod Revoke
pub mod Started
pub mod Content
use discord_lite_server.Base.{
  ℕ, suc, ◌+◌, ◌*◌, Bool, true, false, String, Option, none, some, ◌==◌, string_eq, if◌then◌else◌,
}
use discord_lite_server.Models.{
  User, AuthStatus, pending, authenticated, failed, other, AuthSession, session_is_expired,
  string_or_empty,
}
use discord_lite_server.Effect.{
  Env, Action, Result, ok, err, status, invalid_argument, not_found, internal, raise, pure,
  or_return, attempt, now, ◌>>=◌, ◌>>◌,
}
use discord_lite_server.Database.Users.{get_user_by_id}
use discord_lite_server.Database.Tokens.{delete_oauth_token}
use discord_lite_server.Database.Sessions.{
  create_auth_session, get_auth_session, delete_auth_session,
}
use discord_lite_server.Auth.Services.{Crypto, Remote, Settings}
use discord_lite_server.Auth.Discord.{minute}
use discord_lite_server.Auth.StateManager.{generate_state, store_state}

-- time.Hour
abbrev pub hour : ℕ
hour = 60 * minute

pub record InitAuthResponse : Type 0 where
  pub auth_url : String
  pub session_id : String
  pub state : String

pub data ReplyStatus : Type 0 where
  unspecified is_pending is_authenticated is_failed : ReplyStatus

pub record UserInfo : Type 0 where
  pub discord_id : String
  pub username : String
  pub discriminator : String
  pub avatar : String
  pub email : String

pub record GetAuthStatusResponse : Type 0 where
  pub reply_status : ReplyStatus
  pub user : Option UserInfo
  pub error_message : Option String

abbrev pub user_info : User → UserInfo
user_info u = record {
  discord_id = u.discord_id;
  username = u.username;
  discriminator = string_or_empty u.discriminator;
  avatar = string_or_empty u.avatar;
  email = string_or_empty u.email;
}

abbrev pub reply : ReplyStatus → Option UserInfo → Option String → GetAuthStatusResponse
reply s u e = record { reply_status = s; user = u; error_message = e }

-- The id of the request, or a new one.
unfoldable pub choose_session : Remote → String → Action String
choose_session remote requested w =
    if requested == ""
    then (ok (remote.new_uuid w.step), record w { step = suc w.step })
    else (ok requested, w)

module _ (env : Env) where
  unfoldable pub init_auth : Remote → Crypto → Settings → String → Action InitAuthResponse
  init_auth remote c s requested = do
    session_id ← choose_session remote requested
    state ← or_return (status internal "failed to generate state") (generate_state c)
    or_return (status internal "failed to store state") (store_state env s state session_id)
    instant ← now env
    or_return (status internal "failed to create session") (
        create_auth_session env (record {
          session_id = session_id;
          user_id = none;
          auth_status = pending;
          error_message = none;
          created_at = 0;
          updated_at = 0;
          expires_at = instant + s.session_expiry_hours * hour;
        }))
    pure (record { auth_url = remote.auth_code_url state; session_id = session_id; state = state })

  -- The user of an authenticated session.
  unfoldable pub status_user : Option ℕ → Action (Option UserInfo)
  status_user none = pure none
  status_user (some uid) = do
    u ← or_return (status internal "failed to retrieve user information") (get_user_by_id env uid)
    pure (some (user_info u))

  unfoldable pub build_status : AuthSession → AuthStatus → Action GetAuthStatusResponse
  unfolding status_user
  build_status s pending = pure (reply is_pending none none)
  build_status s authenticated = do u ← status_user s.user_id; pure (reply is_authenticated u none)
  build_status s failed = pure (reply is_failed none s.error_message)
  build_status s (other text) = pure (reply unspecified none none)

  unfoldable pub get_auth_status : String → Action GetAuthStatusResponse
  get_auth_status session_id =
      if session_id == "" then raise (status invalid_argument "session_id is required") else do
        s ← or_return (status not_found "session not found") (get_auth_session env session_id)
        instant ← now env
        if session_is_expired instant s
            then pure (reply is_failed none (some "session has expired"))
            else build_status s s.auth_status

  -- A token that cannot be deleted is only logged.
  unfoldable pub delete_user_token : Option ℕ → Action (Unit {0})
  delete_user_token none = pure tt
  delete_user_token (some uid) = do attempt (delete_oauth_token env uid); pure tt

  unfoldable pub revoke_auth : String → Action (Unit {0})
  unfolding delete_user_token
  revoke_auth session_id =
      if session_id == "" then raise (status invalid_argument "session_id is required") else do
        s ← or_return (status not_found "session not found") (get_auth_session env session_id)
        delete_user_token s.user_id
        or_return (status internal "failed to revoke authentication")
            (delete_auth_session env session_id)

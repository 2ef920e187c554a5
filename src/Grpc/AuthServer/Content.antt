-- ===== src/Grpc/AuthServer/Content.antt =====
-- The calls of the auth service keep the invariants of the content.
use discord_lite_server.Base.{ℕ, String, Option, none, some}
use discord_lite_server.Models.{AuthSession, AuthStatus, pending, authenticated, failed, other}
use discord_lite_server.Effect.{Env}
use discord_lite_server.Database.Users.{get_user_by_id}
use discord_lite_server.Database.Content.Queries.{KeepsContent}
use discord_lite_server.Database.Content.SignIn.{sign_in_rules}
use discord_lite_server.Auth.Services.{Crypto, Remote, Settings}
use discord_lite_server.Auth.Quiet.{quiet_rules}
use discord_lite_server.Auth.Content.{store_state_content}
use discord_lite_server.Grpc.AuthServer.{
  init_auth, status_user, build_status, get_auth_status, delete_user_token, revoke_auth,
}
use discord_lite_server.Grpc.AuthServer.Sound.{choose_session-quiet}

module _ (env : Env) where
  pub init_auth_content :
      (r : Remote) (c : Crypto) (s : Settings) (sid : String)
      → KeepsContent (init_auth env r c s sid)
  unfolding init_auth
  init_auth_content r c s sid =
      search (sign_in_rules, quiet_rules, choose_session-quiet, store_state_content) depth 8

  get_user_by_id_content : (id : ℕ) → KeepsContent (get_user_by_id env id)
  unfolding get_user_by_id
  get_user_by_id_content id = search sign_in_rules

  status_user_content : (uid : Option ℕ) → KeepsContent (status_user env uid)
  unfolding status_user
  status_user_content none = search sign_in_rules
  status_user_content (some uid) = search (sign_in_rules, get_user_by_id_content)

  build_status_content : (s : AuthSession) (a : AuthStatus) → KeepsContent (build_status env s a)
  unfolding build_status
  build_status_content s pending = search sign_in_rules
  build_status_content s authenticated = search (sign_in_rules, status_user_content)
  build_status_content s failed = search sign_in_rules
  build_status_content s (other text) = search sign_in_rules

  pub get_auth_status_content : (sid : String) → KeepsContent (get_auth_status env sid)
  unfolding get_auth_status
  get_auth_status_content sid = search (sign_in_rules, build_status_content) depth 7

  delete_user_token_content : (uid : Option ℕ) → KeepsContent (delete_user_token env uid)
  unfolding delete_user_token
  delete_user_token_content none = search sign_in_rules
  delete_user_token_content (some uid) = search sign_in_rules

  pub revoke_auth_content : (sid : String) → KeepsContent (revoke_auth env sid)
  unfolding revoke_auth
  revoke_auth_content sid = search (sign_in_rules, delete_user_token_content) depth 7

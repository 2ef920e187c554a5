-- ===== src/Auth/Content.antt =====
-- The OAuth callback and the auth service keep the invariants of the content.
use discord_lite_server.Base.{String}
use discord_lite_server.Models.{User}
use discord_lite_server.Effect.{Env}
use discord_lite_server.Database.Content.Queries.{KeepsContent}
use discord_lite_server.Database.Content.SignIn.{sign_in_rules}
use discord_lite_server.Auth.Services.{Crypto, Remote, RemoteToken, Settings}
use discord_lite_server.Auth.Quiet.{quiet_rules}
use discord_lite_server.Auth.StateManager.{store_state, validate_state}
use discord_lite_server.Auth.Callback.{
  update_session_failed, secure_tokens, authenticate, handle_callback,
}

module _ (env : Env) where
  pub store_state_content :
      (s : Settings) (state sid : String) → KeepsContent (store_state env s state sid)
  unfolding store_state
  store_state_content s state sid = search sign_in_rules

  validate_state_content : (state : String) → KeepsContent (validate_state env state)
  unfolding validate_state
  validate_state_content state = search sign_in_rules

  update_session_failed_content :
      {A : Type 0} (sid text : String) → KeepsContent (update_session_failed env {A = A} sid text)
  unfolding update_session_failed
  update_session_failed_content sid text = search sign_in_rules

  module _ (remote : Remote) (c : Crypto) (s : Settings) where
    secure_tokens_content :
        (sid : String) (u : User) (k : RemoteToken)
        → KeepsContent (secure_tokens env remote c s sid u k)
    unfolding secure_tokens
    secure_tokens_content sid u k =
        search (sign_in_rules, quiet_rules, update_session_failed_content) depth 8

    authenticate_content : (code sid : String) → KeepsContent (authenticate env remote c s code sid)
    unfolding authenticate
    authenticate_content code sid =
        search (sign_in_rules, quiet_rules, update_session_failed_content, secure_tokens_content)
          depth 8

    pub handle_callback_content :
        (code state : String) → KeepsContent (handle_callback env remote c s code state)
    unfolding handle_callback
    handle_callback_content code state =
        search (
          sign_in_rules, validate_state_content, update_session_failed_content,
          authenticate_content,
        )

-- ===== src/Auth/Sound.antt =====
-- The OAuth callback keeps the invariants of the tables.
use discord_lite_server.Base.{ℕ, String, Option, none, some, refl}
use discord_lite_server.Models.{User, authenticated, failed}
use discord_lite_server.Effect.{Env}
use discord_lite_server.Database.Sound.Queries.{
  KeepsSound, sound_rules, update_auth_session_status_sound,
}
use discord_lite_server.Database.Sessions.{update_auth_session_status}
use discord_lite_server.Auth.Services.{Crypto, Remote, RemoteToken, Settings}
use discord_lite_server.Auth.Quiet.{quiet_rules}
use discord_lite_server.Auth.StateManager.{store_state, validate_state}
use discord_lite_server.Auth.Callback.{
  update_session_failed, secure_tokens, authenticate, handle_callback,
}

module _ (env : Env) where
  -- Of a session that failed, the user is forgotten.
  mark_failed :
      (sid : String) (text : Option String)
      → KeepsSound (update_auth_session_status env sid failed none text)
  mark_failed sid text = update_auth_session_status_sound env sid failed none text refl

  mark_authenticated :
      (sid : String) (uid : ℕ)
      → KeepsSound (update_auth_session_status env sid authenticated (some uid) none)
  mark_authenticated sid uid =
      update_auth_session_status_sound env sid authenticated (some uid) none refl

  pub store_state_sound :
      (s : Settings) (state sid : String) → KeepsSound (store_state env s state sid)
  unfolding store_state
  store_state_sound s state sid = search sound_rules

  pub validate_state_sound : (state : String) → KeepsSound (validate_state env state)
  unfolding validate_state
  validate_state_sound state = search sound_rules

  update_session_failed_sound :
      {A : Type 0} (sid text : String) → KeepsSound (update_session_failed env {A = A} sid text)
  unfolding update_session_failed
  update_session_failed_sound sid text = search (sound_rules, mark_failed)

  module _ (remote : Remote) (c : Crypto) (s : Settings) where
    secure_tokens_sound :
        (sid : String) (u : User) (k : RemoteToken)
        → KeepsSound (secure_tokens env remote c s sid u k)
    unfolding secure_tokens
    secure_tokens_sound sid u k =
        search (sound_rules, quiet_rules, update_session_failed_sound) depth 8

    authenticate_sound : (code sid : String) → KeepsSound (authenticate env remote c s code sid)
    unfolding authenticate
    authenticate_sound code sid =
        search
          (
            sound_rules, quiet_rules, update_session_failed_sound, secure_tokens_sound,
            mark_authenticated,
          )
          depth 8

    pub handle_callback_sound :
        (code state : String) → KeepsSound (handle_callback env remote c s code state)
    unfolding handle_callback
    handle_callback_sound code state =
        search (sound_rules, validate_state_sound, update_session_failed_sound, authenticate_sound)

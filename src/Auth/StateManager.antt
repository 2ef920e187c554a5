-- ===== src/Auth/StateManager.antt =====
-- internal/auth/state_manager.go.
use discord_lite_server.Base.{◌+◌, ◌*◌, String}
use discord_lite_server.Effect.{Env, Action, wrap, pure, now, ◌>>=◌, ◌>>◌}
use discord_lite_server.Database.States.{create_oauth_state, validate_and_delete_oauth_state}
use discord_lite_server.Auth.Services.{Crypto, Settings}
use discord_lite_server.Auth.Cipher.{random_bytes}
use discord_lite_server.Auth.Discord.{minute}

unfoldable pub generate_state : Crypto → Action String
generate_state c = do
  b ← wrap "failed to generate random state" (random_bytes c 32)
  pure (c.to_base64_url b)

module _ (env : Env) where
  unfoldable pub store_state : Settings → String → String → Action (Unit {0})
  store_state s state session_id = do
    instant ← now env
    wrap "failed to store state" (
        create_oauth_state env (record {
          state = state;
          session_id = session_id;
          created_at = 0;
          expires_at = instant + s.state_expiry_minutes * minute;
        }))
    pure tt

  unfoldable pub validate_state : String → Action String
  validate_state state = do
    row ← wrap "state validation failed" (validate_and_delete_oauth_state env state)
    pure row.session_id

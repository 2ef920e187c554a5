-- ===== src/Auth/Callback.antt =====
-- internal/auth/oauth_handler.go: what follows the redirect from Discord.
pub mod Relations
pub mod Correct
pub mod Frames
use discord_lite_server.Base.{
  ℕ, String, Option, none, some, List, [], ◌∷◌, ◌==◌, string_eq, if◌then◌else◌,
}
use Prim.Native.String.{◌++◌}
use discord_lite_server.Models.{User, OauthToken, AuthStatus, authenticated, failed, null_string}
use discord_lite_server.Effect.{
  Env, Action, message, wrapped, wrap, raise, pure, catch, attempt, ◌>>=◌, ◌>>◌,
}
use discord_lite_server.Database.Users.{create_user}
use discord_lite_server.Database.Tokens.{store_oauth_token}
use discord_lite_server.Database.Sessions.{update_auth_session_status}
use discord_lite_server.Auth.Services.{Crypto, Remote, RemoteToken, DiscordUser, Settings}
use discord_lite_server.Auth.Cipher.{encrypt_token}
use discord_lite_server.Auth.Discord.{exchange_code, get_user_info}
use discord_lite_server.Auth.StateManager.{validate_state}

-- strings.Join
pub join : String → List String → String
join sep [] = ""
join sep (x ∷ []) = x
join sep (x ∷ y ∷ rest) = x ++ sep ++ join sep (y ∷ rest)

-- The fields that the database fills are zero in the struct that the handler builds.
abbrev pub user_of : DiscordUser → User
user_of d = record {
  id = 0;
  discord_id = d.id;
  username = d.username;
  discriminator = null_string d.discriminator;
  avatar = null_string d.avatar;
  email = null_string d.email;
  created_at = 0;
  updated_at = 0;
}

module _ (env : Env) where
  -- The error is returned whether or not the session could be marked.
  unfoldable pub update_session_failed : {A : Type 0} → String → String → Action A
  update_session_failed session_id text =
      if session_id == "" then raise (wrapped "authentication failed" (message text)) else do
        attempt (update_auth_session_status env session_id failed none (some text))
        raise (wrapped "authentication failed" (message text))

  module _ (remote : Remote) (c : Crypto) (s : Settings) where
    -- Steps 5 of HandleCallback: the tokens are encrypted and stored.
    unfoldable pub secure_tokens : String → User → RemoteToken → Action (Unit {0})
    secure_tokens session_id user token = do
      access ←
          catch (encrypt_token c s token.access_token)
            (λ _. update_session_failed session_id "failed to secure tokens")
      again ←
          catch (encrypt_token c s token.refresh_token)
            (λ _. update_session_failed session_id "failed to secure tokens")
      catch
          (store_oauth_token env (record {
            id = 0;
            user_id = user.id;
            access_token = access;
            refresh_token = again;
            token_type = token.token_type;
            expiry = token.expiry;
            scope = join " " s.scopes;
            created_at = 0;
            updated_at = 0;
          }))
          (λ _. update_session_failed session_id "failed to store authentication data")
      pure tt

    -- Steps 2 to 6, once the state has named the session.
    unfoldable pub authenticate : String → String → Action (Unit {0})
    authenticate code session_id = do
      token ←
          catch (exchange_code remote code)
            (λ _. update_session_failed session_id "failed to exchange authorization code")
      discord_user ←
          catch (get_user_info remote token.access_token)
            (λ _. update_session_failed session_id "failed to fetch user information")
      user ←
          catch (create_user env (user_of discord_user))
            (λ _. update_session_failed session_id "failed to save user data")
      secure_tokens session_id user token
      wrap "failed to update session status"
          (update_auth_session_status env session_id authenticated (some user.id) none)

    unfoldable pub handle_callback : String → String → Action (Unit {0})
    handle_callback code state = do
      session_id ← catch (validate_state env state) (λ _. update_session_failed "" "invalid state")
      authenticate code session_id

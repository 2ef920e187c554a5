-- ===== src/Grpc/AuthServer/Sound.antt =====
-- The calls of the auth service keep the invariants of the tables.
use discord_lite_server.Base.{ℕ, String, Option, none, some, refl, arith}
use discord_lite_server.Models.{
  AuthSession, AuthStatus, pending, authenticated, failed, other, Tables,
}
use discord_lite_server.Effect.{Env}
use discord_lite_server.Effect.Moves.{Order, Moves}
use discord_lite_server.Database.Sound.Queries.{KeepsSound, sound_rules, create_auth_session_sound}
use discord_lite_server.Database.Sessions.{create_auth_session}
use discord_lite_server.Auth.Services.{Crypto, Remote, Settings}
use discord_lite_server.Auth.Quiet.{quiet_rules}
use discord_lite_server.Auth.Sound.{store_state_sound}
use discord_lite_server.Grpc.AuthServer.{
  choose_session, init_auth, status_user, build_status, get_auth_status, delete_user_token,
  revoke_auth,
}

pub choose_session-quiet :
    {R : Tables → Tables → Type 0}
    → Order R
    → (r : Remote) (sid : String) → Moves R (choose_session r sid)
unfolding choose_session
choose_session-quiet o r sid = record { at = λ w. ground (arith, o.same w.tables) }

module _ (env : Env) where
  create_pending :
      (sid : String) (expires : ℕ)
      → KeepsSound (
          create_auth_session env (record {
            session_id = sid;
            user_id = none;
            auth_status = pending;
            error_message = none;
            created_at = 0;
            updated_at = 0;
            expires_at = expires;
          }))
  create_pending sid expires = create_auth_session_sound env _ refl

  pub init_auth_sound :
      (r : Remote) (c : Crypto) (s : Settings) (sid : String) → KeepsSound (init_auth env r c s sid)
  unfolding init_auth
  init_auth_sound r c s sid =
      search (sound_rules, quiet_rules, choose_session-quiet, store_state_sound, create_pending)
        depth 8

  status_user_sound : (uid : Option ℕ) → KeepsSound (status_user env uid)
  unfolding status_user
  status_user_sound none = search sound_rules
  status_user_sound (some uid) = search sound_rules

  build_status_sound : (s : AuthSession) (a : AuthStatus) → KeepsSound (build_status env s a)
  unfolding build_status
  build_status_sound s pending = search sound_rules
  build_status_sound s authenticated = search (sound_rules, status_user_sound)
  build_status_sound s failed = search sound_rules
  build_status_sound s (other text) = search sound_rules

  pub get_auth_status_sound : (sid : String) → KeepsSound (get_auth_status env sid)
  unfolding get_auth_status
  get_auth_status_sound sid = search (sound_rules, build_status_sound) depth 7

  delete_user_token_sound : (uid : Option ℕ) → KeepsSound (delete_user_token env uid)
  unfolding delete_user_token
  delete_user_token_sound none = search sound_rules
  delete_user_token_sound (some uid) = search sound_rules

  pub revoke_auth_sound : (sid : String) → KeepsSound (revoke_auth env sid)
  unfolding revoke_auth
  revoke_auth_sound sid = search (sound_rules, delete_user_token_sound) depth 7

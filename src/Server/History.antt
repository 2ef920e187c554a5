-- ===== src/Server/History.antt =====
-- The invariants hold after every history.
use discord_lite_server.Base.{List, [], ◌∷◌}
use discord_lite_server.Models.{migrated}
use discord_lite_server.Effect.{Env, World}
use discord_lite_server.Database.Sound.{IsSound}
use discord_lite_server.Database.Sound.Queries.{cleanup_expired_sessions_sound}
use discord_lite_server.Auth.Services.{Crypto, Remote, Settings}
use discord_lite_server.Auth.Sound.{handle_callback_sound}
use discord_lite_server.Grpc.AuthServer.Sound.{
  init_auth_sound, get_auth_status_sound, revoke_auth_sound,
}
use discord_lite_server.Server.{
  Call, init_auths, get_auth_statuses, revoke_auths, callbacks, cleanups, serve_call, serve,
}

abbrev pub start : World
start = record { tables = migrated; step = 0 }

pub start-IsSound : IsSound migrated
start-IsSound = record {
  sessions_distinct = tt;
  states_distinct = tt;
  users_distinct = tt;
  ids_below = tt;
  tokens_distinct = tt;
  token_users = tt;
  session_users = tt;
  linked = tt;
}

module _ (env : Env) (remote : Remote) (c : Crypto) (s : Settings) where
  pub serve_call-IsSound :
      (call : Call) (w : World)
      → IsSound w.tables
      → IsSound (serve_call env remote c s call w).tables
  unfolding serve_call
  serve_call-IsSound (init_auths sid) w v = (init_auth_sound env remote c s sid).at w v
  serve_call-IsSound (get_auth_statuses sid) w v = (get_auth_status_sound env sid).at w v
  serve_call-IsSound (revoke_auths sid) w v = (revoke_auth_sound env sid).at w v
  serve_call-IsSound (callbacks code state) w v =
      (handle_callback_sound env remote c s code state).at w v
  serve_call-IsSound cleanups w v = (cleanup_expired_sessions_sound env).at w v

  -- Whatever the calls, the faults of the database, the clock and the remote answers: unique
  -- columns stay unique, every token and every session refers to a user that exists, and a session
  -- has a user exactly when it is authenticated.
  pub serve-IsSound :
      (calls : List Call) (w : World)
      → IsSound w.tables
      → IsSound (serve env remote c s calls w).tables
  unfolding serve
  serve-IsSound [] w v = v
  serve-IsSound (call ∷ calls) w v =
      serve-IsSound calls (serve_call env remote c s call w) (serve_call-IsSound call w v)

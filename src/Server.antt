-- ===== src/Server.antt =====
-- The sign-in side of the server as a whole: a history of the calls that reach it, from
-- internal/grpc/auth_service.go, from the callback of internal/oauth/handlers.go and from the
-- clean-up job of internal/database/queries.go, in any order; Traffic adds the other calls.
pub mod History
pub mod SignIn
pub mod Traffic
use discord_lite_server.Base.{String, List, [], ◌∷◌}
use discord_lite_server.Effect.{Env, World}
use discord_lite_server.Database.States.{cleanup_expired_sessions}
use discord_lite_server.Auth.Services.{Crypto, Remote, Settings}
use discord_lite_server.Auth.Callback.{handle_callback}
use discord_lite_server.Grpc.AuthServer.{init_auth, get_auth_status, revoke_auth}

pub data Call : Type 0 where
  init_auths get_auth_statuses revoke_auths : String → Call
  callbacks : String → String → Call
  cleanups : Call

module _ (env : Env) (remote : Remote) (c : Crypto) (s : Settings) where
  -- A call moves the world on, whatever it answers.
  unfoldable pub serve_call : Call → World → World
  serve_call (init_auths sid) w = (init_auth env remote c s sid w).1
  serve_call (get_auth_statuses sid) w = (get_auth_status env sid w).1
  serve_call (revoke_auths sid) w = (revoke_auth env sid w).1
  serve_call (callbacks code state) w = (handle_callback env remote c s code state w).1
  serve_call cleanups w = (cleanup_expired_sessions env w).1

  unfoldable pub serve : List Call → World → World
  serve [] w = w
  serve (call ∷ calls) w = serve calls (serve_call call w)

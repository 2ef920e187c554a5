-- ===== src/Server/Traffic/Safe.antt =====
-- The invariants of all tables hold after every history.
use discord_lite_server.Base.{List, [], ◌∷◌}
use discord_lite_server.Base.Table.{IsTable-empty}
use discord_lite_server.Models.{Tables, migrated}
use discord_lite_server.Effect.{Env, World, Result, ok, err}
use discord_lite_server.Database.Sound.{IsSound}
use discord_lite_server.Database.Sound.Content.{IsSound-Stores, websocket_cleanup_tick_sound}
use discord_lite_server.Database.Content.{IsContentSound}
use discord_lite_server.Database.Content.Queries.{content-Stores, websocket_cleanup_tick_content}
use discord_lite_server.Database.Content.SignIn.{cleanup_expired_sessions_content}
use discord_lite_server.Auth.Services.{Crypto, Remote, Settings}
use discord_lite_server.Auth.Content.{handle_callback_content}
use discord_lite_server.Auth.Api.{Api}
use discord_lite_server.Grpc.AuthServer.Content.{
  init_auth_content, get_auth_status_content, revoke_auth_content,
}
use discord_lite_server.Grpc.ChannelServer.Writes.{get_guilds_moves, get_channels_moves}
use discord_lite_server.Grpc.MessageServer.Writes.{get_messages_moves}
use discord_lite_server.Websocket.Channels.{Outcome, done, panics}
use discord_lite_server.Websocket.Events.{Decoder, Events}
use discord_lite_server.Websocket.Events.Writes.{
  handle_message_create_moves, handle_message_update_moves, handle_message_delete_moves,
}
use discord_lite_server.Server.{
  Call, init_auths, get_auth_statuses, revoke_auths, callbacks, cleanups, serve_call,
}
use discord_lite_server.Server.History.{serve_call-IsSound}
use discord_lite_server.Server.Traffic.{
  ServerCall, signs_in, lists_guilds, lists_channels, lists_messages, message_creates,
  message_updates, message_deletes, socket_cleanups, after_event, serve_one, serve_all,
}

pub record IsSafe (t : Tables) : Type 0 where
  pub accounts : IsSound t
  pub content : IsContentSound t

pub start-IsContentSound : IsContentSound migrated
start-IsContentSound = record {
  guild_table = IsTable-empty _ _ 1;
  channel_table = IsTable-empty _ _ 1;
  message_table = IsTable-empty _ _ 1;
  socket_table = IsTable-empty _ _ 1;
  link_users = tt;
  link_guilds = tt;
  channel_guilds = tt;
  message_channels = tt;
  attachment_messages = tt;
  socket_users = tt;
}

module _ (env : Env) (remote : Remote) (c : Crypto) (s : Settings) (api : Api)
    (decoder : Decoder) where
  serve_call-content :
      (call : Call) (w : World)
      → IsContentSound w.tables
      → IsContentSound (serve_call env remote c s call w).tables
  unfolding serve_call
  serve_call-content (init_auths sid) w v = (init_auth_content env remote c s sid).at w v
  serve_call-content (get_auth_statuses sid) w v = (get_auth_status_content env sid).at w v
  serve_call-content (revoke_auths sid) w v = (revoke_auth_content env sid).at w v
  serve_call-content (callbacks code state) w v =
      (handle_callback_content env remote c s code state).at w v
  serve_call-content cleanups w v = (cleanup_expired_sessions_content env).at w v

  event-IsSafe :
      (m : Events) (r : Result (Outcome Events)) (w : World)
      → IsSafe w.tables
      → IsSafe (after_event m (r, w)).1.tables
  event-IsSafe m (ok o) w v = v
  event-IsSafe m (err e) w v = v

  serve_one-IsSafe :
      (call : ServerCall) (m : Events) (w : World)
      → IsSafe w.tables
      → IsSafe (serve_one env remote c s api decoder call m w).1.tables
  unfolding serve_one
  serve_one-IsSafe (signs_in call) m w v = record {
    accounts = serve_call-IsSound env remote c s call w v.accounts;
    content = serve_call-content call w v.content;
  }
  serve_one-IsSafe (lists_guilds req) m w v = record {
    accounts = (get_guilds_moves env (IsSound-Stores env) remote api c s req).at w v.accounts;
    content = (get_guilds_moves env (content-Stores env) remote api c s req).at w v.content;
  }
  serve_one-IsSafe (lists_channels req) m w v = record {
    accounts = (get_channels_moves env (IsSound-Stores env) remote api req).at w v.accounts;
    content = (get_channels_moves env (content-Stores env) remote api req).at w v.content;
  }
  serve_one-IsSafe (lists_messages req) m w v = record {
    accounts = (get_messages_moves env (IsSound-Stores env) api remote c s req).at w v.accounts;
    content = (get_messages_moves env (content-Stores env) api remote c s req).at w v.content;
  }
  serve_one-IsSafe (message_creates payload) m w v = event-IsSafe m _ _ (record {
    accounts =
        (handle_message_create_moves env (IsSound-Stores env) api decoder payload m).at w
          v.accounts;
    content =
        (handle_message_create_moves env (content-Stores env) api decoder payload m).at w v.content;
  })
  serve_one-IsSafe (message_updates payload) m w v = event-IsSafe m _ _ (record {
    accounts =
        (handle_message_update_moves env (IsSound-Stores env) api decoder payload m).at w
          v.accounts;
    content =
        (handle_message_update_moves env (content-Stores env) api decoder payload m).at w v.content;
  })
  serve_one-IsSafe (message_deletes payload) m w v = event-IsSafe m _ _ (record {
    accounts =
        (handle_message_delete_moves env (IsSound-Stores env) api decoder payload m).at w
          v.accounts;
    content =
        (handle_message_delete_moves env (content-Stores env) api decoder payload m).at w v.content;
  })
  serve_one-IsSafe socket_cleanups m w v = record {
    accounts = (websocket_cleanup_tick_sound env).at w v.accounts;
    content = (websocket_cleanup_tick_content env).at w v.content;
  }

  -- From safe tables, whatever the calls, requests and events, the faults of the database, the
  -- clock and the remote answers, and also where an event ends the process: the Discord ids of
  -- users, guilds, channels and messages, the states, the users of tokens and the ids of sessions
  -- stay unique, every reference (of a token, a session, a membership, a channel, a message, an
  -- attachment, a WebSocket session) leads to a row, and an authentication session has a user
  -- exactly when it is authenticated.
  pub serve_all-IsSafe :
      (calls : List ServerCall) (o : Outcome Events) (w : World)
      → IsSafe w.tables
      → IsSafe (serve_all env remote c s api decoder calls (o, w)).1.tables
  unfolding serve_all
  serve_all-IsSafe [] o w v = v
  serve_all-IsSafe (call ∷ calls) panics w v = v
  serve_all-IsSafe (call ∷ calls) (done m) w v =
      let next = serve_one env remote c s api decoder call m w in
      serve_all-IsSafe calls next.0 next.1 (serve_one-IsSafe call m w v)

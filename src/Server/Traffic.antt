-- ===== src/Server/Traffic.antt =====
-- The server as a whole: the calls of the three services, the callback, the events of the Gateway
-- and the clean-up jobs, one after the other and in any order.
pub mod Safe
use discord_lite_server.Base.{String, List, [], ◌∷◌}
use discord_lite_server.Effect.{Env, World, Result, ok, err}
use discord_lite_server.Database.WebsocketSessions.{websocket_cleanup_tick}
use discord_lite_server.Auth.Services.{Crypto, Remote, Settings}
use discord_lite_server.Auth.Api.{Api}
use discord_lite_server.Grpc.ChannelServer.{
  GetGuildsRequest, GetChannelsRequest, get_guilds, get_channels,
}
use discord_lite_server.Grpc.MessageServer.{GetMessagesRequest, get_messages}
use discord_lite_server.Websocket.Channels.{Outcome, done, panics}
use discord_lite_server.Websocket.Events.{
  Decoder, Events, handle_message_create, handle_message_update, handle_message_delete,
}
use discord_lite_server.Server.{Call, serve_call}

pub data ServerCall : Type 0 where
  signs_in : Call → ServerCall
  lists_guilds : GetGuildsRequest → ServerCall
  lists_channels : GetChannelsRequest → ServerCall
  lists_messages : GetMessagesRequest → ServerCall
  message_creates message_updates message_deletes : String → ServerCall
  socket_cleanups : ServerCall

-- After an error the manager is as before.
abbrev pub after_event : Events → Result (Outcome Events) × World → Outcome Events × World
after_event m (ok o, w) = (o, w)
after_event m (err e, w) = (done m, w)

module _ (env : Env) (remote : Remote) (c : Crypto) (s : Settings) (api : Api)
    (decoder : Decoder) where
  unfoldable pub serve_one : ServerCall → Events → World → Outcome Events × World
  serve_one (signs_in call) m w = (done m, serve_call env remote c s call w)
  serve_one (lists_guilds req) m w = (done m, (get_guilds env remote api c s req w).1)
  serve_one (lists_channels req) m w = (done m, (get_channels env remote api req w).1)
  serve_one (lists_messages req) m w = (done m, (get_messages env api remote c s req w).1)
  serve_one (message_creates payload) m w =
      after_event m (handle_message_create env api decoder payload m w)
  serve_one (message_updates payload) m w =
      after_event m (handle_message_update env api decoder payload m w)
  serve_one (message_deletes payload) m w =
      after_event m (handle_message_delete env api decoder payload m w)
  serve_one socket_cleanups m w = (done m, (websocket_cleanup_tick env w).1)

  -- Where the process ends, the tables stay as they are.
  unfoldable pub serve_all : List ServerCall → Outcome Events × World → Outcome Events × World
  serve_all [] (o, w) = (o, w)
  serve_all (call ∷ calls) (panics, w) = (panics, w)
  serve_all (call ∷ calls) (done m, w) = serve_all calls (serve_one call m w)

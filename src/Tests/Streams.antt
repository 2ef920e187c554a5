-- ===== src/Tests/Streams.antt =====
-- A stream of two channels, an event of the Gateway, and a sequence of calls of the server.
use discord_lite_server.Base.{
  ℕ, string_eq, nat_eq, String, some, none, true, false, ◌≡◌, ◌≢◌, ◌⊎◌, refl, arith, List, [], ◌∷◌,
  if◌then◌else◌,
}
use discord_lite_server.Base.Assoc.{lookup, delete}
use discord_lite_server.Base.Lists.{get_elem?, set}
use discord_lite_server.Base.Rows.{find, any, All, remove}
use discord_lite_server.Effect.{
  World, ok, status, internal, canceled, statement, query, now, wrap, or_return, or_fail, ◌>>=◌,
}
use discord_lite_server.Database.Sessions.{get_auth_session}
use discord_lite_server.Database.Channels.{
  has_channel_id, has_discord_channel_id, has_channel_access, user_has_channel_access,
}
use discord_lite_server.Database.Tokens.{get_oauth_token}
use discord_lite_server.Auth.Cipher.{decrypt_token}
use discord_lite_server.Auth.Discord.{refresh_if_needed, reuse}
use discord_lite_server.Websocket.Channels.{done, panics, close}
use discord_lite_server.Websocket.Manager.{
  Manager, new_manager, register, subscribe_each, unsubscribe, close_each, drop_each,
  broadcast_event,
}
use discord_lite_server.Websocket.Manager.Connections.{
  access_token_of, ensure_connection, subscribe,
}
use discord_lite_server.Websocket.Events.{
  GatewayAttachment, GatewayMessage, Decoder, Events, handle_message_create,
}
use discord_lite_server.Websocket.Events.Shown.{shown_event}
use discord_lite_server.Websocket.Events.Handled.{
  all_have_size, Recorded, handle_message_create-outcome,
}
use discord_lite_server.Grpc.MessageServer.Stream.{
  StreamMessagesRequest, Signal, context_done, taken, Streamed, forward, sent, run_stream,
  check_access, admit_stream, stream_messages,
}
use discord_lite_server.Grpc.MessageServer.Stream.Access.{
  Names, Reaches, stream_messages-access, stream_messages-panics,
}
use discord_lite_server.Server.Traffic.{
  ServerCall, lists_guilds, lists_channels, message_creates, socket_cleanups, serve_all,
}
use discord_lite_server.Server.Traffic.Safe.{IsSafe, serve_all-IsSafe}
use discord_lite_server.Tests.Services.{env, remote, crypto, settings}
use discord_lite_server.Tests.Content.{general, filled, full, filled-IsSafe, api}

abbrev request : StreamMessagesRequest
request = record { session_id = "s"; channel_ids = "c" ∷ "d" ∷ [] }

abbrev signals : List (Signal String)
signals = taken "hello" ∷ context_done ∷ []

abbrev manager : Manager String
manager = new_manager 5 true

-- The client has one event and goes; the deferred clean-up closes the channel twice.
abbrev streamed : Streamed String
streamed = record {
  answer = some (status canceled "stream cancelled");
  events = "hello" ∷ [];
  manager = panics;
}

abbrev after : World
after = (stream_messages env remote crypto settings request signals manager full).1

streams :
    stream_messages env remote crypto settings request signals manager full ≡ (ok streamed, after)
unfolding stream_messages admit_stream check_access run_stream forward sent get_auth_session
    user_has_channel_access has_channel_access subscribe ensure_connection access_token_of
    get_oauth_token refresh_if_needed reuse decrypt_token register subscribe_each unsubscribe
    close_each drop_each close delete remove get_elem? set statement query wrap or_return or_fail
    now find any lookup ◌>>=◌
streams = refl

stream_messages-access_example :
    (true ≡ true) × (uid : ℕ) × Names "s" uid filled × All (Reaches uid filled) request.channel_ids
stream_messages-access_example =
    stream_messages-access env remote crypto settings request signals manager streamed full after
      streams

two_channels : ◌≢◌ {A = String} "c" "d"
two_channels e = ground (arith, (string_eq.beq_iff "c" "d").1 e)

ends : forward signals ≡ some (status canceled "stream cancelled")
unfolding forward
ends = refl

stream_messages-panics_example :
    (streamed.manager ≡ panics)
    ⊎ (streamed.answer ≡ some (status internal "failed to subscribe to message events"))
stream_messages-panics_example =
    stream_messages-panics env remote crypto settings "s" "c" "d" [] signals
      (status canceled "stream cancelled") manager streamed full after two_channels ends streams

-- An attachment that is no image.
abbrev text_file : GatewayAttachment
text_file = record {
  id = "b";
  filename = "b.txt";
  size = 3;
  url = "b";
  proxy_url = "";
  height = none;
  width = none;
  content_type = "text/plain";
}

abbrev event : GatewayMessage
event = record {
  id = "o";
  channel_id = "c";
  guild_id = "g";
  author = record { id = "7"; username = "ann"; discriminator = "0"; avatar = "" };
  content = "look";
  timestamp = "now";
  edited_timestamp = none;
  kind = 0;
  attachments = text_file ∷ [];
  message_reference = none;
}

abbrev decoder : Decoder
decoder = record { decode_message = λ text. some event; decode_delete = λ text. none }

abbrev events : Events
events = new_manager 5 true

known : find (has_discord_channel_id "c") filled.channels ≡ some general
unfolding find
known = refl

there : find (has_channel_id 1) filled.channels ≡ some general
unfolding find
there = refl

handle_message_create-outcome_example :
    (instant : ℕ) × ((handle_message_create env api decoder "{}" events full).0
      ≡ ok (
          if all_have_size event.attachments
          then broadcast_event "c" (shown_event api event 30 instant) events
          else panics))
    × Recorded env api decoder event 1 30 full 1
        (handle_message_create env api decoder "{}" events full).1
handle_message_create-outcome_example =
    handle_message_create-outcome env api decoder "{}" event general events 30 full refl known there
      refl refl refl

abbrev calls : List ServerCall
calls =
    lists_guilds (record { session_id = "s"; force_refresh = true })
    ∷ lists_channels (record { session_id = "s"; guild_id = "g"; force_refresh = false })
    ∷ message_creates "{}"
    ∷ socket_cleanups
    ∷ []

serve_all-IsSafe_example :
    IsSafe (serve_all env remote crypto settings api decoder calls (done events, full)).1.tables
serve_all-IsSafe_example =
    serve_all-IsSafe env remote crypto settings api decoder calls (done events) full filled-IsSafe

-- ===== src/Tests/Frames.antt =====
-- A connection that is greeted, receives an event and sends a heartbeat.
use discord_lite_server.Base.{true, some, none, List, [], ◌∷◌, ◌≡◌, refl}
use discord_lite_server.Websocket.Channels.{done}
use discord_lite_server.Websocket.Gateway.{GatewayConnection, new_gateway_connection}
use discord_lite_server.Websocket.Gateway.Protocol.{
  Decoder, GatewayPayload, identifies, creates_message, heartbeats, Signal, frames, ticks,
  handle_dispatch_event, handle_payload, receive, step, run,
}
use discord_lite_server.Websocket.Gateway.Sequence.{last_sequence, step-run_heartbeat}

abbrev json : Decoder
json = record { hello = λ d. some 41250; ready = λ d. some "ready" }

abbrev greeting : GatewayPayload
greeting = record { op = 10; d = "{}"; s = none; t = none }

abbrev event : GatewayPayload
event = record { op = 0; d = "{}"; s = some 7; t = some "MESSAGE_CREATE" }

abbrev signals : List Signal
signals = frames 1 true (some greeting) ∷ frames 2 true (some event) ∷ []

abbrev dialled : GatewayConnection
dialled = record (new_gateway_connection 1 "!") { has_conn = true; connected = true }

abbrev greeted : GatewayConnection
greeted = record dialled { heartbeat_interval = 41250000000; sequence_num = 7 }

runs : run json signals dialled ≡ done (greeted, identifies "!" ∷ creates_message "{}" ∷ [])
unfolding run step receive handle_payload handle_dispatch_event
runs = refl

step-run_heartbeat_example :
    step json (ticks 3 true) greeted
    ≡ done (
      record greeted { last_heartbeat_at = 3 },
      heartbeats (last_sequence signals dialled.sequence_num) ∷ [],
    )
step-run_heartbeat_example =
    step-run_heartbeat json signals dialled greeted (identifies "!" ∷ creates_message "{}" ∷ []) 3
      runs refl refl

-- ===== src/Websocket/Gateway/Protocol.antt =====
-- internal/websocket/gateway.go: what a connection does with the frames of the Gateway and with
-- the ticks of its heartbeat, as a step on the state of the connection. The handlers of message
-- events, in internal/websocket/events.go, are outputs.
use discord_lite_server.Base.{
  ℕ, ◌*◌, ◌%◌, Bool, ◌&&◌, String, Option, none, some, List, [], ◌∷◌, ◌++◌, ◌==◌, nat_eq, string_eq,
  if◌then◌else◌,
}
use discord_lite_server.Base.Words.{range, is_positive}
use discord_lite_server.Websocket.Channels.{Outcome, done, panics, ◌>>=◌}
use discord_lite_server.Websocket.Gateway.{GatewayConnection, close_connection}

pub record GatewayPayload : Type 0 where
  pub op : ℕ
  pub d : String
  pub s : Option ℕ
  pub t : Option String

-- encoding/json, on the data of HELLO and of READY: an interval and a session id.
pub record Decoder : Type 0 where
  pub hello : String → Option ℕ
  pub ready : String → Option String

pub data Output : Type 0 where
  identifies : String → Output
  heartbeats : ℕ → Output
  stores_session : String → Output
  creates_message updates_message deletes_message : String → Output

-- A frame, which may be no JSON, an error of ReadMessage, a tick of the heartbeat, and the call of
-- Close by another part. A frame and a tick have the instant and whether a write succeeds.
pub data Signal : Type 0 where
  frames : ℕ → Bool → Option GatewayPayload → Signal
  read_fails : Signal
  ticks : ℕ → Bool → Signal
  closes : Signal

abbrev pub Step : Type 0
Step = Outcome (GatewayConnection × List Output)

-- sendJSON: an output that is written.
abbrev pub sent : Bool → Output → List Output
sent written o = if written then o ∷ [] else []

abbrev pub set_sequence : Option ℕ → GatewayConnection → GatewayConnection
set_sequence none gc = gc
set_sequence (some n) gc = record gc { sequence_num = n }

module _ (json : Decoder) where
  -- time.NewTicker panics on an interval that is not positive.
  abbrev pub start_heartbeat : Bool → ℕ → GatewayConnection → Step
  start_heartbeat writes interval gc =
      if is_positive interval
      then done (
        record gc { heartbeat_interval = interval },
        sent (gc.has_conn && writes) (identifies gc.access_token),
      )
      else panics

  abbrev pub handle_hello : Bool → Option ℕ → GatewayConnection → Step
  handle_hello writes none gc = done (gc, [])
  handle_hello writes (some n) gc = start_heartbeat writes ((n * 1000000) % range) gc

  -- A session that cannot be stored is only logged.
  abbrev pub handle_ready : Option String → GatewayConnection → Step
  handle_ready none gc = done (gc, [])
  handle_ready (some id) gc = done (record gc { session_id = id }, stores_session id ∷ [])

  unfoldable pub handle_dispatch_event : Option String → String → GatewayConnection → Step
  handle_dispatch_event none d gc = done (gc, [])
  handle_dispatch_event (some t) d gc =
      if t == "READY"
      then handle_ready (json.ready d) gc
      else if t == "MESSAGE_CREATE"
      then done (gc, creates_message d ∷ [])
      else if t == "MESSAGE_UPDATE"
      then done (gc, updates_message d ∷ [])
      else if t == "MESSAGE_DELETE"
      then done (gc, deletes_message d ∷ [])
      else done (gc, [])

  -- The opcodes HELLO, HEARTBEAT_ACK and DISPATCH; every other one changes nothing.
  unfoldable pub handle_payload : ℕ → Bool → GatewayPayload → GatewayConnection → Step
  unfolding handle_dispatch_event
  handle_payload now writes p gc =
      if p.op == 10
      then handle_hello writes (json.hello p.d) gc
      else if p.op == 11
      then done (record gc { last_heartbeat_at = now }, [])
      else if p.op == 0
      then handle_dispatch_event p.t p.d gc
      else done (gc, [])

  -- sendHeartbeat notes the time first; a write that fails closes the connection.
  unfoldable pub send_heartbeat : ℕ → Bool → GatewayConnection → GatewayConnection × List Output
  send_heartbeat now writes gc =
      let noted : GatewayConnection = record gc { last_heartbeat_at = now } in
      if gc.has_conn && writes
      then (noted, heartbeats gc.sequence_num ∷ [])
      else (close_connection noted, [])

  unfoldable pub receive : Signal → GatewayConnection → Step
  receive (frames now writes none) gc = done (gc, [])
  receive (frames now writes (some p)) gc = handle_payload now writes p (set_sequence p.s gc)
  receive read_fails gc = done (close_connection gc, [])
  receive (ticks now writes) gc = done (send_heartbeat now writes gc)
  receive closes gc = done (close_connection gc, [])

  -- The loops end when Close has been called.
  unfoldable pub step : Signal → GatewayConnection → Step
  unfolding receive
  step signal gc = if gc.close_signalled then done (gc, []) else receive signal gc

  unfoldable pub run : List Signal → GatewayConnection → Step
  run [] gc = done (gc, [])
  run (signal ∷ signals) gc =
      step signal gc >>= λ r. run signals r.0 >>= λ r'. done (r'.0, r.1 ++ r'.1)

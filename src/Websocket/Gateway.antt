-- ===== src/Websocket/Gateway.antt =====
-- internal/websocket/gateway.go: the state of one Gateway connection, without the socket itself.
pub mod Protocol
pub mod Sequence
use discord_lite_server.Base.{ℕ, ◌-◌, ◌^◌, Bool, true, false, String, ltb, if◌then◌else◌}
use Prim.Native.Nat.{min}

-- `last_heartbeat_at` is 0, the origin of time, before the first heartbeat (the zero time.Time).
pub record GatewayConnection : Type 0 where
  pub user_id : ℕ
  pub access_token : String
  pub has_conn : Bool
  pub session_id : String
  pub sequence_num : ℕ
  pub heartbeat_interval : ℕ
  pub last_heartbeat_at : ℕ
  pub close_signalled : Bool
  pub connected : Bool

abbrev pub new_gateway_connection : ℕ → String → GatewayConnection
new_gateway_connection uid token = record {
  user_id = uid;
  access_token = token;
  has_conn = false;
  session_id = "";
  sequence_num = 0;
  heartbeat_interval = 0;
  last_heartbeat_at = 0;
  close_signalled = false;
  connected = false;
}

-- closeOnce.Do
unfoldable pub close_connection : GatewayConnection → GatewayConnection
close_connection gc =
    if gc.close_signalled
    then gc
    else record gc { close_signalled = true; has_conn = false; connected = false }

-- time.Since saturates at the largest time.Duration.
abbrev pub max_duration : ℕ
max_duration = 2 ^ 63 - 1

unfoldable pub is_stale : ℕ → ℕ → GatewayConnection → Bool
is_stale now stale_duration gc = ltb stale_duration (min (now - gc.last_heartbeat_at) max_duration)

-- ===== src/Models/Websocket.antt =====
-- internal/models/websocket.go.
use discord_lite_server.Base.{ℕ, Bool, true, false, not, ◌&&◌, String, Option, ltb}

-- The texts that the column status holds; `unknown` is a text that is none of the four.
pub data WebSocketStatus : Type 0 where
  connecting connected disconnected broken : WebSocketStatus
  unknown : String → WebSocketStatus

pub record WebSocketSession : Type 0 where
  pub id : ℕ
  pub session_id : String
  pub user_id : ℕ
  pub gateway_url : String
  pub session_token : Option String
  pub sequence_number : ℕ
  pub status : WebSocketStatus
  pub last_heartbeat_at : Option ℕ
  pub created_at : ℕ
  pub updated_at : ℕ
  pub expires_at : ℕ

abbrev pub is_connected : WebSocketStatus → Bool
is_connected connecting = false
is_connected connected = true
is_connected disconnected = false
is_connected broken = false
is_connected (unknown text) = false

abbrev pub websocket_is_expired : ℕ → WebSocketSession → Bool
websocket_is_expired now s = ltb s.expires_at now

abbrev pub websocket_is_active : ℕ → WebSocketSession → Bool
websocket_is_active now s = is_connected s.status && not (websocket_is_expired now s)

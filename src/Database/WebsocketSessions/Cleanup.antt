-- ===== src/Database/WebsocketSessions/Cleanup.antt =====
-- internal/database/websocket_queries.go: what a tick of the clean-up job leaves.
use discord_lite_server.Base.{ℕ, suc, ◌-◌, ◌*◌, ◌≡◌, Bool, false, List, nat_eq, string_eq, ltb}
use mathlib.Core.Option
use discord_lite_server.Base.Rows.{remove, update}
use discord_lite_server.Models.{WebSocketSession, disconnected}
use discord_lite_server.Effect.{Env, World}
use discord_lite_server.Database.WebsocketSessions.{minute, is_stale}

abbrev pub is_expired_at : ℕ → WebSocketSession → Bool
is_expired_at instant s = ltb s.expires_at instant

abbrev pub disconnect : ℕ → WebSocketSession → WebSocketSession
disconnect time s = record s { status = disconnected; updated_at = time }

module _ (env : Env) (up : (n : ℕ) → env.fails n ≡ false) where
  -- The tables after a tick: the instants are those of the two statements and of the reading of
  -- the server's clock between them.
  abbrev pub swept : World → List WebSocketSession
  swept w =
      update (is_stale (env.clock (suc w.step) - 5 * minute))
        (disconnect (env.clock (suc (suc w.step))))
        (remove (is_expired_at (env.clock w.step)) w.tables.websocket_sessions)

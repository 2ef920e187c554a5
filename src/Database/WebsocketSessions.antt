-- ===== src/Database/WebsocketSessions.antt =====
-- internal/database/websocket_queries.go: the table websocket_sessions.
pub mod Cleanup
pub mod Active
use discord_lite_server.Base.{
  ℕ, suc, ◌-◌, ◌*◌, Bool, true, false, ◌&&◌, String, Option, none, some, List, [], ◌∷◌, ◌++◌, ◌==◌,
  nat_eq, string_eq, if◌then◌else◌, ltb, leb,
}
use discord_lite_server.Base.Rows.{find, select, update, remove, count, any}
use discord_lite_server.Base.Sort.{sort_by}
use discord_lite_server.Models.{
  WebSocketSession, WebSocketStatus, connected, disconnected, is_connected, Tables,
}
use discord_lite_server.Effect.{
  Env, Action, Result, ok, err, external, message, wrap, raise, pure, attempt, or_fail, now,
  statement, query, ◌>>=◌, ◌>>◌,
}
use discord_lite_server.Database.Users.{has_user_id}

-- time.Minute, in nanoseconds
abbrev pub minute : ℕ
minute = 60 * 1000000000

abbrev pub has_websocket_id : ℕ → WebSocketSession → Bool
has_websocket_id id s = s.id == id

abbrev pub has_websocket_session_id : String → WebSocketSession → Bool
has_websocket_session_id sid s = s.session_id == sid

-- ON CONFLICT (session_id) DO UPDATE: the user stays.
abbrev pub merge_websocket : WebSocketSession → ℕ → WebSocketSession → WebSocketSession
merge_websocket s instant old = record old {
  gateway_url = s.gateway_url;
  session_token = s.session_token;
  sequence_number = s.sequence_number;
  status = s.status;
  last_heartbeat_at = s.last_heartbeat_at;
  expires_at = s.expires_at;
  updated_at = instant;
}

abbrev pub new_websocket : WebSocketSession → ℕ → ℕ → WebSocketSession
new_websocket s id instant = record s { id = id; created_at = instant; updated_at = instant }

-- The foreign key user_id is checked where a row is inserted. The caller's struct comes back with
-- the id and the times of the row.
unfoldable pub upsert_websocket : WebSocketSession → ℕ → Tables → Result WebSocketSession × Tables
upsert_websocket s instant t =
    elim (find (has_websocket_session_id s.session_id) t.websocket_sessions) [
      | none ↦
          if any (has_user_id s.user_id) t.users
          then (
            ok (new_websocket s t.next_websocket instant),
            record t {
              websocket_sessions =
                  t.websocket_sessions ++ new_websocket s t.next_websocket instant ∷ [];
              next_websocket = suc t.next_websocket;
            },
          )
          else (err external, record t { next_websocket = suc t.next_websocket })
      | some old ↦ (
        ok (record s { id = old.id; created_at = old.created_at; updated_at = instant }),
        record t {
          websocket_sessions =
              update (has_websocket_session_id s.session_id) (merge_websocket s instant)
                t.websocket_sessions;
          next_websocket = suc t.next_websocket;
        },
      )
    ]

-- An UPDATE of the rows that satisfy a test.
unfoldable pub update_websockets :
    (WebSocketSession → Bool) → (WebSocketSession → WebSocketSession) → Tables → Result ℕ × Tables
update_websockets p f t = (
  ok (count p t.websocket_sessions),
  record t { websocket_sessions = update p f t.websocket_sessions },
)

unfoldable pub delete_websockets : (WebSocketSession → Bool) → Tables → Result ℕ × Tables
delete_websockets p t = (
  ok (count p t.websocket_sessions),
  record t { websocket_sessions = remove p t.websocket_sessions },
)

-- ORDER BY created_at DESC
abbrev pub newest_first : WebSocketSession → WebSocketSession → Bool
newest_first a b = leb b.created_at a.created_at

abbrev pub is_live : ℕ → WebSocketSession → Bool
is_live instant s = is_connected s.status && ltb instant s.expires_at

abbrev pub heard_before : ℕ → Option ℕ → Bool
heard_before threshold none = false
heard_before threshold (some time) = ltb time threshold

abbrev pub is_stale : ℕ → WebSocketSession → Bool
is_stale threshold s = is_connected s.status && heard_before threshold s.last_heartbeat_at

module _ (env : Env) where
  unfoldable pub create_websocket_session : WebSocketSession → Action WebSocketSession
  create_websocket_session s =
      wrap "failed to create WebSocket session" (statement env (upsert_websocket s))

  unfoldable pub get_websocket_session_by_id : ℕ → Action WebSocketSession
  get_websocket_session_by_id id = do
    found ←
        wrap "failed to get WebSocket session"
          (query env (λ t. find (has_websocket_id id) t.websocket_sessions))
    or_fail (message "WebSocket session not found") found

  unfoldable pub get_websocket_session_by_session_id : String → Action WebSocketSession
  get_websocket_session_by_session_id sid = do
    found ←
        wrap "failed to get WebSocket session"
          (query env (λ t. find (has_websocket_session_id sid) t.websocket_sessions))
    or_fail (message "WebSocket session not found") found

  unfoldable pub get_websocket_sessions_by_user_id : ℕ → Action (List WebSocketSession)
  get_websocket_sessions_by_user_id uid =
      wrap "failed to query WebSocket sessions" (
        query env (λ t. sort_by newest_first (select (λ s. s.user_id == uid) t.websocket_sessions)))

  -- An UPDATE of one session, which must exist.
  unfoldable pub change_websocket :
      String → String → (ℕ → WebSocketSession → WebSocketSession) → Action (Unit {0})
  change_websocket text sid f = do
    rows ←
        wrap text
          (statement env (λ instant. update_websockets (has_websocket_session_id sid) (f instant)))
    if rows == 0 then raise (message "WebSocket session not found") else pure tt

  unfoldable pub update_websocket_session_status : String → WebSocketStatus → Action (Unit {0})
  unfolding change_websocket
  update_websocket_session_status sid status =
      change_websocket "failed to update WebSocket session status" sid
        (λ instant s. record s { status = status; updated_at = instant })

  unfoldable pub update_websocket_session_heartbeat : String → Action (Unit {0})
  unfolding change_websocket
  update_websocket_session_heartbeat sid =
      change_websocket "failed to update WebSocket session heartbeat" sid
        (λ instant s. record s { last_heartbeat_at = some instant; updated_at = instant })

  unfoldable pub update_websocket_session_sequence : String → ℕ → Action (Unit {0})
  unfolding change_websocket
  update_websocket_session_sequence sid sequence =
      change_websocket "failed to update WebSocket session sequence" sid
        (λ instant s. record s { sequence_number = sequence; updated_at = instant })

  unfoldable pub delete_websocket_session : String → Action (Unit {0})
  delete_websocket_session sid = do
    rows ←
        wrap "failed to delete WebSocket session"
          (statement env (λ _. delete_websockets (has_websocket_session_id sid)))
    if rows == 0 then raise (message "WebSocket session not found") else pure tt

  -- NOW() is the instant of the statement.
  unfoldable pub get_active_websocket_sessions : Action (List WebSocketSession)
  get_active_websocket_sessions = wrap "failed to query active WebSocket sessions" (
      statement env (λ instant t.
        (ok (sort_by newest_first (select (is_live instant) t.websocket_sessions)), t)))

  -- The number of rows is only printed.
  unfoldable pub cleanup_expired_websocket_sessions : Action (Unit {0})
  cleanup_expired_websocket_sessions = do
    wrap "failed to cleanup expired WebSocket sessions"
        (statement env (λ instant. delete_websockets (λ s. ltb s.expires_at instant)))
    pure tt

  -- The threshold is read from the server's clock, before the statement.
  unfoldable pub cleanup_stale_websocket_sessions : ℕ → Action (Unit {0})
  cleanup_stale_websocket_sessions stale_duration = do
    instant ← now env
    wrap "failed to cleanup stale WebSocket sessions" (
        statement env (λ time.
          update_websockets (is_stale (instant - stale_duration))
            (λ s. record s { status = disconnected; updated_at = time })))
    pure tt

  -- One tick of StartWebSocketCleanupJob, whose errors are printed.
  unfoldable pub websocket_cleanup_tick : Action (Unit {0})
  websocket_cleanup_tick = do
    attempt cleanup_expired_websocket_sessions
    attempt (cleanup_stale_websocket_sessions (5 * minute))
    pure tt

-- ===== src/Database/WebsocketSessions/Active.antt =====
-- internal/database/websocket_queries.go: GetActiveWebSocketSessions and the method IsActive.
use discord_lite_server.Base.{
  ℕ, ◌≡◌, refl, subst, Bool, true, false, ◌&&◌, not, List, [], ◌∷◌, ◌==◌, leb, nat_eq, arith,
}
use mathlib.Core.List.{Perm}
use discord_lite_server.Base.Rows.{select}
use discord_lite_server.Base.Sort.{sort_by, sort_by-Perm, sort_by-IsOrdered, IsOrdered}
use discord_lite_server.Models.{WebSocketSession, websocket_is_active}
use discord_lite_server.Effect.{Env, World, ok}
use discord_lite_server.Effect.Returned.{wrap-ok, statement-ok}
use discord_lite_server.Database.WebsocketSessions.{
  is_live, newest_first, get_active_websocket_sessions,
}

-- IsActive at an instant at which the session does not expire.
abbrev pub active_at : ℕ → WebSocketSession → Bool
active_at instant s = websocket_is_active instant s && not (s.expires_at == instant)

live-active : (instant : ℕ) (s : WebSocketSession) → is_live instant s ≡ active_at instant s
live-active instant s = ground arith

select-live :
    (instant : ℕ) (xs : List WebSocketSession)
    → select (is_live instant) xs ≡ select (active_at instant) xs
unfolding select
select-live instant [] = refl
select-live instant (x ∷ xs) = ground (arith, live-active instant x, select-live instant xs)

newest_first-total : (a b : WebSocketSession) → newest_first a b ≡ false → newest_first b a ≡ true
newest_first-total a b h = ground arith

newest_first-chain :
    (a b c : WebSocketSession)
    → newest_first a b ≡ true
    → newest_first b c ≡ true
    → newest_first a c ≡ true
newest_first-chain a b c h k = ground arith

-- The answer of GetActiveWebSocketSessions holds, newest first, exactly the sessions for which
-- IsActive holds at the instant of the query, but for those that expire at that very instant.
pub get_active_websocket_sessions-IsActive :
    (env : Env) (l : List WebSocketSession) (w w' : World)
    → get_active_websocket_sessions env w ≡ (ok l, w')
    → Perm l (select (active_at (env.clock w.step)) w.tables.websocket_sessions)
      × IsOrdered (λ a b. leb b.created_at a.created_at) l
unfolding get_active_websocket_sessions
get_active_websocket_sessions-IsActive env l w w' e =
    let rows = select (is_live (env.clock w.step)) w.tables.websocket_sessions in
    let p : sort_by newest_first rows ≡ l = ground (
      arith,
      statement-ok env
          (λ instant t.
            (ok (sort_by newest_first (select (is_live instant) t.websocket_sessions)), t))
          l w w' (wrap-ok _ _ l w w' e),
    ) in
    (
      subst (λ xs. Perm xs (select (active_at (env.clock w.step)) w.tables.websocket_sessions)) p
          (subst (Perm (sort_by newest_first rows))
            (select-live (env.clock w.step) w.tables.websocket_sessions)
            (sort_by-Perm newest_first rows)),
      subst (IsOrdered newest_first) p
          (sort_by-IsOrdered newest_first newest_first-total newest_first-chain rows),
    )

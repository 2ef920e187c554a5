-- ===== src/Database/Content/Sockets.antt =====
-- The statements that insert and update WebSocket sessions keep the invariants of the content.
use discord_lite_server.Base.{
  ℕ, ◌≡◌, refl, Bool, List, nat_eq, string_eq, inl, inr, Option-cases, Bool-cases,
}
use discord_lite_server.Base.Rows.{find, any}
use discord_lite_server.Base.Table.{
  IsTable, IsTable-suc, IsTable-append, IsTable-update, Refers, Refers-append, Refers-update,
}
use discord_lite_server.Models.{User, WebSocketSession, Tables}
use discord_lite_server.Database.Users.{has_user_id}
use discord_lite_server.Database.WebsocketSessions.{
  has_websocket_session_id, merge_websocket, new_websocket, upsert_websocket, update_websockets,
}
use discord_lite_server.Database.Content.{IsContentSound}

module _ (t : Tables) (v : IsContentSound t) where
  sockets_sound :
      (xs : List WebSocketSession) (next : ℕ)
      → IsTable (λ (s : WebSocketSession). s.id) (λ (s : WebSocketSession). s.session_id) next xs
      → Refers (λ (u : User). u.id) (λ (s : WebSocketSession). s.user_id) t.users xs
      → IsContentSound (record t { websocket_sessions = xs; next_websocket = next })
  sockets_sound xs next h k = record {
    guild_table = v.guild_table;
    channel_table = v.channel_table;
    message_table = v.message_table;
    socket_table = h;
    link_users = v.link_users;
    link_guilds = v.link_guilds;
    channel_guilds = v.channel_guilds;
    message_channels = v.message_channels;
    attachment_messages = v.attachment_messages;
    socket_users = k;
  }

  module _ (s : WebSocketSession) (instant : ℕ) where
    pub upsert_websocket-IsContentSound : IsContentSound (upsert_websocket s instant t).1
    unfolding upsert_websocket
    upsert_websocket-IsContentSound =
        elim (Option-cases (find (has_websocket_session_id s.session_id) t.websocket_sessions)) [
          | inl e ↦ elim (Bool-cases (any (has_user_id s.user_id) t.users)) [
            | inl h ↦
                rw (e, h, upsert_websocket)
                  (sockets_sound _ _
                    (IsTable-append _ _ _ t.websocket_sessions
                      (new_websocket s t.next_websocket instant) e refl v.socket_table)
                    (Refers-append _ _ t.users t.websocket_sessions
                      (new_websocket s t.next_websocket instant) h v.socket_users))
            | inr h ↦
                rw (e, h, upsert_websocket)
                  (sockets_sound t.websocket_sessions _ (IsTable-suc _ _ _ _ v.socket_table)
                    v.socket_users)
          ]
          | inr (old, e) ↦
              rw (e, upsert_websocket)
                (sockets_sound _ _
                  (IsTable-suc _ _ _ _ (
                    IsTable-update _ _ _ (merge_websocket s instant) (λ a. refl) (λ a. refl) _
                      t.websocket_sessions v.socket_table))
                  (Refers-update _ _ t.users _ (merge_websocket s instant) (λ b k. k)
                    t.websocket_sessions v.socket_users))
        ]

  pub update_websockets-IsContentSound :
      (p : WebSocketSession → Bool) (f : WebSocketSession → WebSocketSession)
      → ((s : WebSocketSession) → (f s).session_id ≡ s.session_id)
      → ((s : WebSocketSession) → (f s).id ≡ s.id)
      → ((s : WebSocketSession) → (f s).user_id ≡ s.user_id)
      → IsContentSound (update_websockets p f t).1
  unfolding update_websockets
  update_websockets-IsContentSound p f same_key same_id same_user =
      sockets_sound _ _ (IsTable-update _ _ p f same_key same_id _ _ v.socket_table)
        (Refers-update _ _ t.users p f (λ b k. rw (same_user b) k) _ v.socket_users)

-- ===== src/Tests/Stores.antt =====
-- Guilds, messages and memberships that are stored and deleted, and a round of clean-up.
use discord_lite_server.Base.{
  ℕ, string_eq, nat_eq, String, some, none, true, false, ◌≡◌, ◌≢◌, refl, arith, leb, List, [], ◌∷◌,
}
use mathlib.Core.List.{Perm}
use discord_lite_server.Base.Rows.{find, any, All, select, remove, update, count}
use discord_lite_server.Models.{Message, WebSocketSession}
use discord_lite_server.Effect.{
  World, ok, statement, query, now, attempt, wrap, or_return, or_fail, ◌>>=◌,
}
use discord_lite_server.Database.Guilds.{
  upsert_guild, insert_membership, has_guild_access, has_discord_guild_id, delete_membership,
  delete_user_guild, create_or_update_guild, create_user_guild,
}
use discord_lite_server.Database.Channels.{has_channel_access, has_discord_channel_id}
use discord_lite_server.Database.Sessions.{get_auth_session}
use discord_lite_server.Database.Guilds.Membership.{delete_user_guild-revokes}
use discord_lite_server.Database.Messages.{
  has_discord_message_id, upsert_message, create_or_update_message, delete_message,
  delete_message_row, get_message_by_discord_id,
}
use discord_lite_server.Database.Messages.Stored.{stored_row, get_message_by_discord_id-stored}
use discord_lite_server.Database.Messages.Deleted.{attached_to, delete_message-gone}
use discord_lite_server.Database.Cascade.{drop_messages}
use discord_lite_server.Database.WebsocketSessions.{get_active_websocket_sessions}
use discord_lite_server.Database.WebsocketSessions.Active.{
  active_at, get_active_websocket_sessions-IsActive,
}
use discord_lite_server.Base.Sort.{sort_by, insert_by, IsOrdered}
use discord_lite_server.Auth.Cipher.{decrypt_token}
use discord_lite_server.Auth.Discord.{request, refresh_if_needed, reuse}
use discord_lite_server.Auth.Api.{get_user_guilds, make_api_request}
use discord_lite_server.Database.Tokens.{get_oauth_token}
use discord_lite_server.Grpc.Session.{session_user, fresh_token}
use discord_lite_server.Grpc.CacheManager.{set_guild_cache}
use discord_lite_server.Grpc.Access.{SignedIn}
use discord_lite_server.Grpc.ChannelServer.{
  ProtoGuild, GetGuildsRequest, GetGuildsResponse, get_guilds, fetch_guilds, store_guild,
  store_guilds,
}
use discord_lite_server.Grpc.ChannelServer.Linked.{get_guilds-grants}
use discord_lite_server.Tests.Services.{env, remote, crypto, settings}
use discord_lite_server.Tests.Content.{
  guild, general, hello, bye, socket, filled, full, filled-IsSound, filled-IsContentSound, api,
}

-- The message "m" again, with another text.
abbrev edited : Message
edited = record hello { content = some "changed" }

abbrev after_edit : World
after_edit = (create_or_update_message env edited full).1

stores :
    create_or_update_message env edited full ≡ (ok (record edited { updated_at = 0 }), after_edit)
unfolding create_or_update_message upsert_message statement wrap find any update
stores = refl

other_message : ◌≢◌ {A = String} "n" "m"
other_message e = ground (arith, leb, (string_eq.beq_iff "n" "m").1 e)

get_message_by_discord_id-stored_example :
    let row = stored_row edited 3 0 (find (has_discord_message_id "m") filled.messages) in
    ((get_message_by_discord_id env "m" after_edit).0 ≡ ok row)
    × (hello.id ≡ row.id)
    × (find (has_discord_message_id "n") after_edit.tables.messages
        ≡ find (has_discord_message_id "n") filled.messages)
get_message_by_discord_id-stored_example =
    get_message_by_discord_id-stored env edited (record edited { updated_at = 0 }) "n" full
      after_edit stores refl other_message

message_found : find (has_discord_message_id "m") filled.messages ≡ some hello
unfolding find
message_found = refl

other_found : find (has_discord_message_id "n") filled.messages ≡ some bye
unfolding find
other_found = refl

abbrev without_message : World
without_message = (delete_message env "m" full).1

deletes : delete_message env "m" full ≡ (ok tt, without_message)
unfolding delete_message delete_message_row drop_messages statement wrap or_fail find any select
    remove count ◌>>=◌
deletes = refl

delete_message-gone_example :
    (find (has_discord_message_id "m") without_message.tables.messages ≡ none)
    × (select (attached_to hello) without_message.tables.message_attachments ≡ [])
    × (find (has_discord_message_id "n") without_message.tables.messages ≡ some bye)
    × (select (attached_to bye) without_message.tables.message_attachments
        ≡ select (attached_to bye) filled.message_attachments)
delete_message-gone_example =
    delete_message-gone env "m" hello bye full without_message filled-IsContentSound message_found
      other_found other_message deletes

abbrev left : World
left = (delete_user_guild env 1 1 full).1

leaves : delete_user_guild env 1 1 full ≡ (ok tt, left)
unfolding delete_user_guild delete_membership statement wrap or_fail remove count ◌>>=◌
leaves = refl

guild_found : find (has_discord_guild_id "g") filled.guilds ≡ some guild
unfolding find
guild_found = refl

channel_found : find (has_discord_channel_id "c") filled.channels ≡ some general
unfolding find
channel_found = refl

delete_user_guild-revokes_example :
    (has_guild_access 1 "g" left.tables ≡ false) × (has_channel_access 1 "c" left.tables ≡ false)
delete_user_guild-revokes_example =
    delete_user_guild-revokes env 1 guild general full left filled-IsContentSound guild_found
      channel_found refl leaves

-- The remote side knows a guild "h" of the user, which is not stored yet.
abbrev asked : GetGuildsRequest
asked = record { session_id = "s"; force_refresh = true }

abbrev answer : GetGuildsResponse
answer = record {
  guilds =
      record {
        discord_guild_id = "h";
        name = "new";
        icon = "";
        owner = false;
        permissions = 0;
        features = [];
      }
      ∷ [];
  from_cache = false;
}

abbrev joined : World
joined = (get_guilds env remote api crypto settings asked full).1

asks : get_guilds env remote api crypto settings asked full ≡ (ok answer, joined)
unfolding get_guilds session_user get_auth_session fresh_token fetch_guilds get_user_guilds
    make_api_request request get_oauth_token refresh_if_needed reuse decrypt_token store_guilds
    store_guild create_or_update_guild create_user_guild upsert_guild insert_membership
    set_guild_cache statement query wrap attempt or_return or_fail find any now ◌>>=◌
asks = refl

get_guilds-grants_example :
    (uid : ℕ) × SignedIn "s" uid filled
    × All
        (λ (g : ProtoGuild). has_guild_access uid g.discord_guild_id joined.tables ≡ true)
        answer.guilds
get_guilds-grants_example =
    get_guilds-grants env (λ n. refl) remote api crypto settings asked answer full joined
      filled-IsSound asks refl

abbrev live : List WebSocketSession
live = socket ∷ []

reads_live :
    get_active_websocket_sessions env full ≡ (ok live, (get_active_websocket_sessions env full).1)
unfolding get_active_websocket_sessions statement wrap select sort_by insert_by
reads_live = refl

get_active_websocket_sessions-IsActive_example :
    Perm live (select (active_at 0) filled.websocket_sessions)
    × IsOrdered (λ a b. leb b.created_at a.created_at) live
get_active_websocket_sessions-IsActive_example =
    get_active_websocket_sessions-IsActive env live full (get_active_websocket_sessions env full).1
      reads_live

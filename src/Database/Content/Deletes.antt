-- ===== src/Database/Content/Deletes.antt =====
-- The statements that delete, with what is deleted in cascade, keep the invariants of the content.
use discord_lite_server.Base.{ℕ, Bool}
use discord_lite_server.Base.Table.{IsTable-remove, Refers-remove, Refers-cascade}
use discord_lite_server.Models.{Guild, Channel, Message, WebSocketSession, Tables}
use discord_lite_server.Database.Cascade.{drop_messages, drop_channels, drop_guilds}
use discord_lite_server.Database.Guilds.{delete_membership}
use discord_lite_server.Database.WebsocketSessions.{delete_websockets}
use discord_lite_server.Database.Content.{IsContentSound}

module _ (t : Tables) (v : IsContentSound t) where
  pub drop_messages-IsContentSound : (p : Message → Bool) → IsContentSound (drop_messages p t)
  unfolding drop_messages
  drop_messages-IsContentSound p = record {
    guild_table = v.guild_table;
    channel_table = v.channel_table;
    message_table = IsTable-remove _ _ p _ t.messages v.message_table;
    socket_table = v.socket_table;
    link_users = v.link_users;
    link_guilds = v.link_guilds;
    channel_guilds = v.channel_guilds;
    message_channels = Refers-remove _ _ t.channels p t.messages v.message_channels;
    attachment_messages =
        Refers-cascade _ _ p t.messages t.message_attachments v.attachment_messages;
    socket_users = v.socket_users;
  }

module _ (t : Tables) (v : IsContentSound t) where
  pub drop_channels-IsContentSound : (p : Channel → Bool) → IsContentSound (drop_channels p t)
  unfolding drop_channels drop_messages
  drop_channels-IsContentSound p = record {
    guild_table = v.guild_table;
    channel_table = IsTable-remove _ _ p _ t.channels v.channel_table;
    message_table = IsTable-remove _ _ _ _ t.messages v.message_table;
    socket_table = v.socket_table;
    link_users = v.link_users;
    link_guilds = v.link_guilds;
    channel_guilds = Refers-remove _ _ t.guilds p t.channels v.channel_guilds;
    message_channels = Refers-cascade _ _ p t.channels t.messages v.message_channels;
    attachment_messages =
        Refers-cascade _ _ _ t.messages t.message_attachments v.attachment_messages;
    socket_users = v.socket_users;
  }

  pub drop_guilds-IsContentSound : (p : Guild → Bool) → IsContentSound (drop_guilds p t)
  unfolding drop_guilds drop_channels drop_messages
  drop_guilds-IsContentSound p = record {
    guild_table = IsTable-remove _ _ p _ t.guilds v.guild_table;
    channel_table = IsTable-remove _ _ _ _ t.channels v.channel_table;
    message_table = IsTable-remove _ _ _ _ t.messages v.message_table;
    socket_table = v.socket_table;
    link_users = Refers-remove _ _ t.users _ t.user_guilds v.link_users;
    link_guilds = Refers-cascade _ _ p t.guilds t.user_guilds v.link_guilds;
    channel_guilds = Refers-cascade _ _ p t.guilds t.channels v.channel_guilds;
    message_channels = Refers-cascade _ _ _ t.channels t.messages v.message_channels;
    attachment_messages =
        Refers-cascade _ _ _ t.messages t.message_attachments v.attachment_messages;
    socket_users = v.socket_users;
  }

  pub delete_membership-IsContentSound :
      (uid gid instant : ℕ) → IsContentSound (delete_membership uid gid instant t).1
  unfolding delete_membership
  delete_membership-IsContentSound uid gid instant = record {
    guild_table = v.guild_table;
    channel_table = v.channel_table;
    message_table = v.message_table;
    socket_table = v.socket_table;
    link_users = Refers-remove _ _ t.users _ t.user_guilds v.link_users;
    link_guilds = Refers-remove _ _ t.guilds _ t.user_guilds v.link_guilds;
    channel_guilds = v.channel_guilds;
    message_channels = v.message_channels;
    attachment_messages = v.attachment_messages;
    socket_users = v.socket_users;
  }

  pub delete_websockets-IsContentSound :
      (p : WebSocketSession → Bool) → IsContentSound (delete_websockets p t).1
  unfolding delete_websockets
  delete_websockets-IsContentSound p = record {
    guild_table = v.guild_table;
    channel_table = v.channel_table;
    message_table = v.message_table;
    socket_table = IsTable-remove _ _ p _ t.websocket_sessions v.socket_table;
    link_users = v.link_users;
    link_guilds = v.link_guilds;
    channel_guilds = v.channel_guilds;
    message_channels = v.message_channels;
    attachment_messages = v.attachment_messages;
    socket_users = Refers-remove _ _ t.users p t.websocket_sessions v.socket_users;
  }

-- ===== src/Database/Content.antt =====
-- The invariants of the tables of guilds, channels, messages and WebSocket sessions: ids and
-- UNIQUE columns are unique, and references lead to a row.
pub mod Guilds
pub mod Channels
pub mod Messages
pub mod Sockets
pub mod Deletes
pub mod Queries
pub mod SignIn
use discord_lite_server.Base.{ℕ, List}
use discord_lite_server.Base.Table.{IsTable, Refers}
use discord_lite_server.Models.{
  User, Guild, UserGuild, Channel, Message, MessageAttachment, WebSocketSession, Tables,
}

abbrev pub GuildTable : ℕ → List Guild → Type 0
GuildTable = IsTable (λ (g : Guild). g.id) (λ (g : Guild). g.discord_guild_id)

abbrev pub ChannelTable : ℕ → List Channel → Type 0
ChannelTable = IsTable (λ (c : Channel). c.id) (λ (c : Channel). c.discord_channel_id)

abbrev pub MessageTable : ℕ → List Message → Type 0
MessageTable = IsTable (λ (m : Message). m.id) (λ (m : Message). m.discord_message_id)

abbrev pub SocketTable : ℕ → List WebSocketSession → Type 0
SocketTable = IsTable (λ (s : WebSocketSession). s.id) (λ (s : WebSocketSession). s.session_id)

abbrev pub LinkUsers : List User → List UserGuild → Type 0
LinkUsers = Refers (λ (u : User). u.id) (λ (m : UserGuild). m.user_id)

abbrev pub LinkGuilds : List Guild → List UserGuild → Type 0
LinkGuilds = Refers (λ (g : Guild). g.id) (λ (m : UserGuild). m.guild_id)

abbrev pub ChannelGuilds : List Guild → List Channel → Type 0
ChannelGuilds = Refers (λ (g : Guild). g.id) (λ (c : Channel). c.guild_id)

abbrev pub MessageChannels : List Channel → List Message → Type 0
MessageChannels = Refers (λ (c : Channel). c.id) (λ (m : Message). m.channel_id)

abbrev pub AttachmentMessages : List Message → List MessageAttachment → Type 0
AttachmentMessages = Refers (λ (m : Message). m.id) (λ (a : MessageAttachment). a.message_id)

abbrev pub SocketUsers : List User → List WebSocketSession → Type 0
SocketUsers = Refers (λ (u : User). u.id) (λ (s : WebSocketSession). s.user_id)

pub record IsContentSound (t : Tables) : Type 0 where
  pub guild_table : GuildTable t.next_guild t.guilds
  pub channel_table : ChannelTable t.next_channel t.channels
  pub message_table : MessageTable t.next_message t.messages
  pub socket_table : SocketTable t.next_websocket t.websocket_sessions
  pub link_users : LinkUsers t.users t.user_guilds
  pub link_guilds : LinkGuilds t.guilds t.user_guilds
  pub channel_guilds : ChannelGuilds t.guilds t.channels
  pub message_channels : MessageChannels t.channels t.messages
  pub attachment_messages : AttachmentMessages t.messages t.message_attachments
  pub socket_users : SocketUsers t.users t.websocket_sessions

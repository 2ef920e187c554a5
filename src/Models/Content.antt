-- ===== src/Models/Content.antt =====
-- internal/models/guild.go, channel.go and message.go. A signed number of the API (permissions,
-- position, type, size) is its 64-bit pattern.
use discord_lite_server.Base.{ℕ, Bool, String, Option, List}

pub record Guild : Type 0 where
  pub id : ℕ
  pub discord_guild_id : String
  pub name : String
  pub icon : Option String
  pub owner_id : Option String
  pub permissions : ℕ
  pub features : List String
  pub created_at : ℕ
  pub updated_at : ℕ

pub record UserGuild : Type 0 where
  pub id : ℕ
  pub user_id : ℕ
  pub guild_id : ℕ
  pub joined_at : ℕ
  pub created_at : ℕ

-- ChannelType is an int.
pub record Channel : Type 0 where
  pub id : ℕ
  pub discord_channel_id : String
  pub guild_id : ℕ
  pub name : String
  pub kind : ℕ
  pub position : ℕ
  pub parent_id : Option String
  pub topic : Option String
  pub nsfw : Bool
  pub last_message_id : Option String
  pub created_at : ℕ
  pub updated_at : ℕ

-- MessageType is an int.
pub record Message : Type 0 where
  pub id : ℕ
  pub discord_message_id : String
  pub channel_id : ℕ
  pub author_id : String
  pub author_username : String
  pub author_avatar : Option String
  pub content : Option String
  pub timestamp : ℕ
  pub edited_timestamp : Option ℕ
  pub message_type : ℕ
  pub referenced_message_id : Option String
  pub created_at : ℕ
  pub updated_at : ℕ

pub record MessageAttachment : Type 0 where
  pub id : ℕ
  pub message_id : ℕ
  pub attachment_id : String
  pub filename : String
  pub url : String
  pub proxy_url : Option String
  pub size_bytes : ℕ
  pub width : Option ℕ
  pub height : Option ℕ
  pub content_type : Option String
  pub created_at : ℕ

-- ===== src/Database/Stores.antt =====
-- The writes that the services of guilds, channels and messages make: what moves the tables along
-- a relation with each of them moves them along it with every call.
use discord_lite_server.Base.{ℕ, String, Option}
use discord_lite_server.Models.{
  OauthToken, CacheType, Guild, Channel, Message, MessageAttachment, Tables,
}
use discord_lite_server.Effect.{Env}
use discord_lite_server.Effect.Moves.{Order, Moves, moves_rules}
use discord_lite_server.Database.Tokens.{store_oauth_token}
use discord_lite_server.Database.Cache.{set_cache_metadata}
use discord_lite_server.Database.Guilds.{create_or_update_guild, create_user_guild}
use discord_lite_server.Database.Channels.{create_or_update_channel}
use discord_lite_server.Database.Messages.{
  create_or_update_message, create_message_attachment, delete_message,
}

pub record Stores (R : Tables → Tables → Type 0) (env : Env) : Type 0 where
  pub order : Order R
  pub token : (k : OauthToken) → Moves R (store_oauth_token env k)
  pub cache :
      (kind : CacheType) (entity : String) (uid : Option ℕ) (ttl : ℕ)
      → Moves R (set_cache_metadata env kind entity uid ttl)
  pub guild : (g : Guild) → Moves R (create_or_update_guild env g)
  pub link : (uid gid : ℕ) → Moves R (create_user_guild env uid gid)
  pub channel : (c : Channel) → Moves R (create_or_update_channel env c)
  pub message : (m : Message) → Moves R (create_or_update_message env m)
  pub attachment : (a : MessageAttachment) → Moves R (create_message_attachment env a)
  pub deletion : (d : String) → Moves R (delete_message env d)

-- The fields as lemmas.
module _ {R : Tables → Tables → Type 0} {env : Env} (st : Stores R env) where
  pub Stores-order : Order R
  Stores-order = st.order

  pub Stores-token : (k : OauthToken) → Moves R (store_oauth_token env k)
  Stores-token = st.token

  pub Stores-cache :
      (kind : CacheType) (entity : String) (uid : Option ℕ) (ttl : ℕ)
      → Moves R (set_cache_metadata env kind entity uid ttl)
  Stores-cache = st.cache

  pub Stores-guild : (g : Guild) → Moves R (create_or_update_guild env g)
  Stores-guild = st.guild

  pub Stores-link : (uid gid : ℕ) → Moves R (create_user_guild env uid gid)
  Stores-link = st.link

  pub Stores-channel : (c : Channel) → Moves R (create_or_update_channel env c)
  Stores-channel = st.channel

  pub Stores-message : (m : Message) → Moves R (create_or_update_message env m)
  Stores-message = st.message

  pub Stores-attachment : (a : MessageAttachment) → Moves R (create_message_attachment env a)
  Stores-attachment = st.attachment

  pub Stores-deletion : (d : String) → Moves R (delete_message env d)
  Stores-deletion = st.deletion

pub ruleset store_rules = (
  moves_rules, Stores-token, Stores-cache, Stores-guild, Stores-link, Stores-channel,
  Stores-message, Stores-attachment, Stores-deletion,
)

-- ===== src/Database/Cascade.antt =====
-- internal/database/migrations/000002: REFERENCES … ON DELETE CASCADE. A row goes with the row
-- that it refers to.
use discord_lite_server.Base.{Bool, ◌==◌, nat_eq}
use discord_lite_server.Base.Rows.{select, remove, any}
use discord_lite_server.Models.{Guild, Channel, Message, Tables}

unfoldable pub drop_messages : (Message → Bool) → Tables → Tables
drop_messages p t = record t {
  messages = remove p t.messages;
  message_attachments =
      remove (λ a. any (λ m. m.id == a.message_id) (select p t.messages)) t.message_attachments;
}

unfoldable pub drop_channels : (Channel → Bool) → Tables → Tables
drop_channels p t =
    drop_messages (λ m. any (λ c. c.id == m.channel_id) (select p t.channels))
      (record t { channels = remove p t.channels })

unfoldable pub drop_guilds : (Guild → Bool) → Tables → Tables
drop_guilds p t =
    drop_channels (λ c. any (λ g. g.id == c.guild_id) (select p t.guilds))
      (record t {
        guilds = remove p t.guilds;
        user_guilds = remove (λ m. any (λ g. g.id == m.guild_id) (select p t.guilds)) t.user_guilds;
      })

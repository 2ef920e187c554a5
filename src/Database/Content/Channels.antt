-- ===== src/Database/Content/Channels.antt =====
-- The statements that insert and update channels keep the invariants of the content.
use discord_lite_server.Base.{
  ℕ, suc, ◌≡◌, refl, true, none, [], ◌∷◌, ◌++◌, nat_eq, string_eq, inl, inr, Option-cases,
  Bool-cases,
}
use discord_lite_server.Base.Rows.{find, update, any}
use discord_lite_server.Base.Table.{
  IsTable-suc, IsTable-append, IsTable-update, Refers-append, Refers-append_target, Refers-update,
  Refers-update_target,
}
use discord_lite_server.Models.{Channel, Tables}
use discord_lite_server.Database.Guilds.{has_guild_id}
use discord_lite_server.Database.Channels.{
  has_discord_channel_id, merge_channel, new_channel, upsert_in_guild, upsert_channel,
}
use discord_lite_server.Database.Content.{IsContentSound}

module _ (t : Tables) (v : IsContentSound t) (instant : ℕ) where
  module _ (c : Channel) where
    channel_sequence : IsContentSound (record t { next_channel = suc t.next_channel })
    channel_sequence = record {
      guild_table = v.guild_table;
      channel_table = IsTable-suc _ _ _ _ v.channel_table;
      message_table = v.message_table;
      socket_table = v.socket_table;
      link_users = v.link_users;
      link_guilds = v.link_guilds;
      channel_guilds = v.channel_guilds;
      message_channels = v.message_channels;
      attachment_messages = v.attachment_messages;
      socket_users = v.socket_users;
    }

    module _ (h : any (has_guild_id c.guild_id) t.guilds ≡ true) where
      channel_inserted :
          find (has_discord_channel_id c.discord_channel_id) t.channels ≡ none
          → IsContentSound (record t {
            channels = t.channels ++ new_channel c t.next_channel instant ∷ [];
            next_channel = suc t.next_channel;
          })
      channel_inserted e = record {
        guild_table = v.guild_table;
        channel_table = IsTable-append _ _ _ t.channels _ e refl v.channel_table;
        message_table = v.message_table;
        socket_table = v.socket_table;
        link_users = v.link_users;
        link_guilds = v.link_guilds;
        channel_guilds = Refers-append _ _ t.guilds t.channels _ h v.channel_guilds;
        message_channels = Refers-append_target _ _ t.channels _ t.messages v.message_channels;
        attachment_messages = v.attachment_messages;
        socket_users = v.socket_users;
      }

      channel_updated : IsContentSound (record t {
        channels =
            update
              (has_discord_channel_id c.discord_channel_id)
              (merge_channel c instant)
              t.channels;
        next_channel = suc t.next_channel;
      })
      channel_updated = record {
        guild_table = v.guild_table;
        channel_table =
            IsTable-suc _ _ _ _
              (IsTable-update _ _ _ _ (λ a. refl) (λ a. refl) _ t.channels v.channel_table);
        message_table = v.message_table;
        socket_table = v.socket_table;
        link_users = v.link_users;
        link_guilds = v.link_guilds;
        channel_guilds =
            Refers-update _ _ t.guilds _ (merge_channel c instant) (λ b k. h) t.channels
              v.channel_guilds;
        message_channels =
            Refers-update_target _ _ _ _ (λ a. refl) t.channels t.messages v.message_channels;
        attachment_messages = v.attachment_messages;
        socket_users = v.socket_users;
      }

      upsert_in_guild-IsContentSound :
          IsContentSound
            (upsert_in_guild c instant t
              (find (has_discord_channel_id c.discord_channel_id) t.channels)).1
      upsert_in_guild-IsContentSound =
          elim (Option-cases (find (has_discord_channel_id c.discord_channel_id) t.channels)) [
            | inl e ↦ rw e (channel_inserted e)
            | inr (old, e) ↦ rw e channel_updated
          ]

    pub upsert_channel-IsContentSound : IsContentSound (upsert_channel c instant t).1
    unfolding upsert_channel
    upsert_channel-IsContentSound = elim (Bool-cases (any (has_guild_id c.guild_id) t.guilds)) [
      | inl h ↦ rw (h, upsert_channel) (upsert_in_guild-IsContentSound h)
      | inr h ↦ rw (h, upsert_channel) channel_sequence
    ]

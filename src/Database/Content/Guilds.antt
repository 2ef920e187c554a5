-- ===== src/Database/Content/Guilds.antt =====
-- The statements that insert and update guilds and their members keep the invariants of the content.
use discord_lite_server.Base.{
  ℕ, suc, ◌≡◌, refl, true, none, [], ◌∷◌, ◌++◌, nat_eq, string_eq, arith, inl, inr, Option-cases,
  Bool-cases,
}
use discord_lite_server.Base.Rows.{find, update, any}
use discord_lite_server.Base.Table.{
  IsTable-suc, IsTable-append, IsTable-update, Refers-append, Refers-append_target,
  Refers-update_target,
}
use discord_lite_server.Models.{Guild, Tables}
use discord_lite_server.Database.Guilds.{
  has_discord_guild_id, has_guild_id, is_membership, both_exist, merge_guild, new_guild,
  new_membership, upsert_guild, insert_membership,
}
use discord_lite_server.Database.Users.{has_user_id}
use discord_lite_server.Database.Content.{IsContentSound}

module _ (t : Tables) (v : IsContentSound t) (instant : ℕ) where
  module _ (g : Guild) where
    guild_inserted :
        find (has_discord_guild_id g.discord_guild_id) t.guilds ≡ none
        → IsContentSound (record t {
          guilds = t.guilds ++ new_guild g t.next_guild instant ∷ [];
          next_guild = suc t.next_guild;
        })
    guild_inserted e = record {
      guild_table = IsTable-append _ _ _ t.guilds _ e refl v.guild_table;
      channel_table = v.channel_table;
      message_table = v.message_table;
      socket_table = v.socket_table;
      link_users = v.link_users;
      link_guilds = Refers-append_target _ _ t.guilds _ t.user_guilds v.link_guilds;
      channel_guilds = Refers-append_target _ _ t.guilds _ t.channels v.channel_guilds;
      message_channels = v.message_channels;
      attachment_messages = v.attachment_messages;
      socket_users = v.socket_users;
    }

    guild_updated : IsContentSound (record t {
      guilds = update (has_discord_guild_id g.discord_guild_id) (merge_guild g instant) t.guilds;
      next_guild = suc t.next_guild;
    })
    guild_updated = record {
      guild_table =
          IsTable-suc _ _ _ _
            (IsTable-update _ _ _ _ (λ a. refl) (λ a. refl) _ t.guilds v.guild_table);
      channel_table = v.channel_table;
      message_table = v.message_table;
      socket_table = v.socket_table;
      link_users = v.link_users;
      link_guilds = Refers-update_target _ _ _ _ (λ a. refl) t.guilds t.user_guilds v.link_guilds;
      channel_guilds =
          Refers-update_target _ _ _ _ (λ a. refl) t.guilds t.channels v.channel_guilds;
      message_channels = v.message_channels;
      attachment_messages = v.attachment_messages;
      socket_users = v.socket_users;
    }

    pub upsert_guild-IsContentSound : IsContentSound (upsert_guild g instant t).1
    unfolding upsert_guild
    upsert_guild-IsContentSound =
        elim (Option-cases (find (has_discord_guild_id g.discord_guild_id) t.guilds)) [
          | inl e ↦ rw (e, upsert_guild) (guild_inserted e)
          | inr (old, e) ↦ rw (e, upsert_guild) guild_updated
        ]

  module _ (uid gid : ℕ) where
    both_exist-users : both_exist uid gid t ≡ true → any (has_user_id uid) t.users ≡ true
    both_exist-users h = ground arith

    both_exist-guilds : both_exist uid gid t ≡ true → any (has_guild_id gid) t.guilds ≡ true
    both_exist-guilds h = ground arith

    link_inserted :
        both_exist uid gid t ≡ true
        → IsContentSound (record t {
          user_guilds = t.user_guilds ++ new_membership uid gid t.next_user_guild instant ∷ [];
          next_user_guild = suc t.next_user_guild;
        })
    link_inserted h = record {
      guild_table = v.guild_table;
      channel_table = v.channel_table;
      message_table = v.message_table;
      socket_table = v.socket_table;
      link_users = Refers-append _ _ t.users t.user_guilds _ (both_exist-users h) v.link_users;
      link_guilds = Refers-append _ _ t.guilds t.user_guilds _ (both_exist-guilds h) v.link_guilds;
      channel_guilds = v.channel_guilds;
      message_channels = v.message_channels;
      attachment_messages = v.attachment_messages;
      socket_users = v.socket_users;
    }

    link_sequence : IsContentSound (record t { next_user_guild = suc t.next_user_guild })
    link_sequence = record {
      guild_table = v.guild_table;
      channel_table = v.channel_table;
      message_table = v.message_table;
      socket_table = v.socket_table;
      link_users = v.link_users;
      link_guilds = v.link_guilds;
      channel_guilds = v.channel_guilds;
      message_channels = v.message_channels;
      attachment_messages = v.attachment_messages;
      socket_users = v.socket_users;
    }

    pub insert_membership-IsContentSound : IsContentSound (insert_membership uid gid instant t).1
    unfolding insert_membership
    insert_membership-IsContentSound =
        elim (Bool-cases (any (is_membership uid gid) t.user_guilds)) [
          | inl known ↦ rw (known, insert_membership) link_sequence
          | inr new ↦ elim (Bool-cases (both_exist uid gid t)) [
            | inl h ↦ rw (new, h, insert_membership) (link_inserted h)
            | inr h ↦ rw (new, h, insert_membership) link_sequence
          ]
        ]

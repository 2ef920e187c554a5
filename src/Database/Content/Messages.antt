-- ===== src/Database/Content/Messages.antt =====
-- The statements that insert and update messages and attachments keep the invariants of the content.
use discord_lite_server.Base.{
  ℕ, suc, ◌≡◌, refl, true, none, List, [], ◌∷◌, ◌++◌, nat_eq, string_eq, inl, inr, Option-cases,
  Bool-cases,
}
use discord_lite_server.Base.Rows.{find, update, any}
use discord_lite_server.Base.Table.{
  IsTable-suc, IsTable-append, IsTable-update, Refers, Refers-append, Refers-append_target,
  Refers-update, Refers-update_target,
}
use discord_lite_server.Models.{Message, MessageAttachment, Tables}
use discord_lite_server.Database.Channels.{has_channel_id}
use discord_lite_server.Database.Messages.{
  has_message_id, has_discord_message_id, merge_message, new_message, upsert_message, is_attachment,
  merge_attachment, new_attachment, upsert_attachment,
}
use discord_lite_server.Database.Content.{IsContentSound}

module _ (t : Tables) (v : IsContentSound t) (instant : ℕ) where
  module _ (m : Message) where
    message_sequence : IsContentSound (record t { next_message = suc t.next_message })
    message_sequence = record {
      guild_table = v.guild_table;
      channel_table = v.channel_table;
      message_table = IsTable-suc _ _ _ _ v.message_table;
      socket_table = v.socket_table;
      link_users = v.link_users;
      link_guilds = v.link_guilds;
      channel_guilds = v.channel_guilds;
      message_channels = v.message_channels;
      attachment_messages = v.attachment_messages;
      socket_users = v.socket_users;
    }

    message_inserted :
        find (has_discord_message_id m.discord_message_id) t.messages ≡ none
        → any (has_channel_id m.channel_id) t.channels ≡ true
        → IsContentSound (record t {
          messages = t.messages ++ new_message m t.next_message instant ∷ [];
          next_message = suc t.next_message;
        })
    message_inserted e h = record {
      guild_table = v.guild_table;
      channel_table = v.channel_table;
      message_table = IsTable-append _ _ _ t.messages _ e refl v.message_table;
      socket_table = v.socket_table;
      link_users = v.link_users;
      link_guilds = v.link_guilds;
      channel_guilds = v.channel_guilds;
      message_channels = Refers-append _ _ t.channels t.messages _ h v.message_channels;
      attachment_messages =
          Refers-append_target _ _ t.messages _ t.message_attachments v.attachment_messages;
      socket_users = v.socket_users;
    }

    message_updated : IsContentSound (record t {
      messages =
          update (has_discord_message_id m.discord_message_id) (merge_message m instant) t.messages;
      next_message = suc t.next_message;
    })
    message_updated = record {
      guild_table = v.guild_table;
      channel_table = v.channel_table;
      message_table =
          IsTable-suc _ _ _ _
            (IsTable-update _ _ _ _ (λ a. refl) (λ a. refl) _ t.messages v.message_table);
      socket_table = v.socket_table;
      link_users = v.link_users;
      link_guilds = v.link_guilds;
      channel_guilds = v.channel_guilds;
      message_channels =
          Refers-update _ _ t.channels _ (merge_message m instant) (λ b k. k) t.messages
            v.message_channels;
      attachment_messages =
          Refers-update_target _ _ _ _ (λ a. refl) t.messages t.message_attachments
            v.attachment_messages;
      socket_users = v.socket_users;
    }

    pub upsert_message-IsContentSound : IsContentSound (upsert_message m instant t).1
    unfolding upsert_message
    upsert_message-IsContentSound =
        elim (Option-cases (find (has_discord_message_id m.discord_message_id) t.messages)) [
          | inl e ↦ elim (Bool-cases (any (has_channel_id m.channel_id) t.channels)) [
            | inl h ↦ rw (e, h, upsert_message) (message_inserted e h)
            | inr h ↦ rw (e, h, upsert_message) message_sequence
          ]
          | inr (old, e) ↦ rw (e, upsert_message) message_updated
        ]

  module _ (a : MessageAttachment) where
    attachments_sound :
        (xs : List MessageAttachment) (next : ℕ)
        → Refers (λ (m : Message). m.id) (λ (b : MessageAttachment). b.message_id) t.messages xs
        → IsContentSound (record t { message_attachments = xs; next_attachment = next })
    attachments_sound xs next h = record {
      guild_table = v.guild_table;
      channel_table = v.channel_table;
      message_table = v.message_table;
      socket_table = v.socket_table;
      link_users = v.link_users;
      link_guilds = v.link_guilds;
      channel_guilds = v.channel_guilds;
      message_channels = v.message_channels;
      attachment_messages = h;
      socket_users = v.socket_users;
    }

    pub upsert_attachment-IsContentSound : IsContentSound (upsert_attachment a instant t).1
    unfolding upsert_attachment
    upsert_attachment-IsContentSound =
        elim (Option-cases
          (find (is_attachment a.message_id a.attachment_id) t.message_attachments)) [
            | inl e ↦ elim (Bool-cases (any (has_message_id a.message_id) t.messages)) [
              | inl h ↦
                  rw (e, h, upsert_attachment)
                    (attachments_sound _ _ (
                      Refers-append _ _ t.messages t.message_attachments
                        (new_attachment a t.next_attachment instant) h v.attachment_messages))
              | inr h ↦
                  rw (e, h, upsert_attachment)
                    (attachments_sound t.message_attachments _ v.attachment_messages)
            ]
            | inr (old, e) ↦
                rw (e, upsert_attachment)
                  (attachments_sound _ _ (
                    Refers-update _ _ t.messages _ (merge_attachment a) (λ b k. k)
                      t.message_attachments v.attachment_messages))
          ]

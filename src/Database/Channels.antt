-- ===== src/Database/Channels.antt =====
-- internal/database/channel_queries.go: the table channels.
use discord_lite_server.Base.{
  ℕ, suc, ◌+◌, ◌%◌, Bool, ◌&&◌, ◌||◌, String, Option, none, some, List, [], ◌∷◌, ◌++◌, ◌==◌, nat_eq,
  string_eq, if◌then◌else◌, ltb,
}
use discord_lite_server.Base.Rows.{find, select, update, count, any}
use discord_lite_server.Base.Sort.{sort_by}
use discord_lite_server.Base.Words.{half_range, range}
use discord_lite_server.Models.{Channel, Tables}
use discord_lite_server.Effect.{
  Env, Action, Result, ok, err, external, message, wrap, raise, pure, or_fail, statement, query,
  ◌>>=◌,
}
use discord_lite_server.Database.Guilds.{has_guild_id}
use discord_lite_server.Database.Cascade.{drop_channels}

abbrev pub has_channel_id : ℕ → Channel → Bool
has_channel_id id c = c.id == id

abbrev pub has_discord_channel_id : String → Channel → Bool
has_discord_channel_id d c = c.discord_channel_id == d

-- ON CONFLICT (discord_channel_id) DO UPDATE
abbrev pub merge_channel : Channel → ℕ → Channel → Channel
merge_channel c instant old = record old {
  guild_id = c.guild_id;
  name = c.name;
  kind = c.kind;
  position = c.position;
  parent_id = c.parent_id;
  topic = c.topic;
  nsfw = c.nsfw;
  last_message_id = c.last_message_id;
  updated_at = instant;
}

abbrev pub new_channel : Channel → ℕ → ℕ → Channel
new_channel c id instant = record c { id = id; created_at = instant; updated_at = instant }

abbrev pub upsert_in_guild : Channel → ℕ → Tables → Option Channel → Result Channel × Tables
upsert_in_guild c instant t none = (
  ok (new_channel c t.next_channel instant),
  record t {
    channels = t.channels ++ new_channel c t.next_channel instant ∷ [];
    next_channel = suc t.next_channel;
  },
)
upsert_in_guild c instant t (some old) = (
  ok (merge_channel c instant old),
  record t {
    channels =
        update (has_discord_channel_id c.discord_channel_id) (merge_channel c instant) t.channels;
    next_channel = suc t.next_channel;
  },
)

-- The foreign key guild_id, which the update sets too.
unfoldable pub upsert_channel : Channel → ℕ → Tables → Result Channel × Tables
upsert_channel c instant t =
    if any (has_guild_id c.guild_id) t.guilds
    then upsert_in_guild c instant t (find (has_discord_channel_id c.discord_channel_id) t.channels)
    else (err external, record t { next_channel = suc t.next_channel })

unfoldable pub delete_channel_row : ℕ → ℕ → Tables → Result ℕ × Tables
delete_channel_row id instant t =
    (ok (count (has_channel_id id) t.channels), drop_channels (has_channel_id id) t)

-- `<` on two 64-bit patterns
abbrev pub signed_lt : ℕ → ℕ → Bool
signed_lt a b = ltb ((a + half_range) % range) ((b + half_range) % range)

-- ORDER BY position ASC, name ASC
abbrev pub channel_le : (String → String → Bool) → Channel → Channel → Bool
channel_le text_le a b =
    signed_lt a.position b.position || (a.position == b.position && text_le a.name b.name)

-- channels JOIN guilds WHERE g.discord_guild_id = $1. The key id makes the guild unique.
abbrev pub is_in_guild : String → Tables → Channel → Bool
is_in_guild d t c = any (λ g. g.id == c.guild_id && g.discord_guild_id == d) t.guilds

-- EXISTS (user_guilds JOIN channels WHERE ug.user_id = $1 AND c.discord_channel_id = $2)
unfoldable pub has_channel_access : ℕ → String → Tables → Bool
has_channel_access uid d t =
    any
      (λ m.
        m.user_id == uid
        && any (λ c. c.guild_id == m.guild_id && c.discord_channel_id == d) t.channels)
      t.user_guilds

module _ (env : Env) where
  unfoldable pub create_or_update_channel : Channel → Action Channel
  create_or_update_channel c =
      wrap "failed to create/update channel" (statement env (upsert_channel c))

  unfoldable pub get_channel_by_id : ℕ → Action Channel
  get_channel_by_id id = do
    found ← wrap "failed to get channel" (query env (λ t. find (has_channel_id id) t.channels))
    or_fail (message "channel not found") found

  unfoldable pub get_channel_by_discord_id : String → Action Channel
  get_channel_by_discord_id d = do
    found ←
        wrap "failed to get channel" (query env (λ t. find (has_discord_channel_id d) t.channels))
    or_fail (message "channel not found") found

  unfoldable pub get_channels_by_guild_id : ℕ → Action (List Channel)
  get_channels_by_guild_id id = wrap "failed to query channels" (
      query env (λ t. sort_by (channel_le env.text_le) (select (λ c. c.guild_id == id) t.channels)))

  unfoldable pub get_channels_by_discord_guild_id : String → Action (List Channel)
  get_channels_by_discord_guild_id d =
      wrap "failed to query channels"
        (query env (λ t. sort_by (channel_le env.text_le) (select (is_in_guild d t) t.channels)))

  unfoldable pub delete_channel : ℕ → Action (Unit {0})
  delete_channel id = do
    rows ← wrap "failed to delete channel" (statement env (delete_channel_row id))
    if rows == 0 then raise (message "channel not found") else pure tt

  unfoldable pub user_has_channel_access : ℕ → String → Action Bool
  user_has_channel_access uid d =
      wrap "failed to check channel access" (query env (has_channel_access uid d))

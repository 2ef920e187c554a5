-- ===== src/Database/Guilds.antt =====
-- internal/database/guild_queries.go: the tables guilds and user_guilds.
pub mod Membership
pub mod Kept
use discord_lite_server.Base.{
  ℕ, suc, Bool, true, false, ◌&&◌, String, Option, none, some, List, [], ◌∷◌, ◌++◌, ◌==◌, nat_eq,
  string_eq, if◌then◌else◌,
}
use discord_lite_server.Base.Rows.{find, select, update, remove, count, any}
use discord_lite_server.Base.Sort.{sort_by}
use discord_lite_server.Models.{User, Guild, UserGuild, Channel, Message, MessageAttachment, Tables}
use discord_lite_server.Effect.{
  Env, Action, Result, ok, err, external, message, wrap, raise, pure, or_fail, statement, query,
  ◌>>=◌,
}
use discord_lite_server.Database.Users.{has_user_id}
use discord_lite_server.Database.Cascade.{drop_guilds}

abbrev pub has_guild_id : ℕ → Guild → Bool
has_guild_id id g = g.id == id

abbrev pub has_discord_guild_id : String → Guild → Bool
has_discord_guild_id d g = g.discord_guild_id == d

abbrev pub is_membership : ℕ → ℕ → UserGuild → Bool
is_membership uid gid m = m.user_id == uid && m.guild_id == gid

-- ON CONFLICT (discord_guild_id) DO UPDATE
abbrev pub merge_guild : Guild → ℕ → Guild → Guild
merge_guild g instant old = record old {
  name = g.name;
  icon = g.icon;
  owner_id = g.owner_id;
  permissions = g.permissions;
  features = g.features;
  updated_at = instant;
}

abbrev pub new_guild : Guild → ℕ → ℕ → Guild
new_guild g id instant = record g { id = id; created_at = instant; updated_at = instant }

unfoldable pub upsert_guild : Guild → ℕ → Tables → Result Guild × Tables
upsert_guild g instant t = elim (find (has_discord_guild_id g.discord_guild_id) t.guilds) [
  | none ↦ (
    ok (new_guild g t.next_guild instant),
    record t {
      guilds = t.guilds ++ new_guild g t.next_guild instant ∷ [];
      next_guild = suc t.next_guild;
    },
  )
  | some old ↦ (
    ok (merge_guild g instant old),
    record t {
      guilds = update (has_discord_guild_id g.discord_guild_id) (merge_guild g instant) t.guilds;
      next_guild = suc t.next_guild;
    },
  )
]

abbrev pub new_membership : ℕ → ℕ → ℕ → ℕ → UserGuild
new_membership uid gid id instant = record {
  id = id;
  user_id = uid;
  guild_id = gid;
  joined_at = instant;
  created_at = instant;
}

-- The foreign keys user_id and guild_id.
abbrev pub both_exist : ℕ → ℕ → Tables → Bool
both_exist uid gid t = any (has_user_id uid) t.users && any (has_guild_id gid) t.guilds

-- ON CONFLICT (user_id, guild_id) DO NOTHING
unfoldable pub insert_membership : ℕ → ℕ → ℕ → Tables → Result (Unit {0}) × Tables
insert_membership uid gid instant t =
    if any (is_membership uid gid) t.user_guilds
    then (ok tt, record t { next_user_guild = suc t.next_user_guild })
    else if both_exist uid gid t
    then (
      ok tt,
      record t {
        user_guilds = t.user_guilds ++ new_membership uid gid t.next_user_guild instant ∷ [];
        next_user_guild = suc t.next_user_guild;
      },
    )
    else (err external, record t { next_user_guild = suc t.next_user_guild })

unfoldable pub delete_membership : ℕ → ℕ → ℕ → Tables → Result ℕ × Tables
delete_membership uid gid instant t = (
  ok (count (is_membership uid gid) t.user_guilds),
  record t { user_guilds = remove (is_membership uid gid) t.user_guilds },
)

unfoldable pub delete_guild_row : ℕ → ℕ → Tables → Result ℕ × Tables
delete_guild_row id instant t =
    (ok (count (has_guild_id id) t.guilds), drop_guilds (has_guild_id id) t)

-- INNER JOIN user_guilds ON g.id = ug.guild_id WHERE ug.user_id = $1: one row for each pair.
abbrev pub joins_guild : ℕ → Guild → UserGuild → Bool
joins_guild uid g m = m.guild_id == g.id && m.user_id == uid

abbrev pub copies : List UserGuild → Guild → List Guild → List Guild
copies [] g rest = rest
copies (m ∷ ms) g rest = g ∷ copies ms g rest

unfoldable pub guilds_of_user : ℕ → List UserGuild → List Guild → List Guild
guilds_of_user uid ms [] = []
guilds_of_user uid ms (g ∷ gs) = copies (select (joins_guild uid g) ms) g (guilds_of_user uid ms gs)

-- EXISTS (user_guilds JOIN guilds WHERE ug.user_id = $1 AND g.discord_guild_id = $2)
unfoldable pub has_guild_access : ℕ → String → Tables → Bool
has_guild_access uid d t =
    any (λ m. m.user_id == uid && any (λ g. g.id == m.guild_id && g.discord_guild_id == d) t.guilds)
      t.user_guilds

module _ (env : Env) where
  -- The caller's struct comes back with the id and the times that the statement returns.
  unfoldable pub create_or_update_guild : Guild → Action Guild
  create_or_update_guild g = wrap "failed to create/update guild" (statement env (upsert_guild g))

  unfoldable pub get_guild_by_id : ℕ → Action Guild
  get_guild_by_id id = do
    found ← wrap "failed to get guild" (query env (λ t. find (has_guild_id id) t.guilds))
    or_fail (message "guild not found") found

  unfoldable pub get_guild_by_discord_id : String → Action Guild
  get_guild_by_discord_id d = do
    found ← wrap "failed to get guild" (query env (λ t. find (has_discord_guild_id d) t.guilds))
    or_fail (message "guild not found") found

  -- ORDER BY g.name ASC
  unfoldable pub get_guilds_by_user_id : ℕ → Action (List Guild)
  get_guilds_by_user_id uid = wrap "failed to query guilds" (
      query env (λ t.
        sort_by (λ (a b : Guild). env.text_le a.name b.name)
          (guilds_of_user uid t.user_guilds t.guilds)))

  unfoldable pub create_user_guild : ℕ → ℕ → Action (Unit {0})
  create_user_guild uid gid =
      wrap "failed to create user-guild relationship" (statement env (insert_membership uid gid))

  unfoldable pub delete_user_guild : ℕ → ℕ → Action (Unit {0})
  delete_user_guild uid gid = do
    rows ←
        wrap "failed to delete user-guild relationship" (statement env (delete_membership uid gid))
    if rows == 0 then raise (message "user-guild relationship not found") else pure tt

  unfoldable pub delete_guild : ℕ → Action (Unit {0})
  delete_guild id = do
    rows ← wrap "failed to delete guild" (statement env (delete_guild_row id))
    if rows == 0 then raise (message "guild not found") else pure tt

  unfoldable pub user_has_guild_access : ℕ → String → Action Bool
  user_has_guild_access uid d =
      wrap "failed to check guild access" (query env (has_guild_access uid d))

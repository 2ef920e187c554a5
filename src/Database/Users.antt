-- ===== src/Database/Users.antt =====
-- internal/database/queries.go: the table users.
use discord_lite_server.Base.{
  ℕ, suc, Bool, String, none, some, [], ◌∷◌, ◌++◌, ◌==◌, string_eq, nat_eq,
}
use discord_lite_server.Base.Rows.{find, update}
use discord_lite_server.Models.{User, Tables}
use discord_lite_server.Effect.{
  Env, Action, Result, ok, message, wrap, or_fail, statement, query, ◌>>=◌,
}

abbrev pub has_user_id : ℕ → User → Bool
has_user_id id u = u.id == id

abbrev pub has_discord_id : String → User → Bool
has_discord_id d u = u.discord_id == d

-- ON CONFLICT (discord_id) DO UPDATE
abbrev pub merge_user : User → ℕ → User → User
merge_user u instant old = record old {
  username = u.username;
  discriminator = u.discriminator;
  avatar = u.avatar;
  email = u.email;
  updated_at = instant;
}

abbrev pub new_user : User → ℕ → ℕ → User
new_user u id instant = record u { id = id; created_at = instant; updated_at = instant }

unfoldable pub upsert_user : User → ℕ → Tables → Result User × Tables
upsert_user u instant t = elim (find (has_discord_id u.discord_id) t.users) [
  | none ↦ (
    ok (new_user u t.next_user instant),
    record t {
      users = t.users ++ new_user u t.next_user instant ∷ [];
      next_user = suc t.next_user;
    },
  )
  | some old ↦ (
    ok (merge_user u instant old),
    record t {
      users = update (has_discord_id u.discord_id) (merge_user u instant) t.users;
      next_user = suc t.next_user;
    },
  )
]

module _ (env : Env) where
  -- The caller's struct comes back with the id and the times that the statement returns.
  unfoldable pub create_user : User → Action User
  create_user u = wrap "failed to create user" (statement env (upsert_user u))

  unfoldable pub get_user_by_discord_id : String → Action User
  get_user_by_discord_id d = do
    found ← wrap "failed to get user" (query env (λ t. find (has_discord_id d) t.users))
    or_fail (message "user not found") found

  unfoldable pub get_user_by_id : ℕ → Action User
  get_user_by_id id = do
    found ← wrap "failed to get user" (query env (λ t. find (has_user_id id) t.users))
    or_fail (message "user not found") found

-- ===== src/Database/Sessions.antt =====
-- internal/database/queries.go: the table auth_sessions.
pub mod Status
use discord_lite_server.Base.{
  ℕ, Bool, true, false, String, Option, none, some, List, [], ◌∷◌, ◌++◌, ◌==◌, nat_eq, string_eq,
  if◌then◌else◌, ltb,
}
use discord_lite_server.Base.Rows.{find, update, remove, count}
use discord_lite_server.Models.{User, AuthStatus, AuthSession, Tables}
use discord_lite_server.Effect.{
  Env, Action, Result, ok, err, external, message, wrap, raise, pure, or_fail, statement, query,
  ◌>>=◌,
}
use discord_lite_server.Database.Users.{has_user_id}

abbrev pub has_session_id : String → AuthSession → Bool
has_session_id sid s = s.session_id == sid

-- The foreign key user_id: NULL, or a row of users.
abbrev pub user_exists : List User → Option ℕ → Bool
user_exists users none = true
user_exists users (some uid) = elim (find (has_user_id uid) users) [ none ↦ false | some u ↦ true ]

abbrev pub new_session : AuthSession → ℕ → AuthSession
new_session s instant = record s { created_at = instant; updated_at = instant }

-- The primary key session_id refuses a second row.
unfoldable pub insert_session : AuthSession → ℕ → Tables → Result AuthSession × Tables
insert_session s instant t = elim (find (has_session_id s.session_id) t.auth_sessions) [
  | some old ↦ (err external, t)
  | none ↦
      if user_exists t.users s.user_id
      then (
        ok (new_session s instant),
        record t { auth_sessions = t.auth_sessions ++ new_session s instant ∷ [] },
      )
      else (err external, t)
]

abbrev pub with_status : AuthStatus → Option ℕ → Option String → ℕ → AuthSession → AuthSession
with_status status uid text instant s = record s {
  auth_status = status;
  user_id = uid;
  error_message = text;
  updated_at = instant;
}

-- No row is checked against the foreign key where none is updated.
unfoldable pub update_session :
    String → AuthStatus → Option ℕ → Option String → ℕ → Tables → Result ℕ × Tables
update_session sid status uid text instant t =
    if count (has_session_id sid) t.auth_sessions == 0
    then (ok 0, t)
    else if user_exists t.users uid
    then (
      ok (count (has_session_id sid) t.auth_sessions),
      record t {
        auth_sessions =
            update (has_session_id sid) (with_status status uid text instant) t.auth_sessions;
      },
    )
    else (err external, t)

unfoldable pub delete_sessions : (AuthSession → Bool) → Tables → Result ℕ × Tables
delete_sessions p t =
    (ok (count p t.auth_sessions), record t { auth_sessions = remove p t.auth_sessions })

module _ (env : Env) where
  unfoldable pub create_auth_session : AuthSession → Action AuthSession
  create_auth_session s = wrap "failed to create auth session" (statement env (insert_session s))

  unfoldable pub get_auth_session : String → Action AuthSession
  get_auth_session sid = do
    found ←
        wrap "failed to get auth session"
          (query env (λ t. find (has_session_id sid) t.auth_sessions))
    or_fail (message "auth session not found") found

  unfoldable pub update_auth_session_status :
      String → AuthStatus → Option ℕ → Option String → Action (Unit {0})
  update_auth_session_status sid status uid text = do
    rows ←
        wrap "failed to update auth session status"
          (statement env (update_session sid status uid text))
    if rows == 0 then raise (message "auth session not found") else pure tt

  unfoldable pub delete_auth_session : String → Action (Unit {0})
  delete_auth_session sid = do
    rows ←
        wrap "failed to delete auth session"
          (statement env (λ instant. delete_sessions (has_session_id sid)))
    if rows == 0 then raise (message "auth session not found") else pure tt

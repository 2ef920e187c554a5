-- ===== src/Database/States.antt =====
-- internal/database/queries.go: the table oauth_states, and the clean-up of what has expired.
pub mod SingleUse
use discord_lite_server.Base.{
  ℕ, Bool, true, false, String, Option, none, some, List, [], ◌∷◌, ◌++◌, ◌==◌, string_eq,
  if◌then◌else◌, ltb,
}
use discord_lite_server.Base.Rows.{find, remove, count}
use discord_lite_server.Models.{OauthState, AuthSession, Tables, state_is_expired}
use discord_lite_server.Effect.{
  Env, Action, Result, ok, err, external, message, wrap, raise, pure, or_fail, now, statement,
  query, transaction, ◌>>=◌, ◌>>◌,
}
use discord_lite_server.Database.Sessions.{delete_sessions}

abbrev pub has_state : String → OauthState → Bool
has_state s r = r.state == s

-- The primary key state refuses a second row.
unfoldable pub insert_state : OauthState → ℕ → Tables → Result OauthState × Tables
insert_state s instant t = elim (find (has_state s.state) t.oauth_states) [
  | some old ↦ (err external, t)
  | none ↦ (
    ok (record s { created_at = instant }),
    record t { oauth_states = t.oauth_states ++ record s { created_at = instant } ∷ [] },
  )
]

unfoldable pub delete_states : (OauthState → Bool) → Tables → Result ℕ × Tables
delete_states p t =
    (ok (count p t.oauth_states), record t { oauth_states = remove p t.oauth_states })

module _ (env : Env) where
  unfoldable pub create_oauth_state : OauthState → Action OauthState
  create_oauth_state s = wrap "failed to create oauth state" (statement env (insert_state s))

  -- What runs between BeginTx and Commit.
  unfoldable pub take_oauth_state : String → Action OauthState
  take_oauth_state state = do
    found ←
        wrap "failed to validate oauth state"
          (query env (λ t. find (has_state state) t.oauth_states))
    row ← or_fail (message "invalid state: not found") found
    instant ← now env
    if state_is_expired instant row then raise (message "state has expired") else do
      wrap "failed to delete oauth state" (statement env (λ _. delete_states (has_state state)))
      pure row

  unfoldable pub validate_and_delete_oauth_state : String → Action OauthState
  validate_and_delete_oauth_state state = transaction env (take_oauth_state state)

  unfoldable pub cleanup_expired_sessions : Action (Unit {0})
  cleanup_expired_sessions = do
    wrap "failed to cleanup expired auth sessions"
        (statement env (λ instant. delete_sessions (λ s. ltb s.expires_at instant)))
    wrap "failed to cleanup expired oauth states"
        (statement env (λ instant. delete_states (λ s. ltb s.expires_at instant)))
    pure tt

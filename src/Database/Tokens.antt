-- ===== src/Database/Tokens.antt =====
-- internal/database/queries.go: the table oauth_tokens, which holds at most one row for a user.
use discord_lite_server.Base.{
  ℕ, suc, Bool, Option, none, some, [], ◌∷◌, ◌++◌, ◌==◌, nat_eq, if◌then◌else◌,
}
use discord_lite_server.Base.Rows.{find, update, remove, count}
use discord_lite_server.Models.{OauthToken, Tables}
use discord_lite_server.Effect.{
  Env, Action, Result, ok, err, external, message, wrap, raise, pure, or_fail, statement, query,
  ◌>>=◌,
}
use discord_lite_server.Database.Users.{has_user_id}

abbrev pub is_token_of : ℕ → OauthToken → Bool
is_token_of uid k = k.user_id == uid

abbrev pub merge_token : OauthToken → ℕ → OauthToken → OauthToken
merge_token k instant old = record old {
  access_token = k.access_token;
  refresh_token = k.refresh_token;
  token_type = k.token_type;
  expiry = k.expiry;
  scope = k.scope;
  updated_at = instant;
}

abbrev pub new_token : OauthToken → ℕ → ℕ → OauthToken
new_token k id instant = record k { id = id; created_at = instant; updated_at = instant }

abbrev upsert_for_user : OauthToken → ℕ → Tables → Option OauthToken → Result OauthToken × Tables
upsert_for_user k instant t none = (
  ok (new_token k t.next_token instant),
  record t {
    oauth_tokens = t.oauth_tokens ++ new_token k t.next_token instant ∷ [];
    next_token = suc t.next_token;
  },
)
upsert_for_user k instant t (some old) = (
  ok (merge_token k instant old),
  record t {
    oauth_tokens = update (is_token_of k.user_id) (merge_token k instant) t.oauth_tokens;
    next_token = suc t.next_token;
  },
)

-- The foreign key user_id refuses the token of an unknown user.
unfoldable pub upsert_token : OauthToken → ℕ → Tables → Result OauthToken × Tables
upsert_token k instant t = elim (find (has_user_id k.user_id) t.users) [
  | none ↦ (err external, record t { next_token = suc t.next_token })
  | some u ↦ upsert_for_user k instant t (find (is_token_of k.user_id) t.oauth_tokens)
]

unfoldable pub delete_tokens : ℕ → ℕ → Tables → Result ℕ × Tables
delete_tokens uid instant t = (
  ok (count (is_token_of uid) t.oauth_tokens),
  record t { oauth_tokens = remove (is_token_of uid) t.oauth_tokens },
)

module _ (env : Env) where
  unfoldable pub store_oauth_token : OauthToken → Action OauthToken
  store_oauth_token k = wrap "failed to store oauth token" (statement env (upsert_token k))

  unfoldable pub get_oauth_token : ℕ → Action OauthToken
  get_oauth_token uid = do
    found ←
        wrap "failed to get oauth token" (query env (λ t. find (is_token_of uid) t.oauth_tokens))
    or_fail (message "oauth token not found") found

  unfoldable pub delete_oauth_token : ℕ → Action (Unit {0})
  delete_oauth_token uid = do
    rows ← wrap "failed to delete oauth token" (statement env (delete_tokens uid))
    if rows == 0 then raise (message "oauth token not found") else pure tt

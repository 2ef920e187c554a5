-- ===== src/Database/Sound/Users.antt =====
-- create_user keeps the invariants.
use discord_lite_server.Base.{
  ℕ, suc, true, Option, none, some, List, [], ◌∷◌, ◌++◌, ◌≡◌, nat_eq, string_eq, arith, refl, inl,
  inr, Option-cases,
}
use discord_lite_server.Base.Rows.{
  find, update, All-append, All-update, All-map, find-append_some, find-update,
}
use discord_lite_server.Base.Distinct.{find-none, Distinct-append, Distinct-update}
use discord_lite_server.Models.{User, Tables}
use discord_lite_server.Database.Users.{
  has_user_id, has_discord_id, merge_user, new_user, upsert_user,
}
use discord_lite_server.Database.Sessions.{user_exists}
use discord_lite_server.Database.Sound.{IsSound}

-- No statement makes a user disappear.
module _ (users : List User) (u : User) where
  user_exists-append :
      (uid : Option ℕ) → user_exists users uid ≡ true → user_exists (users ++ u ∷ []) uid ≡ true
  user_exists-append none h = refl
  user_exists-append (some uid) h = elim (Option-cases (find (has_user_id uid) users)) [
    | inl missing ↦ ground arith
    | inr (v, found) ↦ ground (arith, find-append_some (has_user_id uid) users (u ∷ []) v)
  ]

  module _ (instant : ℕ) where
    abbrev merged : List User
    merged = update (has_discord_id u.discord_id) (merge_user u instant) users

    user_exists-update :
        (uid : Option ℕ) → user_exists users uid ≡ true → user_exists merged uid ≡ true
    user_exists-update none h = refl
    user_exists-update (some uid) h = ground (
      arith,
      find-update (has_discord_id u.discord_id) (has_user_id uid) (merge_user u instant)
          (λ (a : User). refl) users,
    )

module _ (u : User) (instant : ℕ) (t : Tables) (v : IsSound t) where
  inserted-IsSound :
      find (has_discord_id u.discord_id) t.users ≡ none
      → IsSound (record t {
        users = t.users ++ new_user u t.next_user instant ∷ [];
        next_user = suc t.next_user;
      })
  inserted-IsSound e = record {
    sessions_distinct = v.sessions_distinct;
    states_distinct = v.states_distinct;
    users_distinct =
        Distinct-append (λ u. u.discord_id) t.users _ (find-none _ t.users e) v.users_distinct;
    ids_below =
        All-append _ t.users _ (All-map _ _ (λ a h. omega arith) t.users v.ids_below)
          (omega arith, tt);
    tokens_distinct = v.tokens_distinct;
    token_users =
        All-map _ _ (λ k. user_exists-append t.users _ (some k.user_id)) t.oauth_tokens
          v.token_users;
    session_users =
        All-map _ _ (λ s. user_exists-append t.users _ s.user_id) t.auth_sessions v.session_users;
    linked = v.linked;
  }

  merged-IsSound :
      IsSound (record t { users = merged t.users u instant; next_user = suc t.next_user })
  merged-IsSound = record {
    sessions_distinct = v.sessions_distinct;
    states_distinct = v.states_distinct;
    users_distinct = Distinct-update (λ u. u.discord_id) _ _ (λ a. refl) t.users v.users_distinct;
    ids_below =
        All-update _ _ _ (λ a h. h) t.users (All-map _ _ (λ a h. omega arith) t.users v.ids_below);
    tokens_distinct = v.tokens_distinct;
    token_users =
        All-map _ _ (λ k. user_exists-update t.users u instant (some k.user_id)) t.oauth_tokens
          v.token_users;
    session_users =
        All-map _ _ (λ s. user_exists-update t.users u instant s.user_id) t.auth_sessions
          v.session_users;
    linked = v.linked;
  }

  pub upsert_user-IsSound : IsSound (upsert_user u instant t).1
  unfolding upsert_user
  upsert_user-IsSound = elim (Option-cases (find (has_discord_id u.discord_id) t.users)) [
    | inl e ↦ rw (e, upsert_user) (inserted-IsSound e)
    | inr (old, e) ↦ rw (e, upsert_user) merged-IsSound
  ]

-- ===== src/Database/Sound/Tokens.antt =====
-- The statements on oauth_tokens and oauth_states keep the invariants.
use discord_lite_server.Base.{
  ℕ, suc, Bool, true, none, some, List, [], ◌∷◌, ◌++◌, ◌≡◌, nat_eq, string_eq, arith, refl, inl,
  inr, Option-cases,
}
use discord_lite_server.Base.Rows.{find, update, All, All-append, All-update, All-remove, Distinct}
use discord_lite_server.Base.Distinct.{find-none, Distinct-append, Distinct-update, Distinct-remove}
use discord_lite_server.Models.{OauthToken, OauthState, Tables}
use discord_lite_server.Database.Sessions.{user_exists}
use discord_lite_server.Database.Tokens.{
  is_token_of, new_token, merge_token, upsert_token, delete_tokens,
}
use discord_lite_server.Database.States.{has_state, insert_state, delete_states}
use discord_lite_server.Database.Sound.{IsSound}

module _ (t : Tables) (v : IsSound t) where
  with_tokens :
      (tokens : List OauthToken) (next : ℕ)
      → Distinct (λ k. k.user_id) tokens
      → All (λ k. user_exists t.users (some k.user_id) ≡ true) tokens
      → IsSound (record t { oauth_tokens = tokens; next_token = next })
  with_tokens tokens next d u = record {
    sessions_distinct = v.sessions_distinct;
    states_distinct = v.states_distinct;
    users_distinct = v.users_distinct;
    ids_below = v.ids_below;
    tokens_distinct = d;
    token_users = u;
    session_users = v.session_users;
    linked = v.linked;
  }

  with_states :
      (states : List OauthState)
      → Distinct (λ s. s.state) states
      → IsSound (record t { oauth_states = states })
  with_states states d = record {
    sessions_distinct = v.sessions_distinct;
    states_distinct = d;
    users_distinct = v.users_distinct;
    ids_below = v.ids_below;
    tokens_distinct = v.tokens_distinct;
    token_users = v.token_users;
    session_users = v.session_users;
    linked = v.linked;
  }

  pub delete_tokens-IsSound : (uid instant : ℕ) → IsSound (delete_tokens uid instant t).1
  unfolding delete_tokens
  delete_tokens-IsSound uid instant =
      with_tokens _ _ (Distinct-remove (λ k. k.user_id) _ _ v.tokens_distinct)
        (All-remove _ _ _ v.token_users)

  pub delete_states-IsSound : (p : OauthState → Bool) → IsSound (delete_states p t).1
  unfolding delete_states
  delete_states-IsSound p = with_states _ (Distinct-remove (λ s. s.state) p _ v.states_distinct)

  pub insert_state-IsSound : (s : OauthState) (instant : ℕ) → IsSound (insert_state s instant t).1
  unfolding insert_state
  insert_state-IsSound s instant = elim (Option-cases (find (has_state s.state) t.oauth_states)) [
    | inr (old, e) ↦ rw (e, insert_state) v
    | inl e ↦
        rw (e, insert_state)
          (with_states _ (Distinct-append (λ s. s.state) _ _ (find-none _ _ e) v.states_distinct))
  ]

  module _ (k : OauthToken) (instant : ℕ) where
    added-IsSound :
        find (is_token_of k.user_id) t.oauth_tokens ≡ none
        → user_exists t.users (some k.user_id) ≡ true
        → IsSound (record t {
          oauth_tokens = t.oauth_tokens ++ new_token k t.next_token instant ∷ [];
          next_token = suc t.next_token;
        })
    added-IsSound e h =
        with_tokens _ _ (Distinct-append (λ k. k.user_id) _ _ (find-none _ _ e) v.tokens_distinct)
          (All-append _ _ _ v.token_users (h, tt))

    changed-IsSound : IsSound (record t {
      oauth_tokens = update (is_token_of k.user_id) (merge_token k instant) t.oauth_tokens;
      next_token = suc t.next_token;
    })
    changed-IsSound =
        with_tokens _ _ (Distinct-update (λ k. k.user_id) _ _ (λ a. refl) _ v.tokens_distinct)
          (All-update _ _ _ (λ a h. h) _ v.token_users)

    drawn-IsSound : IsSound (record t { next_token = suc t.next_token })
    drawn-IsSound = with_tokens _ _ v.tokens_distinct v.token_users

    pub upsert_token-IsSound : IsSound (upsert_token k instant t).1
    unfolding upsert_token
    upsert_token-IsSound = ground (arith, added-IsSound, changed-IsSound, drawn-IsSound)

-- ===== src/Database/Sound/Sessions.antt =====
-- The statements on auth_sessions keep the invariants.
use discord_lite_server.Base.{
  ℕ, Bool, true, String, Option, none, List, [], ◌∷◌, ◌++◌, ◌≡◌, nat_eq, string_eq, arith, refl,
  inl, inr, Option-cases, Bool-cases,
}
use discord_lite_server.Base.Rows.{find, update, All, All-append, All-update, All-remove, Distinct}
use discord_lite_server.Base.Distinct.{find-none, Distinct-append, Distinct-update, Distinct-remove}
use discord_lite_server.Models.{AuthStatus, AuthSession, Tables}
use discord_lite_server.Database.Sessions.{
  has_session_id, user_exists, new_session, with_status, insert_session, update_session,
  delete_sessions,
}
use discord_lite_server.Database.Sound.{IsSound, IsLinked, is_some, is_authenticated}

module _ (t : Tables) (v : IsSound t) where
  -- The invariants that speak of the sessions suffice.
  with_sessions :
      (sessions : List AuthSession)
      → Distinct (λ s. s.session_id) sessions
      → All (λ s. user_exists t.users s.user_id ≡ true) sessions
      → All IsLinked sessions
      → IsSound (record t { auth_sessions = sessions })
  with_sessions sessions d u l = record {
    sessions_distinct = d;
    states_distinct = v.states_distinct;
    users_distinct = v.users_distinct;
    ids_below = v.ids_below;
    tokens_distinct = v.tokens_distinct;
    token_users = v.token_users;
    session_users = u;
    linked = l;
  }

  pub delete_sessions-IsSound : (p : AuthSession → Bool) → IsSound (delete_sessions p t).1
  unfolding delete_sessions
  delete_sessions-IsSound p =
      with_sessions _ (Distinct-remove (λ s. s.session_id) p _ v.sessions_distinct)
        (All-remove p _ _ v.session_users) (All-remove p _ _ v.linked)

  module _ (s : AuthSession) (instant : ℕ) (linked : IsLinked s) where
    inserted-IsSound :
        find (has_session_id s.session_id) t.auth_sessions ≡ none
        → user_exists t.users s.user_id ≡ true
        → IsSound (record t { auth_sessions = t.auth_sessions ++ new_session s instant ∷ [] })
    inserted-IsSound e h =
        with_sessions _
          (Distinct-append (λ s. s.session_id) _ _ (find-none _ _ e) v.sessions_distinct)
          (All-append _ _ _ v.session_users (h, tt)) (All-append _ _ _ v.linked (linked, tt))

    pub insert_session-IsSound : IsSound (insert_session s instant t).1
    unfolding insert_session
    insert_session-IsSound =
        elim (Option-cases (find (has_session_id s.session_id) t.auth_sessions)) [
          | inr (old, e) ↦ rw (e, insert_session) v
          | inl e ↦ elim (Bool-cases (user_exists t.users s.user_id)) [
            | inl h ↦ rw (e, h, insert_session) (inserted-IsSound e h)
            | inr h ↦ rw (e, h, insert_session) v
          ]
        ]

  module _ (sid : String) (status : AuthStatus) (uid : Option ℕ) (text : Option String)
      (instant : ℕ) (linked : is_some uid ≡ is_authenticated status) where
    updated-IsSound :
        user_exists t.users uid ≡ true
        → IsSound (record t {
          auth_sessions =
              update (has_session_id sid) (with_status status uid text instant) t.auth_sessions;
        })
    updated-IsSound h =
        with_sessions _ (Distinct-update (λ s. s.session_id) _ _ (λ a. refl) _ v.sessions_distinct)
          (All-update _ _ _ (λ a _. h) _ v.session_users)
          (All-update _ _ _ (λ a _. linked) _ v.linked)

    pub update_session-IsSound : IsSound (update_session sid status uid text instant t).1
    unfolding update_session
    update_session-IsSound = ground (arith, v, updated-IsSound)

-- ===== src/Grpc/AuthServer/Revoke.antt =====
-- What RevokeAuth and GetAuthStatus answer.
use discord_lite_server.Base.{
  ℕ, ◌≡◌, ◌≢◌, ◌==◌, nat_eq, string_eq, refl, ap, subst, ◌∙◌, suc, ◌≤◌, inl, inr, Bool-cases,
  Option-cases, false, String, Option, none, some, arith,
}
use discord_lite_server.Base.Rows.{find, find-remove, find-remove_other}
use discord_lite_server.Models.{
  AuthStatus, AuthSession, Tables, pending, authenticated, failed, other,
}
use discord_lite_server.Effect.{
  Env, World, status, not_found, ok, err, statement, query, now, ◌>>=◌,
}
use discord_lite_server.Effect.Moves.{Order, Moves, Moves-statement, moves_rules}
use discord_lite_server.Effect.Outcomes.{
  Leaves, Leaves-bind, Leaves-intro, Leaves-if, Leaves-raise, Leaves-or_return, Leaves-ok,
}
use discord_lite_server.Database.Tokens.{delete_tokens, delete_oauth_token}
use discord_lite_server.Database.Sessions.{
  has_session_id, delete_sessions, get_auth_session, delete_auth_session,
}
use discord_lite_server.Database.Sessions.Status.{OthersKept, ids_apart}
use discord_lite_server.Grpc.AuthServer.{
  is_authenticated, GetAuthStatusResponse, build_status, get_auth_status, delete_user_token,
  revoke_auth,
}

module _ (env : Env) (sid : String) where
  abbrev Gone : Tables → Type 0
  Gone t = find (has_session_id sid) t.auth_sessions ≡ none

  delete-Gone : (w w' : World) → delete_auth_session env sid w ≡ (ok tt, w') → Gone w'.tables
  unfolding delete_auth_session delete_sessions statement ◌>>=◌
  delete-Gone w w' e = ground (arith, find-remove (has_session_id sid) w.tables.auth_sessions)

  -- A session of which GetAuthStatus has no row is not found; nothing else is answered.
  pub get_auth_status-missing :
      (w : World)
      → (sid == "") ≡ false
      → find (has_session_id sid) w.tables.auth_sessions ≡ none
      → (get_auth_status env sid w).0 ≡ err (status not_found "session not found")
  unfolding get_auth_status get_auth_session query ◌>>=◌
  get_auth_status-missing w h e = ground arith

  build_status-authenticated :
      (row : AuthSession) (a : AuthStatus) (r : GetAuthStatusResponse) (w w' : World)
      → build_status env row a w ≡ (ok r, w')
      → r.reply_status ≡ is_authenticated
      → a ≡ authenticated
  unfolding build_status ◌>>=◌
  build_status-authenticated row pending r w w' e h = ground arith
  build_status-authenticated row authenticated r w w' e h = refl
  build_status-authenticated row failed r w w' e h = ground arith
  build_status-authenticated row (other text) r w w' e h = ground arith

  -- GetAuthStatus says "authenticated" only of a session whose row is authenticated and has not
  -- expired at the instant that the call reads.
  pub get_auth_status-authenticated :
      (r : GetAuthStatusResponse) (w w' : World)
      → get_auth_status env sid w ≡ (ok r, w')
      → r.reply_status ≡ is_authenticated
      → (row : AuthSession) × (find (has_session_id sid) w.tables.auth_sessions ≡ some row)
        × (row.auth_status ≡ authenticated)
        × (env.clock (suc w.step) ≤ row.expires_at)
  unfolding get_auth_status get_auth_session query now ◌>>=◌
  get_auth_status-authenticated r w w' e h =
      elim (Option-cases (find (has_session_id sid) w.tables.auth_sessions)) [
        | inl missing ↦ absurd (ground arith)
        | inr (row, found) ↦ (
          row,
          found,
          ground (
            arith,
            build_status-authenticated row row.auth_status r (record w { step = suc (suc w.step) })
                w',
          ),
          ground arith,
        )
      ]

  others_order : Order (OthersKept sid)
  others_order = record { same = λ t j h. refl; chain = λ t u v f g j h. g j h ∙ f j h }

  delete_session-others :
      Moves (OthersKept sid) (statement env (λ i. delete_sessions (has_session_id sid)))
  unfolding delete_sessions
  delete_session-others = Moves-statement others_order env _ (λ i t j h.
      find-remove_other (has_session_id sid) (has_session_id j) (ids_apart sid j h) t.auth_sessions)

  delete_tokens-others : (uid : ℕ) → Moves (OthersKept sid) (statement env (delete_tokens uid))
  unfolding delete_tokens
  delete_tokens-others uid = Moves-statement others_order env _ (λ i t j h. refl)

  delete_auth_session-others : Moves (OthersKept sid) (delete_auth_session env sid)
  unfolding delete_auth_session
  delete_auth_session-others = search (moves_rules, others_order, delete_session-others)

  delete_oauth_token-others : (uid : ℕ) → Moves (OthersKept sid) (delete_oauth_token env uid)
  unfolding delete_oauth_token
  delete_oauth_token-others uid = search (moves_rules, others_order, delete_tokens-others)

  get_auth_session-others : Moves (OthersKept sid) (get_auth_session env sid)
  unfolding get_auth_session
  get_auth_session-others = search (moves_rules, others_order)

  delete_user_token-others : (uid : Option ℕ) → Moves (OthersKept sid) (delete_user_token env uid)
  unfolding delete_user_token
  delete_user_token-others none = search (moves_rules, others_order)
  delete_user_token-others (some uid) =
      search (moves_rules, others_order, delete_oauth_token-others)

  -- RevokeAuth removes no session but the one that it names.
  pub revoke_auth-others : Moves (OthersKept sid) (revoke_auth env sid)
  unfolding revoke_auth
  revoke_auth-others =
      search
        (
          moves_rules, others_order, get_auth_session-others, delete_user_token-others,
          delete_auth_session-others,
        )
        depth 8

  delete_auth_session-Leaves : Leaves Gone (delete_auth_session env sid)
  delete_auth_session-Leaves = Leaves-intro _ (λ a w w' e. delete-Gone w w' e)

  revoke_auth-Leaves : Leaves Gone (revoke_auth env sid)
  unfolding revoke_auth
  revoke_auth-Leaves =
      Leaves-if _ _ _ (Leaves-raise _) (
        Leaves-bind _ _ λ row. Leaves-bind _ _ λ _. Leaves-or_return _ _ delete_auth_session-Leaves)

  revoke_auth-named : (w w' : World) → revoke_auth env sid w ≡ (ok tt, w') → (sid == "") ≡ false
  unfolding revoke_auth ◌>>=◌
  revoke_auth-named w w' e = elim (Bool-cases (sid == "")) [
    | inl unnamed ↦ absurd (ground arith)
    | inr named ↦ named
  ]

  -- Once RevokeAuth has succeeded the session is unknown: every later GetAuthStatus, in a world
  -- with the same sessions, answers that it is not found; and no other session has changed.
  pub revoke_auth-ok :
      (w w' v : World) (j : String)
      → revoke_auth env sid w ≡ (ok tt, w')
      → v.tables.auth_sessions ≡ w'.tables.auth_sessions
      → j ≢ sid
      → ((get_auth_status env sid v).0 ≡ err (status not_found "session not found"))
        × (find (has_session_id j) w'.tables.auth_sessions
            ≡ find (has_session_id j) w.tables.auth_sessions)
  revoke_auth-ok w w' v j e same h = (
    get_auth_status-missing v (revoke_auth-named w w' e)
        (ap (find (has_session_id sid)) same ∙ Leaves-ok _ tt w w' revoke_auth-Leaves e),
    subst (λ p. OthersKept sid w.tables p.1.tables) e (revoke_auth-others.at w) j h,
  )

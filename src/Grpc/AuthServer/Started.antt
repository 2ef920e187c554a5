-- ===== src/Grpc/AuthServer/Started.antt =====
-- What InitAuth leaves: a state that names the session of its answer.
use discord_lite_server.Base.{
  ℕ, ◌≡◌, string_eq, refl, beq_refl, String, some, arith, ◌++◌, ◌∙◌, ap, subst, sym, [], ◌∷◌, inl,
  inr, Option-cases,
}
use discord_lite_server.Base.Rows.{find, find-append, find_single}
use discord_lite_server.Models.{OauthState, AuthSession, Tables}
use discord_lite_server.Effect.{Env, World, ok, statement, ◌>>=◌}
use discord_lite_server.Effect.Returned.{
  bind-ok, wrap-ok, or_return-ok, pure-ok, statement-ok, now-ok,
}
use discord_lite_server.Database.Sessions.{insert_session, create_auth_session}
use discord_lite_server.Database.States.{has_state, insert_state, create_oauth_state}
use discord_lite_server.Auth.Services.{Crypto, Remote, Settings}
use discord_lite_server.Auth.StateManager.{store_state}
use discord_lite_server.Grpc.AuthServer.{InitAuthResponse, init_auth}

module _ (env : Env) where
  -- The tables hold a state that names a session.
  abbrev pub Names : String → String → Tables → Type 0
  Names state sid t =
      (row : OauthState) × (find (has_state state) t.oauth_states ≡ some row)
      × (row.session_id ≡ sid)

  insert_state-Names :
      (s : OauthState) (instant : ℕ) (t t' : Tables) (r : OauthState)
      → insert_state s instant t ≡ (ok r, t')
      → Names s.state s.session_id t'
  unfolding insert_state
  insert_state-Names s instant t t' r e =
      elim (Option-cases (find (has_state s.state) t.oauth_states)) [
        | inr (old, found) ↦ absurd (ground arith)
        | inl missing ↦
            let row : OauthState = record s { created_at = instant } in
            let rows : t'.oauth_states ≡ t.oauth_states ++ row ∷ [] = ground arith in
            (
              row,
              rw rows (
                  find-append (has_state s.state) t.oauth_states (row ∷ []) missing
                  ∙ find_single _ row (beq_refl s.state)),
              refl,
            )
      ]

  store_state-Names :
      (c : Settings) (state sid : String) (w w' : World)
      → store_state env c state sid w ≡ (ok tt, w')
      → Names state sid w'.tables
  unfolding store_state create_oauth_state
  store_state-Names c state sid w w' e =
      let (instant, u, e0, r0) = bind-ok _ _ tt w w' e in
      let (row, v, e1, r1) = bind-ok _ _ tt u w' r0 in
      let stored = statement-ok env _ row u v (wrap-ok _ _ row u v (wrap-ok _ _ row u v e1)) in
      subst (Names state sid) (pure-ok tt tt v w' r1).1
        (insert_state-Names _ (env.clock u.step) u.tables v.tables row stored)

  create_auth_session-states :
      (s : AuthSession) (r : AuthSession) (w w' : World)
      → create_auth_session env s w ≡ (ok r, w')
      → w'.tables.oauth_states ≡ w.tables.oauth_states
  unfolding create_auth_session insert_session statement ◌>>=◌
  create_auth_session-states s r w w' e = ground arith

  module _ (remote : Remote) (c : Crypto) (s : Settings) where
    pub init_auth-Names :
        (requested : String) (r : InitAuthResponse) (w w' : World)
        → init_auth env remote c s requested w ≡ (ok r, w')
        → Names r.state r.session_id w'.tables
    unfolding init_auth
    init_auth-Names requested r w w' e =
        let (sid, v0, e0, r0) = bind-ok _ _ r w w' e in
        let (state, v1, e1, r1) = bind-ok _ _ r v0 w' r0 in
        let (done, v2, e2, r2) = bind-ok _ _ r v1 w' r1 in
        let (instant, v3, e3, r3) = bind-ok _ _ r v2 w' r2 in
        let (session, v4, e4, r4) = bind-ok _ _ r v3 w' r3 in
        let (row, found, named) =
          store_state-Names s state sid v1 v2 (or_return-ok _ _ tt v1 v2 e2) in
        let (same, kept) = pure-ok _ r v4 w' r4 in
        let states : v2.tables.oauth_states ≡ w'.tables.oauth_states =
          ap (λ t. t.oauth_states) (now-ok env instant v2 v3 e3)
          ∙ sym (create_auth_session-states _ session v3 v4 (or_return-ok _ _ session v3 v4 e4))
          ∙ ap (λ t. t.oauth_states) kept in
        subst (λ x. Names x.state x.session_id w'.tables) same
          (row, subst (λ x. find (has_state state) x ≡ some row) states found, named)

-- ===== src/Server/SignIn.antt =====
-- A sign-in from its first call to its last.
use discord_lite_server.Base.{
  ℕ, suc, ◌≤◌, ◌≡◌, ◌==◌, string_eq, nat_eq, sym, ap, subst, ◌∙◌, true, false, String, none, some,
  arith, inl, inr, Option-cases,
}
use discord_lite_server.Base.Rows.{find}
use discord_lite_server.Models.{User, AuthSession, authenticated, Tables}
use discord_lite_server.Effect.{Env, World, ok, query, now, ◌>>=◌}
use discord_lite_server.Database.Users.{has_user_id, get_user_by_id}
use discord_lite_server.Database.Sessions.{has_session_id, user_exists, get_auth_session}
use discord_lite_server.Database.Sessions.Status.{HasStatus}
use discord_lite_server.Database.States.{has_state}
use discord_lite_server.Database.Sound.{IsSound}
use discord_lite_server.Auth.Services.{Crypto, Remote, Settings}
use discord_lite_server.Auth.Callback.{handle_callback}
use discord_lite_server.Auth.Callback.Correct.{handle_callback-ok}
use discord_lite_server.Grpc.AuthServer.{
  InitAuthResponse, is_authenticated, reply, user_info, init_auth, build_status, status_user,
  get_auth_status,
}
use discord_lite_server.Grpc.AuthServer.Started.{init_auth-Names}

module _ (env : Env) where
  authenticated_reply :
      (sid : String) (a : AuthSession) (uid : ℕ) (user : User) (u : World)
      → (sid == "") ≡ false
      → find (has_session_id sid) u.tables.auth_sessions ≡ some a
      → a.auth_status ≡ authenticated
      → a.user_id ≡ some uid
      → find (has_user_id uid) u.tables.users ≡ some user
      → env.clock (suc u.step) ≤ a.expires_at
      → env.fails u.step ≡ false
      → env.fails (suc (suc u.step)) ≡ false
      → (get_auth_status env sid u).0 ≡ ok (reply is_authenticated (some (user_info user)) none)
  unfolding get_auth_status build_status status_user get_auth_session get_user_by_id query now ◌>>=◌
  authenticated_reply sid a uid user u named found auth owner known young up up' = ground arith

  existing :
      (uid : ℕ) (t : Tables)
      → user_exists t.users (some uid) ≡ true
      → (user : User) × (find (has_user_id uid) t.users ≡ some user)
  existing uid t e = elim (Option-cases (find (has_user_id uid) t.users)) [
    | inl missing ↦ absurd (ground arith)
    | inr known ↦ known
  ]

  module _ (remote : Remote) (c : Crypto) (s : Settings) where
    -- When InitAuth has succeeded, the callback with its state succeeds too, in a sound world that
    -- still has the states of InitAuth, and nothing changes after that, then GetAuthStatus answers
    -- for the session of InitAuth that it is authenticated, with the data of the stored user that
    -- the session names, as long as the session has not expired and the database answers.
    pub get_auth_status-sign_in :
        (requested code : String) (r : InitAuthResponse) (a : AuthSession) (w w₁ v w₂ u : World)
        → (r.session_id == "") ≡ false
        → init_auth env remote c s requested w ≡ (ok r, w₁)
        → v.tables.oauth_states ≡ w₁.tables.oauth_states
        → IsSound v.tables
        → handle_callback env remote c s code r.state v ≡ (ok tt, w₂)
        → u.tables ≡ w₂.tables
        → find (has_session_id r.session_id) u.tables.auth_sessions ≡ some a
        → env.clock (suc u.step) ≤ a.expires_at
        → env.fails u.step ≡ false
        → env.fails (suc (suc u.step)) ≡ false
        → (uid : ℕ) × (user : User) × (a.user_id ≡ some uid)
          × (find (has_user_id uid) u.tables.users ≡ some user)
          × ((get_auth_status env r.session_id u).0
              ≡ ok (reply is_authenticated (some (user_info user)) none))
    get_auth_status-sign_in requested code r a w w₁ v w₂ u named init kept sound back same found
          young up up' =
        let (row₀, found₀, for_session) = init_auth-Names env remote c s requested r w w₁ init in
        let (row, uid, row_found, in_time, left, exists, gone) =
          handle_callback-ok env remote c s code r.state v w₂ sound back in
        let sid : row.session_id ≡ r.session_id =
          ground (arith, row_found, ap (find (has_state r.state)) kept, found₀, for_session) in
        let status = subst (λ x. HasStatus x authenticated (some uid) none w₂.tables) sid left in
        let one : a ≡ status.session = ground (
          arith,
          sym found,
          ap (λ t. find (has_session_id r.session_id) t.auth_sessions) same,
          status.found,
        ) in
        let (user, known) =
          existing uid u.tables
            (subst (λ t. user_exists t.users (some uid) ≡ true) (sym same) exists) in
        let owner = ap (λ x. x.user_id) one ∙ status.has_user in
        (
          uid,
          user,
          owner,
          known,
          authenticated_reply r.session_id a uid user u named found
              (ap (λ x. x.auth_status) one ∙ status.has_status) owner known young up up',
        )

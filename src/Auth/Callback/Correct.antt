-- ===== src/Auth/Callback/Correct.antt =====
-- What HandleCallback does, for its result.
use discord_lite_server.Base.{
  ℕ, suc, ◌≤◌, ◌≡◌, ◌≢◌, refl, sym, ap, subst, ◌∙◌, nat_eq, string_eq, true, String, none, some,
  arith, inl, inr, ◌⊎◌,
}
use discord_lite_server.Base.Rows.{find, All-find, find-remove}
use discord_lite_server.Models.{AuthSession, OauthState, authenticated}
use discord_lite_server.Effect.{Env, World, Error, Result, ok, err, IsErr, ◌>>=◌}
use discord_lite_server.Effect.Outcomes.{
  OnErr, Leaves, Leaves-map, Leaves-bind, Leaves-wrap, Leaves-ok,
}
use discord_lite_server.Database.States.{has_state, validate_and_delete_oauth_state}
use discord_lite_server.Database.States.SingleUse.{Validated, validate-Validated, validate-atomic}
use discord_lite_server.Database.Sessions.{has_session_id, user_exists}
use discord_lite_server.Database.Sessions.Status.{HasStatus, update_auth_session_status-Leaves}
use discord_lite_server.Auth.Services.{Crypto, Remote, Settings}
use discord_lite_server.Auth.StateManager.{validate_state}
use discord_lite_server.Auth.Callback.{update_session_failed, authenticate, handle_callback}
use discord_lite_server.Auth.Callback.Relations.{
  NoneNew, authenticate-OthersKept, authenticate-StatesKept, authenticate-NoneNew,
}
use discord_lite_server.Auth.Sound.{handle_callback_sound}
use discord_lite_server.Database.Sound.{IsSound}

module _ (env : Env) (remote : Remote) (c : Crypto) (s : Settings) where
  -- Either the state is refused and nothing changes, or it names the session to authenticate.
  abbrev Refused : World → Result (Unit {0}) × World → Type 0
  Refused w p = IsErr p.0 × (p.1.tables ≡ w.tables)

  abbrev Accepted : String → String → World → Result (Unit {0}) × World → Type 0
  Accepted code state w p =
      (row : OauthState) × (v : World) × Validated env state row w v
      × (p ≡ authenticate env remote c s code row.session_id v)

  callback_cases :
      (code state : String) (w : World)
      → Refused w (handle_callback env remote c s code state w)
        ⊎ Accepted code state w (handle_callback env remote c s code state w)
  unfolding handle_callback validate_state update_session_failed ◌>>=◌
  callback_cases code state w = go _ _ refl
    where
      go :
          (r : Result OauthState) (v : World)
          → validate_and_delete_oauth_state env state w ≡ (r, v)
          → Refused w (handle_callback env remote c s code state w)
            ⊎ Accepted code state w (handle_callback env remote c s code state w)
      go (ok row) v e = inr (row, v, validate-Validated env state row w v e, rw e refl)
      go (err x) v e = inl (rw e tt, rw e (validate-atomic env state x w v e))

  module _ (code state : String) where
    abbrev callback : World → Result (Unit {0}) × World
    callback = handle_callback env remote c s code state

    -- A callback whose state is that of a stored row changes the session of that row at most:
    -- every other session is found as before, whether the callback succeeds or fails.
    pub handle_callback-others :
        (row : OauthState) (w : World) (j : String)
        → find (has_state state) w.tables.oauth_states ≡ some row
        → j ≢ row.session_id
        → find (has_session_id j) (callback w).1.tables.auth_sessions
          ≡ find (has_session_id j) w.tables.auth_sessions
    handle_callback-others row w j e h = elim (callback_cases code state w) [
      | inl (x, same) ↦ rw same refl
      | inr (row', v, checked, p) ↦
          let named : row'.session_id ≡ row.session_id = ground (arith, checked.found) in
          let kept =
            (authenticate-OthersKept env remote c s code row'.session_id).at v j
              (λ k. h (k ∙ named)) in
          rw p (kept ∙ ap (λ t. find (has_session_id j) t.auth_sessions) checked.deleted)
    ]

    -- A callback that fails leaves no session authenticated that was not so before, and changes
    -- no authenticated session that it leaves authenticated.
    pub handle_callback-NoneNew :
        (e : Error) (w w' : World) (j : String) (after : AuthSession)
        → callback w ≡ (err e, w')
        → find (has_session_id j) w'.tables.auth_sessions ≡ some after
        → after.auth_status ≡ authenticated
        → find (has_session_id j) w.tables.auth_sessions ≡ some after
    handle_callback-NoneNew e w w' j s' h q a = elim (callback_cases code state w) [
      | inl (x, same) ↦
          let t : w'.tables ≡ w.tables = sym (ap (λ p. p.1.tables) h) ∙ same in
          subst (λ u. find (has_session_id j) u.auth_sessions ≡ some s') t q
      | inr (row, v, checked, p) ↦
          let none_new =
            subst (OnErr (NoneNew v.tables)) (sym p ∙ h)
              ((authenticate-NoneNew env remote c s code row.session_id).at v) in
          sym (ap (λ t. find (has_session_id j) t.auth_sessions) checked.deleted)
          ∙ none_new j s' q a
    ]

    state_gone :
        (w w' : World)
        → Accepted code state w (callback w)
        → callback w ≡ (ok tt, w')
        → find (has_state state) w'.tables.oauth_states ≡ none
    state_gone w w' (row, v, checked, p) h =
        let kept = (authenticate-StatesKept env remote c s code row.session_id).at v in
        let left : w'.tables.oauth_states ≡ v.tables.oauth_states =
          ap (λ p. p.1.tables.oauth_states) (sym h ∙ p) ∙ kept in
        ap (find (has_state state)) (left ∙ ap (λ t. t.oauth_states) checked.deleted)
        ∙ find-remove (has_state state) w.tables.oauth_states

    accepted : (w w' : World) → callback w ≡ (ok tt, w') → Accepted code state w (callback w)
    accepted w w' h = elim (callback_cases code state w) [
      | inl (x, same) ↦ absurd (subst (λ p. IsErr p.0) h x)
      | inr a ↦ a
    ]

    -- A state that a successful callback has used is refused by every later callback, with any
    -- code, as long as the stored states are those that the first has left; and the refusal
    -- changes no table.
    pub handle_callback-twice :
        (code' : String) (w w' v : World)
        → callback w ≡ (ok tt, w')
        → v.tables.oauth_states ≡ w'.tables.oauth_states
        → Refused v (handle_callback env remote c s code' state v)
    handle_callback-twice code' w w' v h same =
        let gone = state_gone w w' (accepted w w' h) h in
        elim (callback_cases code' state v) [
          | inl refused ↦ refused
          | inr (row, u, checked, p) ↦
              absurd (ground (arith, checked.found, ap (find (has_state state)) same, gone))
        ]

    authenticate-Leaves :
        (sid : String)
        → Leaves
            (λ t. (uid : ℕ) × HasStatus sid authenticated (some uid) none t)
            (authenticate env remote c s code sid)
    unfolding authenticate
    authenticate-Leaves sid = Leaves-bind _ _ λ token. Leaves-bind _ _ λ discord_user.
        Leaves-bind _ _ λ user. Leaves-bind _ _ λ _.
          Leaves-map _ (λ t left. (user.id, left))
            (Leaves-wrap _ _
              (update_auth_session_status-Leaves sid authenticated (some user.id) none env))

    -- What a successful callback found and what it leaves: the state was stored and in time, and
    -- the session of the state is authenticated as a user that exists, without an error message.
    pub handle_callback-ok :
        (w w' : World)
        → IsSound w.tables
        → callback w ≡ (ok tt, w')
        → (row : OauthState) × (uid : ℕ) × (find (has_state state) w.tables.oauth_states ≡ some row)
          × (env.clock (suc (suc w.step)) ≤ row.expires_at)
          × HasStatus row.session_id authenticated (some uid) none w'.tables
          × (user_exists w'.tables.users (some uid) ≡ true)
          × (find (has_state state) w'.tables.oauth_states ≡ none)
    handle_callback-ok w w' sound h =
        let (row, v, checked, p) = accepted w w' h in
        let (uid, left) = Leaves-ok _ tt v w' (authenticate-Leaves row.session_id) (sym p ∙ h) in
        let after =
          subst (λ p. IsSound p.1.tables) h
            ((handle_callback_sound env remote c s code state).at w sound) in
        (
          row,
          uid,
          checked.found,
          checked.in_time,
          left,
          rw (← left.has_user) (All-find _ _ _ left.session after.session_users left.found),
          state_gone w w' (accepted w w' h) h,
        )

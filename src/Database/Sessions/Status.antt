-- ===== src/Database/Sessions/Status.antt =====
-- UpdateAuthSessionStatus: the row that it names, and only that one, has the new status.
use discord_lite_server.Base.{
  ℕ, ◌≡◌, ◌≢◌, ◌==◌, string_eq, refl, sym, ◌∙◌, nat_eq, true, false, String, Option, some, arith,
  inl, inr, Bool-cases, Option-cases, eq_of_beq, beq_of_ne, if◌then◌else◌,
}
use discord_lite_server.Base.Rows.{
  find, update, find-update, find-update_other, find-holds, count-find,
}
use discord_lite_server.Models.{AuthStatus, AuthSession, Tables}
use discord_lite_server.Effect.{
  Env, World, Result, ok, err, message, statement, raise, pure, continue, wrap_result, ◌>>=◌,
}
use discord_lite_server.Effect.Outcomes.{Leaves, OnOk}
use discord_lite_server.Database.Sessions.{
  has_session_id, with_status, update_session, update_auth_session_status,
}

-- Every session but one is found as before.
abbrev pub OthersKept : String → Tables → Tables → Type 0
OthersKept sid t u =
    (j : String)
    → j ≢ sid
    → find (has_session_id j) u.auth_sessions ≡ find (has_session_id j) t.auth_sessions

pub record HasStatus (sid : String) (status : AuthStatus) (uid : Option ℕ) (text : Option String)
    (t : Tables) : Type 0 where
  pub session : AuthSession
  pub found : find (has_session_id sid) t.auth_sessions ≡ some session
  pub has_status : session.auth_status ≡ status
  pub has_user : session.user_id ≡ uid
  pub has_text : session.error_message ≡ text

-- Two ids of sessions tell the rows apart.
pub ids_apart :
    (sid j : String)
    → j ≢ sid
    → (a : AuthSession) → has_session_id j a ≡ true
    → has_session_id sid a ≡ false
ids_apart sid j h a e =
    let same : a.session_id ≡ j = eq_of_beq a.session_id j e in
    beq_of_ne a.session_id sid (λ k. h (sym same ∙ k))

module _ (sid : String) (status : AuthStatus) (uid : Option ℕ) (text : Option String) where
  pub update_session-others :
      (instant : ℕ) (t : Tables) → OthersKept sid t (update_session sid status uid text instant t).1
  unfolding update_session
  update_session-others instant t j h = ground (
    arith,
    find-update_other (has_session_id sid) (has_session_id j) (with_status status uid text instant)
        (λ (a : AuthSession). refl) (ids_apart sid j h) t.auth_sessions,
  )

  module _ (instant : ℕ) (t : Tables) where
    abbrev rewritten : AuthSession → AuthSession
    rewritten = with_status status uid text instant

    found_updated :
        (s : AuthSession)
        → find (has_session_id sid) t.auth_sessions ≡ some s
        → find (has_session_id sid) (update (has_session_id sid) rewritten t.auth_sessions)
          ≡ some (rewritten s)
    found_updated s e = ground (
      arith,
      find-holds (has_session_id sid) t.auth_sessions s e,
      find-update (has_session_id sid) (has_session_id sid) rewritten (λ (a : AuthSession). refl)
          t.auth_sessions,
    )

    -- What the UPDATE leaves, if it has met a row.
    updated :
        (rows : ℕ)
        → (update_session sid status uid text instant t).0 ≡ ok rows
        → (rows == 0) ≡ false
        → HasStatus sid status uid text (update_session sid status uid text instant t).1
    unfolding update_session
    updated rows e met = elim (Option-cases (find (has_session_id sid) t.auth_sessions)) [
      | inl missing ↦
          absurd (ground (arith, count-find (has_session_id sid) t.auth_sessions missing))
      | inr (s, found) ↦ record {
        session = rewritten s;
        found = ground (arith, found_updated s found);
        has_status = refl;
        has_user = refl;
        has_text = refl;
      }
    ]

  abbrev Updated : Tables → Type 0
  Updated = HasStatus sid status uid text

  checked :
      (env : Env) (r : Result ℕ) (w : World)
      → ((rows : ℕ) → r ≡ ok rows → (rows == 0) ≡ false → Updated w.tables)
      → OnOk Updated (
          continue
            (wrap_result "failed to update auth session status" r)
            (λ rows. if rows == 0 then raise (message "auth session not found") else pure tt)
            w)
  unfolding ◌>>=◌
  checked env (err e) w h = tt
  checked env (ok rows) w h = elim (Bool-cases (rows == 0)) [
    | inl zero_rows ↦ rw zero_rows tt
    | inr met ↦ rw met (h rows refl met)
  ]

  pub update_auth_session_status-Leaves :
      (env : Env) → Leaves Updated (update_auth_session_status env sid status uid text)
  unfolding update_auth_session_status statement ◌>>=◌
  update_auth_session_status-Leaves env = record {
    at = λ w. elim (Bool-cases (env.fails w.step)) [
      | inl down ↦ rw down tt
      | inr up ↦ rw up (checked env _ _ (updated (env.clock w.step) w.tables))
    ];
  }

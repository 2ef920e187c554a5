-- ===== src/Auth/Callback/Relations.antt =====
-- The relations along which HandleCallback moves the tables.
use discord_lite_server.Base.{
  ℕ, ◌≡◌, refl, sym, ap, ◌∙◌, nat_eq, string_eq, String, Option, none, some, arith,
}
use discord_lite_server.Base.Rows.{find, find-update}
use discord_lite_server.Models.{
  User, OauthToken, AuthStatus, AuthSession, authenticated, failed, Tables,
}
use discord_lite_server.Effect.{Env, World, Error, Result, ok, err, statement, ◌>>=◌}
use discord_lite_server.Effect.Moves.{Order, Moves, Moves-statement, moves_rules}
use discord_lite_server.Effect.Outcomes.{FailsAlong, OnErr}
use discord_lite_server.Database.Users.{upsert_user}
use discord_lite_server.Database.Tokens.{upsert_token}
use discord_lite_server.Database.Sessions.{
  has_session_id, with_status, update_session, update_auth_session_status,
}
use discord_lite_server.Database.Sessions.Status.{OthersKept, update_session-others}
use discord_lite_server.Auth.Services.{Crypto, Remote, Settings}
use discord_lite_server.Auth.Callback.{authenticate}
use discord_lite_server.Auth.Callback.Frames.{authenticate-Moves, authenticate-fails}

abbrev pub StatesKept : Tables → Tables → Type 0
StatesKept t u = u.oauth_states ≡ t.oauth_states

-- Every session that is authenticated was so before, with the same row.
abbrev pub NoneNew : Tables → Tables → Type 0
NoneNew t u =
    (j : String) (s : AuthSession)
    → find (has_session_id j) u.auth_sessions ≡ some s
    → s.auth_status ≡ authenticated
    → find (has_session_id j) t.auth_sessions ≡ some s

others_order : (sid : String) → Order (OthersKept sid)
others_order sid = record { same = λ t j h. refl; chain = λ t u v f g j h. g j h ∙ f j h }

states_order : Order StatesKept
states_order = record { same = λ t. refl; chain = λ t u v f g. g ∙ f }

NoneNew-order : Order NoneNew
NoneNew-order = record { same = λ t j s e a. e; chain = λ t u v f g j s e a. f j s (g j s e a) a }

-- The statements on users and tokens touch neither sessions nor states.
sessions-upsert_user :
    (u : User) (instant : ℕ) (t : Tables)
    → ((upsert_user u instant t).1.auth_sessions ≡ t.auth_sessions)
      × ((upsert_user u instant t).1.oauth_states ≡ t.oauth_states)
unfolding upsert_user
sessions-upsert_user u instant t = (ground arith, ground arith)

sessions-upsert_token :
    (k : OauthToken) (instant : ℕ) (t : Tables)
    → ((upsert_token k instant t).1.auth_sessions ≡ t.auth_sessions)
      × ((upsert_token k instant t).1.oauth_states ≡ t.oauth_states)
unfolding upsert_token
sessions-upsert_token k instant t = (ground arith, ground arith)

states-update_session :
    (sid : String) (a : AuthStatus) (uid : Option ℕ) (text : Option String) (i : ℕ) (t : Tables)
    → (update_session sid a uid text i t).1.oauth_states ≡ t.oauth_states
unfolding update_session
states-update_session sid a uid text i t = ground arith

-- A row that the UPDATE has marked failed is not authenticated.
failure-NoneNew :
    (sid : String) (text : Option String) (i : ℕ) (t : Tables)
    → NoneNew t (update_session sid failed none text i t).1
unfolding update_session
failure-NoneNew sid text i t j s e a = ground (
  arith,
  find-update (has_session_id sid) (has_session_id j) (with_status failed none text i)
      (λ (b : AuthSession). refl) t.auth_sessions,
)

-- An update that fails changes nothing.
update_session-atomic :
    (env : Env) (sid : String) (a : AuthStatus) (uid : Option ℕ) (text : Option String) (e : Error)
    (w w' : World)
    → update_auth_session_status env sid a uid text w ≡ (err e, w')
    → w'.tables ≡ w.tables
unfolding update_auth_session_status update_session statement ◌>>=◌
update_session-atomic env sid a uid text e w w' h = ground arith

update_session-FailsAlong :
    {R : Tables → Tables → Type 0}
    → Order R
    → (env : Env) (sid : String) (a : AuthStatus) (uid : Option ℕ) (text : Option String)
    → FailsAlong R (update_auth_session_status env sid a uid text)
update_session-FailsAlong {R} o env sid a uid text = record { at = λ w. go w _ _ refl }
  where
    go :
        (w : World) (r : Result (Unit {0})) (v : World)
        → update_auth_session_status env sid a uid text w ≡ (r, v)
        → OnErr (R w.tables) (update_auth_session_status env sid a uid text w)
    go w (ok done) v e = rw e tt
    go w (err x) v e =
        rw e (rw (update_session-atomic env sid a uid text x w v e) (o.same w.tables))

module _ (env : Env) (remote : Remote) (c : Crypto) (s : Settings) (code sid : String) where
  put_status-others :
      (a : AuthStatus) (uid : Option ℕ) (text : Option String)
      → Moves (OthersKept sid) (statement env (update_session sid a uid text))
  put_status-others a uid text =
      Moves-statement (others_order sid) env _ (update_session-others sid a uid text)

  put_status-states :
      (a : AuthStatus) (uid : Option ℕ) (text : Option String)
      → Moves StatesKept (statement env (update_session sid a uid text))
  put_status-states a uid text =
      Moves-statement states_order env _ (states-update_session sid a uid text)

  last-others :
      (uid : ℕ)
      → Moves (OthersKept sid) (update_auth_session_status env sid authenticated (some uid) none)
  unfolding update_auth_session_status
  last-others uid = search (moves_rules, others_order, put_status-others)

  last-states :
      (uid : ℕ)
      → Moves StatesKept (update_auth_session_status env sid authenticated (some uid) none)
  unfolding update_auth_session_status
  last-states uid = search (moves_rules, states_order, put_status-states)

  pub authenticate-OthersKept : Moves (OthersKept sid) (authenticate env remote c s code sid)
  authenticate-OthersKept =
      authenticate-Moves (others_order sid) sid
        (λ u i t j h. ap (find (has_session_id j)) (sessions-upsert_user u i t).0)
        (λ k i t j h. ap (find (has_session_id j)) (sessions-upsert_token k i t).0)
        (λ text. update_session-others sid failed none text) env remote c s code last-others

  pub authenticate-StatesKept : Moves StatesKept (authenticate env remote c s code sid)
  authenticate-StatesKept =
      authenticate-Moves states_order sid (λ u i t. (sessions-upsert_user u i t).1)
        (λ k i t. (sessions-upsert_token k i t).1)
        (λ text. states-update_session sid failed none text) env remote c s code last-states

  pub authenticate-NoneNew : FailsAlong NoneNew (authenticate env remote c s code sid)
  authenticate-NoneNew =
      authenticate-fails NoneNew-order sid
        (λ u i t j a e _. sym (ap (find (has_session_id j)) (sessions-upsert_user u i t).0) ∙ e)
        (λ k i t j a e _. sym (ap (find (has_session_id j)) (sessions-upsert_token k i t).0) ∙ e)
        (λ text. failure-NoneNew sid text) env remote c s code
        (λ uid. update_session-FailsAlong NoneNew-order env sid authenticated (some uid) none)

-- ===== src/Grpc/Denied.antt =====
-- internal/grpc/message_service.go: who is refused.
use discord_lite_server.Base.{
  ℕ, suc, ◌≡◌, refl, sym, ◌∙◌, ap, subst, Bool, false, String, some, arith,
}
use discord_lite_server.Base.Rows.{find}
use discord_lite_server.Models.{AuthSession, authenticated, Tables}
use discord_lite_server.Effect.{
  Env, World, Action, Result, ok, err, Error, IsErr, status, internal, permission_denied, statement,
  query, wrap, or_return, or_fail, pure, raise, ◌>>=◌,
}
use discord_lite_server.Effect.Moves.{Order, Moves, Moves-to, moves_rules}
use discord_lite_server.Effect.Returned.{bind-run, bind-error, query-ok, wrap-ok, or_return-ok}
use discord_lite_server.Database.Reads.{read_rules}
use discord_lite_server.Database.Sessions.{has_session_id, get_auth_session}
use discord_lite_server.Database.Channels.{has_channel_access, user_has_channel_access}
use discord_lite_server.Auth.Services.{Crypto, Remote, Settings}
use discord_lite_server.Auth.Api.{Api}
use discord_lite_server.Grpc.Session.{session_user}
use discord_lite_server.Grpc.Access.{SignedIn, session_user-ok}
use discord_lite_server.Grpc.ChannelServer.Writes.{service_rules}
use discord_lite_server.Grpc.MessageServer.{GetMessagesRequest, GetMessagesResponse, get_messages}

abbrev pub later : ℕ → World → World
later n w = record w { step = n }

module _ (env : Env) (sid : String) (row : AuthSession) (uid : ℕ) (w : World)
    (found : find (has_session_id sid) w.tables.auth_sessions ≡ some row)
    (signed : row.auth_status ≡ authenticated) (user : row.user_id ≡ some uid)
    (up : env.fails w.step ≡ false) where
  pub session_user-found : session_user env sid w ≡ (ok uid, later (suc w.step) w)
  unfolding session_user get_auth_session query statement wrap or_return or_fail pure ◌>>=◌
  session_user-found = ground arith

abbrev SameTables : Tables → Tables → Type 0
SameTables t u = t ≡ u

SameTables-order : Order SameTables
SameTables-order = record { same = λ t. refl; chain = λ t u v p q. p ∙ q }

module _ (env : Env) (req : GetMessagesRequest) (w : World) where
  -- The call ends with an error, the same one whatever lies beyond the database, and with the tables
  -- that it met.
  record Refusal : Type 0 where
    error : Error
    end : World
    unchanged : w.tables ≡ end.tables
    ends :
        (remote : Remote) (api : Api) (c : Crypto) (s : Settings)
        → get_messages env api remote c s req w ≡ (err error, end)

  abbrev access_read : ℕ → Action Bool
  access_read uid =
      or_return (status internal "failed to verify channel access")
        (user_has_channel_access env uid req.channel_id)

  unreadable :
      (uid : ℕ) (v v' : World) (x : Error)
      → session_user env req.session_id w ≡ (ok uid, v)
      → w.tables ≡ v.tables
      → access_read uid v ≡ (err x, v')
      → Refusal
  unfolding get_messages
  unreadable uid v v' x e same e' = record {
    error = x;
    end = v';
    unchanged = same ∙ Moves-to read_quiet e';
    ends = λ remote api c s. bind-run _ _ uid w v e ∙ bind-error _ _ x v v' e';
  }
    where
      read_quiet : Moves SameTables (access_read uid)
      read_quiet = search (moves_rules, read_rules, SameTables-order)

  outside_refused :
      (uid : ℕ) (v v' : World)
      → session_user env req.session_id w ≡ (ok uid, v)
      → w.tables ≡ v.tables
      → access_read uid v ≡ (ok false, v')
      → Refusal
  unfolding get_messages raise
  outside_refused uid v v' e same e' = record {
    error = status permission_denied "you don't have access to this channel";
    end = v';
    unchanged = same ∙ Moves-to read_quiet e';
    ends = λ remote api c s.
        bind-run _ _ uid w v e ∙ bind-run _ _ false v v' e' ∙ bind-error _ _ _ v' v' refl;
  }
    where
      read_quiet : Moves SameTables (access_read uid)
      read_quiet = search (moves_rules, read_rules, SameTables-order)

  access_false :
      (uid : ℕ) (b : Bool) (v v' : World)
      → w.tables ≡ v.tables
      → has_channel_access uid req.channel_id w.tables ≡ false
      → access_read uid v ≡ (ok b, v')
      → b ≡ false
  unfolding user_has_channel_access
  access_false uid b v v' same outside e =
      let found = query-ok env _ b v v' (wrap-ok _ _ b v v' (or_return-ok _ _ b v v' e)) in
      sym found.0 ∙ subst (λ t. has_channel_access uid req.channel_id t ≡ false) same outside

  module _
      (outside : (uid : ℕ)
        → SignedIn req.session_id uid w.tables
        → has_channel_access uid req.channel_id w.tables ≡ false) where
    user_refused :
        (uid : ℕ) (v : World)
        → session_user env req.session_id w ≡ (ok uid, v)
        → (r : Result Bool) (v' : World) → access_read uid v ≡ (r, v')
        → Refusal
    user_refused uid v e (err x) v' e' =
        unreadable uid v v' x e (session_user-ok env req.session_id uid w v e).1 e'
    user_refused uid v e (ok b) v' e' =
        let (signed, same) = session_user-ok env req.session_id uid w v e in
        let no = access_false uid b v v' same (outside uid signed) e' in
        outside_refused uid v v' e same (subst (λ z. access_read uid v ≡ (ok z, v')) no e')

    refused : (r : Result ℕ) (v : World) → session_user env req.session_id w ≡ (r, v) → Refusal
    unfolding get_messages
    refused (err x) v e = record {
      error = x;
      end = v;
      unchanged = Moves-to user_quiet e;
      ends = λ remote api c s. bind-error _ _ x w v e;
    }
      where
        user_quiet : Moves SameTables (session_user env req.session_id)
        user_quiet = search (service_rules, SameTables-order)
    refused (ok uid) v e = user_refused uid v e (access_read uid v).0 (access_read uid v).1 refl

-- Where the user of the session, if it is authenticated, has no access to the channel, GetMessages
-- fails, whatever the database does, and changes no table; the call and what it leaves are the same
-- with any remote side, API, cryptography and settings: nothing is asked of them.
pub get_messages-denied :
    (env : Env) (remote remote' : Remote) (api api' : Api) (c c' : Crypto) (s s' : Settings)
    (req : GetMessagesRequest) (w : World)
    → ((uid : ℕ)
        → SignedIn req.session_id uid w.tables
        → has_channel_access uid req.channel_id w.tables ≡ false)
    → IsErr (get_messages env api remote c s req w).0
      × ((get_messages env api remote c s req w).1.tables ≡ w.tables)
      × (get_messages env api remote c s req w ≡ get_messages env api' remote' c' s' req w)
get_messages-denied env remote remote' api api' c c' s s' req w outside =
    let user = session_user env req.session_id w in
    let r = refused env req w outside user.0 user.1 refl in
    let e = r.ends remote api c s in
    (
      subst (λ (p : Result GetMessagesResponse × World). IsErr p.0) (sym e) tt,
      ap (λ p. p.1.tables) e ∙ sym r.unchanged,
      e ∙ sym (r.ends remote' api' c' s'),
    )

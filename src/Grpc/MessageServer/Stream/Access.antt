-- ===== src/Grpc/MessageServer/Stream/Access.antt =====
-- internal/grpc/message_service.go: who is streamed to, and how a stream ends.
use discord_lite_server.Base.{
  ℕ, ◌≡◌, ◌≢◌, ◌⊎◌, inl, inr, refl, sym, ◌∙◌, subst, ap, Bool, true, false, String, some, List, [],
  ◌∷◌, string_eq, ◌==◌, nat_eq, arith, if◌then◌else◌,
}
use discord_lite_server.Base.Rows.{find, All}
use discord_lite_server.Models.{AuthSession, Tables}
use discord_lite_server.Effect.{Env, World, Action, Result, ok, err, Error, status, internal, raise}
use discord_lite_server.Effect.Returned.{
  bind-ok, wrap-ok, or_return-ok, or_fail-ok, query-ok, pure-ok,
}
use discord_lite_server.Database.Sessions.{has_session_id}
use discord_lite_server.Database.Channels.{has_channel_access, user_has_channel_access}
use discord_lite_server.Auth.Services.{Crypto, Remote, Settings}
use discord_lite_server.Grpc.Access.{require-ok, get_auth_session-ok}
use discord_lite_server.Grpc.MessageServer.Stream.{
  StreamMessagesRequest, Signal, Streamed, forward, run_stream, is_empty, check_access,
  admit_stream, stream_messages,
}
use discord_lite_server.Websocket.Channels.{panics}
use discord_lite_server.Websocket.Manager.{Manager, unsubscribe}
use discord_lite_server.Websocket.Manager.Connections.{subscribe}
use discord_lite_server.Websocket.Manager.Subscribed.{unsubscribe-subscribe}

-- The session of the request names this user; its status is another matter.
abbrev pub Names : String → ℕ → Tables → Type 0
Names sid uid t =
    (row : AuthSession) × (find (has_session_id sid) t.auth_sessions ≡ some row)
    × (row.user_id ≡ some uid)

abbrev pub Reaches : ℕ → Tables → String → Type 0
Reaches uid t channel_id = has_channel_access uid channel_id t ≡ true

raise_not_ok : {A : Type 0} (x : Error) (a : A) (w w' : World) → ¬ (raise x w ≡ (ok a, w'))
unfolding raise
raise_not_ok x a w w' e = ground arith

guard-ok :
    {A : Type 0} (b : Bool) (m : Action A) (x : Error) (a : A) (w w' : World)
    → (if b then m else raise x) w ≡ (ok a, w')
    → (b ≡ true) × (m w ≡ (ok a, w'))
guard-ok true m x a w w' e = (refl, e)
guard-ok false m x a w w' e = absurd (raise_not_ok x a w w' e)

unrefused-ok :
    {A : Type 0} (b : Bool) (m : Action A) (x : Error) (a : A) (w w' : World)
    → (if b then raise x else m) w ≡ (ok a, w')
    → m w ≡ (ok a, w')
unrefused-ok true m x a w w' e = absurd (raise_not_ok x a w w' e)
unrefused-ok false m x a w w' e = e

module _ (env : Env) where
  check_access-ok :
      (uid : ℕ) (channel_ids : List String) (u : Unit {0}) (w w' : World)
      → check_access env uid channel_ids w ≡ (ok u, w')
      → All (Reaches uid w.tables) channel_ids × (w.tables ≡ w'.tables)
  unfolding check_access user_has_channel_access
  check_access-ok uid [] u w w' e = (tt, (pure-ok tt u w w' e).1)
  check_access-ok uid (c ∷ cs) u w w' e =
      let (b, v, e1, e2) = bind-ok _ _ u w w' e in
      let (q, s) = query-ok env _ b w v (wrap-ok _ _ b w v (or_return-ok _ _ b w v e1)) in
      let (u', v', e3, e4) = bind-ok _ _ u v w' e2 in
      let (granted, s') = require-ok b _ u' v v' e3 in
      let (rest, s'') = check_access-ok uid cs u v' w' e4 in
      ((q ∙ granted, subst (λ t. All (Reaches uid t) cs) (sym (s ∙ s')) rest), s ∙ s' ∙ s'')

  admit_stream-ok :
      (req : StreamMessagesRequest) (uid : ℕ) (w w' : World)
      → admit_stream env req w ≡ (ok uid, w')
      → Names req.session_id uid w.tables
        × All (Reaches uid w.tables) req.channel_ids
        × (w.tables ≡ w'.tables)
  unfolding admit_stream
  admit_stream-ok req uid w w' e =
      let given =
        unrefused-ok (is_empty req.channel_ids) _ _ uid w w'
          (unrefused-ok (req.session_id == "") _ _ uid w w' e) in
      let (row, v, e1, e2) = bind-ok _ _ uid w w' given in
      let (found, s) =
        get_auth_session-ok env req.session_id row w v (or_return-ok _ _ row w v e1) in
      let (id, v2, e3, e4) = bind-ok _ _ uid v w' e2 in
      let (user, s') = or_fail-ok _ _ id v v2 e3 in
      let (u, v3, e5, e6) = bind-ok _ _ uid v2 w' e4 in
      let (all, s'') = check_access-ok id req.channel_ids u v2 v3 e5 in
      let (same, last) = pure-ok id uid v3 w' e6 in
      (
        (row, found, user ∙ ap some same),
        subst (λ n. All (Reaches n w.tables) req.channel_ids) same
            (subst (λ t. All (Reaches id t) req.channel_ids) (sym (s ∙ s')) all),
        s ∙ s' ∙ s'' ∙ last,
      )

  module _ {E : Type 0} (remote : Remote) (c : Crypto) (s : Settings) where
    stream_messages-ok :
        (req : StreamMessagesRequest) (signals : List (Signal E)) (m : Manager E) (r : Streamed E)
        (w w' : World)
        → stream_messages env remote c s req signals m w ≡ (ok r, w')
        → (m.enabled ≡ true)
          × (uid : ℕ) × (v v' : World) × (q : Result ℕ × Manager E) × (admit_stream env req w
              ≡ (ok uid, v))
          × (subscribe env remote c s uid req.channel_ids m v ≡ (ok q, v'))
          × (run_stream uid req.channel_ids signals q ≡ r)
    unfolding stream_messages
    stream_messages-ok req signals m r w w' e =
        let (on, run) = guard-ok m.enabled _ _ r w w' e in
        let (uid, v, e1, e2) = bind-ok _ _ r w w' run in
        let (q, v', e3, e4) = bind-ok _ _ r v w' e2 in
        (on, uid, v, v', q, e1, e3, (pure-ok _ r v' w' e4).0)

    -- Events are streamed only where WebSocket support is on and the session of the request names
    -- a user who has access to every channel of the request, by the tables that the call meets.
    -- Whether the session is authenticated or has expired is not looked at.
    pub stream_messages-access :
        (req : StreamMessagesRequest) (signals : List (Signal E)) (m : Manager E) (r : Streamed E)
        (w w' : World)
        → stream_messages env remote c s req signals m w ≡ (ok r, w')
        → (m.enabled ≡ true)
          × (uid : ℕ) × Names req.session_id uid w.tables
          × All (Reaches uid w.tables) req.channel_ids
    stream_messages-access req signals m r w w' e =
        let (on, uid, v, v', q, e1, e3, same) = stream_messages-ok req signals m r w w' e in
        let (named, all, tables) = admit_stream-ok req uid w v e1 in (on, uid, named, all)

    ended :
        (uid : ℕ) (channel_ids : List String) (signals : List (Signal E)) (x : Error) (q : Result ℕ)
        (m : Manager E)
        → forward signals ≡ some x
        → unsubscribe uid channel_ids m ≡ panics
        → ((run_stream uid channel_ids signals (q, m)).manager ≡ panics)
          ⊎ ((run_stream uid channel_ids signals (q, m)).answer
              ≡ some (status internal "failed to subscribe to message events"))
    unfolding run_stream
    ended uid channel_ids signals x (ok id) m stop twice = inl (rw stop twice)
    ended uid channel_ids signals x (err e) m stop twice = inr refl

    -- A stream of two different channels or more: unless the subscription failed, the end of the
    -- stream (by the client, by the channel or by a failed send) ends the process, since the
    -- deferred Unsubscribe closes the shared event channel twice.
    pub stream_messages-panics :
        (sid a b : String) (rest : List String) (signals : List (Signal E)) (x : Error)
        (m : Manager E) (r : Streamed E) (w w' : World)
        → a ≢ b
        → forward signals ≡ some x
        → stream_messages env remote c s
            (record { session_id = sid; channel_ids = a ∷ b ∷ rest })
            signals
            m
            w
          ≡ (ok r, w')
        → (r.manager ≡ panics)
          ⊎ (r.answer ≡ some (status internal "failed to subscribe to message events"))
    stream_messages-panics sid a b rest signals x m r w w' ne stop e =
        let (on, uid, v, v', q, e1, e3, same) = stream_messages-ok _ signals m r w w' e in
        subst
          (λ (z : Streamed E).
            (z.manager ≡ panics)
            ⊎ (z.answer ≡ some (status internal "failed to subscribe to message events")))
          same
          (ended uid (a ∷ b ∷ rest) signals x q.0 q.1 stop
            (unsubscribe-subscribe env remote c s uid a b rest m q.1 q.0 v v' on ne e3))

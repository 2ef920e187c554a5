-- ===== src/Websocket/Manager/Subscribed.antt =====
-- internal/websocket/manager.go: Subscribe and the Unsubscribe of the same request.
use discord_lite_server.Base.{
  ℕ, ◌≡◌, ◌≢◌, refl, ap, subst, true, String, List, [], ◌∷◌, ◌++◌, nat_eq, if◌then◌else◌, inl, inr,
  Option-cases,
}
use discord_lite_server.Base.Lists.{length}
use discord_lite_server.Base.Assoc.{lookup}
use discord_lite_server.Effect.{Env, World, Action, Result, ok, err, message, attempt, pure, ◌>>=◌}
use discord_lite_server.Effect.Returned.{bind-ok, pure-ok}
use discord_lite_server.Auth.Services.{Crypto, Remote, Settings}
use discord_lite_server.Websocket.Channels.{panics}
use discord_lite_server.Websocket.Manager.{Manager, register, unsubscribe}
use discord_lite_server.Websocket.Manager.Sharing.{IsOpen, register-IsOpen, unsubscribe_shared}
use discord_lite_server.Websocket.Manager.Connections.{
  add_gateway, ensure_connection, subscribed, subscribe,
}

module _ {E : Type 0} (env : Env) (remote : Remote) (c : Crypto) (s : Settings) where
  -- The Gateway connection touches no event channel.
  ensure_connection-IsOpen :
      (uid uid' id : ℕ) (channel : String) (m m' : Manager E) (w w' : World)
      → ensure_connection env remote c s uid m w ≡ (ok m', w')
      → IsOpen uid' channel id m
      → IsOpen uid' channel id m'
  unfolding ensure_connection
  ensure_connection-IsOpen uid uid' id channel m m' w w' e o =
      elim (Option-cases (lookup uid m.connections)) [
        | inr (gc, there) ↦
            subst (IsOpen uid' channel id)
              (pure-ok m m' w w' (rw (ensure_connection, there) at e)).0 o
        | inl missing ↦
            let (token, v, e1, e2) = bind-ok _ _ m' w w' (rw (ensure_connection, missing) at e) in
            subst (IsOpen uid' channel id) (pure-ok (add_gateway uid token m) m' v w' e2).0
              (record { known = o.known; there = o.there })
      ]

  subscribed-IsOpen :
      (uid id : ℕ) (channel : String) (registered m' : Manager E) (w v : World)
      (result : Result (Manager E)) (r : Result ℕ)
      → ensure_connection env remote c s uid registered w ≡ (result, v)
      → subscribed id registered result ≡ (r, m')
      → IsOpen uid channel id registered
      → IsOpen uid channel id m'
  subscribed-IsOpen uid id channel registered m' w v (ok m1) r e same o =
      subst (IsOpen uid channel id) (ap (λ p. p.1) same)
        (ensure_connection-IsOpen uid uid id channel registered m1 w v e o)
  subscribed-IsOpen uid id channel registered m' w v (err x) r e same o =
      subst (IsOpen uid channel id) (ap (λ p. p.1) same) o

  subscribe-subscribed :
      (uid : ℕ) (channel_ids : List String) (m m' : Manager E) (r : Result ℕ) (w w' : World)
      → m.enabled ≡ true
      → subscribe env remote c s uid channel_ids m w ≡ (ok (r, m'), w')
      → subscribed
          (length m.channels)
          (register uid channel_ids m)
          (ensure_connection env remote c s uid (register uid channel_ids m) w).0
        ≡ (r, m')
  unfolding subscribe ◌>>=◌
  subscribe-subscribed uid channel_ids m m' r w w' on e =
      let reg = register uid channel_ids m in
      let answer : Action (Result ℕ × Manager E) =
        attempt (ensure_connection env remote c s uid reg) >>= λ r'.
        pure (subscribed (length m.channels) reg r') in
      let disabled : Action (Result ℕ × Manager E) =
        pure (err (message "WebSocket support is not enabled"), m) in
      let run : answer w ≡ (ok (r, m'), w') =
        subst (λ b. (if b then answer else disabled) w ≡ (ok (r, m'), w')) on e in
      (pure-ok _ (r, m') _ w' run).0

  -- Whatever the state of a manager with WebSocket support, and whether or not Subscribe can
  -- connect: when a user has subscribed to two different channels or more in one request, the
  -- Unsubscribe of the same request closes the shared event channel a second time, which ends the
  -- process.
  pub unsubscribe-subscribe :
      (uid : ℕ) (a b : String) (rest : List String) (m m' : Manager E) (r : Result ℕ) (w w' : World)
      → m.enabled ≡ true
      → a ≢ b
      → subscribe env remote c s uid (a ∷ b ∷ rest) m w ≡ (ok (r, m'), w')
      → unsubscribe uid (a ∷ b ∷ rest) m' ≡ panics
  unsubscribe-subscribe uid a b rest m m' r w w' on ne e =
      unsubscribe_shared uid (length m.channels) a b rest m' ne (kept [] a (b ∷ rest) refl)
        (kept (a ∷ []) b rest refl)
    where
      registered : Manager E
      registered = register uid (a ∷ b ∷ rest) m

      kept :
          (before : List String) (channel : String) (after : List String)
          → before ++ channel ∷ after ≡ a ∷ b ∷ rest
          → IsOpen uid channel (length m.channels) m'
      kept before channel after split =
          subscribed-IsOpen uid (length m.channels) channel registered m' w _ _ r refl
            (subscribe-subscribed uid (a ∷ b ∷ rest) m m' r w w' on e)
            (subst (λ cs. IsOpen uid channel (length m.channels) (register uid cs m)) split
              (register-IsOpen uid before channel after m))

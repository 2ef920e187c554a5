-- ===== src/Websocket/Manager/Staleness.antt =====
-- internal/websocket/manager.go: what CleanupStaleConnections leaves.
use discord_lite_server.Base.{
  ℕ, ◌≡◌, ◌≢◌, ◌<◌, ◌≤◌, ◌+◌, ◌-◌, ◌^◌, Option, none, some, refl, ap, subst, sym, ◌∙◌, Bool, false,
  List, [], ◌∷◌, ◌==◌, nat_eq, arith, inl, inr, ◌⊎◌, Bool-cases, Option-cases, eq_of_beq,
}
use discord_lite_server.Base.Lists.{get_elem?, get_elem?-set_self, get_elem?-set_ne}
use discord_lite_server.Base.Rows.{All, All-map}
use discord_lite_server.Base.Assoc.{lookup, delete, lookup-delete}
use discord_lite_server.Websocket.Gateway.{GatewayConnection, close_connection, is_stale}
use discord_lite_server.Websocket.Manager.{Manager}
use discord_lite_server.Websocket.Manager.Connections.{
  close_gateway, stale_at, cleanup_each, clean_up_one, cleanup_stale_connections,
}

module _ (now stale_duration : ℕ) where
  abbrev stale : List GatewayConnection → ℕ → Bool
  stale heap id = stale_at now stale_duration (get_elem? heap id)

  close_connection-stale :
      (gc : GatewayConnection)
      → is_stale now stale_duration (close_connection gc) ≡ is_stale now stale_duration gc
  unfolding close_connection is_stale
  close_connection-stale gc = elim (Bool-cases gc.close_signalled) [
    | inl e ↦ rw e refl
    | inr e ↦ rw e refl
  ]

  -- Closing a connection makes none stale and none fresh.
  close_gateway-stale :
      (heap : List GatewayConnection) (id other : ℕ)
      → stale (close_gateway heap id) other ≡ stale heap other
  close_gateway-stale heap id other = elim (Option-cases (get_elem? heap id)) [
    | inl e ↦ rw (close_gateway, e) refl
    | inr (gc, e) ↦ elim (Bool-cases (id == other)) [
      | inl same ↦
          let here = eq_of_beq id other same in
          ground (
            arith,
            here,
            e,
            close_connection-stale gc,
            get_elem?-set_self heap id (close_connection gc) gc e,
          )
      | inr apart ↦ ground (
        arith,
        e,
        get_elem?-set_ne heap id other (close_connection gc)
            (λ k. absurd (ground (arith, nat_eq.beq_iff id other, k, apart))),
      )
    ]
  ]

  abbrev In : ℕ × ℕ → List (ℕ × ℕ) → Type 0
  In e [] = ⊥
  In e (x ∷ xs) = (e ≡ x) ⊎ In e xs

  -- An entry that is still to be looked at, or fresh.
  abbrev Fine : List (ℕ × ℕ) → List GatewayConnection → ℕ × ℕ → Type 0
  Fine rest heap e = In e rest ⊎ (stale heap e.1 ≡ false)

  All-delete :
      {P Q : ℕ × ℕ → Type 0} (uid : ℕ) (entries : List (ℕ × ℕ))
      → ((e : ℕ × ℕ) → (e.0 == uid) ≡ false → P e → Q e)
      → All P entries
      → All Q (delete uid entries)
  unfolding delete
  All-delete uid [] f a = tt
  All-delete uid ((k, v) ∷ rest) f (p, a) = elim (Bool-cases (k == uid)) [
    | inl gone ↦ rw gone (All-delete uid rest f a)
    | inr kept ↦ rw kept (f (k, v) kept p, All-delete uid rest f a)
  ]

  skip_closed :
      (uid id : ℕ) (rest : List (ℕ × ℕ)) (heap : List GatewayConnection) (e : ℕ × ℕ)
      → (e.0 == uid) ≡ false
      → Fine ((uid, id) ∷ rest) heap e
      → Fine rest (close_gateway heap id) e
  skip_closed uid id rest heap e kept (inl (inl same)) =
      absurd (ground (arith, kept, ap (λ p. p.0) same, nat_eq.beq_iff e.0 uid))
  skip_closed uid id rest heap e kept (inl (inr later)) = inl later
  skip_closed uid id rest heap e kept (inr fresh) = inr (close_gateway-stale heap id e.1 ∙ fresh)

  skip_fresh :
      (uid id : ℕ) (rest : List (ℕ × ℕ)) (heap : List GatewayConnection) (e : ℕ × ℕ)
      → stale heap id ≡ false
      → Fine ((uid, id) ∷ rest) heap e
      → Fine rest heap e
  skip_fresh uid id rest heap e young (inl (inl same)) = inr (ap (λ p. stale heap p.1) same ∙ young)
  skip_fresh uid id rest heap e young (inl (inr later)) = inl later
  skip_fresh uid id rest heap e young (inr fresh) = inr fresh

  done_with : (heap : List GatewayConnection) (e : ℕ × ℕ) → Fine [] heap e → stale heap e.1 ≡ false
  done_with heap e (inl none_left) = absurd none_left
  done_with heap e (inr fresh) = fresh

  start-Fine :
      (heap : List GatewayConnection) (entries : List (ℕ × ℕ)) → All (Fine entries heap) entries
  start-Fine heap [] = tt
  start-Fine heap (e ∷ rest) =
      (inl (inl refl), All-map _ _ (λ d. later) rest (start-Fine heap rest))
    where
      later : {d : ℕ × ℕ} → Fine rest heap d → Fine (e ∷ rest) heap d
      later (inl i) = inl (inr i)
      later (inr fresh) = inr fresh

  -- The last heartbeat is no longer ago than the duration.
  abbrev pub IsRecent : Option GatewayConnection → Type 0
  IsRecent none = Unit
  IsRecent (some gc) = now ≤ gc.last_heartbeat_at + stale_duration

  fresh-IsRecent :
      stale_duration < 2 ^ 63 - 1
      → (o : Option GatewayConnection) → stale_at now stale_duration o ≡ false
      → IsRecent o
  unfolding is_stale
  fresh-IsRecent short none h = tt
  fresh-IsRecent short (some gc) h = ground arith

  recent_fresh :
      stale_duration < 2 ^ 63 - 1
      → (gc : GatewayConnection) → now ≤ gc.last_heartbeat_at + stale_duration
      → is_stale now stale_duration gc ≡ false
  unfolding is_stale
  recent_fresh short gc h = ground arith

  close_gateway-other :
      (heap : List GatewayConnection) (id other : ℕ)
      → id ≢ other
      → get_elem? (close_gateway heap id) other ≡ get_elem? heap other
  close_gateway-other heap id other ne = elim (Option-cases (get_elem? heap id)) [
    | inl e ↦ rw (close_gateway, e) refl
    | inr (gc, e) ↦ ground (arith, e, get_elem?-set_ne heap id other (close_connection gc) ne)
  ]

  module _ {E : Type 0} where
    -- The connection of the user, in the manager and in the heap.
    abbrev pub Holds : ℕ → ℕ → GatewayConnection → Manager E → Type 0
    Holds uid id gc m = (lookup uid m.connections ≡ some id) × (get_elem? m.gateways id ≡ some gc)

    abbrev AllFresh : Manager E → Type 0
    AllFresh m =
        All (λ e. stale_at now stale_duration (get_elem? m.gateways e.1) ≡ false) m.connections

    cleanup_each-AllFresh :
        (rest : List (ℕ × ℕ)) (m : Manager E)
        → All (Fine rest m.gateways) m.connections
        → AllFresh (cleanup_each now stale_duration rest m)
    unfolding cleanup_each
    cleanup_each-AllFresh [] m a = All-map _ _ (done_with m.gateways) m.connections a
    cleanup_each-AllFresh ((uid, id) ∷ rest) m a = elim (Bool-cases (stale m.gateways id)) [
      | inl old ↦
          let next : Manager E = record m {
            gateways = close_gateway m.gateways id;
            connections = delete uid m.connections;
          } in
          let e : clean_up_one now stale_duration uid id m ≡ next = rw old refl in
          subst (λ n. AllFresh (cleanup_each now stale_duration rest n)) (sym e)
            (cleanup_each-AllFresh rest next
              (All-delete uid m.connections (skip_closed uid id rest m.gateways) a))
      | inr young ↦
          let e : clean_up_one now stale_duration uid id m ≡ m = rw young refl in
          subst (λ n. AllFresh (cleanup_each now stale_duration rest n)) (sym e)
            (cleanup_each-AllFresh rest m
              (All-map _ _ (λ d. skip_fresh uid id rest m.gateways d young) m.connections a))
    ]

    cleanup-AllFresh : (m : Manager E) → AllFresh (cleanup_stale_connections now stale_duration m)
    unfolding cleanup_stale_connections
    cleanup-AllFresh m = cleanup_each-AllFresh m.connections m (start-Fine m.gateways m.connections)

    -- A connection that is not stale is passed over.
    cleanup_each-keeps :
        (uid id : ℕ) (gc : GatewayConnection) (rest : List (ℕ × ℕ)) (m : Manager E)
        → is_stale now stale_duration gc ≡ false
        → All (λ e. e.0 ≡ uid → e.1 ≡ id) rest
        → Holds uid id gc m
        → Holds uid id gc (cleanup_each now stale_duration rest m)
    unfolding cleanup_each
    cleanup_each-keeps uid id gc [] m young unique (h, k) = (h, k)
    cleanup_each-keeps uid id gc ((key, v) ∷ rest) m young (u, unique) (h, k) =
        elim (Bool-cases (stale m.gateways v)) [
          | inl old ↦
              let other : v ≢ id = λ same. absurd (ground (arith, same, old, young, k)) in
              let apart : key ≢ uid = λ same. other (u same) in
              let next : Manager E = record m {
                gateways = close_gateway m.gateways v;
                connections = delete key m.connections;
              } in
              let e : clean_up_one now stale_duration key v m ≡ next = rw old refl in
              subst (λ n. Holds uid id gc (cleanup_each now stale_duration rest n)) (sym e)
                (cleanup_each-keeps uid id gc rest next young unique (
                  ground (
                    arith,
                    lookup-delete key uid m.connections,
                    nat_eq.beq_iff key uid,
                    apart,
                    h,
                  ),
                  close_gateway-other m.gateways v id other ∙ k,
                ))
          | inr fresh ↦
              let e : clean_up_one now stale_duration key v m ≡ m = rw fresh refl in
              subst (λ n. Holds uid id gc (cleanup_each now stale_duration rest n)) (sym e)
                (cleanup_each-keeps uid id gc rest m young unique (h, k))
        ]

    -- CleanupStaleConnections with a duration that time.Since can exceed: the last heartbeat of
    -- every connection that it leaves is no longer ago than the duration, and a connection for
    -- which this holds stays the one of its user (who has no other), as it was and not closed.
    pub cleanup_stale_connections-AllFresh :
        (m : Manager E) (uid id : ℕ) (gc : GatewayConnection)
        → stale_duration < 2 ^ 63 - 1
        → All (λ e. e.0 ≡ uid → e.1 ≡ id) m.connections
        → lookup uid m.connections ≡ some id
        → get_elem? m.gateways id ≡ some gc
        → now ≤ gc.last_heartbeat_at + stale_duration
        → All
            (λ e.
              IsRecent (get_elem? (cleanup_stale_connections now stale_duration m).gateways e.1))
            (cleanup_stale_connections now stale_duration m).connections
          × Holds uid id gc (cleanup_stale_connections now stale_duration m)
    unfolding cleanup_stale_connections
    cleanup_stale_connections-AllFresh m uid id gc short unique h k beat = (
      All-map _ _ (λ e' h'. fresh-IsRecent short _ h') _ (cleanup-AllFresh m),
      cleanup_each-keeps uid id gc m.connections m (recent_fresh short gc beat) unique (h, k),
    )

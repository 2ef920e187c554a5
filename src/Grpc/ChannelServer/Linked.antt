-- ===== src/Grpc/ChannelServer/Linked.antt =====
-- internal/grpc/channel_service.go: GetGuilds gives the access that GetChannels asks for.
use discord_lite_server.Base.{
  ℕ, suc, ◌≡◌, sym, ◌∙◌, subst, ap, Bool, true, false, String, some, List, [], ◌∷◌, map, nat_eq,
  string_eq, arith, inl, inr, Option-cases, if◌then◌else◌,
}
use discord_lite_server.Base.Rows.{find, any, All, All-find, find-holds}
use discord_lite_server.Models.{User, Guild, Tables}
use discord_lite_server.Effect.{
  Env, World, Result, ok, err, status, internal, or_return, statement, wrap, attempt, pure, ◌>>=◌,
}
use discord_lite_server.Effect.Moves.{Moves, Moves-bind, Moves-to, moves_rules}
use discord_lite_server.Effect.Returned.{bind-ok, pure-ok}
use discord_lite_server.Database.Users.{has_user_id}
use discord_lite_server.Database.Guilds.{
  is_membership, has_guild_id, upsert_guild, insert_membership, has_guild_access,
  create_or_update_guild, create_user_guild,
}
use discord_lite_server.Database.Guilds.Kept.{
  Kept, Kept-order, upsert_guild-Kept, insert_membership-Kept, names_guild, access_of,
  upsert_guild-there, insert_membership-there, token-Kept, cache-Kept, any-find, guild-Kept,
  link-Kept,
}
use discord_lite_server.Auth.Services.{Crypto, Remote, Settings}
use discord_lite_server.Auth.Api.{DiscordGuild, Api, get_user_guilds}
use discord_lite_server.Auth.Discord.{Refreshed}
use discord_lite_server.Websocket.Manager.Connections.{store_if_refreshed}
use discord_lite_server.Database.Sessions.{has_session_id, user_exists}
use discord_lite_server.Database.Sound.{IsSound}
use discord_lite_server.Grpc.CacheManager.{set_guild_cache}
use discord_lite_server.Grpc.Access.{SignedIn, session_user-ok}
use discord_lite_server.Grpc.Session.{prepend, fresh_token}
use discord_lite_server.Grpc.ChannelServer.Writes.{service_rules}
use discord_lite_server.Grpc.ChannelServer.{
  guild_row, ProtoGuild, GetGuildsRequest, GetGuildsResponse, convert_guild, link_user, store_guild,
  store_guilds, cached_guilds, fetch_guilds, answer_guilds, get_guilds,
}

-- Access by a membership and its guild.
abbrev pub Linked : ℕ → Tables → String → Type 0
Linked uid t d =
    (n : ℕ) × (any (is_membership uid n) t.user_guilds ≡ true)
    × (any (names_guild n d) t.guilds ≡ true)

Linked-Kept : (uid : ℕ) (d : String) (t u : Tables) → Kept t u → Linked uid t d → Linked uid u d
Linked-Kept uid d t u k (n, h, g) = (n, k.links uid n h, k.guilds n d g)

any-weaken :
    (n : ℕ) (d : String) (gs : List Guild)
    → any (names_guild n d) gs ≡ true
    → any (has_guild_id n) gs ≡ true
unfolding any
any-weaken n d [] h = cc
any-weaken n d (g ∷ gs) h = ground (arith, any-weaken n d gs)

module _ (env : Env) (up : (n : ℕ) → env.fails n ≡ false) (remote : Remote) (api : Api)
    (uid : ℕ) where
  created :
      (g : Guild) (w : World)
      → create_or_update_guild env g w ≡ (
        ok (upsert_guild-there w.tables g (env.clock w.step)).0,
        record { tables = (upsert_guild g (env.clock w.step) w.tables).1; step = suc w.step },
      )
  unfolding create_or_update_guild statement wrap
  created g w =
      let (r, e, same, there) = upsert_guild-there w.tables g (env.clock w.step) in
      ground (arith, up w.step, e)

  linked_tables :
      (gid : ℕ) (w : World)
      → (create_user_guild env uid gid w).1.tables
        ≡ (insert_membership uid gid (env.clock w.step) w.tables).1
  unfolding create_user_guild statement wrap
  linked_tables gid w = ground (arith, up w.step)

  abbrev after_create : Guild → World → World
  after_create g w = record {
    tables = (upsert_guild g (env.clock w.step) w.tables).1;
    step = suc w.step;
  }

  stored :
      (d : DiscordGuild) (w : World) (r : Guild)
      → create_or_update_guild env (guild_row api d) w ≡ (ok r, after_create (guild_row api d) w)
      → store_guild env remote api uid d w
        ≡ (ok (some r), (create_user_guild env uid r.id (after_create (guild_row api d) w)).1)
  unfolding store_guild attempt pure ◌>>=◌
  stored d w r e = ground (arith, e)

  store_guild-Linked :
      (d : DiscordGuild) (w : World)
      → any (has_user_id uid) w.tables.users ≡ true
      → (g : Guild) × ((store_guild env remote api uid d w).0 ≡ ok (some g))
        × Linked uid (store_guild env remote api uid d w).1.tables g.discord_guild_id
  store_guild-Linked d w user =
      let row = guild_row api d in
      let (r, e, same, there) = upsert_guild-there w.tables row (env.clock w.step) in
      let w1 = after_create row w in
      let run = stored d w r (created row w) in
      let grown : Kept w.tables w1.tables = upsert_guild-Kept w.tables row (env.clock w.step) in
      let joined = insert_membership-Kept w1.tables uid r.id (env.clock w1.step) in
      let t2 : Tables = (insert_membership uid r.id (env.clock w1.step) w1.tables).1 in
      let after : Linked uid t2 d.id = (
        r.id,
        insert_membership-there w1.tables uid r.id (env.clock w1.step) (grown.users uid user)
            (any-weaken r.id d.id w1.tables.guilds there),
        joined.guilds r.id d.id there,
      ) in
      (
        r,
        ap (λ p. p.0) run,
        subst (λ t. Linked uid t r.discord_guild_id)
            (sym (ap (λ p. p.1.tables) run ∙ linked_tables r.id w1))
            (subst (Linked uid t2) (sym same) after),
      )

  pub store_guild-Kept : (d : DiscordGuild) → Moves Kept (store_guild env remote api uid d)
  unfolding store_guild
  store_guild-Kept d = Moves-bind Kept-order _ _ (search (moves_rules, guild-Kept)) linking
    where
      linking : (r : Result Guild) → Moves Kept (link_user env remote api uid r)
      linking (err e) = search (moves_rules, Kept-order)
      linking (ok g) = search (moves_rules, Kept-order, link-Kept)

  store_guilds-Kept : (ds : List DiscordGuild) → Moves Kept (store_guilds env remote api uid ds)
  unfolding store_guilds
  store_guilds-Kept [] = search (moves_rules, Kept-order)
  store_guilds-Kept (d ∷ ds) =
      Moves-bind Kept-order _ _ (store_guild-Kept d)
        λ g. Moves-bind Kept-order _ _ (store_guilds-Kept ds) λ gs. search (moves_rules, Kept-order)

  -- Every guild that is stored is linked.
  store_guilds-Linked :
      (ds : List DiscordGuild) (gs : List Guild) (w w' : World)
      → any (has_user_id uid) w.tables.users ≡ true
      → store_guilds env remote api uid ds w ≡ (ok gs, w')
      → All (λ g. Linked uid w'.tables g.discord_guild_id) gs
  unfolding store_guilds
  store_guilds-Linked [] gs w w' user e =
      subst (All (λ g. Linked uid w'.tables g.discord_guild_id)) (pure-ok [] gs w w' e).0 tt
  store_guilds-Linked (d ∷ ds) gs w w' user e =
      let (o, v, e1, e2) = bind-ok _ _ gs w w' e in
      let (rest, v', e3, e4) = bind-ok _ _ gs v w' e2 in
      let (g, value, link) = store_guild-Linked d w user in
      let (same, tables) = pure-ok (prepend o rest) gs v' w' e4 in
      let some_g : o ≡ some g = ground (arith, e1, value) in
      let here : Linked uid v.tables g.discord_guild_id =
        subst (λ t. Linked uid t g.discord_guild_id) (ap (λ p. p.1.tables) e1) link in
      let moved : Kept w.tables v.tables =
        subst (λ p. Kept w.tables p.1.tables) e1 ((store_guild-Kept d).at w) in
      let kept : Kept v.tables v'.tables =
        subst (λ p. Kept v.tables p.1.tables) e3 ((store_guilds-Kept ds).at v) in
      let all : All (λ x. Linked uid v'.tables x.discord_guild_id) (g ∷ rest) = (
        Linked-Kept uid g.discord_guild_id v.tables v'.tables kept here,
        store_guilds-Linked ds rest v v' (moved.users uid user) e3,
      ) in
      subst (λ t. All (λ x. Linked uid t x.discord_guild_id) gs) tables
        (subst (All (λ x. Linked uid v'.tables x.discord_guild_id)) same (
          subst (λ z. All (λ x. Linked uid v'.tables x.discord_guild_id) (prepend z rest))
            (sym some_g) all))

user_there :
    (uid : ℕ) (users : List User)
    → user_exists users (some uid) ≡ true
    → any (has_user_id uid) users ≡ true
user_there uid users h = elim (Option-cases (find (has_user_id uid) users)) [
  | inl e ↦ absurd (ground (arith, e))
  | inr (u, e) ↦
      any-find (has_user_id uid) (has_user_id uid) users u e
        (find-holds (has_user_id uid) users u e)
]

-- The guilds of the answer are the ones that were stored.
converted :
    (uid : ℕ) (t u : Tables)
    → Kept t u
    → (gs : List Guild) → All (λ g. Linked uid t g.discord_guild_id) gs
    → All
        (λ (g : ProtoGuild). has_guild_access uid g.discord_guild_id u ≡ true)
        (map convert_guild gs)
converted uid t u k [] h = tt
converted uid t u k (g ∷ gs) h =
    let (n, link, guild) = Linked-Kept uid g.discord_guild_id t u k h.0 in
    (access_of uid n g.discord_guild_id u link guild, converted uid t u k gs h.1)

module _ (env : Env) (up : (n : ℕ) → env.fails n ≡ false) (remote : Remote) (api : Api) (c : Crypto)
    (s : Settings) where
  fresh_token-Kept : (uid : ℕ) → Moves Kept (fresh_token env remote c s uid)
  unfolding fresh_token
  fresh_token-Kept uid = search (moves_rules, service_rules, Kept-order, storing) depth 8
    where
      storing : (r : Refreshed) → Moves Kept (store_if_refreshed env remote c s r)
      storing r = search (moves_rules, Kept-order, token-Kept)

  set_guild_cache-Kept : (uid : ℕ) → Moves Kept (set_guild_cache env uid)
  unfolding set_guild_cache
  set_guild_cache-Kept uid = search (cache-Kept)

  fetch_guilds-Linked :
      (uid : ℕ) (r : GetGuildsResponse) (w w' : World)
      → any (has_user_id uid) w.tables.users ≡ true
      → fetch_guilds env remote api c s uid w ≡ (ok r, w')
      → All (λ (g : ProtoGuild). has_guild_access uid g.discord_guild_id w'.tables ≡ true) r.guilds
  unfolding fetch_guilds
  fetch_guilds-Linked uid r w w' user e =
      let (token, v1, e1, f1) = bind-ok _ _ r w w' e in
      let (fetched, v2, e2, f2) = bind-ok _ _ r v1 w' f1 in
      let (stored, v3, e3, f3) = bind-ok _ _ r v2 w' f2 in
      let (o, v4, e4, f4) = bind-ok _ _ r v3 w' f3 in
      let (same, tables) = pure-ok _ r v4 w' f4 in
      let k1 : Kept w.tables v1.tables = Moves-to (fresh_token-Kept uid) e1 in
      let k2 : Kept v1.tables v2.tables = Moves-to (fetch_kept token) e2 in
      let user2 = k2.users uid (k1.users uid user) in
      let linked = store_guilds-Linked env up remote api uid fetched stored v2 v3 user2 e3 in
      let k4 : Kept v3.tables v4.tables = Moves-to (caching_kept uid) e4 in
      subst
        (λ (z : GetGuildsResponse).
          All (λ (g : ProtoGuild). has_guild_access uid g.discord_guild_id w'.tables ≡ true)
            z.guilds)
        same
        (subst
          (λ t.
            All (λ (g : ProtoGuild). has_guild_access uid g.discord_guild_id t ≡ true)
              (map convert_guild stored))
          tables (converted uid v3.tables v4.tables k4 stored linked))
    where
      fetch_kept :
          (token : String)
          → Moves Kept (
              or_return
                (status internal "failed to fetch guilds from Discord API")
                (get_user_guilds remote api token))
      fetch_kept token = search (moves_rules, service_rules, Kept-order)

      caching_kept : (n : ℕ) → Moves Kept (attempt (set_guild_cache env n))
      caching_kept n = search (moves_rules, set_guild_cache-Kept)

  answer_guilds-Linked :
      (uid : ℕ) (rows : List Guild) (r : GetGuildsResponse) (w w' : World)
      → any (has_user_id uid) w.tables.users ≡ true
      → answer_guilds env remote api c s uid rows w ≡ (ok r, w')
      → r.from_cache ≡ false
      → All (λ (g : ProtoGuild). has_guild_access uid g.discord_guild_id w'.tables ≡ true) r.guilds
  answer_guilds-Linked uid [] r w w' user e fresh = fetch_guilds-Linked uid r w w' user e
  answer_guilds-Linked uid (g ∷ gs) r w w' user e fresh =
      let hit = ap (λ (z : GetGuildsResponse). z.from_cache) (pure-ok _ r w w' e).0 in
      absurd (ground (arith, hit, fresh))

  cached_guilds-Kept : (uid : ℕ) → Moves Kept (cached_guilds env remote api uid)
  unfolding cached_guilds
  cached_guilds-Kept uid = search (moves_rules, service_rules, Kept-order) depth 8

  chosen-Kept :
      (b : Bool) (uid : ℕ) → Moves Kept (if b then pure [] else cached_guilds env remote api uid)
  chosen-Kept b uid = search (moves_rules, Kept-order, cached_guilds-Kept)

  -- From sound tables, with a database that answers: when GetGuilds has asked Discord, the user of
  -- the session has access to every guild of the answer, which is what GetChannels asks for.
  pub get_guilds-grants :
      (req : GetGuildsRequest) (r : GetGuildsResponse) (w w' : World)
      → IsSound w.tables
      → get_guilds env remote api c s req w ≡ (ok r, w')
      → r.from_cache ≡ false
      → (uid : ℕ) × SignedIn req.session_id uid w.tables
        × All
            (λ (g : ProtoGuild). has_guild_access uid g.discord_guild_id w'.tables ≡ true)
            r.guilds
  unfolding get_guilds
  get_guilds-grants req r w w' v e fresh =
      let (uid, v1, e1, f1) = bind-ok _ _ r w w' e in
      let ((row, found, signed, named), same) = session_user-ok env req.session_id uid w v1 e1 in
      let (rows, v2, e2, f2) = bind-ok _ _ r v1 w' f1 in
      let known : user_exists w.tables.users row.user_id ≡ true =
        All-find (has_session_id req.session_id) _ w.tables.auth_sessions row v.session_users
          found in
      let user =
        user_there uid w.tables.users
          (subst (λ o. user_exists w.tables.users o ≡ true) named known) in
      let k : Kept v1.tables v2.tables = Moves-to (chosen-Kept req.force_refresh uid) e2 in
      let user2 =
        k.users uid (subst (λ (t : Tables). any (has_user_id uid) t.users ≡ true) same user) in
      (uid, (row, found, signed, named), answer_guilds-Linked uid rows r v2 w' user2 f2 fresh)

-- ===== src/Database/Guilds/Kept.antt =====
-- What no store of a guild, a membership, a token or a cache entry takes away.
use discord_lite_server.Base.{
  ℕ, ◌≡◌, refl, sym, ◌∙◌, subst, Bool, true, ◌&&◌, String, Option, some, List, [], ◌∷◌, ◌++◌, ◌==◌,
  nat_eq, string_eq, beq_refl, eq_of_beq, arith, inl, inr, Bool-cases, Option-cases,
}
use discord_lite_server.Base.Rows.{find, any, find-holds}
use discord_lite_server.Base.Table.{any-append, any-update}
use discord_lite_server.Models.{Guild, UserGuild, OauthToken, CacheType, CacheMetadata, Tables}
use discord_lite_server.Effect.{Env, ok, statement}
use discord_lite_server.Effect.Moves.{Order, Moves, Moves-statement, Moves-wrap, moves_rules}
use discord_lite_server.Database.Users.{has_user_id}
use discord_lite_server.Database.Tokens.{is_token_of, upsert_token, store_oauth_token}
use discord_lite_server.Database.Sessions.{user_exists}
use discord_lite_server.Database.Cache.{upsert_cache, set_cache_metadata}
use discord_lite_server.Database.Guilds.{
  has_discord_guild_id, has_guild_id, is_membership, both_exist, upsert_guild, insert_membership,
  merge_guild, new_guild, has_guild_access, create_or_update_guild, create_user_guild,
}

-- The guild with an id and a Discord id.
abbrev pub names_guild : ℕ → String → Guild → Bool
names_guild n d g = g.id == n && g.discord_guild_id == d

pub record Kept (t u : Tables) : Type 0 where
  pub users : (n : ℕ) → any (has_user_id n) t.users ≡ true → any (has_user_id n) u.users ≡ true
  pub guilds :
      (n : ℕ) (d : String)
      → any (names_guild n d) t.guilds ≡ true
      → any (names_guild n d) u.guilds ≡ true
  pub links :
      (uid gid : ℕ)
      → any (is_membership uid gid) t.user_guilds ≡ true
      → any (is_membership uid gid) u.user_guilds ≡ true

pub Kept-order : Order Kept
Kept-order = record {
  same = λ t. record { users = λ n h. h; guilds = λ n d h. h; links = λ uid gid h. h };
  chain = λ t u v a b. record {
    users = λ n h. b.users n (a.users n h);
    guilds = λ n d h. b.guilds n d (a.guilds n d h);
    links = λ uid gid h. b.links uid gid (a.links uid gid h);
  };
}

linked_access :
    (uid n : ℕ) (d : String) (gs : List Guild) (ms : List UserGuild)
    → any (names_guild n d) gs ≡ true
    → any (is_membership uid n) ms ≡ true
    → any (λ m. m.user_id == uid && any (names_guild m.guild_id d) gs) ms ≡ true
unfolding any
linked_access uid n d gs [] k e = cc
linked_access uid n d gs (m ∷ ms) k e = elim (Bool-cases (is_membership uid n m)) [
  | inl here ↦
      let same : m.guild_id ≡ n = ground (arith, here, nat_eq.beq_iff m.guild_id n) in
      ground (arith, here, subst (λ x. any (names_guild x d) gs ≡ true) (sym same) k)
  | inr there ↦ ground (arith, there, linked_access uid n d gs ms k)
]

-- A membership and its guild give access.
pub access_of :
    (uid n : ℕ) (d : String) (t : Tables)
    → any (is_membership uid n) t.user_guilds ≡ true
    → any (names_guild n d) t.guilds ≡ true
    → has_guild_access uid d t ≡ true
unfolding has_guild_access
access_of uid n d t h k = linked_access uid n d t.guilds t.user_guilds k h

module _ {A : Type 0} where
  any-append_last : (p : A → Bool) (xs : List A) (a : A) → p a ≡ true → any p (xs ++ a ∷ []) ≡ true
  unfolding any
  any-append_last p [] a h = ground arith
  any-append_last p (x ∷ xs) a h = ground (arith, any-append_last p xs a h)

  pub any-find :
      (p q : A → Bool) (xs : List A) (a : A) → find p xs ≡ some a → q a ≡ true → any q xs ≡ true
  unfolding any find
  any-find p q [] a e h = absurd (ground arith)
  any-find p q (x ∷ xs) a e h = ground (arith, any-find p q xs a)

module _ (t : Tables) where
  Kept-users_guilds_links :
      (tokens : List OauthToken) (cache : List CacheMetadata) (a b : ℕ)
      → Kept t (record t {
        oauth_tokens = tokens;
        cache_metadata = cache;
        next_token = a;
        next_cache = b;
      })
  Kept-users_guilds_links tokens cache a b = record {
    users = λ n h. h;
    guilds = λ n d h. h;
    links = λ uid gid h. h;
  }

  upsert_token-Kept : (k : OauthToken) (i : ℕ) → Kept t (upsert_token k i t).1
  unfolding upsert_token
  upsert_token-Kept k i = elim (Option-cases (find (has_user_id k.user_id) t.users)) [
    | inl e ↦ rw (e, upsert_token) (Kept-users_guilds_links _ _ _ _)
    | inr (u, e) ↦ elim (Option-cases (find (is_token_of k.user_id) t.oauth_tokens)) [
      | inl h ↦ rw (e, h, upsert_token) (Kept-users_guilds_links _ _ _ _)
      | inr (old, h) ↦ rw (e, h, upsert_token) (Kept-users_guilds_links _ _ _ _)
    ]
  ]

  upsert_cache-Kept :
      (kind : CacheType) (entity : String) (uid : Option ℕ) (fetched expires i : ℕ)
      → Kept t (upsert_cache kind entity uid fetched expires i t).1
  unfolding upsert_cache
  upsert_cache-Kept kind entity uid fetched expires i =
      elim (Bool-cases (user_exists t.users uid)) [
        | inl e ↦ rw (e, upsert_cache) (Kept-users_guilds_links _ _ _ _)
        | inr e ↦ rw (e, upsert_cache) (Kept-users_guilds_links _ _ _ _)
      ]

  pub upsert_guild-Kept : (g : Guild) (i : ℕ) → Kept t (upsert_guild g i t).1
  unfolding upsert_guild
  upsert_guild-Kept g i =
      elim (Option-cases (find (has_discord_guild_id g.discord_guild_id) t.guilds)) [
        | inl e ↦
            rw (e, upsert_guild)
              (record {
                users = λ n h. h;
                guilds = λ n d h. any-append (names_guild n d) t.guilds _ h;
                links = λ uid gid h. h;
              })
        | inr (old, e) ↦
            rw (e, upsert_guild)
              (record {
                users = λ n h. h;
                guilds = λ n d h.
                    any-update _ (names_guild n d) (merge_guild g i) (λ (a : Guild). refl) t.guilds
                    ∙ h;
                links = λ uid gid h. h;
              })
      ]

  pub insert_membership-Kept : (uid gid i : ℕ) → Kept t (insert_membership uid gid i t).1
  unfolding insert_membership
  insert_membership-Kept uid gid i = elim (Bool-cases (any (is_membership uid gid) t.user_guilds)) [
    | inl e ↦
        rw (e, insert_membership)
          (record { users = λ n h. h; guilds = λ n d h. h; links = λ a b h. h })
    | inr e ↦ elim (Bool-cases (both_exist uid gid t)) [
      | inl h ↦
          rw (e, h, insert_membership)
            (record {
              users = λ n h. h;
              guilds = λ n d h. h;
              links = λ a b h. any-append (is_membership a b) t.user_guilds _ h;
            })
      | inr h ↦
          rw (e, h, insert_membership)
            (record { users = λ n h. h; guilds = λ n d h. h; links = λ a b h. h })
    ]
  ]

  -- The guild that a store returns is in the table.
  pub upsert_guild-there :
      (g : Guild) (i : ℕ)
      → (r : Guild) × (upsert_guild g i t ≡ (ok r, (upsert_guild g i t).1))
        × (r.discord_guild_id ≡ g.discord_guild_id)
        × (any (names_guild r.id g.discord_guild_id) (upsert_guild g i t).1.guilds ≡ true)
  unfolding upsert_guild
  upsert_guild-there g i =
      elim (Option-cases (find (has_discord_guild_id g.discord_guild_id) t.guilds)) [
        | inl e ↦
            rw (e, upsert_guild)
              (
                new_guild g t.next_guild i,
                refl,
                refl,
                any-append_last _ t.guilds _ (own t.next_guild g.discord_guild_id),
              )
        | inr (old, e) ↦
            let same = find-holds (has_discord_guild_id g.discord_guild_id) t.guilds old e in
            rw (e, upsert_guild)
              (
                merge_guild g i old,
                refl,
                eq_of_beq old.discord_guild_id g.discord_guild_id same,
                any-update _ (names_guild old.id g.discord_guild_id) (merge_guild g i)
                      (λ (a : Guild). refl) t.guilds
                    ∙ any-find _ (names_guild old.id g.discord_guild_id) t.guilds old e
                        (ground (arith, same, beq_refl old.id)),
              )
      ]
    where
      own : (n : ℕ) (d : String) → ((n == n) && (d == d)) ≡ true
      own n d = ground (arith, beq_refl n, beq_refl d)

  pub insert_membership-there :
      (uid gid i : ℕ)
      → any (has_user_id uid) t.users ≡ true
      → any (has_guild_id gid) t.guilds ≡ true
      → any (is_membership uid gid) (insert_membership uid gid i t).1.user_guilds ≡ true
  unfolding insert_membership
  insert_membership-there uid gid i h k =
      elim (Bool-cases (any (is_membership uid gid) t.user_guilds)) [
        | inl e ↦ rw (e, insert_membership) e
        | inr e ↦
            let both : both_exist uid gid t ≡ true = ground (arith, h, k) in
            rw (e, both, insert_membership)
              (any-append_last _ t.user_guilds _ (ground (arith, beq_refl uid, beq_refl gid)))
      ]

module _ (env : Env) where
  pub token-Kept : (k : OauthToken) → Moves Kept (store_oauth_token env k)
  unfolding store_oauth_token
  token-Kept k = Moves-wrap _ _ (Moves-statement Kept-order env _ (λ i t. upsert_token-Kept t k i))

  cache_stored :
      (kind : CacheType) (entity : String) (uid : Option ℕ) (fetched expires : ℕ)
      → Moves Kept (statement env (upsert_cache kind entity uid fetched expires))
  cache_stored kind entity uid fetched expires =
      Moves-statement Kept-order env _
        (λ i t. upsert_cache-Kept t kind entity uid fetched expires i)

  pub cache-Kept :
      (kind : CacheType) (entity : String) (uid : Option ℕ) (ttl : ℕ)
      → Moves Kept (set_cache_metadata env kind entity uid ttl)
  unfolding set_cache_metadata
  cache-Kept kind entity uid ttl = search (moves_rules, Kept-order, cache_stored)

  pub guild-Kept : (g : Guild) → Moves Kept (create_or_update_guild env g)
  unfolding create_or_update_guild
  guild-Kept g = Moves-wrap _ _ (Moves-statement Kept-order env _ (λ i t. upsert_guild-Kept t g i))

  pub link-Kept : (uid gid : ℕ) → Moves Kept (create_user_guild env uid gid)
  unfolding create_user_guild
  link-Kept uid gid =
      Moves-wrap _ _ (Moves-statement Kept-order env _ (λ i t. insert_membership-Kept t uid gid i))

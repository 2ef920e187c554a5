-- ===== src/Grpc/CacheManager/Lifetime.antt =====
-- How long an entry of the cache is valid, and what invalidation does to it.
use discord_lite_server.Base.{
  ℕ, suc, ◌+◌, ◌*◌, ◌≤◌, [], ◌∷◌, ◌++◌, ◌≡◌, refl, ap, ◌∙◌, true, false, not, String, Option, none,
  some, arith, inl, inr, Bool-cases, Option-cases, nat_eq, string_eq, beq_refl, ltb,
}
use discord_lite_server.Base.Rows.{
  find, find_single, update, find-append, find-holds, find-update, find-remove_other,
}
use discord_lite_server.Models.{CacheType, message, CacheMetadata, Tables}
use discord_lite_server.Effect.{Env, World, ok, catch, statement, query, now, ◌>>=◌}
use discord_lite_server.Database.Cache.{
  is_entry, new_entry, conflicts, type_index, upsert_cache, delete_cache, refreshed_entry,
  set_cache_metadata, get_cache_metadata, is_cache_valid, invalidate_cache,
}
use discord_lite_server.Auth.Discord.{minute}
use discord_lite_server.Grpc.CacheManager.{
  set_message_cache, check_message_cache, invalidate_channel_cache,
}

module _ (kind : CacheType) (entity : String) (uid : ℕ) where
  abbrev entry? : Tables → Option CacheMetadata
  entry? t = find (is_entry kind entity (some uid)) t.cache_metadata

  is_entry_new :
      (fetched expires id instant : ℕ)
      → is_entry kind entity
          (some uid)
          (new_entry kind entity (some uid) fetched expires id instant)
        ≡ true
  is_entry_new fetched expires id instant =
      ground (arith, beq_refl (type_index kind), beq_refl entity, beq_refl uid)

  -- The upsert leaves an entry that expires at the given instant.
  upserted :
      (fetched expires instant : ℕ) (t t' : Tables)
      → upsert_cache kind entity (some uid) fetched expires instant t ≡ (ok tt, t')
      → (r : CacheMetadata) × (entry? t' ≡ some r) × (r.expires_at ≡ expires)
  unfolding upsert_cache
  upserted fetched expires instant t t' e = elim (Option-cases (entry? t)) [
    | inl missing ↦
        let r : CacheMetadata =
          new_entry kind entity (some uid) fetched expires t.next_cache instant in
        let rows : t'.cache_metadata ≡ t.cache_metadata ++ r ∷ [] = ground arith in
        (
          r,
          rw rows (
              find-append (is_entry kind entity (some uid)) t.cache_metadata (r ∷ []) missing
              ∙ find_single _ r (is_entry_new fetched expires t.next_cache instant)),
          refl,
        )
    | inr (old, found) ↦
        let rows : t'.cache_metadata
            ≡ update (conflicts kind entity (some uid)) (refreshed_entry fetched expires instant)
                t.cache_metadata =
          ground arith in
        (
          refreshed_entry fetched expires instant old,
          rw rows (
              ground (
                arith,
                find-holds (is_entry kind entity (some uid)) t.cache_metadata old found,
                find-update (conflicts kind entity (some uid)) (is_entry kind entity (some uid))
                    (refreshed_entry fetched expires instant) (λ (a : CacheMetadata). refl)
                    t.cache_metadata,
              )),
          refl,
        )
  ]

  module _ (env : Env) where
    -- A check reads the entry at one step and the clock at the next.
    check-entry :
        (r : CacheMetadata) (v : World)
        → entry? v.tables ≡ some r
        → env.fails v.step ≡ false
        → (is_cache_valid env kind entity (some uid) v).0
          ≡ ok (not (ltb r.expires_at (env.clock (suc v.step))))
    unfolding is_cache_valid get_cache_metadata query now ◌>>=◌
    check-entry r v e up = ground arith

    set-entry :
        (ttl : ℕ) (w w' : World)
        → set_cache_metadata env kind entity (some uid) ttl w ≡ (ok tt, w')
        → (r : CacheMetadata) × (entry? w'.tables ≡ some r)
          × (r.expires_at ≡ env.clock w.step + ttl)
    unfolding set_cache_metadata statement now ◌>>=◌
    set-entry ttl w w' e = elim (Bool-cases (env.fails (suc w.step))) [
      | inl down ↦ absurd (ground arith)
      | inr up ↦
          upserted (env.clock w.step) (env.clock w.step + ttl) (env.clock (suc w.step)) w.tables
            w'.tables (ground arith)
    ]

    -- An entry that was set for a user is a hit until its lifetime, counted from the clock reading
    -- of the call that set it, is over, and a miss from then on.
    pub is_cache_valid-set :
        (ttl : ℕ) (w w' v : World)
        → set_cache_metadata env kind entity (some uid) ttl w ≡ (ok tt, w')
        → v.tables.cache_metadata ≡ w'.tables.cache_metadata
        → env.fails v.step ≡ false
        → (is_cache_valid env kind entity (some uid) v).0
          ≡ ok (not (ltb (env.clock w.step + ttl) (env.clock (suc v.step))))
    is_cache_valid-set ttl w w' v e same up =
        let (r, found, expires) = set-entry ttl w w' e in
        check-entry r v (ap (find (is_entry kind entity (some uid))) same ∙ found) up
        ∙ ap (λ x. ok (not (ltb x (env.clock (suc v.step))))) expires

    -- Invalidation for no user removes no entry of a user.
    invalidate-entry :
        (kind' : CacheType) (entity' : String) (w w' : World)
        → invalidate_cache env kind' entity' none w ≡ (ok tt, w')
        → entry? w'.tables ≡ entry? w.tables
    unfolding invalidate_cache delete_cache statement ◌>>=◌
    invalidate-entry kind' entity' w w' e = ground (
      arith,
      find-remove_other (is_entry kind' entity' none) (is_entry kind entity (some uid)) apart
          w.tables.cache_metadata,
    )
      where
        apart :
            (a : CacheMetadata)
            → is_entry kind entity (some uid) a ≡ true
            → is_entry kind' entity' none a ≡ false
        apart a h = ground arith

-- InvalidateChannelCache does not end the life of an entry that SetMessageCache has made: a check
-- after it is a hit as long as the five minutes last.
pub check_message_cache-invalidate :
    (env : Env) (channel_id : String) (uid : ℕ) (w w₁ w₂ : World)
    → set_message_cache env channel_id uid w ≡ (ok tt, w₁)
    → invalidate_channel_cache env channel_id w₁ ≡ (ok tt, w₂)
    → env.fails w₂.step ≡ false
    → env.clock (suc w₂.step) ≤ env.clock w.step + 5 * minute
    → (check_message_cache env channel_id uid w₂).0 ≡ ok true
unfolding set_message_cache invalidate_channel_cache check_message_cache catch
check_message_cache-invalidate env channel_id uid w w₁ w₂ e i up young =
    let (r, found, expires) = set-entry message channel_id uid env (5 * minute) w w₁ e in
    let kept = invalidate-entry message channel_id uid env message channel_id w₁ w₂ i in
    ground (arith, check-entry message channel_id uid env r w₂ (kept ∙ found) up)

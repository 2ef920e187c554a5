-- ===== src/Database/Cache.antt =====
-- internal/database/cache_queries.go: the table cache_metadata.
pub mod Stats
use discord_lite_server.Base.{
  ℕ, suc, ◌+◌, Bool, true, false, ◌&&◌, String, Option, none, some, List, [], ◌∷◌, ◌++◌, ◌==◌,
  nat_eq, string_eq, if◌then◌else◌, ltb,
}
use discord_lite_server.Base.Rows.{find, update, remove}
use discord_lite_server.Models.{
  CacheType, guild, channel, message, CacheMetadata, cache_is_valid, Tables,
}
use discord_lite_server.Effect.{
  Env, Action, Result, ok, err, external, wrap, pure, attempt, or_fail, now, statement, query,
  ◌>>=◌, ◌>>◌,
}
use discord_lite_server.Effect
use discord_lite_server.Database.Sessions.{user_exists}

abbrev pub type_index : CacheType → ℕ
type_index guild = 0
type_index channel = 1
type_index message = 2

-- user_id = $3 OR (user_id IS NULL AND $3 IS NULL)
abbrev pub same_user : Option ℕ → Option ℕ → Bool
same_user none none = true
same_user none (some b) = false
same_user (some a) none = false
same_user (some a) (some b) = a == b

abbrev pub is_entry : CacheType → String → Option ℕ → CacheMetadata → Bool
is_entry kind entity uid r =
    type_index r.cache_type == type_index kind && r.entity_id == entity && same_user r.user_id uid

-- UNIQUE (cache_type, entity_id, user_id): a NULL conflicts with nothing, another NULL included.
abbrev pub conflicts : CacheType → String → Option ℕ → CacheMetadata → Bool
conflicts kind entity none r = false
conflicts kind entity (some uid) r = is_entry kind entity (some uid) r

abbrev pub refreshed_entry : ℕ → ℕ → ℕ → CacheMetadata → CacheMetadata
refreshed_entry fetched expires instant r = record r {
  last_fetched_at = fetched;
  expires_at = expires;
  updated_at = instant;
}

abbrev pub new_entry : CacheType → String → Option ℕ → ℕ → ℕ → ℕ → ℕ → CacheMetadata
new_entry kind entity uid fetched expires id instant = record {
  id = id;
  cache_type = kind;
  entity_id = entity;
  user_id = uid;
  last_fetched_at = fetched;
  expires_at = expires;
  created_at = instant;
  updated_at = instant;
}

abbrev pub upsert_row :
    CacheType → String → Option ℕ → ℕ → ℕ → ℕ → Tables → Option CacheMetadata → List CacheMetadata
upsert_row kind entity uid fetched expires instant t none =
    t.cache_metadata ++ new_entry kind entity uid fetched expires t.next_cache instant ∷ []
upsert_row kind entity uid fetched expires instant t (some old) =
    update (conflicts kind entity uid) (refreshed_entry fetched expires instant) t.cache_metadata

-- The foreign key user_id: NULL, or a row of users.
unfoldable pub upsert_cache :
    CacheType → String → Option ℕ → ℕ → ℕ → ℕ → Tables → Result (Unit {0}) × Tables
upsert_cache kind entity uid fetched expires instant t =
    if user_exists t.users uid
    then (
      ok tt,
      record t {
        cache_metadata =
            upsert_row kind entity uid fetched expires instant t
              (find (conflicts kind entity uid) t.cache_metadata);
        next_cache = suc t.next_cache;
      },
    )
    else (err external, record t { next_cache = suc t.next_cache })

unfoldable pub delete_cache : (CacheMetadata → Bool) → Tables → Result (Unit {0}) × Tables
delete_cache p t = (ok tt, record t { cache_metadata = remove p t.cache_metadata })

module _ (env : Env) where
  unfoldable pub set_cache_metadata : CacheType → String → Option ℕ → ℕ → Action (Unit {0})
  set_cache_metadata kind entity uid ttl_duration = do
    fetched ← now env
    wrap "failed to set cache metadata"
        (statement env (upsert_cache kind entity uid fetched (fetched + ttl_duration)))

  unfoldable pub get_cache_metadata : CacheType → String → Option ℕ → Action CacheMetadata
  get_cache_metadata kind entity uid = do
    found ←
        wrap "failed to get cache metadata"
          (query env (λ t. find (is_entry kind entity uid) t.cache_metadata))
    or_fail (Effect.message "cache metadata not found") found

  abbrev pub judge : Result CacheMetadata → Action Bool
  judge (err e) = pure false
  judge (ok entry) = do instant ← now env; pure (cache_is_valid instant entry)

  -- An error counts as a missing entry.
  unfoldable pub is_cache_valid : CacheType → String → Option ℕ → Action Bool
  unfolding ◌>>=◌
  is_cache_valid kind entity uid = do r ← attempt (get_cache_metadata kind entity uid); judge r

  unfoldable pub invalidate_cache : CacheType → String → Option ℕ → Action (Unit {0})
  invalidate_cache kind entity uid =
      wrap "failed to invalidate cache"
        (statement env (λ _. delete_cache (is_entry kind entity uid)))

  unfoldable pub invalidate_cache_by_type : CacheType → Action (Unit {0})
  invalidate_cache_by_type kind =
      wrap "failed to invalidate cache by type"
        (statement env (λ _. delete_cache (λ r. type_index r.cache_type == type_index kind)))

  unfoldable pub invalidate_cache_for_user : ℕ → Action (Unit {0})
  invalidate_cache_for_user uid =
      wrap "failed to invalidate cache for user"
        (statement env (λ _. delete_cache (λ r. same_user r.user_id (some uid))))

  unfoldable pub cleanup_expired_cache : Action (Unit {0})
  cleanup_expired_cache =
      wrap "failed to cleanup expired cache"
        (statement env (λ instant. delete_cache (λ r. ltb r.expires_at instant)))

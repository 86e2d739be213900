-- ===== src/ApiKeys/Verify.antt =====
-- packages/api/src/lib/api-keys.ts: the revocation of a key and the check of a secret, over the table
-- of keys and the cache of their records.
use saa_sweave.Prelude.{
  ℕ, ◌-◌, String, Bool, true, ◌&&◌, Option, none, some, [], ◌∷◌, ltb, if◌then◌else◌, any, keep,
  length, is_some, not,
}
use mathlib.Core.Option
use text.Mathlib.Text.{◌==◌ as str_eq}
use saa_sweave.Prelude.Text.{starts_with}
use saa_sweave.Prelude.Sql.{update_where, first_where}
use saa_sweave.RateLimit.{RateLimitFailureMode}
use saa_sweave.Cache.Client.{RedisClient, Codec, Settings, CacheSetOptions}
use saa_sweave.Cache.Redis.{cache_get, cache_set, cache_invalidate_tag}
use saa_sweave.ApiKeys.Scopes.{resolve_api_key_scopes}
use saa_sweave.ApiKeys.Keys.{ApiKeyRow, CachedApiKeyRecord, ApiKeyAuth, KeyStore, api_key_cache_tag}

-- The row is a key of the organization that is not revoked.
abbrev pub is_revocable : String → String → ApiKeyRow → Bool
is_revocable organization_id id row =
    str_eq row.id id && str_eq row.organization_id organization_id && not (is_some row.revoked_at)

abbrev pub is_live : String → ApiKeyRow → Bool
is_live key_hash row = str_eq row.key_hash key_hash && not (is_some row.revoked_at)

-- `CachedApiKeyRecord` of a row
abbrev pub record_of : ApiKeyRow → CachedApiKeyRecord
record_of row = record {
  id = row.id;
  last_used_at = row.last_used_at;
  organization_id = row.organization_id;
  scopes = resolve_api_key_scopes row.scopes;
}

abbrev pub is_bearer : String → Bool
is_bearer secret = any (λ prefix. starts_with prefix secret) ("swv_" ∷ "bnk_" ∷ [])

-- Whether the last use is unknown or more than five minutes ago.
abbrev pub is_stale : ℕ → Option ℕ → Bool
is_stale now none = true
is_stale now (some last_used_at) = ltb last_used_at (now - 300000)

abbrev pub auth_of : CachedApiKeyRecord → ApiKeyAuth
auth_of r = record { id = r.id; organization_id = r.organization_id; scopes = r.scopes }

-- The options of `cacheGet` and those of `cacheSet`.
abbrev pub get_options : RateLimitFailureMode → CacheSetOptions
get_options mode = record {
  failure_mode = some mode;
  namespace = some "api-keys";
  tags = none;
  ttl_seconds = none;
}

abbrev pub set_options : RateLimitFailureMode → String → CacheSetOptions
set_options mode id = record {
  failure_mode = some mode;
  namespace = some "api-keys";
  tags = some (api_key_cache_tag id ∷ []);
  ttl_seconds = some 60;
}

abbrev pub select_live : {S : Type 0} → String → KeyStore S → Option CachedApiKeyRecord
select_live key_hash st = Option.map record_of (first_where (is_live key_hash) st.api_key)

module _ {S : Type 0} (client : RedisClient S) (codec : Codec CachedApiKeyRecord)
    (settings : Settings) (mode : RateLimitFailureMode) where
  unfoldable pub invalidate_api_key_cache : String → KeyStore S → KeyStore S
  invalidate_api_key_cache id st =
      let (_, cache) =
        cache_invalidate_tag client codec settings (api_key_cache_tag id) (some mode) st.cache in
      record st { cache = cache }

  unfoldable pub revoke_api_key : ℕ → String → String → KeyStore S → Bool × KeyStore S
  revoke_api_key now organization_id id st =
      let rows = keep (is_revocable organization_id id) st.api_key in
      let st' = record st {
        api_key =
            update_where (is_revocable organization_id id)
              (λ row. record row { revoked_at = some now }) st.api_key;
      } in
      let revoked = ltb 0 (length rows) in
      let invalidated = invalidate_api_key_cache id st' in
      (revoked, if revoked then invalidated else st')

  -- The calls of `cacheSet` in `lookupApiKeyByHash` and in `verifyApiKey`.
  unfoldable pub store_record : ℕ → String → CachedApiKeyRecord → KeyStore S → KeyStore S
  store_record now key_hash r st = record st {
    cache = cache_set client codec settings now key_hash (some r) (set_options mode r.id) st.cache;
  }

  -- The rest of `lookupApiKeyByHash` after its query.
  unfoldable pub selected :
      ℕ → String → Option CachedApiKeyRecord → KeyStore S → Option CachedApiKeyRecord × KeyStore S
  selected now key_hash none st = (none, st)
  selected now key_hash (some r) st = (some r, store_record now key_hash r st)

  -- The rest of `lookupApiKeyByHash` after `cacheGet`.
  unfoldable pub cached_or_selected :
      ℕ → String → Option CachedApiKeyRecord → KeyStore S → Option CachedApiKeyRecord × KeyStore S
  cached_or_selected now key_hash (some cached) st = (some cached, st)
  cached_or_selected now key_hash none st = selected now key_hash (select_live key_hash st) st

  unfoldable pub lookup_api_key_by_hash :
      ℕ → String → KeyStore S → Option CachedApiKeyRecord × KeyStore S
  lookup_api_key_by_hash now key_hash st =
      let (cached, cache) =
        cache_get client codec settings now key_hash (get_options mode) st.cache in
      cached_or_selected now key_hash cached (record st { cache = cache })

  unfoldable pub refresh : ℕ → String → CachedApiKeyRecord → KeyStore S → KeyStore S
  refresh now key_hash r st =
      let used = record st {
        api_key =
            update_where (λ row. str_eq row.id r.id) (λ row. record row { last_used_at = some now })
              st.api_key;
      } in
      store_record now key_hash (record r { last_used_at = some now }) used

  -- The rest of `verifyApiKey` after the lookup.
  unfoldable pub used_by :
      ℕ → String → Option CachedApiKeyRecord → KeyStore S → Option ApiKeyAuth × KeyStore S
  unfolding refresh
  used_by now key_hash none st = (none, st)
  used_by now key_hash (some r) st =
      let refreshed = refresh now key_hash r st in
      (some (auth_of r), if is_stale now r.last_used_at then refreshed else st)

  unfoldable pub verify_looked_up :
      ℕ → String → Option CachedApiKeyRecord × KeyStore S → Option ApiKeyAuth × KeyStore S
  unfolding used_by
  verify_looked_up now key_hash (found, st) = used_by now key_hash found st

  unfoldable pub verify_api_key :
      (sha256 : String → String) → ℕ → String → KeyStore S → Option ApiKeyAuth × KeyStore S
  unfolding verify_looked_up
  verify_api_key sha256 now secret st =
      let found =
        verify_looked_up now (sha256 secret) (lookup_api_key_by_hash now (sha256 secret) st) in
      if is_bearer secret then found else (none, st)

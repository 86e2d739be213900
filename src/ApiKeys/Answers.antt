-- ===== src/ApiKeys/Answers.antt =====
-- Checks of secrets of packages/api/src/lib/api-keys.ts that find a record, or find none.
use saa_sweave.Prelude.{
  ℕ, String, true, none, some, List, [], ◌∷◌, ◌≡◌, refl, arith, All, Bool-cases, inl, inr, ◌≢◌, ◌⊎◌,
}
use text.Mathlib.Text.{◌==◌ as str_eq}
use text.Mathlib.TextPositions.{eq_refl}
use saa_sweave.Prelude.Sql.{update_where, first_where}
use saa_sweave.RateLimit.{RateLimitFailureMode}
use saa_sweave.Cache.Memory.{includes_tag}
use saa_sweave.Cache.Keys.{tag_version_key}
use saa_sweave.Cache.Client.{RedisClient, Codec, Settings, State, full_key}
use saa_sweave.Cache.Redis.{cache_get}
use saa_sweave.ApiKeys.Keys.{ApiKeyRow, CachedApiKeyRecord, KeyStore, api_key_cache_tag}
use saa_sweave.ApiKeys.Verify.{
  is_revocable, is_live, is_bearer, auth_of, get_options, set_options, selected, cached_or_selected,
  lookup_api_key_by_hash, used_by, verify_looked_up, verify_api_key,
}

-- A check of a secret at a time.
pub record Check : Type 0 where
  pub at : ℕ
  pub secret : String

-- The check is of the same hash, or its own key in the cache is neither the record's nor the
-- version's.
abbrev pub IsSeparate :
    (settings : Settings) (mode : RateLimitFailureMode) (sha256 : String → String)
    → (secret id : String) → Check
    → Type 0
IsSeparate settings mode sha256 secret id c =
    let own_name = full_key settings (sha256 c.secret) (get_options mode) in
    (sha256 c.secret ≡ sha256 secret)
    ⊎ ((own_name ≢ full_key settings (sha256 secret) (get_options mode))
        × (own_name ≢ tag_version_key settings.cache_prefix (api_key_cache_tag id)))

-- Checks that run to their ends one after the other.
unfoldable pub run_checks :
    {S : Type 0} (client : RedisClient S) (codec : Codec CachedApiKeyRecord) (settings : Settings)
    (mode : RateLimitFailureMode) (sha256 : String → String)
    → List Check
    → KeyStore S
    → KeyStore S
run_checks client codec settings mode sha256 [] st = st
run_checks client codec settings mode sha256 (c ∷ cs) st =
    let st' = (verify_api_key client codec settings mode sha256 c.at c.secret st).1 in
    run_checks client codec settings mode sha256 cs st'

-- Every row with the hash is the key with that id, of the organization.
abbrev pub IsKeyOf : String → String → String → List ApiKeyRow → Type 0
IsKeyOf key_hash organization_id id = All (λ row.
    (str_eq row.key_hash key_hash ≡ true)
    → (str_eq row.id id ≡ true) × (str_eq row.organization_id organization_id ≡ true))

pub no_live_row :
    (now : ℕ) (key_hash organization_id id : String) (rows : List ApiKeyRow)
    → IsKeyOf key_hash organization_id id rows
    → first_where (is_live key_hash) (
        update_where
          (is_revocable organization_id id)
          (λ row. record row { revoked_at = some now })
          rows)
      ≡ none
no_live_row now key_hash organization_id id [] h = refl
no_live_row now key_hash organization_id id (row ∷ rows) h =
    ground (arith, h.0, no_live_row now key_hash organization_id id rows h.1)

pub listed_tag : (tag : String) → includes_tag tag (tag ∷ []) ≡ true
unfolding includes_tag
listed_tag tag = rw (eq_refl tag) refl

-- `cacheGet` reads neither the tags nor the ttl.
pub get-set_options :
    {S : Type 0} (client : RedisClient S) (codec : Codec CachedApiKeyRecord) (settings : Settings)
    (mode : RateLimitFailureMode) (now : ℕ) (id key_hash : String) (st : State S CachedApiKeyRecord)
    → cache_get client codec settings now key_hash (get_options mode) st
      ≡ cache_get client codec settings now key_hash (set_options mode id) st
unfolding cache_get
get-set_options client codec settings mode now id key_hash st = refl

module _ {S : Type 0} (client : RedisClient S) (codec : Codec CachedApiKeyRecord)
    (settings : Settings) (mode : RateLimitFailureMode) (sha256 : String → String) (now : ℕ)
    (secret : String) (st : KeyStore S) where
  pub missed_is_refused :
      cache_get client codec settings now (sha256 secret) (get_options mode) st.cache
        ≡ (none, st.cache)
      → first_where (is_live (sha256 secret)) st.api_key ≡ none
      → verify_api_key client codec settings mode sha256 now secret st ≡ (none, st)
  unfolding verify_api_key lookup_api_key_by_hash verify_looked_up cached_or_selected selected
      used_by
  missed_is_refused missed gone = elim (Bool-cases (is_bearer secret)) [
    | inl bearer ↦ rw (bearer, missed, gone) refl
    | inr other ↦ rw other refl
  ]

  pub cached_is_verified :
      (r : CachedApiKeyRecord)
      → is_bearer secret ≡ true
      → (cache_get client codec settings now (sha256 secret) (get_options mode) st.cache).0 ≡ some r
      → (verify_api_key client codec settings mode sha256 now secret st).0 ≡ some (auth_of r)
  unfolding verify_api_key lookup_api_key_by_hash verify_looked_up cached_or_selected used_by
  cached_is_verified r bearer found = rw (bearer, found) refl

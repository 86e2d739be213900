-- ===== src/ApiKeys/Revoked.antt =====
-- What becomes of a revoked key in packages/api/src/lib/api-keys.ts, over a Redis that serves every
-- command.
use saa_sweave.Prelude.{
  ℕ, ◌<◌, String, ltb, true, none, some, List, [], ◌∷◌, ◌≡◌, refl, sym, subst, length, keep, All,
  Bool-cases, inl, inr, ap, ◌∙◌,
}
use saa_sweave.Prelude.Sql.{first_where}
use saa_sweave.RateLimit.{RateLimitFailureMode}
use saa_sweave.Cache.Client.{
  RedisClient, Codec, Settings, max_tag_cardinality, full_key, version_of,
}
use saa_sweave.Cache.Redis.{cache_get, cache_invalidate_tag}
use saa_sweave.Cache.Versions.{Serves, RoundTrips, version, version_key}
use saa_sweave.Cache.Invalidation.{HasOwnKey, envelope, cache_get-cache_set, invalidated_is_missed}
use saa_sweave.ApiKeys.Keys.{CachedApiKeyRecord, KeyStore, api_key_cache_tag}
use saa_sweave.ApiKeys.Checks.{verify-LeavesAlone}
use saa_sweave.ApiKeys.Verify.{
  is_revocable, is_live, is_bearer, auth_of, invalidate_api_key_cache, revoke_api_key, get_options,
  set_options, store_record, select_live, selected, verify_api_key,
}
use saa_sweave.ApiKeys.Answers.{
  Check, IsSeparate, run_checks, IsKeyOf, no_live_row, listed_tag, get-set_options,
  missed_is_refused, cached_is_verified,
}

module _ {S : Type 0} {client : RedisClient S} (serves : Serves client)
    (codec : Codec CachedApiKeyRecord) (settings : Settings)
    (configured : settings.redis_configured ≡ true) (mode : RateLimitFailureMode)
    (sha256 : String → String) (now : ℕ) (secret : String) (r : CachedApiKeyRecord)
    (st : KeyStore S)
    (round : RoundTrips codec
      (envelope serves settings st.cache.redis now (some r) (api_key_cache_tag r.id ∷ [])))
    (own : HasOwnKey settings
      (full_key settings (sha256 secret) (set_options mode r.id))
      (api_key_cache_tag r.id ∷ [])) where
  abbrev before : KeyStore S
  before = store_record client codec settings mode now (sha256 secret) r st

  module _ (n revoked_at later : ℕ)
      (current : version serves settings st.cache.redis (api_key_cache_tag r.id) ≡ some n)
      (below : n < max_tag_cardinality)
      (only : IsKeyOf (sha256 secret) r.organization_id r.id st.api_key) where
    abbrev after : KeyStore S
    after = (revoke_api_key client codec settings mode revoked_at r.organization_id r.id before).1

    no_row :
        (revoke_api_key client codec settings mode revoked_at r.organization_id r.id before).0
          ≡ true
        → first_where (is_live (sha256 secret)) after.api_key ≡ none
    unfolding revoke_api_key invalidate_api_key_cache store_record
    no_row revoked =
        rw revoked (no_live_row revoked_at (sha256 secret) r.organization_id r.id st.api_key only)

    after_cache :
        (revoke_api_key client codec settings mode revoked_at r.organization_id r.id before).0
          ≡ true
        → after.cache
          ≡ (cache_invalidate_tag client codec settings
              (api_key_cache_tag r.id)
              (some mode)
              before.cache).1
    unfolding revoke_api_key invalidate_api_key_cache
    after_cache revoked = rw revoked refl

    abbrev name : String
    name = full_key settings (sha256 secret) (get_options mode)

    abbrev tag_key : String
    tag_key = version_key serves settings (api_key_cache_tag r.id)

    -- Redis still has what the revocation left of the record and of the version.
    record Forgets (st' : KeyStore S) : Type 0 where
      same_text : serves.value st'.cache.redis name ≡ serves.value after.cache.redis name
      same_version : serves.value st'.cache.redis tag_key ≡ serves.value after.cache.redis tag_key
      gone : first_where (is_live (sha256 secret)) st'.api_key ≡ none

    missed :
        (revoke_api_key client codec settings mode revoked_at r.organization_id r.id before).0
          ≡ true
        → (st' : KeyStore S) → Forgets st'
        → (now' : ℕ)
        → cache_get client codec settings now' (sha256 secret) (get_options mode) st'.cache
          ≡ (none, st'.cache)
    unfolding store_record
    missed revoked st' forgets now' =
        let left = after_cache revoked in
        rw (get-set_options client codec settings mode now' r.id (sha256 secret) st'.cache) (
          invalidated_is_missed serves codec settings configured now (sha256 secret) (some r)
            (set_options mode r.id) st.cache round own now' (api_key_cache_tag r.id) (some mode) n
            (listed_tag (api_key_cache_tag r.id)) current below st'.cache
            (forgets.same_text ∙ ap (λ c. serves.value c.redis name) left)
            (ap version_of (forgets.same_version ∙ ap (λ c. serves.value c.redis tag_key) left)))

    refused :
        (revoke_api_key client codec settings mode revoked_at r.organization_id r.id before).0
          ≡ true
        → (st' : KeyStore S) → Forgets st'
        → (c : Check) → sha256 c.secret ≡ sha256 secret
        → verify_api_key client codec settings mode sha256 c.at c.secret st' ≡ (none, st')
    refused revoked st' forgets c same =
        missed_is_refused client codec settings mode sha256 c.at c.secret st'
          (rw same (missed revoked st' forgets c.at)) (rw same forgets.gone)

    verified-Forgets :
        (revoke_api_key client codec settings mode revoked_at r.organization_id r.id before).0
          ≡ true
        → (c : Check) → IsSeparate settings mode sha256 secret r.id c
        → (st' : KeyStore S) → Forgets st'
        → Forgets (verify_api_key client codec settings mode sha256 c.at c.secret st').1
    verified-Forgets revoked c (inl same) st' forgets =
        subst (λ p. Forgets p.1) (sym (refused revoked st' forgets c same)) forgets
    verified-Forgets revoked c (inr (apart, apart_tag)) st' forgets =
        let of_text =
          verify-LeavesAlone serves codec settings configured mode sha256 c.at c.secret name
            (sha256 secret) apart st' in
        let of_version =
          verify-LeavesAlone serves codec settings configured mode sha256 c.at c.secret tag_key
            (sha256 secret) apart_tag st' in
        record {
          same_text = of_text.same_text ∙ forgets.same_text;
          same_version = of_version.same_text ∙ forgets.same_version;
          gone = of_text.no_live forgets.gone;
        }

    run_checks-Forgets :
        (revoke_api_key client codec settings mode revoked_at r.organization_id r.id before).0
          ≡ true
        → (cs : List Check) → All (IsSeparate settings mode sha256 secret r.id) cs
        → (st' : KeyStore S) → Forgets st'
        → Forgets (run_checks client codec settings mode sha256 cs st')
    unfolding run_checks
    run_checks-Forgets revoked [] separate st' forgets = forgets
    run_checks-Forgets revoked (c ∷ cs) (apart, separate) st' forgets =
        run_checks-Forgets revoked cs separate
          (verify_api_key client codec settings mode sha256 c.at c.secret st').1
          (verified-Forgets revoked c apart st' forgets)

    -- When the record of a key has been stored in the cache and the revocation of the key, run
    -- directly after it, has answered true, a check of its secret is refused after any sequence of
    -- checks, of this secret or of others, that begin after the revocation and run to their ends
    -- one after the other with nothing else between, over a configured Redis that serves every
    -- command and lets no key expire, as long as the version of the tag of the key is below
    -- 10,000, every row with the hash is that key, the envelope of the record survives its JSON
    -- text, the key of the record is not that of the version, and a check of another hash uses
    -- neither of these two keys in the cache.
    pub revoked_key_is_refused :
        (revoke_api_key client codec settings mode revoked_at r.organization_id r.id before).0
          ≡ true
        → (cs : List Check) → All (IsSeparate settings mode sha256 secret r.id) cs
        → (verify_api_key client codec settings mode sha256 later secret
            (run_checks client codec settings mode sha256 cs after)).0
          ≡ none
    revoked_key_is_refused revoked cs separate =
        let forgets =
          run_checks-Forgets revoked cs separate after
            (record { same_text = refl; same_version = refl; gone = no_row revoked }) in
        ap (λ p. p.0)
          (refused revoked (run_checks client codec settings mode sha256 cs after) forgets
            (record { at = later; secret = secret }) refl)

  stored_is_verified :
      (later : ℕ)
      → is_bearer secret ≡ true
      → (verify_api_key client codec settings mode sha256 later secret before).0 ≡ some (auth_of r)
  unfolding store_record
  stored_is_verified later bearer =
      cached_is_verified client codec settings mode sha256 later secret before r bearer (
        rw (get-set_options client codec settings mode later r.id (sha256 secret) before.cache) (
          cache_get-cache_set serves codec settings configured now (sha256 secret) (some r)
            (set_options mode r.id) st.cache round own later))

module _ {S : Type 0} {client : RedisClient S} (serves : Serves client)
    (codec : Codec CachedApiKeyRecord) (settings : Settings)
    (configured : settings.redis_configured ≡ true) (mode : RateLimitFailureMode)
    (sha256 : String → String) (revoked_at now : ℕ) (secret : String) (r : CachedApiKeyRecord)
    (st : KeyStore S) where
  abbrev revoked : KeyStore S
  revoked = (revoke_api_key client codec settings mode revoked_at r.organization_id r.id st).1

  -- The check's lookup read the row in `st`, and goes on after the revocation.
  abbrev looked_up : KeyStore S
  looked_up =
      (selected client codec settings mode now (sha256 secret) (select_live (sha256 secret) st)
        revoked).1

  no_live_row_after :
      IsKeyOf (sha256 secret) r.organization_id r.id st.api_key
      → first_where (is_live (sha256 secret)) revoked.api_key ≡ none
  unfolding revoke_api_key invalidate_api_key_cache
  no_live_row_after only =
      let gone = no_live_row revoked_at (sha256 secret) r.organization_id r.id st.api_key only in
      elim (Bool-cases (ltb 0 (length (keep (is_revocable r.organization_id r.id) st.api_key)))) [
        | inl e ↦ rw e gone
        | inr e ↦ rw e gone
      ]

  -- A check that reads the row of a live key before a revocation and stores its record after it
  -- leaves no live row with the hash, and yet every later check accepts the secret, over a
  -- configured Redis that serves every command and lets no key expire, if every row with the hash
  -- is that key, the envelope of the record survives its JSON text and the key of the record is
  -- not that of the version of the tag.
  pub revoked_key_is_verified :
      RoundTrips codec
        (envelope serves settings revoked.cache.redis now (some r) (api_key_cache_tag r.id ∷ []))
      → HasOwnKey settings
          (full_key settings (sha256 secret) (set_options mode r.id))
          (api_key_cache_tag r.id ∷ [])
      → IsKeyOf (sha256 secret) r.organization_id r.id st.api_key
      → select_live (sha256 secret) st ≡ some r
      → is_bearer secret ≡ true
      → (later : ℕ)
      → (first_where (is_live (sha256 secret)) looked_up.api_key ≡ none)
        × ((verify_api_key client codec settings mode sha256 later secret looked_up).0
            ≡ some (auth_of r))
  unfolding selected store_record
  revoked_key_is_verified round own only found bearer later =
      subst
        (λ o.
          let st' = (selected client codec settings mode now (sha256 secret) o revoked).1 in
          (first_where (is_live (sha256 secret)) st'.api_key ≡ none)
          × ((verify_api_key client codec settings mode sha256 later secret st').0
              ≡ some (auth_of r)))
        (sym found)
        (
          no_live_row_after only,
          stored_is_verified serves codec settings configured mode sha256 now secret r revoked round
              own later bearer,
        )

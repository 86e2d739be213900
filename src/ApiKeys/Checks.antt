-- ===== src/ApiKeys/Checks.antt =====
-- What `verifyApiKey` of packages/api/src/lib/api-keys.ts leaves alone: texts under other keys in a Redis that
-- serves every command, and the hashes of the live rows.
use saa_sweave.Prelude.{
  ℕ, String, true, Option, none, some, List, [], ◌∷◌, ◌≡◌, ◌≢◌, refl, ap, ◌∙◌, arith, Bool-cases,
  inl, inr,
}
use text.Mathlib.Text.{◌==◌ as str_eq}
use saa_sweave.Prelude.Sql.{update_where, first_where}
use saa_sweave.RateLimit.{RateLimitFailureMode}
use saa_sweave.Cache.Client.{RedisClient, Codec, Settings, full_key}
use saa_sweave.Cache.Redis.{cache_get}
use saa_sweave.Cache.Versions.{Serves}
use saa_sweave.Cache.Others.{cache_get-redis, cache_set-others}
use saa_sweave.ApiKeys.Keys.{ApiKeyRow, CachedApiKeyRecord, KeyStore}
use saa_sweave.ApiKeys.Verify.{
  is_live, is_bearer, is_stale, get_options, set_options, store_record, select_live, selected,
  cached_or_selected, lookup_api_key_by_hash, refresh, used_by, verify_looked_up, verify_api_key,
}

no_live-used :
    (key_hash id : String) (now : ℕ) (rows : List ApiKeyRow)
    → first_where (is_live key_hash) rows ≡ none
    → first_where (is_live key_hash) (
        update_where (λ row. str_eq row.id id) (λ row. record row { last_used_at = some now }) rows)
      ≡ none
no_live-used key_hash id now [] h = refl
no_live-used key_hash id now (row ∷ rows) h = ground (arith, no_live-used key_hash id now rows, h)

module _ {S : Type 0} {client : RedisClient S} (serves : Serves client)
    (codec : Codec CachedApiKeyRecord) (settings : Settings)
    (configured : settings.redis_configured ≡ true) (mode : RateLimitFailureMode) where
  -- Redis has the same text under a name, and no row becomes live.
  pub record LeavesAlone (name key_hash : String) (st st' : KeyStore S) : Type 0 where
    pub same_text : serves.value st'.cache.redis name ≡ serves.value st.cache.redis name
    pub no_live :
        first_where (is_live key_hash) st.api_key ≡ none
        → first_where (is_live key_hash) st'.api_key ≡ none

  module _ (now : ℕ) (hash name key_hash : String)
      (other : full_key settings hash (get_options mode) ≢ name) where
    store_record-LeavesAlone :
        (r : CachedApiKeyRecord) (st : KeyStore S)
        → LeavesAlone name key_hash st (store_record client codec settings mode now hash r st)
    unfolding store_record
    store_record-LeavesAlone r st = record {
      same_text =
          cache_set-others serves codec settings configured now hash (some r)
            (set_options mode r.id) st.cache name other;
      no_live = λ h. h;
    }

    selected-LeavesAlone :
        (row : Option CachedApiKeyRecord) (st : KeyStore S)
        → LeavesAlone name key_hash st (selected client codec settings mode now hash row st).1
    unfolding selected
    selected-LeavesAlone none st = record { same_text = refl; no_live = λ h. h }
    selected-LeavesAlone (some r) st = store_record-LeavesAlone r st

    cached_or_selected-LeavesAlone :
        (cached : Option CachedApiKeyRecord) (st : KeyStore S)
        → LeavesAlone name key_hash st
            (cached_or_selected client codec settings mode now hash cached st).1
    unfolding cached_or_selected
    cached_or_selected-LeavesAlone (some r) st = record { same_text = refl; no_live = λ h. h }
    cached_or_selected-LeavesAlone none st = selected-LeavesAlone (select_live hash st) st

    lookup-LeavesAlone :
        (st : KeyStore S)
        → LeavesAlone name key_hash st
            (lookup_api_key_by_hash client codec settings mode now hash st).1
    unfolding lookup_api_key_by_hash
    lookup-LeavesAlone st =
        let (cached, cache) =
          cache_get client codec settings now hash (get_options mode) st.cache in
        let rest = cached_or_selected-LeavesAlone cached (record st { cache = cache }) in
        record {
          same_text =
              rest.same_text
              ∙ ap (λ s. serves.value s name)
                  (cache_get-redis serves codec settings configured now hash (get_options mode)
                    st.cache);
          no_live = rest.no_live;
        }

    refresh-LeavesAlone :
        (r : CachedApiKeyRecord) (st : KeyStore S)
        → LeavesAlone name key_hash st (refresh client codec settings mode now hash r st)
    unfolding refresh
    refresh-LeavesAlone r st =
        let used = record st {
          api_key =
              update_where (λ row. str_eq row.id r.id)
                (λ row. record row { last_used_at = some now }) st.api_key;
        } in
        let rest = store_record-LeavesAlone (record r { last_used_at = some now }) used in
        record {
          same_text = rest.same_text;
          no_live = λ h. rest.no_live (no_live-used key_hash r.id now st.api_key h);
        }

    used_by-LeavesAlone :
        (found : Option CachedApiKeyRecord) (st : KeyStore S)
        → LeavesAlone name key_hash st (used_by client codec settings mode now hash found st).1
    unfolding used_by
    used_by-LeavesAlone none st = record { same_text = refl; no_live = λ h. h }
    used_by-LeavesAlone (some r) st = elim (Bool-cases (is_stale now r.last_used_at)) [
      | inl e ↦ rw e (refresh-LeavesAlone r st)
      | inr e ↦ rw e (record { same_text = refl; no_live = λ h. h })
    ]

  pub verify-LeavesAlone :
      (sha256 : String → String) (now : ℕ) (secret name key_hash : String)
      → full_key settings (sha256 secret) (get_options mode) ≢ name
      → (st : KeyStore S)
      → LeavesAlone name key_hash st
          (verify_api_key client codec settings mode sha256 now secret st).1
  unfolding verify_api_key verify_looked_up
  verify-LeavesAlone sha256 now secret name key_hash other st =
      let (found, st') = lookup_api_key_by_hash client codec settings mode now (sha256 secret) st in
      let first = lookup-LeavesAlone now (sha256 secret) name key_hash other st in
      let second = used_by-LeavesAlone now (sha256 secret) name key_hash other found st' in
      elim (Bool-cases (is_bearer secret)) [
        | inl e ↦ rw e (record {
          same_text = second.same_text ∙ first.same_text;
          no_live = λ h. second.no_live (first.no_live h);
        })
        | inr e ↦ rw e (record { same_text = refl; no_live = λ h. h })
      ]

-- ===== src/ApiKeys/Tests.antt =====
-- Tests of the API keys on a server that keeps texts, and the theorems at concrete inputs.
use saa_sweave.Prelude.{
  String, true, false, List, All, inl, inr, map, none, some, [], ◌∷◌, ◌≡◌, refl, sym, arith, eq_iff,
}
use saa_sweave.Prelude.Table.{Table, lookup}
use saa_sweave.Prelude.Text.{trim, joined, starts_with, fits}
use saa_sweave.Prelude.Sql.{first_where}
use saa_sweave.RateLimit.{fail_closed}
use saa_sweave.Cache.Keys.{cache_key, tag_version_key}
use saa_sweave.Cache.Refine.{empty_memory}
use saa_sweave.Cache.Client.{CacheEnvelope, Codec, full_key, version_of}
use saa_sweave.Cache.Redis.{reset_version, cache_get, cache_invalidate_tag}
use saa_sweave.Cache.Versions.{RoundTrips, version}
use saa_sweave.Cache.Invalidation.{HasOwnKey, envelope}
use saa_sweave.Cache.Server.{server, serves, settings}
use saa_sweave.ApiKeys.Scopes.{
  read_only, has, resolve_api_key_scopes, scopes_from_preset, api_key_has_scopes,
  normalize_api_key_scopes_input, unique_after, assert_api_key_scopes,
}
use saa_sweave.ApiKeys.Keys.{
  ApiKeyRow, CachedApiKeyRecord, KeyStore, api_key_cache_tag, first_chars, generate_secret,
  list_api_keys, create_api_key, insert_key, chosen_scopes,
}
use saa_sweave.ApiKeys.Verify.{
  get_options, is_live, is_bearer, auth_of, revoke_api_key, invalidate_api_key_cache, set_options,
  store_record, select_live, selected, verify_api_key,
}
use saa_sweave.ApiKeys.Granted.{created_key_is_verified}
use saa_sweave.ApiKeys.Revoked.{revoked_key_is_refused, revoked_key_is_verified}
use saa_sweave.ApiKeys.Answers.{IsKeyOf, Check, IsSeparate, run_checks}

duplicates_are_dropped :
    normalize_api_key_scopes_input ("audit:read" ∷ "usage:read" ∷ "audit:read" ∷ [])
    ≡ some ("audit:read" ∷ "usage:read" ∷ [])
unfolding normalize_api_key_scopes_input unique_after has
duplicates_are_dropped = refl

unknown_scope_throws : normalize_api_key_scopes_input ("audit:write" ∷ []) ≡ none
unfolding normalize_api_key_scopes_input unique_after has
unknown_scope_throws = refl

read_only_cannot_write :
    api_key_has_scopes (scopes_from_preset read_only) ("usage:write" ∷ []) ≡ false
unfolding api_key_has_scopes resolve_api_key_scopes scopes_from_preset has
read_only_cannot_write = refl

no_scope_is_every_scope : assert_api_key_scopes true [] ("usage:write" ∷ []) ≡ true
unfolding assert_api_key_scopes api_key_has_scopes resolve_api_key_scopes has
no_scope_is_every_scope = refl

-- A hash that only marks its input.
abbrev marked : String → String
marked s = joined "h" s

abbrev no_keys : KeyStore (Table String)
no_keys = record { api_key = []; user = []; cache = record { redis = []; memory = empty_memory } }

abbrev the_row : ApiKeyRow
the_row = record {
  created_at = 5;
  created_by = some "u1";
  id = "k1";
  key_hash = marked "swv_abcdefghij";
  key_prefix = "swv_abcdefg…";
  last_used_at = none;
  name = "ci";
  organization_id = "o1";
  revoked_at = none;
  scopes = "usage:read" ∷ "audit:read" ∷ [];
}

abbrev the_record : CachedApiKeyRecord
the_record = record {
  id = "k1";
  last_used_at = none;
  organization_id = "o1";
  scopes = "usage:read" ∷ "audit:read" ∷ [];
}

abbrev with_key : KeyStore (Table String)
with_key = record no_keys { api_key = the_row ∷ [] }

created :
    create_api_key marked 5 "k1" "abcdefghij" "o1" "ci" "u1" (some read_only) none no_keys
    ≡ some (("swv_abcdefghij", "usage:read" ∷ "audit:read" ∷ []), with_key)
unfolding create_api_key insert_key generate_secret chosen_scopes scopes_from_preset first_chars
    joined
created = refl

listed_names : map (λ row. row.name) (list_api_keys "o1" with_key) ≡ "ci" ∷ []
unfolding list_api_keys
listed_names = refl

abbrev key_codec : CacheEnvelope CachedApiKeyRecord → Codec CachedApiKeyRecord
key_codec e = record {
  stringify = λ e'. some "{}";
  parse = λ text. some e;
  stringify_value = λ v. some "{}";
}

missed :
    (e : CacheEnvelope CachedApiKeyRecord)
    → (cache_get server
        (key_codec e)
        (settings true)
        9
        (marked "swv_abcdefghij")
        (get_options fail_closed)
        no_keys.cache).0
      ≡ none
unfolding cache_get lookup joined
missed e = refl

-- The envelope of the record, in the state of Redis in which no tag was invalidated.
abbrev key_envelope : Table String → CacheEnvelope CachedApiKeyRecord
key_envelope s =
    envelope serves (settings true) s 10 (some the_record) (api_key_cache_tag "k1" ∷ [])

abbrev round : (e : CacheEnvelope CachedApiKeyRecord) → RoundTrips (key_codec e) e
round e = record { text = "{}"; stringify_lem = refl; parse-text = refl; text_not_empty = refl }

own_key :
    HasOwnKey
      (settings true)
      (full_key (settings true) (marked "swv_abcdefghij") (set_options fail_closed "k1"))
      (api_key_cache_tag "k1" ∷ [])
unfolding cache_key tag_version_key trim joined
own_key =
    (λ e. cc (sym ((eq_iff "ssw:api-keys:hswv_abcdefghij" "ssw:tag-version:api-key:k1").1 e)), tt)

is_bearer_secret : is_bearer "swv_abcdefghij" ≡ true
unfolding starts_with fits
is_bearer_secret = refl

created_key_is_verified_example :
    (verify_api_key server
      (key_codec (key_envelope []))
      (settings true)
      fail_closed
      marked
      9
      "swv_abcdefghij"
      with_key).0
    ≡ some (record { id = "k1"; organization_id = "o1"; scopes = "usage:read" ∷ "audit:read" ∷ [] })
unfolding joined
created_key_is_verified_example =
    created_key_is_verified server (key_codec (key_envelope [])) (settings true) fail_closed marked
      5 9 "k1" "abcdefghij" "o1" "ci" "u1" (some read_only) none no_keys tt
      (missed (key_envelope [])) "swv_abcdefghij" ("usage:read" ∷ "audit:read" ∷ []) with_key
      created

version_zero : version serves (settings true) [] (api_key_cache_tag "k1") ≡ some 0
unfolding lookup version_of
version_zero = refl

the_only : IsKeyOf (marked "swv_abcdefghij") "o1" "k1" with_key.api_key
the_only = ((λ e. (refl, refl)), tt)

-- A check of another secret, and one of the revoked key.
abbrev two_checks : List Check
two_checks =
    record { at = 12; secret = "swv_klmnopqrst" }
    ∷ record { at = 13; secret = "swv_abcdefghij" }
    ∷ []

two_checks-IsSeparate :
    All (IsSeparate (settings true) fail_closed marked "swv_abcdefghij" "k1") two_checks
unfolding cache_key tag_version_key trim joined
two_checks-IsSeparate = (
  inr (
    λ e. cc (sym ((eq_iff "ssw:api-keys:hswv_klmnopqrst" "ssw:api-keys:hswv_abcdefghij").1 e)),
    λ e. cc (sym ((eq_iff "ssw:api-keys:hswv_klmnopqrst" "ssw:tag-version:api-key:k1").1 e)),
  ),
  (inl refl, tt),
)

revoked_key_is_refused_example :
    let c = key_codec (key_envelope []) in
    let st =
      store_record server c
        (settings true)
        fail_closed
        10
        (marked "swv_abcdefghij")
        the_record
        with_key in
    (verify_api_key server c (settings true) fail_closed marked 14 "swv_abcdefghij" (
      run_checks server c
        (settings true)
        fail_closed
        marked
        two_checks
        (revoke_api_key server c (settings true) fail_closed 11 "o1" "k1" st).1)).0
    ≡ none
unfolding revoke_api_key store_record
revoked_key_is_refused_example =
    revoked_key_is_refused serves (key_codec (key_envelope [])) (settings true) refl fail_closed
      marked 10 "swv_abcdefghij" the_record with_key (round (key_envelope [])) own_key 0 11 14
      version_zero (omega arith) the_only refl two_checks two_checks-IsSeparate

-- The state after the revocation.
abbrev after_revocation : (e : CacheEnvelope CachedApiKeyRecord) → KeyStore (Table String)
after_revocation e =
    (revoke_api_key server (key_codec e) (settings true) fail_closed 8 "o1" "k1" with_key).1

abbrev late_envelope : CacheEnvelope CachedApiKeyRecord
late_envelope = key_envelope (after_revocation (key_envelope [])).cache.redis

late_round :
    RoundTrips (key_codec late_envelope) (key_envelope (after_revocation late_envelope).cache.redis)
unfolding revoke_api_key invalidate_api_key_cache cache_invalidate_tag version_of lookup
    reset_version
late_round = record { text = "{}"; stringify_lem = refl; parse-text = refl; text_not_empty = refl }

selected_record : select_live (marked "swv_abcdefghij") with_key ≡ some the_record
unfolding resolve_api_key_scopes has joined
selected_record = refl

revoked_key_is_verified_example :
    let c = key_codec late_envelope in
    let st =
      (selected server c
        (settings true)
        fail_closed
        10
        (marked "swv_abcdefghij")
        (select_live (marked "swv_abcdefghij") with_key)
        (after_revocation late_envelope)).1 in
    (first_where (is_live (marked "swv_abcdefghij")) st.api_key ≡ none)
    × ((verify_api_key server c (settings true) fail_closed marked 13 "swv_abcdefghij" st).0
        ≡ some (auth_of the_record))
revoked_key_is_verified_example =
    revoked_key_is_verified serves (key_codec late_envelope) (settings true) refl fail_closed marked
      8 10 "swv_abcdefghij" the_record with_key late_round own_key the_only selected_record
      is_bearer_secret 13

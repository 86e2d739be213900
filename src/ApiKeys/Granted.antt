-- ===== src/ApiKeys/Granted.antt =====
-- What a key that `createApiKey` of packages/api/src/lib/api-keys.ts made is granted by `verifyApiKey`.
use saa_sweave.Prelude.{
  ℕ, String, Bool, true, false, not, Option, none, some, List, [], ◌∷◌, ◌++◌, ◌≡◌, refl, ◌∙◌, subst,
  arith, ltb, ◌==◌, if◌then◌else◌, or_else, length, keep, All, Bool-cases, inl, inr,
}
use text.Mathlib.TextPositions.{eq_refl}
use saa_sweave.Prelude.Text.{starts_with, fits, joined}
use saa_sweave.Prelude.Sql.{first_where}
use saa_sweave.RateLimit.{RateLimitFailureMode}
use saa_sweave.Cache.Client.{RedisClient, Codec, Settings}
use saa_sweave.Cache.Redis.{cache_get}
use saa_sweave.ApiKeys.Scopes.{
  ApiKeyScopePreset, full, integration, read_only, api_key_scopes, has, resolve_api_key_scopes,
  scopes_from_preset, normalize_api_key_scopes_input, unique_after,
}
use saa_sweave.ApiKeys.Keys.{
  ApiKeyRow, CachedApiKeyRecord, KeyStore, generate_secret, chosen_scopes, insert_key,
  create_api_key,
}
use saa_sweave.ApiKeys.Verify.{
  is_live, is_bearer, auth_of, record_of, get_options, selected, cached_or_selected,
  lookup_api_key_by_hash, used_by, verify_looked_up, verify_api_key,
}

abbrev pub granted_of : List String → List String
granted_of scopes = if length scopes == 0 then api_key_scopes else scopes

abbrev AreKnown : List String → Type 0
AreKnown = All (λ s. has s api_key_scopes ≡ true)

keep_known :
    (scopes : List String) → AreKnown scopes → keep (λ s. has s api_key_scopes) scopes ≡ scopes
keep_known [] h = refl
keep_known (s ∷ scopes) h = rw (h.0, keep_known scopes h.1) refl

resolve_known :
    (scopes : List String) → AreKnown scopes → resolve_api_key_scopes scopes ≡ granted_of scopes
unfolding resolve_api_key_scopes
resolve_known scopes h = rw (keep_known scopes h) refl

known_of_none_invalid :
    (scopes : List String)
    → ltb 0 (length (keep (λ s. not (has s api_key_scopes)) scopes)) ≡ false
    → AreKnown scopes
known_of_none_invalid [] h = tt
known_of_none_invalid (s ∷ scopes) h = elim (Bool-cases (has s api_key_scopes)) [
  | inl e ↦ (e, known_of_none_invalid scopes (rw e at h))
  | inr e ↦ ground (arith, rw e at h)
]

preset_is_known : (preset : ApiKeyScopePreset) → AreKnown (scopes_from_preset preset)
unfolding scopes_from_preset has
preset_is_known full = (refl, (refl, (refl, (refl, (refl, tt)))))
preset_is_known integration = (refl, (refl, (refl, (refl, tt))))
preset_is_known read_only = (refl, (refl, tt))

abbrev AreAllKnown : Option (List String) → Type 0
AreAllKnown none = Unit
AreAllKnown (some scopes) = AreKnown scopes

chosen_are_known :
    (scopes : Option (List String)) (preset : Option ApiKeyScopePreset)
    → AreAllKnown (chosen_scopes scopes preset)
unfolding chosen_scopes normalize_api_key_scopes_input
chosen_are_known none preset = preset_is_known (or_else preset integration)
chosen_are_known (some scopes) preset =
    let unique = unique_after [] scopes in
    elim (Bool-cases (ltb 0 (length (keep (λ s. not (has s api_key_scopes)) unique)))) [
      | inl e ↦ rw e tt
      | inr e ↦ rw e (known_of_none_invalid unique e)
    ]

is_bearer-joined : (token : String) → is_bearer (joined "swv_" token) ≡ true
unfolding starts_with fits joined
is_bearer-joined token = refl

first-append :
    {A : Type 0} (p : A → Bool) (xs : List A) (x : A)
    → All (λ y. p y ≡ false) xs
    → p x ≡ true
    → first_where p (xs ++ x ∷ []) ≡ some x
first-append p [] x h e = rw e refl
first-append p (y ∷ ys) x h e = rw (h.0) (first-append p ys x h.1 e)

module _ {S : Type 0} (client : RedisClient S) (codec : Codec CachedApiKeyRecord)
    (settings : Settings) (mode : RateLimitFailureMode) (sha256 : String → String) (now : ℕ)
    (secret : String) (st : KeyStore S) where
  selected_is_verified :
      (row : ApiKeyRow)
      → is_bearer secret ≡ true
      → (cache_get client codec settings now (sha256 secret) (get_options mode) st.cache).0 ≡ none
      → first_where (is_live (sha256 secret)) st.api_key ≡ some row
      → (verify_api_key client codec settings mode sha256 now secret st).0
        ≡ some (auth_of (record_of row))
  unfolding verify_api_key lookup_api_key_by_hash verify_looked_up cached_or_selected selected
      used_by
  selected_is_verified row bearer missed found = rw (bearer, missed, found) refl

module _ {S : Type 0} (client : RedisClient S) (codec : Codec CachedApiKeyRecord)
    (settings : Settings) (mode : RateLimitFailureMode) (sha256 : String → String) (now later : ℕ)
    (id token organization_id name created_by : String) (preset : Option ApiKeyScopePreset)
    (scopes : Option (List String)) (st : KeyStore S)
    (fresh : All (λ row. is_live (sha256 (joined "swv_" token)) row ≡ false) st.api_key)
    (missed : (cache_get client codec settings later
        (sha256 (joined "swv_" token))
        (get_options mode)
        st.cache).0
      ≡ none) where
  -- What the answer of `createApiKey` promises about the check of its secret.
  abbrev IsVerified : Option ((String × List String) × KeyStore S) → Type 0
  IsVerified none = Unit
  IsVerified (some ((secret, chosen), st')) =
      (verify_api_key client codec settings mode sha256 later secret st').0
      ≡ some (record { id = id; organization_id = organization_id; scopes = granted_of chosen })

  inserted-IsVerified :
      (chosen : Option (List String))
      → AreAllKnown chosen
      → IsVerified (insert_key sha256 now id token organization_id name created_by chosen st)
  unfolding insert_key generate_secret joined
  inserted-IsVerified none h = tt
  inserted-IsVerified (some chosen) h =
      let secret = joined "swv_" token in
      let row : ApiKeyRow = record {
        created_at = now;
        created_by = some created_by;
        id = id;
        key_hash = sha256 secret;
        key_prefix = (generate_secret token).1;
        last_used_at = none;
        name = name;
        organization_id = organization_id;
        revoked_at = none;
        scopes = chosen;
      } in
      let st' = record st { api_key = st.api_key ++ row ∷ [] } in
      selected_is_verified client codec settings mode sha256 later secret st' row
        (is_bearer-joined token) missed
        (first-append (is_live (sha256 secret)) st.api_key row fresh
          (rw (eq_refl (sha256 secret)) refl))
      ∙ rw (resolve_known chosen h) refl

  -- When no live row has the hash of the new secret and the cache has no record of it, the secret
  -- of a created key is verified with the id and the organization of the key, and with the scopes
  -- that its creation answered or, if these are none, with all scopes.
  pub created_key_is_verified :
      (secret : String) (chosen : List String) (st' : KeyStore S)
      → create_api_key sha256 now id token organization_id name created_by preset scopes st
        ≡ some ((secret, chosen), st')
      → (verify_api_key client codec settings mode sha256 later secret st').0
        ≡ some (record { id = id; organization_id = organization_id; scopes = granted_of chosen })
  unfolding create_api_key
  created_key_is_verified secret chosen st' e =
      subst IsVerified e
        (inserted-IsVerified (chosen_scopes scopes preset) (chosen_are_known scopes preset))

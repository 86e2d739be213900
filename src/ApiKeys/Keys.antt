-- ===== src/ApiKeys/Keys.antt =====
-- packages/api/src/lib/api-keys.ts: the table of keys beside the cache of their records. The random
-- token and id, the SHA-256 digest and the security failure mode are arguments.
use saa_sweave.Prelude.{
  ℕ, zero, suc, String, Option, none, some, List, [], ◌∷◌, ◌++◌, or_else, keep, map,
}
use mathlib.Core.Option
use text.Mathlib.Text.{◌==◌ as str_eq}
use saa_sweave.Prelude.Text.{joined}
use saa_sweave.Prelude.Sql.{first_where, sort_by_desc}
use saa_sweave.Cache.Client.{State}
use saa_sweave.ApiKeys.Scopes.{
  ApiKeyScopePreset, integration, resolve_api_key_scopes, scopes_from_preset,
  normalize_api_key_scopes_input,
}

pub record ApiKeyRow : Type 0 where
  pub created_at : ℕ
  pub created_by : Option String
  pub id : String
  pub key_hash : String
  pub key_prefix : String
  pub last_used_at : Option ℕ
  pub name : String
  pub organization_id : String
  pub revoked_at : Option ℕ
  pub scopes : List String

pub record CachedApiKeyRecord : Type 0 where
  pub id : String
  pub last_used_at : Option ℕ
  pub organization_id : String
  pub scopes : List String

pub record ApiKeySummary : Type 0 where
  pub id : String
  pub name : String
  pub key_prefix : String
  pub scopes : List String
  pub created_at : ℕ
  pub created_by_name : Option String
  pub revoked_at : Option ℕ

pub record ApiKeyAuth : Type 0 where
  pub id : String
  pub organization_id : String
  pub scopes : List String

-- A row of `user`, as far as the list of keys reads it.
pub record User : Type 0 where
  pub id : String
  pub name : String

-- The tables of keys and users, and the cache of key records.
pub record KeyStore (S : Type 0) : Type 0 where
  pub api_key : List ApiKeyRow
  pub user : List User
  pub cache : State S CachedApiKeyRecord

abbrev pub api_key_cache_tag : String → String
api_key_cache_tag id = joined "api-key:" id

-- `secret.slice(0, n)`, of a text of characters that are one unit each
unfoldable pub first_chars : ℕ → String → String
first_chars zero s = ""
first_chars (suc n) String.[] = ""
first_chars (suc n) (String.◌∷◌ c s) = String.◌∷◌ c (first_chars n s)

unfoldable pub generate_secret : String → String × String
unfolding first_chars joined
generate_secret token =
    let secret = joined "swv_" token in (secret, joined (first_chars 11 secret) "…")

abbrev name_of : Option String → List User → Option String
name_of none users = none
name_of (some id) users = Option.map (λ u. u.name) (first_where (λ u. str_eq u.id id) users)

unfoldable pub chosen_scopes :
    Option (List String) → Option ApiKeyScopePreset → Option (List String)
unfolding scopes_from_preset
chosen_scopes none preset = some (scopes_from_preset (or_else preset integration))
chosen_scopes (some scopes) preset = normalize_api_key_scopes_input scopes

module _ {S : Type 0} where
  unfoldable pub list_api_keys : String → KeyStore S → List ApiKeySummary
  list_api_keys organization_id st =
      map
        (λ row. record {
          id = row.id;
          name = row.name;
          key_prefix = row.key_prefix;
          scopes = resolve_api_key_scopes row.scopes;
          created_at = row.created_at;
          created_by_name = name_of row.created_by st.user;
          revoked_at = row.revoked_at;
        })
        (sort_by_desc (λ row. row.created_at)
          (keep (λ row. str_eq row.organization_id organization_id) st.api_key))

  unfoldable pub insert_key :
      (sha256 : String → String) (now : ℕ) (id token organization_id name created_by : String)
      → Option (List String)
      → KeyStore S
      → Option ((String × List String) × KeyStore S)
  unfolding generate_secret
  insert_key sha256 now id token organization_id name created_by none st = none
  insert_key sha256 now id token organization_id name created_by (some scopes) st =
      let (secret, display_prefix) = generate_secret token in
      let row : ApiKeyRow = record {
        created_at = now;
        created_by = some created_by;
        id = id;
        key_hash = sha256 secret;
        key_prefix = display_prefix;
        last_used_at = none;
        name = name;
        organization_id = organization_id;
        revoked_at = none;
        scopes = scopes;
      } in
      some ((secret, scopes), record st { api_key = st.api_key ++ row ∷ [] })

  -- The secret and the scopes; `none` means that it throws.
  unfoldable pub create_api_key :
      (sha256 : String → String) (now : ℕ) (id token organization_id name created_by : String)
      → Option ApiKeyScopePreset
      → Option (List String)
      → KeyStore S
      → Option ((String × List String) × KeyStore S)
  unfolding insert_key chosen_scopes
  create_api_key sha256 now id token organization_id name created_by preset scopes st =
      insert_key sha256 now id token organization_id name created_by (chosen_scopes scopes preset)
        st

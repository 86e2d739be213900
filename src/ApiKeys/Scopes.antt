-- ===== src/ApiKeys/Scopes.antt =====
-- The scopes of packages/core/src/api-keys/scopes.ts, and the check of
-- packages/api/src/lib/api-key-scopes.ts with the answer of isFeatureEnabledForOrg as an argument.
use saa_sweave.Prelude.{
  String, Bool, not, ◌||◌, Option, none, some, List, [], ◌∷◌, ltb, ◌==◌, if◌then◌else◌, any, all,
  keep, length,
}
use text.Mathlib.Text.{◌==◌ as str_eq}

-- API_KEY_SCOPES
abbrev pub api_key_scopes : List String
api_key_scopes =
    "usage:read" ∷ "usage:write" ∷ "webhooks:read" ∷ "webhooks:write" ∷ "audit:read" ∷ []

pub data ApiKeyScopePreset : Type 0 where
  full integration read_only : ApiKeyScopePreset

-- `list.includes(scope)`
unfoldable pub has : String → List String → Bool
has scope scopes = any (λ s. str_eq s scope) scopes

unfoldable pub resolve_api_key_scopes : List String → List String
unfolding has
resolve_api_key_scopes scopes =
    if length scopes == 0 then api_key_scopes else keep (λ s. has s api_key_scopes) scopes

unfoldable pub scopes_from_preset : ApiKeyScopePreset → List String
scopes_from_preset full = api_key_scopes
scopes_from_preset integration =
    "usage:read" ∷ "usage:write" ∷ "webhooks:read" ∷ "webhooks:write" ∷ []
scopes_from_preset read_only = "usage:read" ∷ "audit:read" ∷ []

unfoldable pub api_key_has_scopes : (granted required : List String) → Bool
unfolding resolve_api_key_scopes
api_key_has_scopes granted required = all (λ s. has s (resolve_api_key_scopes granted)) required

-- `[...new Set(scopes)]`, after the elements taken so far
unfoldable pub unique_after : (taken scopes : List String) → List String
unfolding has
unique_after taken [] = []
unique_after taken (s ∷ scopes) =
    let skipped = unique_after taken scopes in
    let kept = s ∷ unique_after (s ∷ taken) scopes in if has s taken then skipped else kept

-- `none` means that it throws.
unfoldable pub normalize_api_key_scopes_input : List String → Option (List String)
unfolding unique_after
normalize_api_key_scopes_input scopes =
    let unique = unique_after [] scopes in
    let invalid = keep (λ s. not (has s api_key_scopes)) unique in
    if ltb 0 (length invalid) then none else some unique

-- Whether `assertApiKeyScopes` returns, by whether the feature `api_key_scopes` is on.
unfoldable pub assert_api_key_scopes : Bool → (granted required : List String) → Bool
unfolding api_key_has_scopes
assert_api_key_scopes scopes_enabled granted required =
    not scopes_enabled || length required == 0 || api_key_has_scopes granted required

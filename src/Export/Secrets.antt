-- ===== src/Export/Secrets.antt =====
-- packages/app/src/data-export/strip-secrets.ts, over JSON values.
use saa_sweave.Prelude.{
  String, ◌≡◌, refl, ap, Bool, true, false, ◌||◌, List, [], ◌∷◌, arith, any, if◌then◌else◌,
  Bool-cases, inl, inr, ◌⊎◌,
}
use text.Mathlib.Text.{◌==◌ as str_eq}
use saa_sweave.Prelude.Json.{Json, Items, Fields}

abbrev pub secret_field_names : List String
secret_field_names =
    "keyHash" ∷ "key_hash" ∷ "secret" ∷ "password" ∷ "token" ∷ "accessToken" ∷ "access_token"
    ∷ "refreshToken" ∷ "refresh_token" ∷ "idToken" ∷ "id_token" ∷ "backupCodes" ∷ "backup_codes"
    ∷ []

unfoldable pub is_secret : String → Bool
is_secret key = any (λ name. str_eq name key) secret_field_names

mutual
  pub strip_secret_fields : Json → Json
  strip_secret_fields Json.null = Json.null
  strip_secret_fields (Json.bool b) = Json.bool b
  strip_secret_fields (Json.num n) = Json.num n
  strip_secret_fields (Json.str s) = Json.str s
  strip_secret_fields (Json.arr items) = Json.arr (strip_items items)
  strip_secret_fields (Json.obj fields) = Json.obj (strip_fields fields)

  strip_items : Items → Items
  strip_items Items.nil = Items.nil
  strip_items (Items.cons v rest) = Items.cons (strip_secret_fields v) (strip_items rest)

  strip_fields : Fields → Fields
  strip_fields Fields.end = Fields.end
  strip_fields (Fields.field key v rest) =
      let others = strip_fields rest in
      if is_secret key then others else Fields.field key (strip_secret_fields v) others

-- Whether an object at any depth has a field with a secret name.
mutual
  pub has_secret : Json → Bool
  has_secret Json.null = false
  has_secret (Json.bool b) = false
  has_secret (Json.num n) = false
  has_secret (Json.str s) = false
  has_secret (Json.arr items) = items_have_secret items
  has_secret (Json.obj fields) = fields_have_secret fields

  items_have_secret : Items → Bool
  items_have_secret Items.nil = false
  items_have_secret (Items.cons v rest) = has_secret v || items_have_secret rest

  pub fields_have_secret : Fields → Bool
  fields_have_secret Fields.end = false
  fields_have_secret (Fields.field key v rest) =
      is_secret key || has_secret v || fields_have_secret rest

mutual
  unfolding strip_secret_fields has_secret

  stripped : (j : Json) → has_secret (strip_secret_fields j) ≡ false
  stripped Json.null = refl
  stripped (Json.bool b) = refl
  stripped (Json.num n) = refl
  stripped (Json.str s) = refl
  stripped (Json.arr items) = items_stripped items
  stripped (Json.obj fields) = fields_stripped fields

  items_stripped : (items : Items) → items_have_secret (strip_items items) ≡ false
  items_stripped Items.nil = refl
  items_stripped (Items.cons v rest) = ground (arith, stripped v, items_stripped rest)

  fields_stripped : (fields : Fields) → fields_have_secret (strip_fields fields) ≡ false
  fields_stripped Fields.end = refl
  fields_stripped (Fields.field key v rest) = ground (arith, stripped v, fields_stripped rest)

mutual
  unfolding strip_secret_fields has_secret

  clean : (j : Json) → has_secret j ≡ false → strip_secret_fields j ≡ j
  clean Json.null h = refl
  clean (Json.bool b) h = refl
  clean (Json.num n) h = refl
  clean (Json.str s) h = refl
  clean (Json.arr items) h = ap Json.arr (items_clean items h)
  clean (Json.obj fields) h = ap Json.obj (fields_clean fields h)

  items_clean : (items : Items) → items_have_secret items ≡ false → strip_items items ≡ items
  items_clean Items.nil h = refl
  items_clean (Items.cons v rest) h =
      cc (clean v (ground (arith, h)), items_clean rest (ground (arith, h)))

  fields_clean :
      (fields : Fields) → fields_have_secret fields ≡ false → strip_fields fields ≡ fields
  fields_clean Fields.end h = refl
  fields_clean (Fields.field key v rest) h =
      let public : is_secret key ≡ false = ground (arith, h) in
      rw public (cc (clean v (ground (arith, h)), fields_clean rest (ground (arith, h))))

-- In what is written to an export no object at any depth has a field with a secret name; a value
-- without such fields is written as it is; and stripping again changes nothing.
pub strip_secret_fields_lem :
    (j : Json)
    → (has_secret (strip_secret_fields j) ≡ false)
      × ((has_secret j ≡ true) ⊎ (strip_secret_fields j ≡ j))
      × (strip_secret_fields (strip_secret_fields j) ≡ strip_secret_fields j)
strip_secret_fields_lem j = (
  stripped j,
  elim (Bool-cases (has_secret j)) [
    | inl some_secret ↦ inl some_secret
    | inr none_secret ↦ inr (clean j none_secret)
  ],
  clean (strip_secret_fields j) (stripped j),
)

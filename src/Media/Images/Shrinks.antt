-- ===== src/Media/Images/Shrinks.antt =====
-- What the operations on media keep of the rows and of the objects.
use saa_sweave.Prelude.{
  ℕ, String, Bool, true, false, not, ◌||◌, Option, none, some, List, [], ◌∷◌, ◌≡◌, inl, inr, refl,
  ◌∙◌, arith, if◌then◌else◌, Bool-cases, eq_iff,
}
use text.Mathlib.Text.{◌==◌ as str_eq}
use mathlib.Core.List.{Memᴰ}
use saa_sweave.Prelude.Table.{Table, lookup}
use saa_sweave.Prelude.Members.{mem_of_keep, mem_of_update_where}
use saa_sweave.Prelude.Sql.{update_where, first_where}
use saa_sweave.Media.Keys.{resolve_safe_media_path}
use saa_sweave.Media.Rows.{is_orphan, is_linked, MediaAsset, StoredObject, MediaStore, remove}
use saa_sweave.Media.Upload.{MediaSettings, StorageCall, delete_call, has_id, is_owned}
use saa_sweave.Media.Complete.{
  delete_named, object_name, delete_media_asset_row, delete_found, delete_media_asset_object,
}
use saa_sweave.Media.Cleanup.{
  chunk_of, is_expired_pending, is_expired_orphan, is_replaced, expire_pending, delete_orphans,
  delete_replaced, delete_missing, is_path_missing, run_media_lifecycle_cleanup,
}

-- What no operation changes of a row.
pub record SameUpload (r r' : MediaAsset) : Type 0 where
  pub same_id : r'.id ≡ r.id
  pub same_key : r'.key ≡ r.key
  pub same_type : r'.content_type ≡ r.content_type
  pub same_purpose : r'.purpose ≡ r.purpose

-- Every row is an old one up to the rest, and every object is an old one.
pub record Shrinks (st st' : MediaStore) : Type 0 where
  pub old_row :
      (r' : MediaAsset)
      → Memᴰ r' st'.media_asset
      → (r : MediaAsset) × Memᴰ r st.media_asset × SameUpload r r'
  pub old_object :
      (name : String) (o : StoredObject)
      → lookup name st'.objects ≡ some o
      → lookup name st.objects ≡ some o

SameUpload-refl : (r : MediaAsset) → SameUpload r r
SameUpload-refl r = record {
  same_id = refl;
  same_key = refl;
  same_type = refl;
  same_purpose = refl;
}

pub Shrinks-refl : (st : MediaStore) → Shrinks st st
Shrinks-refl st = record {
  old_row = λ r' m. (r', m, SameUpload-refl r');
  old_object = λ name o e. e;
}

pub Shrinks-trans : {a b c : MediaStore} → Shrinks a b → Shrinks b c → Shrinks a c
Shrinks-trans ab bc = record {
  old_row = λ r m.
      let (s, n, f) = bc.old_row r m in
      let (t, o, g) = ab.old_row s n in
      (
        t,
        o,
        record {
          same_id = f.same_id ∙ g.same_id;
          same_key = f.same_key ∙ g.same_key;
          same_type = f.same_type ∙ g.same_type;
          same_purpose = f.same_purpose ∙ g.same_purpose;
        },
      );
  old_object = λ name o e. ab.old_object name o (bc.old_object name o e);
}

-- An UPDATE that leaves the upload of each selected row alone.
pub Shrinks-update :
    (p : MediaAsset → Bool) (f : MediaAsset → MediaAsset) (st : MediaStore)
    → ((r : MediaAsset) → Memᴰ r st.media_asset → p r ≡ true → SameUpload r (f r))
    → Shrinks st (record st { media_asset = update_where p f st.media_asset })
Shrinks-update p f st same = record {
  old_row = λ r' m.
      let (r, n, old) = mem_of_update_where p f st.media_asset m in
      (r, n, elim old [ inl e ↦ rw e (SameUpload-refl r) | inr (e, q) ↦ rw e (same r n q) ]);
  old_object = λ name o e. e;
}

Shrinks-delete_row : (id : String) (st : MediaStore) → Shrinks st (delete_media_asset_row id st)
unfolding delete_media_asset_row
Shrinks-delete_row id st = record {
  old_row =
      λ r m. (r, (mem_of_keep (λ x. not (has_id id x)) st.media_asset m).0, SameUpload-refl r);
  old_object = λ name o e. e;
}

pub lookup-remove :
    (name other : String) (objects : Table StoredObject)
    → lookup other (remove name objects)
      ≡ (if str_eq other name then none else lookup other objects)
unfolding lookup remove
lookup-remove name other [] = ground arith
lookup-remove name other (e ∷ objects) = ground (
  arith,
  eq_iff e.key name,
  eq_iff e.key other,
  eq_iff other name,
  lookup-remove name other objects,
)

Shrinks-remove :
    (name : String) (st : MediaStore) → Shrinks st (record st { objects = remove name st.objects })
Shrinks-remove name st = record {
  old_row = λ r m. (r, m, SameUpload-refl r);
  old_object = λ other o e. ground (arith, lookup-remove name other st.objects, e);
}

Shrinks-delete_named :
    (rejects : StorageCall → Bool) (name : Option String) (st : MediaStore)
    → Shrinks st (delete_named rejects name st)
Shrinks-delete_named rejects none st = Shrinks-refl st
Shrinks-delete_named rejects (some name) st = elim (Bool-cases (rejects (delete_call name))) [
  | inl e ↦ rw e (Shrinks-refl st)
  | inr e ↦ rw e (Shrinks-remove name st)
]

Shrinks-delete_found :
    (settings : MediaSettings) (rejects : StorageCall → Bool) (id : String)
    (row : Option MediaAsset) (st : MediaStore)
    → Shrinks st (delete_found settings rejects id row st)
Shrinks-delete_found settings rejects id none st = Shrinks-refl st
Shrinks-delete_found settings rejects id (some row) st =
    Shrinks-trans (Shrinks-delete_named rejects (object_name settings row.key) st)
      (Shrinks-delete_row id (delete_named rejects (object_name settings row.key) st))

pub Shrinks-delete :
    (settings : MediaSettings) (rejects : StorageCall → Bool) (id owner_id : String)
    (st : MediaStore)
    → Shrinks st (delete_media_asset_object settings rejects id owner_id st)
unfolding delete_media_asset_object
Shrinks-delete settings rejects id owner_id st =
    Shrinks-delete_found settings rejects id (first_where (is_owned id owner_id) st.media_asset) st

Shrinks-expire_pending :
    (rs : List MediaAsset) (st : MediaStore) → Shrinks st (expire_pending rs st)
unfolding expire_pending
Shrinks-expire_pending [] st = Shrinks-refl st
Shrinks-expire_pending (r ∷ rs) st =
    Shrinks-trans (Shrinks-delete_row r.id st)
      (Shrinks-expire_pending rs (delete_media_asset_row r.id st))

module _ (settings : MediaSettings) (rejects : StorageCall → Bool) where
  Shrinks-delete_orphans :
      (rs : List MediaAsset) (st : MediaStore) → Shrinks st (delete_orphans settings rejects rs st)
  unfolding delete_orphans
  Shrinks-delete_orphans [] st = Shrinks-refl st
  Shrinks-delete_orphans (r ∷ rs) st =
      let removed = delete_named rejects (object_name settings r.key) st in
      Shrinks-trans (Shrinks-delete_named rejects (object_name settings r.key) st) (
        Shrinks-trans (Shrinks-delete_row r.id removed)
          (Shrinks-delete_orphans rs (delete_media_asset_row r.id removed)))

  Shrinks-delete_replaced :
      (rs : List MediaAsset) (st : MediaStore) → Shrinks st (delete_replaced settings rejects rs st)
  unfolding delete_replaced
  Shrinks-delete_replaced [] st = Shrinks-refl st
  Shrinks-delete_replaced (r ∷ rs) st =
      Shrinks-trans (Shrinks-delete settings rejects r.id r.owner_id st)
        (Shrinks-delete_replaced rs (delete_media_asset_object settings rejects r.id r.owner_id st))

Shrinks-delete_missing :
    (settings : MediaSettings) (rs : List MediaAsset) (st : MediaStore)
    → Shrinks st (delete_missing settings rs st).1
unfolding delete_missing
Shrinks-delete_missing settings [] st = Shrinks-refl st
Shrinks-delete_missing settings (r ∷ rs) st =
    elim (Bool-cases (is_path_missing (resolve_safe_media_path settings.paths r.key) st)) [
      | inl e ↦ rw e (
          Shrinks-trans (Shrinks-delete_row r.id st)
            (Shrinks-delete_missing settings rs (delete_media_asset_row r.id st)))
      | inr e ↦ rw e (Shrinks-delete_missing settings rs st)
    ]

pub Shrinks-if :
    {A : Type 0} {st : MediaStore} (b : Bool) (x y : A × MediaStore)
    → Shrinks st x.1
    → Shrinks st y.1
    → Shrinks st (if b then x else y).1
Shrinks-if true x y h k = h
Shrinks-if false x y h k = k

pub Shrinks-clean :
    (settings : MediaSettings) (rejects : StorageCall → Bool) (now : ℕ) (st : MediaStore)
    → Shrinks st (run_media_lifecycle_cleanup settings rejects now st).1
unfolding run_media_lifecycle_cleanup
Shrinks-clean settings rejects now st =
    let st1 = expire_pending (chunk_of (is_expired_pending now) st) st in
    let st2 = delete_orphans settings rejects (chunk_of (is_expired_orphan now) st1) st1 in
    let st3 = delete_replaced settings rejects (chunk_of (is_replaced now) st2) st2 in
    let local = chunk_of (λ r. is_orphan r.status || is_linked r.status) st3 in
    let to_st3 = Shrinks-trans (Shrinks-expire_pending (chunk_of (is_expired_pending now) st) st) (
      Shrinks-trans
        (Shrinks-delete_orphans settings rejects (chunk_of (is_expired_orphan now) st1) st1)
        (Shrinks-delete_replaced settings rejects (chunk_of (is_replaced now) st2) st2)) in
    Shrinks-if settings.object_storage (0, st3) (delete_missing settings local st3) to_st3
      (Shrinks-trans to_st3 (Shrinks-delete_missing settings local st3))

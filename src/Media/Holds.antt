-- ===== src/Media/Holds.antt =====
-- A row with its object, which deletions of other rows leave alone.
use saa_sweave.Prelude.{
  String, Bool, false, not, Option, none, some, List, [], ◌∷◌, ◌≡◌, ◌≢◌, ◌⊎◌, inl, inr, sym, ap,
  ◌∙◌, arith, keep, All, Bool-cases, Option-cases, eq_iff,
}
use mathlib.Core.List.{Memᴰ}
use saa_sweave.Prelude.Table.{lookup}
use saa_sweave.Prelude.Sql.{first_where, All_of_mem}
use saa_sweave.Prelude.Members.{mem_of_keep, mem_keep, mem_of_take, mem_of_first_where}
use saa_sweave.Media.Rows.{MediaAsset, StoredObject, MediaStore}
use saa_sweave.Media.Upload.{MediaSettings, StorageCall, delete_call, has_id, is_owned}
use saa_sweave.Media.Complete.{
  object_name, delete_named, delete_media_asset_row, delete_media_asset_object,
}
use saa_sweave.Media.Cleanup.{
  chunk_of, expire_pending, delete_orphans, delete_replaced, is_path_missing,
}
use saa_sweave.Media.Images.Shrinks.{lookup-remove}

module _ (settings : MediaSettings) (r : MediaAsset) (name : String) (o : StoredObject) where
  -- A row of another asset, whose object has another name.
  abbrev pub IsApart : MediaAsset → Type 0
  IsApart s = (s.id ≢ r.id) × (object_name settings s.key ≢ some name)

  -- The row is there with its object, and shares its id and its object's name with no other.
  pub record Holds (st : MediaStore) : Type 0 where
    pub row : Memᴰ r st.media_asset
    pub object : lookup name st.objects ≡ some o
    pub alone : (s : MediaAsset) → Memᴰ s st.media_asset → (s ≡ r) ⊎ IsApart s

  -- A row whose path has an object.
  pub is_path_missing-some :
      {path : Option String}
      → path ≡ some name
      → (st : MediaStore) → lookup name st.objects ≡ some o
      → is_path_missing path st ≡ false
  is_path_missing-some {path = none} e st l = absurd (ground (arith, e))
  is_path_missing-some {path = some path} e st l =
      ground (arith, ap (λ x. is_path_missing x st) e, l)

  pub Holds-delete_row :
      (id : String) (st : MediaStore) → id ≢ r.id → Holds st → Holds (delete_media_asset_row id st)
  unfolding delete_media_asset_row
  Holds-delete_row id st other h = record {
    row =
        mem_keep (λ x. not (has_id id x)) h.row
          (ground (arith, eq_iff r.id id, λ (e : r.id ≡ id). other (sym e)));
    object = h.object;
    alone = λ s m. h.alone s (mem_of_keep (λ x. not (has_id id x)) st.media_asset m).0;
  }

  pub Holds-delete_named :
      (rejects : StorageCall → Bool) (other : Option String) (st : MediaStore)
      → other ≢ some name
      → Holds st
      → Holds (delete_named rejects other st)
  Holds-delete_named rejects none st apart h = h
  Holds-delete_named rejects (some n) st apart h = elim (Bool-cases (rejects (delete_call n))) [
    | inl e ↦ rw e h
    | inr e ↦ rw e (record {
      row = h.row;
      object = ground (
        arith,
        h.object,
        lookup-remove n name st.objects,
        eq_iff name n,
        λ (e : name ≡ n). apart (ap some (sym e)),
      );
      alone = h.alone;
    })
  ]

  pub Holds-expire_pending :
      (rs : List MediaAsset) (st : MediaStore)
      → All IsApart rs
      → Holds st
      → Holds (expire_pending rs st)
  unfolding expire_pending
  Holds-expire_pending [] st apart h = h
  Holds-expire_pending (s ∷ rs) st (a, apart) h =
      Holds-expire_pending rs (delete_media_asset_row s.id st) apart
        (Holds-delete_row s.id st a.0 h)

  pub Holds-delete_orphans :
      (rejects : StorageCall → Bool) (rs : List MediaAsset) (st : MediaStore)
      → All IsApart rs
      → Holds st
      → Holds (delete_orphans settings rejects rs st)
  unfolding delete_orphans
  Holds-delete_orphans rejects [] st apart h = h
  Holds-delete_orphans rejects (s ∷ rs) st (a, apart) h =
      let removed = delete_named rejects (object_name settings s.key) st in
      Holds-delete_orphans rejects rs (delete_media_asset_row s.id removed) apart (
        Holds-delete_row s.id removed a.0
          (Holds-delete_named rejects (object_name settings s.key) st a.1 h))

  pub Holds-delete_object :
      (rejects : StorageCall → Bool) (id owner_id : String) (st : MediaStore)
      → id ≢ r.id
      → Holds st
      → Holds (delete_media_asset_object settings rejects id owner_id st)
  unfolding delete_media_asset_object
  Holds-delete_object rejects id owner_id st other h =
      elim (Option-cases (first_where (is_owned id owner_id) st.media_asset)) [
        | inl missing ↦ rw missing h
        | inr (s, found) ↦
            let (m, q) = mem_of_first_where (is_owned id owner_id) st.media_asset found in
            let named : s.id ≡ id = ground (arith, q, eq_iff s.id id) in
            elim (h.alone s m) [
              | inl same ↦ absurd (other (sym named ∙ ap (λ x. x.id) same))
              | inr apart ↦ rw found (
                  Holds-delete_row id (delete_named rejects (object_name settings s.key) st) other
                    (Holds-delete_named rejects (object_name settings s.key) st apart.1 h))
            ]
      ]

  pub Holds-delete_replaced :
      (rejects : StorageCall → Bool) (rs : List MediaAsset) (st : MediaStore)
      → All IsApart rs
      → Holds st
      → Holds (delete_replaced settings rejects rs st)
  unfolding delete_replaced
  Holds-delete_replaced rejects [] st apart h = h
  Holds-delete_replaced rejects (s ∷ rs) st (a, apart) h =
      Holds-delete_replaced rejects rs
        (delete_media_asset_object settings rejects s.id s.owner_id st) apart
        (Holds-delete_object rejects s.id s.owner_id st a.0 h)

  -- The rows that a test selects are other ones if it does not select this one.
  pub chunk-IsApart :
      (p : MediaAsset → Bool) (st : MediaStore)
      → p r ≡ false
      → Holds st
      → All IsApart (chunk_of p st)
  chunk-IsApart p st spared h = All_of_mem IsApart (chunk_of p st) (λ s m.
      let (n, q) = mem_of_keep p st.media_asset (mem_of_take 100 (keep p st.media_asset) m) in
      elim (h.alone s n) [
        | inl same ↦ absurd (ground (arith, ap p same, q, spared))
        | inr apart ↦ apart
      ])

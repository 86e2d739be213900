-- ===== src/Retention/Exports.antt =====
-- `purgeDataExportRecords`: the file of an export goes before its row.
use saa_sweave.Prelude.{
  ℕ, String, ◌≡◌, refl, ap, ◌∙◌, inl, inr, Bool, true, false, not, ◌||◌, Option, none, some, List,
  [], ◌∷◌, arith, any, ◌==◌, ==_refl, Bool-cases, Option-cases, keep, All, All_map, All-keep,
}
use mathlib.Core.List.{Memᴰ}
use saa_sweave.Prelude.Sql.{All-mem, All_of_mem, delete_where, any_of_mem}
use text.Mathlib.TextPositions.{eq_refl}
use saa_sweave.Retention.{
  Options, Store, DataExportRow, data_export_record, legal_hold, is_in, cutoff_for,
  export_qualifies, chunk_of, HasUniqueIds, delete_export, export_selection,
  purge_data_export_records, unselected, keep-delete_where, is_selected, same_row, All-selection,
}
use saa_sweave.Retention.Hold.{is_org, org_not_free}
use saa_sweave.Retention.Deletions.{with_object, Keeps, purge_keeps}

-- The row is still in the table, or it has no file, or its file has been deleted.
abbrev pub has_no_file : List String → Option String → Bool
has_no_file objects none = true
has_no_file objects (some key) = is_in objects key

abbrev pub is_safe : Store → DataExportRow → Bool
is_safe s r = any (λ k. k.id == r.id) s.data_exports || has_no_file s.objects r.file_key

any_id-delete :
    (x y : ℕ) (rows : List DataExportRow)
    → (x == y) ≡ false
    → any (λ k. k.id == x) (delete_where (λ k. k.id == y) rows) ≡ any (λ k. k.id == x) rows
any_id-delete x y [] h = refl
any_id-delete x y (k ∷ rows) h = ground (arith, any_id-delete x y rows h)

module _ (s0 : Store) (u : HasUniqueIds (λ k. k.id) s0.data_exports) where
  AllSafe : Store → Type 0
  AllSafe s = All (λ k. is_safe s k ≡ true) s0.data_exports

  more_objects :
      (key : String) (s : Store) (k : DataExportRow)
      → is_safe s k ≡ true
      → is_safe (with_object key s) k ≡ true
  more_objects key s k h = elim (Option-cases k.file_key) [
    | inl e ↦ ground (arith, e)
    | inr (f, e) ↦ ground (arith, e)
  ]

  safe_after :
      (r k : DataExportRow) (s s' : Store)
      → Memᴰ r s0.data_exports
      → Memᴰ k s0.data_exports
      → has_no_file s'.objects r.file_key ≡ true
      → (is_safe s k ≡ true → is_safe s' k ≡ true)
      → is_safe s k ≡ true
      → is_safe (delete_export r.id s') k ≡ true
  safe_after r k s s' mr mk gone more safe = elim (Bool-cases (k.id == r.id)) [
    | inl same ↦
        let e =
          ap (λ x. has_no_file s'.objects x.file_key)
            (same_row (λ x. x.id) k r s0.data_exports u mk mr same) in
        ground (arith, e)
    | inr other ↦ ground (arith, any_id-delete k.id r.id s'.data_exports other, more safe)
  ]

  safe_Keeps : (r : DataExportRow) → Memᴰ r s0.data_exports → Keeps AllSafe r
  unfolding AllSafe
  safe_Keeps r mr = record {
    without = λ s e p.
        All_of_mem (λ k. is_safe (delete_export r.id s) k ≡ true) s0.data_exports
          (λ k mk.
            safe_after r k s s mr mk (rw (e) refl) (λ h. h)
              (All-mem (λ k'. is_safe s k' ≡ true) mk p));
    with_file = λ key s e p.
        All_of_mem (λ k. is_safe (delete_export r.id (with_object key s)) k ≡ true) s0.data_exports
          (λ k mk.
            safe_after r k s (with_object key s) mr mk (rw (e) (ground (arith, eq_refl key)))
              (more_objects key s k) (All-mem (λ k'. is_safe s k' ≡ true) mk p));
  }

-- After the purge of exports, whether it succeeds or throws half-way, every export is still in the
-- table, or had no file, or its file has been deleted: no row is deleted before its file.
pub purge_exports_file_first :
    (now : ℕ) (o : Options) (s : Store)
    → HasUniqueIds (λ k. k.id) s.data_exports
    → All (λ k. is_safe (purge_data_export_records now o s).1 k ≡ true) s.data_exports
unfolding AllSafe
purge_exports_file_first now o s u =
    purge_keeps (AllSafe s u) now o s
      (All_map (λ r. Memᴰ r s.data_exports) (Keeps (AllSafe s u)) (safe_Keeps s u)
        (export_selection now o s)
        (All-selection (λ r. r.id) (λ r. Memᴰ r s.data_exports)
          (export_qualifies (cutoff_for data_export_record o now) (legal_hold o))
          (λ r. r.created_at) (chunk_of o) s.data_exports
          (All_of_mem (λ r. Memᴰ r s.data_exports) s.data_exports (λ r m. m))))
      (All_of_mem (λ k. is_safe s k ≡ true) s.data_exports
        (λ k m. ground (arith, any_of_mem (λ x. x.id == k.id) m (==_refl k.id))))

-- The exports of an organization.
abbrev pub is_export_of : String → DataExportRow → Bool
is_export_of org k = is_org org (some k.organization_id)

module _ (org : String) (selected : List DataExportRow) (before : List DataExportRow) where
  -- The organization's exports are as before, and none is among the selected rows.
  HeldKept : Store → Type 0
  HeldKept s =
      (keep (is_export_of org) s.data_exports ≡ keep (is_export_of org) before)
      × All (λ k. (is_export_of org k ≡ true) → is_selected (λ x. x.id) selected k ≡ false)
          s.data_exports

  held_after :
      (r : DataExportRow) (s s' : Store)
      → Memᴰ r selected
      → s'.data_exports ≡ s.data_exports
      → HeldKept s
      → HeldKept (delete_export r.id s')
  unfolding HeldKept
  held_after r s s' m e (same, apart) = rw e (
    keep-delete_where (λ x. x.id) (is_export_of org) (λ k. k.id == r.id) s.data_exports
          (All_map (λ k. (is_export_of org k ≡ true) → is_selected (λ x. x.id) selected k ≡ false)
            (λ k. (is_export_of org k ≡ true) → (k.id == r.id) ≡ false)
            (λ k h p. ground (arith, h p, any_of_mem (λ x. x.id == k.id) m)) s.data_exports apart)
        ∙ same,
    All-keep (λ k. (is_export_of org k ≡ true) → is_selected (λ x. x.id) selected k ≡ false)
        (λ k. not (k.id == r.id)) s.data_exports apart,
  )

-- The exports of an organization under a legal hold stay as they are.
pub purge_exports_held :
    (now : ℕ) (o : Options) (org : String) (s : Store)
    → is_in (legal_hold o) org ≡ true
    → HasUniqueIds (λ k. k.id) s.data_exports
    → keep (is_export_of org) (purge_data_export_records now o s).1.data_exports
      ≡ keep (is_export_of org) s.data_exports
unfolding HeldKept
purge_exports_held now o org s held u =
    let selected = export_selection now o s in
    let kept =
      purge_keeps (HeldKept org selected s.data_exports) now o s
        (All_of_mem (Keeps (HeldKept org selected s.data_exports)) selected (λ r m. record {
          without = λ s' e p. held_after org selected s.data_exports r s' s' m refl p;
          with_file = λ key s' e p.
              held_after org selected s.data_exports r s' (with_object key s') m refl p;
        }))
        (
          refl,
          unselected (λ x. x.id) (is_export_of org)
              (export_qualifies (cutoff_for data_export_record o now) (legal_hold o))
              (λ r. r.created_at) (chunk_of o) s.data_exports u
              (λ r e.
                ground (arith, org_not_free (legal_hold o) org (some r.organization_id) held)),
        ) in
    kept.0

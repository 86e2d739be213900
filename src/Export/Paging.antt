-- ===== src/Export/Paging.antt =====
-- The pages of an exported table: what the cursor's milliseconds do to rows with microseconds.
use saa_sweave.Prelude.{
  ℕ, zero, suc, ◌+◌, ◌*◌, ◌%◌, ◌≤◌, ◌<◌, ◌≡◌, refl, subst, inl, inr, Bool, true, false, Option,
  none, some, List, [], ◌∷◌, ◌++◌, arith, ltb, ◌==◌, Bool-cases, take, keep, length, All, All-take,
  All-keep, length-take, length-keep,
}
use mathlib.Core.List.{Memᴰ}
use saa_sweave.Prelude.Sql.{count_pos_of_mem}
use saa_sweave.Prelude.Json.{Json}
use saa_sweave.Export.Secrets.{strip_secret_fields}
use saa_sweave.Export.Stream.{
  Row, Cursor, Progress, Streamed, finished, throws, out_of_fuel, checked, write_record, and_then,
  write_rows, page_of, continue_from, export_table, after_cursor, next_cursor,
  data_export_chunk_size, max_data_export_rows, max_data_export_bytes,
}

-- A table whose last row was created between two milliseconds.
pub record EndsBetween (table : List Row) : Type 0 where
  pub last : Row
  pub present : Memᴰ last table
  pub is_last : All (λ r. r.created_us ≤ last.created_us) table
  pub between : 0 < last.created_us % 1000

-- The cursor stands before a time.
abbrev pub IsBefore : ℕ → Option Cursor → Type 0
IsBefore us none = Unit
IsBefore us (some c) = c.created_ms * 1000 < us

last_is_after :
    (last : Row) (cursor : Option Cursor)
    → IsBefore last.created_us cursor
    → after_cursor cursor last ≡ true
last_is_after last none h = refl
last_is_after last (some c) h = ground (arith, h)

page_not_empty :
    (table : List Row) (e : EndsBetween table) (cursor : Option Cursor)
    → IsBefore e.last.created_us cursor
    → 1 ≤ length (take data_export_chunk_size (keep (after_cursor cursor) table))
page_not_empty table e cursor h = omega (
  arith,
  length-take data_export_chunk_size (keep (after_cursor cursor) table),
  length-keep (after_cursor cursor) table,
  count_pos_of_mem (after_cursor cursor) e.present (last_is_after e.last cursor h),
)

-- A page that is not empty leaves a cursor before the table's end.
data NextBefore (us : ℕ) : Option Cursor → Type 0 where
  next_before : (c : Cursor) → c.created_ms * 1000 < us → NextBefore us (some c)

next_cursor-NextBefore :
    (us : ℕ) (rows : List Row)
    → 0 < us % 1000
    → All (λ r. r.created_us ≤ us) rows
    → 1 ≤ length rows
    → NextBefore us (next_cursor rows)
next_cursor-NextBefore us [] b h n = absurd (omega arith)
next_cursor-NextBefore us (r ∷ []) b h n = next_before _ (omega (arith, h.0))
next_cursor-NextBefore us (r ∷ k ∷ rows) b h n =
    next_cursor-NextBefore us (k ∷ rows) b h.1 (omega arith)

-- After writing rows: an error, or the number of rows counted and within the limit.
abbrev Counted : ℕ → Streamed → Type 0
Counted n (finished p) = (p.rows_written ≡ n) × (p.rows_written ≤ max_data_export_rows)
Counted n (throws e p) = Unit
Counted n (out_of_fuel p) = ⊥

abbrev pub is_thrown : Streamed → Bool
is_thrown (throws e p) = true
is_thrown _ = false

module _ (line_bytes : Json → ℕ) (is_canceled_after : ℕ → Bool) where
  checked-Counted : (p : Progress) → Counted p.rows_written (checked line_bytes is_canceled_after p)
  checked-Counted p = elim (Bool-cases (ltb max_data_export_rows p.rows_written)) [
    | inl many ↦ rw many tt
    | inr few ↦ elim (Bool-cases (ltb max_data_export_bytes p.bytes_written)) [
      | inl large ↦ rw (few, large) tt
      | inr small ↦ elim (Bool-cases (p.rows_written % data_export_chunk_size == 0)) [
        | inr inside ↦ rw (few, small, inside) (refl, ground (arith, few))
        | inl chunk ↦ elim (Bool-cases (is_canceled_after p.rows_written)) [
          | inl seen ↦ rw (few, small, chunk, seen) tt
          | inr unseen ↦ rw (few, small, chunk, unseen) (refl, ground (arith, few))
        ]
      ]
    ]
  ]

  then-Counted :
      (n m : ℕ) (next : Progress → Streamed) (s : Streamed)
      → Counted n s
      → ((q : Progress)
          → q.rows_written ≡ n
          → q.rows_written ≤ max_data_export_rows
          → Counted m (next q))
      → Counted m (and_then line_bytes is_canceled_after next s)
  then-Counted n m next (finished q) h k = k q h.0 h.1
  then-Counted n m next (throws e q) h k = tt
  then-Counted n m next (out_of_fuel q) h k = h

  rows-Counted :
      (rows : List Row) (p : Progress)
      → p.rows_written ≤ max_data_export_rows
      → Counted (p.rows_written + length rows) (write_rows line_bytes is_canceled_after rows p)
  unfolding write_rows write_record
  rows-Counted [] p h = (omega arith, h)
  rows-Counted (r ∷ rest) p h =
      let line = strip_secret_fields r.payload in
      then-Counted (p.rows_written + 1) (p.rows_written + length (r ∷ rest))
        (write_rows line_bytes is_canceled_after rest)
        (write_record line_bytes is_canceled_after r p)
        (checked-Counted (record p {
          rows_written = p.rows_written + 1;
          bytes_written = p.bytes_written + line_bytes line;
          lines = p.lines ++ line ∷ [];
        }))
        (λ q e le.
          subst (λ n. Counted n (write_rows line_bytes is_canceled_after rest q)) (omega (arith, e))
            (rows-Counted rest q le))

  thrown_after :
      (n : ℕ) (next : Progress → Streamed) (s : Streamed)
      → Counted n s
      → ((q : Progress)
          → q.rows_written ≡ n
          → q.rows_written ≤ max_data_export_rows
          → is_thrown (next q) ≡ true)
      → is_thrown (and_then line_bytes is_canceled_after next s) ≡ true
  thrown_after n next (finished q) h k = k q h.0 h.1
  thrown_after n next (throws e q) h k = refl
  thrown_after n next (out_of_fuel q) h k = absurd h

  continued :
      (us : ℕ) (next : Option Cursor → Progress → Streamed) (cursor : Option Cursor) (q : Progress)
      → NextBefore us cursor
      → ((c : Option Cursor) → IsBefore us c → is_thrown (next c q) ≡ true)
      → is_thrown (continue_from line_bytes is_canceled_after next cursor q) ≡ true
  continued us next (some c) q (next_before c' h) k = k (some c) h
  continued us next none q n k = elim n [ ]

  -- A table whose last row has a creation time between two milliseconds cannot be exported: the
  -- cursor, cut to milliseconds, stays before that row, which is read again on every page, until the
  -- export throws at its limit of rows (or before, at that of bytes or for a cancel). Fuel beyond
  -- the rows that the limit leaves is enough to get there.
  pub export_table_throws :
      (fuel : ℕ) (table : List Row) (e : EndsBetween table) (cursor : Option Cursor) (p : Progress)
      → IsBefore e.last.created_us cursor
      → p.rows_written ≤ max_data_export_rows
      → max_data_export_rows < fuel + p.rows_written
      → is_thrown (export_table line_bytes is_canceled_after fuel table cursor p) ≡ true
  unfolding export_table
  export_table_throws zero table e cursor p b le lt = absurd (omega (arith, le, lt))
  export_table_throws (suc fuel) table e cursor p b le lt =
      let rows = page_of line_bytes is_canceled_after cursor table in
      let us = e.last.created_us in
      let some_row = page_not_empty table e cursor b in
      let before : NextBefore us (next_cursor rows) =
        next_cursor-NextBefore us rows e.between
          (All-take (λ r. r.created_us ≤ us) data_export_chunk_size
            (keep (after_cursor cursor) table)
            (All-keep (λ r. r.created_us ≤ us) (after_cursor cursor) table e.is_last))
          some_row in
      thrown_after (p.rows_written + length rows)
        (continue_from line_bytes is_canceled_after
          (export_table line_bytes is_canceled_after fuel table) (next_cursor rows))
        (write_rows line_bytes is_canceled_after rows p) (rows-Counted rows p le)
        (λ q n le'.
          continued us (export_table line_bytes is_canceled_after fuel table) (next_cursor rows) q
            before
            (λ c b'. export_table_throws fuel table e c q b' le' (omega (arith, n, some_row, lt))))

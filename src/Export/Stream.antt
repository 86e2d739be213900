-- ===== src/Export/Stream.antt =====
-- packages/app/src/data-export/stream-export.ts: the records written for one table, page after page.
-- A row carries the columns that are exported as JSON; Postgres keeps its `created_at` in
-- microseconds, and a JavaScript `Date`, so the cursor too, in milliseconds. Ids are in the order
-- that the database compares them by.
use saa_sweave.Prelude.{
  ℕ, zero, suc, ◌+◌, ◌*◌, ◌/◌, ◌%◌, Bool, true, ◌&&◌, ◌||◌, Option, none, some, List, [], ◌∷◌, ◌++◌,
  ltb, ◌==◌, if◌then◌else◌, take, keep,
}
use saa_sweave.Prelude.Json.{Json}
use saa_sweave.Export.Secrets.{strip_secret_fields}

abbrev pub data_export_chunk_size : ℕ
data_export_chunk_size = 500

abbrev pub max_data_export_rows : ℕ
max_data_export_rows = 500_000

abbrev pub max_data_export_bytes : ℕ
max_data_export_bytes = 200_000_000

pub record Row : Type 0 where
  pub id : ℕ
  pub created_us : ℕ
  pub payload : Json

pub record Cursor : Type 0 where
  pub created_ms : ℕ
  pub id : ℕ

-- `keysetWhere`
abbrev pub after_cursor : Option Cursor → Row → Bool
after_cursor none r = true
after_cursor (some c) r =
    ltb (c.created_ms * 1000) r.created_us || r.created_us == c.created_ms * 1000 && ltb c.id r.id

-- `nextCursor`
abbrev pub next_cursor : List Row → Option Cursor
next_cursor [] = none
next_cursor (r ∷ []) = some (record { created_ms = r.created_us / 1000; id = r.id })
next_cursor (r ∷ k ∷ rows) = next_cursor (k ∷ rows)

-- What has been written, and the progress that `persistProgress` has stored, the latest first.
pub record Progress : Type 0 where
  pub rows_written : ℕ
  pub bytes_written : ℕ
  pub lines : List Json
  pub persisted : List (ℕ × ℕ)

pub data ExportError : Type 0 where
  row_limit_exceeded byte_limit_exceeded export_canceled : ExportError

pub data Streamed : Type 0 where
  finished : Progress → Streamed
  throws : ExportError → Progress → Streamed
  out_of_fuel : Progress → Streamed

abbrev pub persist : Progress → Progress
persist p = record p { persisted = (p.rows_written, p.bytes_written) ∷ p.persisted }

-- The bytes of a line are those of its JSON text and a newline, a parameter, as is the answer of
-- `isDataExportCanceled` when a number of rows has been written.
module _ (line_bytes : Json → ℕ) (is_canceled_after : ℕ → Bool) where
  abbrev pub checked : Progress → Streamed
  checked p =
      if ltb max_data_export_rows p.rows_written
      then throws row_limit_exceeded p
      else if ltb max_data_export_bytes p.bytes_written
      then throws byte_limit_exceeded p
      else if p.rows_written % data_export_chunk_size == 0
      then if is_canceled_after p.rows_written
        then throws export_canceled (persist p)
        else finished (persist p)
      else finished p

  unfoldable pub write_record : Row → Progress → Streamed
  write_record r p =
      let line = strip_secret_fields r.payload in
      checked (record p {
        rows_written = p.rows_written + 1;
        bytes_written = p.bytes_written + line_bytes line;
        lines = p.lines ++ line ∷ [];
      })

  abbrev pub and_then : (Progress → Streamed) → Streamed → Streamed
  and_then next (finished p) = next p
  and_then next (throws e p) = throws e p
  and_then next (out_of_fuel p) = out_of_fuel p

  unfoldable pub write_rows : List Row → Progress → Streamed
  unfolding write_record
  write_rows [] p = finished p
  write_rows (r ∷ rest) p = and_then (write_rows rest) (write_record r p)

  abbrev pub page_of : Option Cursor → List Row → List Row
  page_of cursor table = take data_export_chunk_size (keep (after_cursor cursor) table)

  abbrev pub continue_from :
      (Option Cursor → Progress → Streamed) → Option Cursor → Progress → Streamed
  continue_from next none p = finished (persist p)
  continue_from next (some c) p = next (some c) p

  -- The `while (true)` over the pages of a table, whose rows are in the order of the query.
  unfoldable pub export_table : ℕ → List Row → Option Cursor → Progress → Streamed
  unfolding write_rows
  export_table zero table cursor p = out_of_fuel p
  export_table (suc fuel) table cursor p =
      let rows = page_of cursor table in
      and_then (continue_from (export_table fuel table) (next_cursor rows)) (write_rows rows p)

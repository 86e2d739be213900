-- ===== src/Media/Serve.antt =====
-- The routes of apps/server/src/routes/media.ts. The token's verdict and the parsed Content-Length
-- are arguments.
use saa_sweave.Prelude.{
  ℕ, String, Bool, true, false, ◌&&◌, ◌||◌, Option, none, some, List, ◌==◌, if◌then◌else◌,
}
use Prim.Native.Char.{code}
use saa_sweave.Prelude.Text.{includes}
use saa_sweave.Prelude.Table.{lookup}
use saa_sweave.RequestBody.{Read, got_body, thrown, Stream, read_bounded_request_body_or_null}
use saa_sweave.Media.Keys.{normalize_media_key, resolve_safe_media_path}
use saa_sweave.Media.Rows.{
  MediaAsset, StoredObject, MediaStore, get_media_asset_by_key, can_serve_public_media_asset,
  resolve_media_upload_max_bytes,
}
use saa_sweave.Media.Upload.{
  MediaSettings, get_pending_media_upload_row, save_uploaded_media_object,
}

-- `rawKey.includes("..")`
unfoldable pub has_dots : String → Bool
has_dots String.[] = false
has_dots (String.◌∷◌ c String.[]) = false
has_dots (String.◌∷◌ c (String.◌∷◌ d s)) =
    code c == b'.' && code d == b'.' || has_dots (String.◌∷◌ d s)

-- What is answered with status 200.
pub record Served : Type 0 where
  pub content_type : String
  pub body : List ℕ

abbrev pub serve_object : MediaAsset → Option StoredObject → Option Served
serve_object row none = none
serve_object row (some object) =
    some (record { content_type = row.content_type; body = object.bytes })

abbrev pub serve_path : MediaAsset → Option String → MediaStore → Option Served
serve_path row none st = none
serve_path row (some path) st = serve_object row (lookup path st.objects)

unfoldable pub serve_row : MediaSettings → String → Option MediaAsset → MediaStore → Option Served
unfolding can_serve_public_media_asset
serve_row settings key none st = none
serve_row settings key (some row) st =
    if can_serve_public_media_asset row
    then serve_path row (resolve_safe_media_path settings.paths key) st
    else none

unfoldable pub serve_key : MediaSettings → Option String → MediaStore → Option Served
unfolding serve_row get_media_asset_by_key
serve_key settings none st = none
serve_key settings (some key) st =
    serve_row settings key (get_media_asset_by_key key st.media_asset) st

-- GET; `none` is status 404.
unfoldable pub get_media : MediaSettings → (raw_key : String) → MediaStore → Option Served
unfolding has_dots includes serve_key
get_media settings raw_key st =
    let served = serve_key settings (normalize_media_key raw_key) st in
    if has_dots raw_key || includes 92 raw_key then none else served

-- The status of PUT; `throws` is an error of the stream.
pub data PutStatus : Type 0 where
  put_ok invalid_token upload_not_pending payload_too_large upload_failed throws : PutStatus

abbrev pub put_saved : Bool × MediaStore → PutStatus × MediaStore
put_saved (true, st) = (put_ok, st)
put_saved (false, st) = (upload_failed, st)

abbrev pub put_body :
    MediaSettings
    → (now : ℕ) → (writes : Bool) → String
    → (content_type : String) → Option Read
    → MediaStore
    → PutStatus × MediaStore
put_body settings now writes id content_type none st = (payload_too_large, st)
put_body settings now writes id content_type (some (thrown e)) st = (throws, st)
put_body settings now writes id content_type (some (got_body body)) st =
    put_saved (save_uploaded_media_object settings now writes id body content_type st)

unfoldable pub put_row :
    MediaSettings
    → (now : ℕ) → (writes : Bool) → String
    → (content_type : String) → (content_length : Option ℕ) → Option Stream
    → Option MediaAsset
    → MediaStore
    → PutStatus × MediaStore
unfolding save_uploaded_media_object read_bounded_request_body_or_null
put_row settings now writes id content_type content_length stream none st = (upload_not_pending, st)
put_row settings now writes id content_type content_length stream (some row) st =
    let max_bytes = resolve_media_upload_max_bytes row in
    put_body settings now writes id content_type
      (read_bounded_request_body_or_null content_length max_bytes stream) st

unfoldable pub put_upload :
    MediaSettings
    → (now : ℕ) → (writes verified : Bool) → String
    → (content_type : String) → (content_length : Option ℕ) → Option Stream
    → MediaStore
    → PutStatus × MediaStore
unfolding put_row get_pending_media_upload_row
put_upload settings now writes verified id content_type content_length stream st =
    let put =
      put_row settings now writes id content_type content_length stream
        (get_pending_media_upload_row id st.media_asset) st in
    if verified then put else (invalid_token, st)

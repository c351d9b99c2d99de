-- ===== src/Http/Files.antt =====
-- The files that http-server.cpp serves: the name of the file of a URL, and its type. `realpath`, which
-- resolves a path of the file system or fails, and `stat` with `fopen` are parameters.
use wacs.Prelude.{
  ℕ, ◌+◌, Bool, false, ◌&&◌, Option, none, some, [], ◌∷◌, ◌++◌, ◌==◌, leb, if◌then◌else◌, map,
}
use wacs.Layout.{Bytes}
use wacs.Lmdb.Order.{starts_with}
use wacs.Db.Query.{bytes_eq}

-- "index.html"
abbrev pub index_html : Bytes
index_html = b'i' ∷ b'n' ∷ b'd' ∷ b'e' ∷ b'x' ∷ b'.' ∷ b'h' ∷ b't' ∷ b'm' ∷ b'l' ∷ []

-- The last character is a slash.
unfoldable pub ends_with_slash : Bytes → Bool
ends_with_slash [] = false
ends_with_slash (c ∷ []) = c == b'/'
ends_with_slash (c ∷ d ∷ cs) = ends_with_slash (d ∷ cs)

-- buildFileName for a URL that is not NULL. Where realpath fails it gives NULL, and writing that to
-- the stream stops the stream, so that the rest is not written. The last test is `find(…) == 0`.
unfoldable pub build_file_name : (Bytes → Option Bytes) → Bytes → Bytes → Bytes
unfolding ends_with_slash starts_with
build_file_name realpath dir_root url =
    let rr : Bytes = elim (realpath url) [
      | none ↦ dir_root
      | some p ↦ dir_root ++ (p ++ (if ends_with_slash url then index_html else []))
    ] in
    if starts_with dir_root rr then rr else dir_root

-- What is behind the last dot, or the whole name.
unfoldable extension : Bytes → Bytes → Bytes
extension e [] = e
extension e (c ∷ cs) = if c == b'.' then extension cs cs else extension e cs

-- `::tolower`
unfoldable lower : ℕ → ℕ
lower c = if leb b'A' c && leb c b'Z' then c + 32 else c

pub data ContentType : Type 0 where
  ct_html ct_json ct_css ct_text ct_ttf ct_bin : ContentType

-- mimeTypeByFileExtention
unfoldable pub mime_type_by_file_extention : Bytes → ContentType
unfolding extension lower bytes_eq
mime_type_by_file_extention filename =
    let ext = map lower (extension filename filename) in
    if bytes_eq ext (b'h' ∷ b't' ∷ b'm' ∷ b'l' ∷ [])
    then ct_html
    else if bytes_eq ext (b'h' ∷ b't' ∷ b'm' ∷ [])
    then ct_html
    else if bytes_eq ext (b'j' ∷ b's' ∷ [])
    then ct_json
    else if bytes_eq ext (b'c' ∷ b's' ∷ b's' ∷ [])
    then ct_css
    else if bytes_eq ext (b't' ∷ b'x' ∷ b't' ∷ [])
    then ct_text
    else if bytes_eq ext (b't' ∷ b't' ∷ b'f' ∷ [])
    then ct_ttf
    else ct_bin

-- processFile: the 404 page, or the content of a file with its type.
pub data Served : Type 0 where
  not_found : Served
  content : ContentType → Bytes → Served

unfoldable pub process_file : (Bytes → Option Bytes) → Bytes → Served
unfolding mime_type_by_file_extention
process_file opens filename = elim (opens filename) [
  | none ↦ not_found
  | some b ↦ content (mime_type_by_file_extention filename) b
]

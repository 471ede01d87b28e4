-- ===== src/Mime.antt =====
-- internal/requestutils/mime.go, over the standard library's two tables: the type that a content
-- shows (`http.DetectContentType`), and the type of an extension (`mime.TypeByExtension`), "" if
-- there is none. Reading a content, which is in memory, does not fail.
use Prim.Native.String.{String}
use text.Mathlib.Text.{◌==◌ as str_eq}
use obsidian_live_syncinator.Prelude.{
  Bool, false, ◌&&◌, ◌||◌, Option, none, some, List, [], ◌∷◌, if◌then◌else◌,
}
use obsidian_live_syncinator.Diff.{Text}

abbrev pub default_content_type : String
default_content_type = "application/octet-stream"

abbrev pub default_text_type : String
default_text_type = "text/plain; charset=utf-8"

-- What the standard library knows of types, of UTF-8 and of extensions.
-- `head` is what a read into a buffer of 512 bytes gives.
pub record MimeTables : Type 0 where
  pub head : Text → Text
  pub detect_content_type : Text → String
  pub is_utf8 : Text → Bool
  pub extension : String → String
  pub type_by_extension : String → String
  pub parse_media_type : String → Option String

abbrev member : String → List String → Bool
member x [] = false
member x (y ∷ ys) = str_eq x y || member x ys

-- `textExtensions`
abbrev text_extensions : List String
text_extensions =
    ".md" ∷ ".markdown" ∷ ".txt" ∷ ".csv" ∷ ".json" ∷ ".xml" ∷ ".yaml" ∷ ".yml" ∷ ".toml" ∷ ".html"
    ∷ ".css" ∷ ".js" ∷ ".ts" ∷ ".go" ∷ ".py" ∷ ".sh" ∷ ".svg" ∷ []

module _ (m : MimeTables) where
  unfoldable pub mime_from_extension : String → String → String
  mime_from_extension filename fallback =
      let ext = m.extension filename in
      if str_eq filename ""
      then fallback
      else if str_eq ext ""
      then fallback
      else if str_eq (m.type_by_extension ext) ""
      then if member ext text_extensions then default_text_type else fallback
      else m.type_by_extension ext

  -- `IsMultipartFormData`, of the header `Content-Type`
  unfoldable pub is_multipart_form_data : String → Bool
  is_multipart_form_data header = elim (m.parse_media_type header) [
    | none ↦ false
    | some media_type ↦
        str_eq media_type "multipart/form-data" || str_eq media_type "multipart/mixed"
  ]

  -- An empty file gives `io.EOF`, and is judged by its name.
  unfoldable pub detect_file_mime_type : Text → String → String
  detect_file_mime_type [] filename = mime_from_extension filename default_content_type
  detect_file_mime_type (b ∷ bytes) filename =
      let buf = m.head (b ∷ bytes) in
      let detected = m.detect_content_type buf in
      if str_eq detected default_content_type && m.is_utf8 buf then default_text_type else detected

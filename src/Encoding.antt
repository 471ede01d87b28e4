-- ===== src/Encoding.antt =====
-- How answers are written: `writeMultipartResponse` and `writeJSON` of pkg/api.go.
use Prim.Native.String.{String}
use text.Mathlib.Text.{◌==◌ as str_eq}
use obsidian_live_syncinator.Prelude.{
  ℕ, ◌≡◌, refl, Bool, true, false, Option, none, some, List, [], ◌∷◌, if◌then◌else◌,
}
use obsidian_live_syncinator.Diff.{Text}
use obsidian_live_syncinator.Flush.{is_text}

-- A part of a multipart message.
pub record Part : Type 0 where
  pub header : List (String × String)
  pub content : Text

-- encoding/base64, fmt with one argument in quotes, and whether the calls on the response succeed:
-- `created` those that begin a part, and `copy` what of a content is written, and if that is all.
pub record Writer : Type 0 where
  pub encode : Text → Text
  pub decode : Text → Option Text
  pub sprintf : String → String → String
  pub created : List (String × String) → Bool
  pub copy : Text → Text × Bool

-- `Header.Get`
abbrev pub get_header : String → List (String × String) → String
get_header name [] = ""
get_header name ((key, value) ∷ header) = if str_eq key name then value else get_header name header

module _ (w : Writer) where
  -- The header of the part with the file.
  unfoldable pub file_header : String → String → List (String × String)
  file_header mime_type filename =
      ("Content-Type", mime_type)
      ∷ ("Content-Disposition", w.sprintf "form-data; filename=%q" filename)
      ∷ (if is_text mime_type then [] else ("Content-Transfer-Encoding", "base64") ∷ [])

  abbrev pub metadata_header : List (String × String)
  metadata_header =
      ("Content-Type", "application/json")
      ∷ ("Content-Disposition", w.sprintf "form-data; name=%q" "metadata")
      ∷ []

  -- The part with the file: the encoder is closed whether or not the copy succeeds.
  unfoldable pub file_part : String → String → Text → Part × Bool
  file_part mime_type filename content =
      let (written, all) = w.copy content in
      (
        record {
          header = file_header mime_type filename;
          content = if is_text mime_type then written else w.encode written;
        },
        all,
      )

  abbrev with_file : Part → String → String → Text → List Part × Bool
  with_file metadata mime_type filename content =
      let (part, all) = file_part mime_type filename content in
      if w.created (file_header mime_type filename)
      then (metadata ∷ part ∷ [], all)
      else (metadata ∷ [], false)

  abbrev with_metadata : Option Text → String → String → Text → List Part × Bool
  with_metadata none mime_type filename content =
      (record { header = metadata_header; content = [] } ∷ [], false)
  with_metadata (some json) mime_type filename content =
      with_file (record { header = metadata_header; content = json }) mime_type filename content

  -- The parts that are written, and whether there was no error. `json` is what the metadata are
  -- encoded to.
  unfoldable pub write_multipart_response : Option Text → String → String → Text → List Part × Bool
  write_multipart_response json mime_type filename content =
      if w.created metadata_header
      then with_metadata json mime_type filename content
      else ([], false)

  -- What a reader of a multipart message takes a part's content for: base64 is undone where the header
  -- says so, as RFC 2045 has it.
  abbrev pub part_content : Part → Option Text
  part_content part =
      if str_eq (get_header "Content-Transfer-Encoding" part.header) "base64"
      then w.decode part.content
      else some part.content

  -- A response that is written without an error, the base64 library decoding what it encodes, has
  -- two parts, the first of them the metadata; the second is of the file's type, and a reader who
  -- goes by its header gets the file's content, whether or not the type is one of texts.
  pub write_multipart_response-part_content :
      (json : Text) (mime_type filename : String) (content : Text)
      → w.created metadata_header ≡ true
      → w.created (file_header mime_type filename) ≡ true
      → w.copy content ≡ (content, true)
      → w.decode (w.encode content) ≡ some content
      → (part : Part) × (write_multipart_response (some json) mime_type filename content
          ≡ (record { header = metadata_header; content = json } ∷ part ∷ [], true))
        × (get_header "Content-Type" part.header ≡ mime_type)
        × (part_content part ≡ some content)
  unfolding write_multipart_response file_part file_header
  write_multipart_response-part_content json mime_type filename content first second copied
        decoded =
      (
        (file_part mime_type filename content).0,
        rw (first, second, copied) refl,
        refl,
        rw copied (by_type (is_text mime_type)),
      )
    where
      by_type :
          (text : Bool)
          → let header : List (String × String) =
              ("Content-Type", mime_type)
              ∷ ("Content-Disposition", w.sprintf "form-data; filename=%q" filename)
              ∷ (if text then [] else ("Content-Transfer-Encoding", "base64") ∷ []) in
            (if str_eq (get_header "Content-Transfer-Encoding" header) "base64"
              then w.decode (if text then content else w.encode content)
              else some (if text then content else w.encode content))
            ≡ some content
      by_type true = refl
      by_type false = decoded

-- `writeJSON`: the status and the body, which is encoded before anything is written.
unfoldable pub write_json : ℕ → Option String → ℕ × String
write_json status none = (500, "Internal Server Error")
write_json status (some body) = (status, body)

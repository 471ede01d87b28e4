-- ===== src/Tests/Encoding.antt =====
-- A picture that is sent.
use obsidian_live_syncinator.Prelude.{◌≡◌, refl, true, none, some, [], ◌∷◌}
use obsidian_live_syncinator.Encoding.{
  Part, Writer, get_header, metadata_header, write_multipart_response, part_content,
  write_multipart_response-part_content,
}
use obsidian_live_syncinator.Tests.Diff.{hello, hi}

-- The encoding puts a mark in front.
abbrev writer : Writer
writer = record {
  encode = λ t. 64 ∷ t;
  decode = λ t. elim t [ [] ↦ none | mark ∷ t ↦ some t ];
  sprintf = λ format value. value;
  created = λ header. true;
  copy = λ t. (t, true);
}

write_multipart_response-part_content_example :
    (part : Part) × (write_multipart_response writer (some hi) "image/png" "a.png" hello
      ≡ (record { header = metadata_header writer; content = hi } ∷ part ∷ [], true))
    × (get_header "Content-Type" part.header ≡ "image/png")
    × (part_content writer part ≡ some hello)
write_multipart_response-part_content_example =
    write_multipart_response-part_content writer hi "image/png" "a.png" hello refl refl refl refl

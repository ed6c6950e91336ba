-- ===== src/S3/Keys/Roundtrip.antt =====
-- BuildKey against the relative paths that Scan and StatAll read (S3/Keys).
use timberlake.Base.{◌≡◌, ◌≢◌, refl, ap, ◌∙◌, true, false, [], ◌∷◌, ◌++◌, some, arith}
use timberlake.Io.{Text, codes}
use timberlake.Strings.{has_prefix, trim_prefix, replace_byte}
use timberlake.Strings.Laws.{has_byte, has_prefix-append, trim_prefix-append}
use timberlake.S3.Keys.{clean_path, non_empty, build_key, list_prefix, relative}

replace_byte-same : (s : Text) → has_byte b'\\' s ≡ false → replace_byte b'\\' b'/' s ≡ s
unfolding replace_byte has_byte
replace_byte-same [] h = refl
replace_byte-same (x ∷ s) h = ground (arith, replace_byte-same s)

clean_path-plain :
    (rel : Text)
    → has_prefix (codes "/") rel ≡ false
    → has_byte b'\\' rel ≡ false
    → clean_path rel ≡ rel
unfolding clean_path trim_prefix
clean_path-plain rel h b = rw (replace_byte-same rel b, h) refl

pub build_key-plain :
    (prefix rel : Text)
    → has_prefix (codes "/") rel ≡ false
    → has_byte b'\\' rel ≡ false
    → build_key prefix rel ≡ list_prefix prefix ++ rel
unfolding build_key list_prefix
build_key-plain [] rel h b = clean_path-plain rel h b
build_key-plain (c ∷ cs) rel h b = ap (λ t. list_prefix (c ∷ cs) ++ t) (clean_path-plain rel h b)

-- A relative path that is not empty, has no backslash and does not start with a slash, is what Scan
-- and StatAll read back from the key that BuildKey makes of it, whatever the prefix; and the key is
-- under the prefix that they list.
pub relative-build_key :
    (prefix rel : Text)
    → rel ≢ []
    → has_prefix (codes "/") rel ≡ false
    → has_byte b'\\' rel ≡ false
    → (relative (list_prefix prefix) (some (build_key prefix rel)) ≡ some rel)
      × (has_prefix (list_prefix prefix) (build_key prefix rel) ≡ true)
unfolding relative non_empty
relative-build_key prefix [] ne h b = absurd (ne refl)
relative-build_key prefix (c ∷ cs) ne h b =
    let key_is = build_key-plain prefix (c ∷ cs) h b in
    (
      ap (λ k. relative (list_prefix prefix) (some k)) key_is
          ∙ ap non_empty (trim_prefix-append (list_prefix prefix) (c ∷ cs)),
      rw key_is (has_prefix-append (list_prefix prefix) (c ∷ cs)),
    )

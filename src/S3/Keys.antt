-- ===== src/S3/Keys.antt =====
-- BuildKey of transfer/s3backend/s3.go, and Scan and StatAll of internal.go. The listing is the
-- answers of NextPage in order, until the paginator has no more pages.
pub mod Roundtrip
pub mod Limit
use timberlake.Base.{
  ℕ, ◌+◌, ◌%◌, Bool, true, false, ◌&&◌, List, [], ◌∷◌, ◌++◌, Option, none, some, and_then, length,
  ltb, ◌==◌, if◌then◌else◌,
}
use timberlake.Base.Words.{add64}
use timberlake.Base.Int.{ℤ, pos, ltb_ℤ}
use timberlake.Io.{Text, codes, eq_text, wrapped, Result, ok, err, Item}
use timberlake.Sizes.{put_size}
use timberlake.Strings.{trim, trim_prefix, replace_byte}

-- types.Object, with the fields that are read, each possibly nil.
pub record Object : Type 0 where
  pub key : Option Text
  pub size : Option ℕ

abbrev pub Pages : Type 0
Pages = List (Result (List Object))

-- The text with slashes only, without the first if it is one.
unfoldable pub clean_path : Text → Text
clean_path rel_path = trim_prefix (codes "/") (replace_byte b'\\' b'/' rel_path)

unfoldable pub build_key : Text → Text → Text
unfolding clean_path
build_key [] rel_path = clean_path rel_path
build_key (c ∷ cs) rel_path = (trim b'/' (c ∷ cs) ++ codes "/") ++ clean_path rel_path

-- The prefix of a listing.
unfoldable pub list_prefix : Text → Text
list_prefix [] = []
list_prefix (c ∷ cs) = trim b'/' (c ∷ cs) ++ codes "/"

-- aws.ToInt64
abbrev pub size_of : Option ℕ → ℕ
size_of none = 0
size_of (some n) = n

-- The relative path of an object that counts: it has a key, and more than the prefix.
unfoldable pub non_empty : Text → Option Text
non_empty [] = none
non_empty (c ∷ cs) = some (c ∷ cs)

unfoldable pub relative : Text → Option Text → Option Text
unfolding non_empty
relative prefix none = none
relative prefix (some key) = non_empty (trim_prefix prefix key)

-- limit > 0 && len(found) > limit
unfoldable pub too_many : ℤ → List (Text × ℕ) → Bool
too_many limit found = ltb_ℤ (pos 0) limit && ltb_ℤ limit (pos (length found))

-- One object of StatAll; `none` once there are too many.
unfoldable pub add_object : ℤ → ℕ → List (Text × ℕ) → Option Text → Option (List (Text × ℕ))
unfolding put_size
add_object limit size found none = some found
add_object limit size found (some rel) =
    if too_many limit (put_size rel size found) then none else some (put_size rel size found)

unfoldable pub stat_objects : Text → ℤ → List Object → List (Text × ℕ) → Option (List (Text × ℕ))
unfolding relative add_object
stat_objects prefix limit [] found = some found
stat_objects prefix limit (o ∷ os) found =
    and_then (stat_objects prefix limit os)
      (add_object limit (size_of o.size) found (relative prefix o.key))

-- The pages so far, and the next: an error of NextPage, or its objects.
unfoldable pub stat_pages :
    Text → ℤ → Pages → Option (List (Text × ℕ)) → Result (Option (List (Text × ℕ)))
stat_pages prefix limit pages none = ok none
stat_pages prefix limit [] (some found) = ok (some found)
stat_pages prefix limit (err e ∷ ps) (some found) = err (wrapped "listing" e)
stat_pages prefix limit (ok os ∷ ps) (some found) =
    stat_pages prefix limit ps (stat_objects prefix limit os found)

-- `ok none` where StatAll returns false; the calls of progress are left out.
unfoldable pub stat_all : Text → ℤ → Pages → Result (Option (List (Text × ℕ)))
unfolding stat_pages
stat_all prefix limit pages = stat_pages (list_prefix prefix) limit pages (some [])

-- An object of Scan.
unfoldable pub item_of : ℕ → Option Text → List Item
item_of size none = []
item_of size (some rel) = record { relative_path = rel; size = size } ∷ []

unfoldable pub scan_objects : Text → List Object → List Item
unfolding relative item_of
scan_objects prefix [] = []
scan_objects prefix (o ∷ os) =
    item_of (size_of o.size) (relative prefix o.key) ++ scan_objects prefix os

unfoldable pub scan_pages : Text → Pages → List Item → Result (List Item)
unfolding scan_objects
scan_pages prefix [] items = ok items
scan_pages prefix (err e ∷ ps) items = err (wrapped "list" e)
scan_pages prefix (ok os ∷ ps) items = scan_pages prefix ps (items ++ scan_objects prefix os)

unfoldable pub scan : Text → Pages → Result (List Item)
unfolding scan_pages
scan prefix pages = scan_pages (list_prefix prefix) pages []

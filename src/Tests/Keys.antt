-- ===== src/Tests/Keys.antt =====
-- Keys under a prefix with slashes at both ends, and a listing of two pages.
use timberlake.Base.{ℕ, ◌≡◌, refl, true, List, [], ◌∷◌, some, none}
use timberlake.Base.Int.{pos}
use timberlake.Io.{Text, codes, ok, eq_text}
use timberlake.Strings.{
  has_prefix, trim_prefix, trim, trim_left, trim_right, keep_right, replace_byte,
}
use timberlake.Sizes.{put_size}
use timberlake.S3.Keys.{
  Object, Pages, clean_path, build_key, list_prefix, non_empty, relative, too_many, add_object,
  stat_objects, stat_pages, stat_all, item_of, scan_objects, scan_pages, scan,
}
use timberlake.Strings.Laws.{has_byte}
use timberlake.S3.Keys.Roundtrip.{relative-build_key}

key_of_prefix : build_key (codes "/a/") (codes "b/c") ≡ codes "a/b/c"
unfolding build_key clean_path trim_prefix has_prefix trim trim_left trim_right keep_right
    replace_byte
key_of_prefix = refl

relative-build_key_example :
    (relative (list_prefix (codes "/a/")) (some (build_key (codes "/a/") (codes "b/c")))
      ≡ some (codes "b/c"))
    × (has_prefix (list_prefix (codes "/a/")) (build_key (codes "/a/") (codes "b/c")) ≡ true)
unfolding has_prefix has_byte
relative-build_key_example = relative-build_key (codes "/a/") (codes "b/c") (λ e. cc) refl refl

abbrev object_at : Text → ℕ → Object
object_at key size = record { key = some key; size = some size }

abbrev two_pages : Pages
two_pages =
    ok (object_at (codes "a/") 0 ∷ object_at (codes "a/b") 5 ∷ [])
    ∷ ok (record { key = none; size = none } ∷ object_at (codes "a/c") 7 ∷ [])
    ∷ []

abbrev two_sizes : List (Text × ℕ)
two_sizes = (codes "b", 5) ∷ (codes "c", 7) ∷ []

two_found : stat_all (codes "a") (pos 2) two_pages ≡ ok (some two_sizes)
unfolding stat_all stat_pages stat_objects add_object too_many put_size relative non_empty
    list_prefix trim_prefix has_prefix trim trim_left trim_right keep_right eq_text
two_found = refl

two_scanned :
    scan (codes "a") two_pages
    ≡ ok (
        record { relative_path = codes "b"; size = 5 }
        ∷ record { relative_path = codes "c"; size = 7 }
        ∷ [])
unfolding scan scan_pages scan_objects item_of relative non_empty list_prefix trim_prefix has_prefix
    trim trim_left trim_right keep_right
two_scanned = refl

too_many_found : stat_all (codes "a") (pos 1) two_pages ≡ ok none
unfolding stat_all stat_pages stat_objects add_object too_many put_size relative non_empty
    list_prefix trim_prefix has_prefix trim trim_left trim_right keep_right eq_text
too_many_found = refl

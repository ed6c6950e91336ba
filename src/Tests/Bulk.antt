-- ===== src/Tests/Bulk.antt =====
-- A bucket of three objects, two of them under the prefix, listed in two pages.
use timberlake.Base.{
  ℕ, ◌≡◌, refl, ap, Bool, true, false, List, [], ◌∷◌, map, flatten, Option, none, some,
}
use timberlake.Base.Int.{pos}
use timberlake.Io.{Text, codes, eq_text, Error, message, Result, ok, err}
use timberlake.Strings.{has_prefix, trim_prefix, trim, trim_left, trim_right, keep_right}
use timberlake.Sizes.{put_size}
use timberlake.S3.Keys.{
  Object, list_prefix, non_empty, relative, too_many, add_object, stat_objects, stat_pages,
  stat_all,
}
use timberlake.Strings.Laws.{has_byte}
use timberlake.S3.Stat.{stat}
use timberlake.S3.Stat.Bucket.{Bucket, size_in, IsUnique, objects, Lists}
use timberlake.S3.Stat.Bulk.{existing-stat}
use timberlake.Ui.Listing.{bulk_stat}
use timberlake.Ui.Update.{on_bulk_complete}
use timberlake.Tests.Ui.{whole, fresh}
use timberlake.Ui.Pool.{Queued, Settings, existing}

abbrev three_objects : Bucket
three_objects = (codes "a/b", 5) ∷ (codes "a/c", 7) ∷ (codes "d", 9) ∷ []

abbrev answer_of : Option ℕ → Result (Option ℕ)
answer_of none = err (message "404")
answer_of (some n) = ok (some n)

abbrev head_of : Text → Result (Option ℕ)
head_of key = answer_of (size_in key three_objects)

abbrev all_missing : Error → Bool
all_missing e = true

abbrev object_of : Text → ℕ → Object
object_of key n = record { key = some key; size = some n }

abbrev two_blocks : List (List Object)
two_blocks = (object_of (codes "a/b") 5 ∷ []) ∷ (object_of (codes "a/c") 7 ∷ []) ∷ []

three-Lists : Lists all_missing head_of (list_prefix (codes "a")) three_objects two_blocks
unfolding IsUnique size_in eq_text objects has_prefix list_prefix trim trim_left trim_right
    keep_right flatten
three-Lists = record {
  unique_lem = (refl, (refl, (refl, tt)));
  head_some_lem = λ key n h. ap answer_of h;
  head_none_lem = λ key h. (message "404", ap answer_of h, refl);
  blocks_lem = refl;
}

abbrev both : List (Text × ℕ)
both = (codes "b", 5) ∷ (codes "c", 7) ∷ []

both_found : stat_all (codes "a") (pos 10) (map ok two_blocks) ≡ ok (some both)
unfolding stat_all stat_pages stat_objects add_object too_many put_size relative non_empty
    list_prefix trim_prefix has_prefix trim trim_left trim_right keep_right eq_text
both_found = refl

abbrev after_listing : Settings
after_listing = record {
  known = some both;
  verify_only = false;
  dry_run = false;
  slots = none;
  error_text = λ e. [];
  mismatch_text = λ a b. [];
}

abbrev item_c : Queued
item_c = record { index = 1; item = record { relative_path = codes "c"; size = 7 } }

known_both :
    after_listing.known
    ≡ (on_bulk_complete whole
        (bulk_stat (stat_all (codes "a") (pos 10) (map ok two_blocks))).0
        (bulk_stat (stat_all (codes "a") (pos 10) (map ok two_blocks))).1
        fresh).0.known_dest
unfolding on_bulk_complete bulk_stat
known_both = rw both_found refl

existing-stat_example :
    existing after_listing item_c (stat (codes "a") all_missing head_of (codes "c"))
    ≡ stat (codes "a") all_missing head_of (codes "c")
unfolding has_prefix has_byte
existing-stat_example =
    existing-stat all_missing head_of (codes "a") three_objects two_blocks three-Lists whole fresh
      (pos 10) after_listing item_c known_both (λ e. cc) refl refl

-- ===== src/Tests/Listing.antt =====
-- A walk of two files and a directory under /backup.
use timberlake.Base.{ℕ, ◌≡◌, refl, true, false, List, [], ◌∷◌, some}
use timberlake.Base.Int.{pos}
use timberlake.Io.{Text, codes, eq_text}
use timberlake.Sizes.{put_size, known_size}
use timberlake.Strings.{trim_left}
use timberlake.Sftp.Listing.{
  Entry, or_base, rel_path, found_path, scan, too_many, stat_walk, stat_all,
}
use timberlake.Sftp.Listing.Agree.{last_size, stat_all-scan}

abbrev same_base : Text → Text
same_base target = target

abbrev walk : List Entry
walk =
    record { readable = true; regular = false; path = codes "/backup"; size = 0 }
    ∷ record { readable = true; regular = true; path = codes "/backup/a"; size = 5 }
    ∷ record { readable = true; regular = true; path = codes "/backup/b/c"; size = 7 }
    ∷ []

abbrev both_sizes : List (Text × ℕ)
both_sizes = (codes "a", 5) ∷ (codes "b/c", 7) ∷ []

walk_found : stat_all same_base (codes "/backup") (pos 10) walk ≡ some both_sizes
unfolding stat_all stat_walk found_path rel_path or_base too_many put_size trim_left eq_text
walk_found = refl

stat_all-scan_example :
    known_size (codes "b/c") both_sizes
    ≡ last_size (codes "b/c") (scan same_base (codes "/backup") walk) (false, 0)
stat_all-scan_example =
    stat_all-scan same_base (codes "/backup") (codes "b/c") (pos 10) walk both_sizes walk_found

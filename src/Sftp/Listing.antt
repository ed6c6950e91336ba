-- ===== src/Sftp/Listing.antt =====
-- transfer/sftpbackend/sftp.go: Scan, StatAll, Stat and Open. What the walk of the remote tree meets
-- is a list, and the server's answers are arguments; so is path.Base. The reports are left out.
pub mod Agree
use timberlake.Base.{
  ℕ, Bool, true, false, ◌&&◌, ◌||◌, List, [], ◌∷◌, ◌++◌, Option, none, some, ltb, length, drop,
  if◌then◌else◌,
}
use timberlake.Base.Int.{ℤ, pos, ltb_ℤ}
use timberlake.Base.Words.{lt64}
use timberlake.Io.{Text, codes, eq_text, Error, message, Result, ok, err, Item, OpenFunc, Reader}
use timberlake.Sizes.{put_size}
use timberlake.Strings.{trim_left}

-- A step of the walk: an error, or a path with its size, a regular file or not.
pub record Entry : Type 0 where
  pub readable : Bool
  pub regular : Bool
  pub path : Text
  pub size : ℕ

unfoldable pub add_item : Option Text → ℕ → List Item → List Item
add_item none size items = items
add_item (some rel) size items = record { relative_path = rel; size = size } ∷ items

unfoldable pub too_many : ℤ → List (Text × ℕ) → Bool
too_many limit found = ltb_ℤ (pos 0) limit && ltb_ℤ limit (pos (length found))

module _ (base : Text → Text) where
  -- After the loop over the leading slashes.
  unfoldable pub or_base : Text → Text → Text
  or_base target [] = base target
  or_base target (c ∷ cs) = c ∷ cs

  unfoldable pub rel_path : Text → Text → Result Text
  unfolding or_base trim_left
  rel_path root target =
      if eq_text root [] || eq_text root (codes ".")
      then ok (or_base target (trim_left b'/' target))
      else if ltb (length target) (length root)
      then err (message "not under the root")
      else ok (or_base target (trim_left b'/' (drop (length root) target)))

  -- The entries that count, with their relative path.
  unfoldable pub found_path : Text → Entry → Option Text
  unfolding rel_path
  found_path root e =
      if e.readable && e.regular
      then elim (rel_path root e.path) [ ok rel ↦ some rel | err x ↦ none ]
      else none

  -- Scan
  unfoldable pub scan : Text → List Entry → List Item
  unfolding found_path add_item
  scan root [] = []
  scan root (e ∷ es) = add_item (found_path root e) e.size (scan root es)

  -- StatAll, from what is found so far; `none` where it returns false.
  unfoldable pub stat_walk : Text → ℤ → List Entry → List (Text × ℕ) → Option (List (Text × ℕ))
  unfolding found_path too_many put_size
  stat_walk root limit [] found = some found
  stat_walk root limit (e ∷ es) found = elim (found_path root e) [
    | none ↦ stat_walk root limit es found
    | some rel ↦
        if too_many limit (put_size rel e.size found)
        then none
        else stat_walk root limit es (put_size rel e.size found)
  ]

  unfoldable pub stat_all : Text → ℤ → List Entry → Option (List (Text × ℕ))
  unfolding stat_walk
  stat_all root limit es = stat_walk root limit es []

-- Stat: every error is as good as no file.
unfoldable pub stat : Result ℕ → Bool × ℕ
stat (ok size) = (true, size)
stat (err e) = (false, 0)

unfoldable pub seek_to : (ℕ → Result Reader) → ℕ → Result (Unit {0}) → Result Reader
seek_to read_from offset (err e) = err e
seek_to read_from offset (ok u) = read_from offset

-- Open: the opener, with the answers of the client's Open and of Seek, which only an offset above 0
-- asks for.
unfoldable pub open_item :
    Result (Unit {0}) → (ℕ → Result (Unit {0})) → (ℕ → Result Reader) → OpenFunc
unfolding seek_to
open_item opened seek read_from offset = elim opened [
  | err e ↦ err e
  | ok u ↦ if lt64 0 offset then seek_to read_from offset (seek offset) else read_from 0
]

-- ===== src/Localfs/Listing.antt =====
-- transfer/localfs/localfs.go: New, abs, Scan, Stat and Open. What the walk of the tree meets is a list,
-- and the answers of the operating system and the functions of path/filepath are arguments. The
-- reports are left out.
pub mod Again
use timberlake.Base.{
  ℕ, ◌+◌, Bool, true, false, ◌&&◌, ◌||◌, not, List, [], ◌∷◌, Option, none, some, if◌then◌else◌,
}
use timberlake.Base.Words.{lt64}
use timberlake.Io.{Text, Error, message, wrapped, Result, ok, err, Item, OpenFunc, Reader}

-- filepath.Join, FromSlash, ToSlash and Rel.
pub record Paths : Type 0 where
  pub join : Text → Text → Text
  pub from_slash : Text → Text
  pub to_slash : Text → Text
  pub rel : Text → Text → Result Text

-- New, of what filepath.Abs answers.
unfoldable pub new : Result Text → Result Text
new (ok root) = ok root
new (err e) = err (wrapped "invalid local path" e)

unfoldable pub abs : Paths → Text → Item → Text
abs paths root it = paths.join root (paths.from_slash it.relative_path)

-- A step of the walk: an error or none, a path, whether it is a directory, and the size of d.Info().
pub record Entry : Type 0 where
  pub failed : Bool
  pub is_dir : Bool
  pub path : Text
  pub info : Result ℕ

-- An entry that becomes an item. A symbolic link and a device are no directories.
unfoldable pub with_info : Paths → Text → Result ℕ → List Item → List Item
with_info paths rel (err e) items = items
with_info paths rel (ok size) items =
    record { relative_path = paths.to_slash rel; size = size } ∷ items

unfoldable pub with_rel : Paths → Entry → Result Text → List Item → List Item
unfolding with_info
with_rel paths e (err x) items = items
with_rel paths e (ok rel) items = with_info paths rel e.info items

unfoldable pub walk : Paths → Text → List Entry → List Item
unfolding with_rel
walk paths root [] = []
walk paths root (e ∷ es) =
    let items = walk paths root es in
    if e.failed || e.is_dir then items else with_rel paths e (paths.rel root e.path) items

-- Scan, with the answer of os.Stat for the root (whether it is a directory), and the walk with its
-- own error.
unfoldable pub scan : Paths → Text → Result Bool → List Entry → Option Error → Result (List Item)
unfolding walk
scan paths root (err e) es walked = err (wrapped "cannot stat source" e)
scan paths root (ok false) es walked = err (message "source path is not a directory")
scan paths root (ok true) es (some e) = err (wrapped "error walking" e)
scan paths root (ok true) es none = ok (walk paths root es)

-- Stat, with os.IsNotExist.
unfoldable pub stat : (Error → Bool) → Result ℕ → Result (Bool × ℕ)
stat is_not_exist (ok size) = ok (true, size)
stat is_not_exist (err e) = if is_not_exist e then ok (false, 0) else err e

unfoldable pub seek_to : (ℕ → Result Reader) → ℕ → Result (Unit {0}) → Result Reader
seek_to read_from offset (err e) = err e
seek_to read_from offset (ok u) = read_from offset

-- Open: the opener, with the answers of os.Open and of Seek.
unfoldable pub open_item :
    Result (Unit {0}) → (ℕ → Result (Unit {0})) → (ℕ → Result Reader) → OpenFunc
unfolding seek_to
open_item (err e) seek read_from offset = err e
open_item (ok u) seek read_from offset =
    if lt64 0 offset then seek_to read_from offset (seek offset) else read_from 0

-- ===== src/Tests/Localfs.antt =====
-- A copy of five bytes onto a partial file of two, and one that the disk has no room for.
use timberlake.Base.{
  ℕ, ◌<◌, ◌^◌, ◌≡◌, ◌↔◌, Bool, true, false, refl, ◌⊎◌, List, [], ◌∷◌, ◌++◌, flatten, append-nil,
  Option, none, some, arith, ◌∙◌, length, drop,
}
use timberlake.Io.{Error, codes, message, OpenFunc, Serves, Reads, Reader, ok, eq_text, copy_n}
use timberlake.Copy.{copy_loop, all_copied, same_prefix}
use timberlake.Localfs.{
  Env, put, put_made, write_out, copy_from, finish_copy, resume_from, partial_matches,
}
use timberlake.Localfs.Content.{put-content, put-prefix}
use timberlake.Localfs.Listing.{stat}
use timberlake.Localfs.Listing.Again.{finds, put-Checked}
use timberlake.Ui.Pool.{Settings, Queued, existing, is_complete}

abbrev five_bytes : List ℕ
five_bytes = 10 ∷ 20 ∷ 30 ∷ 40 ∷ 50 ∷ []

abbrev plain : List ℕ → Reader
plain bs = record { chunks = bs ∷ []; fault = none }

abbrev open_five : OpenFunc
open_five off = ok (plain (drop off five_bytes))

plain-Reads : (bs : List ℕ) (r : Reader) → ok (plain bs) ≡ ok r → Reads r bs
unfolding flatten
plain-Reads bs r h =
    let r_is : r ≡ plain bs = ground arith in
    rw r_is ([], append-nil (bs ++ []) ∙ append-nil bs, (λ e. refl), (λ e. cc))

five-Serves : Serves open_five five_bytes
five-Serves = record { reads = λ off r h. plain-Reads (drop off five_bytes) r h }

abbrev disk : Option ℕ → Env
disk room = record {
  mkdir = ok tt;
  stat = ok tt;
  open_file = λ f. ok (plain f);
  open_out = ok tt;
  room = room;
}

abbrev partial : Option (List ℕ)
partial = some (10 ∷ 20 ∷ [])

abbrev identity : List ℕ → List ℕ
identity bs = bs

same_of_some : (f g : List ℕ) → some f ≡ some g → f ≡ g
same_of_some f g h = ground arith

small-partial : (f : List ℕ) → partial ≡ some f → length f < 2 ^ 63
small-partial f h = rw (← same_of_some _ f h) (omega arith)

resumed_run : (put identity (disk none) partial open_five 5).reports ≡ 5 ∷ 5 ∷ []
unfolding put put_made write_out copy_from finish_copy resume_from partial_matches copy_loop
    same_prefix all_copied copy_n eq_text flatten
resumed_run = refl

put-content_example : (put identity (disk none) partial open_five 5).file ≡ some five_bytes
unfolding put put_made write_out copy_from finish_copy resume_from partial_matches copy_loop
    same_prefix all_copied copy_n eq_text flatten
put-content_example =
    put-content identity (disk none) partial open_five five_bytes 5 five-Serves
      (λ f r at_file opened. plain-Reads f r opened) (λ f at_file same. same) (omega arith)
      small-partial refl

put-prefix_example :
    ((put identity (disk (some 1)) partial open_five 5).file ≡ partial)
    ⊎ ((p : List ℕ) × (rest : List ℕ) × ((put identity (disk (some 1)) partial open_five 5).file
          ≡ some p)
        × (p ++ rest ≡ five_bytes))
put-prefix_example =
    put-prefix identity (disk (some 1)) partial open_five five_bytes 5 five-Serves
      (λ f r at_file opened. plain-Reads f r opened) (λ f at_file same. same) (omega arith)
      small-partial

abbrev unlisted : Settings
unlisted = record {
  known = none;
  verify_only = false;
  dry_run = false;
  slots = none;
  error_text = λ e. codes "failed";
  mismatch_text = λ size want. codes "size mismatch";
}

abbrev the_file : Queued
the_file = record { item = record { relative_path = codes "a"; size = 5 }; index = 0 }

abbrev is_not_exist : Error → Bool
is_not_exist e = true

put-Checked_example :
    (is_complete unlisted the_file (
        finds unlisted the_file is_not_exist
          (message "gone")
          (put identity (disk none) partial open_five 5).file)
      ≡ true)
    ↔ ((put identity (disk none) partial open_five 5).file ≡ some five_bytes)
unfolding existing is_complete stat
put-Checked_example =
    put-Checked identity (disk none) partial open_five five_bytes 5 five-Serves
      (λ f r at_file opened. plain-Reads f r opened) (λ f at_file same. same) (omega arith)
      small-partial unlisted the_file is_not_exist (message "gone") refl refl refl

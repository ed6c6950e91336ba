-- ===== src/Tests/Sftp.antt =====
-- A copy of five bytes onto a remote file of two: one that differs, so that the copy starts anew,
-- and one that the server has no room for.
use timberlake.Base.{
  ℕ, ◌<◌, ◌^◌, ◌≡◌, refl, ◌⊎◌, List, [], ◌∷◌, ◌++◌, flatten, append-nil, Option, none, some, arith,
  ◌∙◌, length, drop,
}
use timberlake.Io.{codes, OpenFunc, Serves, Reads, Reader, ok, eq_text, copy_n}
use timberlake.Copy.{copy_loop, all_copied, same_prefix}
use timberlake.Sftp.{
  Env, put, put_made, needs_mkdir, write_out, sought, write_at, copy_from, finish_copy, resume_from,
  partial_matches,
}
use timberlake.Sftp.Content.{put-content_remote, put-prefix_remote}

abbrev five_bytes : List ℕ
five_bytes = 10 ∷ 20 ∷ 30 ∷ 40 ∷ 50 ∷ []

abbrev plain : List ℕ → Reader
plain bs = record { chunks = bs ∷ []; fault = none }

abbrev open_five : OpenFunc
open_five off = ok (plain (drop off five_bytes))

plain-Reads : (bs : List ℕ) (r : Reader) → ok (plain bs) ≡ ok r → Reads r bs
unfolding flatten
plain-Reads bs r h =
    let r_is : r ≡ plain bs = ground arith in
    rw r_is ([], append-nil (bs ++ []) ∙ append-nil bs, (λ e. refl), (λ e. cc))

five-Serves : Serves open_five five_bytes
five-Serves = record { reads = λ off r h. plain-Reads (drop off five_bytes) r h }

abbrev server : Option ℕ → Env
server room = record {
  dir = codes "/srv";
  mkdir = ok tt;
  stat = ok tt;
  open_file = λ f. ok (plain f);
  open_out = ok tt;
  seek = ok tt;
  room = room;
}

abbrev partial : Option (List ℕ)
partial = some (10 ∷ 21 ∷ [])

abbrev identity : List ℕ → List ℕ
identity bs = bs

same_of_some : (f g : List ℕ) → some f ≡ some g → f ≡ g
same_of_some f g h = ground arith

small-partial : (f : List ℕ) → partial ≡ some f → length f < 2 ^ 63
small-partial f h = rw (← same_of_some _ f h) (omega arith)

fresh_run : (put identity (server none) partial open_five 5).reports ≡ 5 ∷ 5 ∷ []
unfolding put put_made needs_mkdir write_out sought write_at copy_from finish_copy resume_from
    partial_matches copy_loop same_prefix all_copied copy_n eq_text flatten
fresh_run = refl

put-content_remote_example : (put identity (server none) partial open_five 5).file ≡ some five_bytes
unfolding put put_made needs_mkdir write_out sought write_at copy_from finish_copy resume_from
    partial_matches copy_loop same_prefix all_copied copy_n eq_text flatten
put-content_remote_example =
    put-content_remote identity (server none) partial open_five five_bytes 5 five-Serves
      (λ f r at_file opened. plain-Reads f r opened) (λ f at_file same. same) (omega arith)
      small-partial refl

put-prefix_remote_example :
    ((put identity (server (some 1)) partial open_five 5).file ≡ partial)
    ⊎ ((p : List ℕ) × (rest : List ℕ) × ((put identity (server (some 1)) partial open_five 5).file
          ≡ some p)
        × (p ++ rest ≡ five_bytes))
put-prefix_remote_example =
    put-prefix_remote identity (server (some 1)) partial open_five five_bytes 5 five-Serves
      (λ f r at_file opened. plain-Reads f r opened) (λ f at_file same. same) (omega arith)
      small-partial

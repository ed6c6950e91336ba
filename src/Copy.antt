-- ===== src/Copy.antt =====
-- What localfs.Put and sftpbackend.Put share: io.Copy from the source through a TeeReader that
-- counts and reports, and the comparison of two prefixes by their hashes.
pub mod Prefix
use timberlake.Base.{
  ℕ, zero, suc, ◌+◌, ◌-◌, Bool, true, false, ◌&&◌, List, [], ◌∷◌, ◌++◌, Option, none, some, leb,
  length, take, drop, replicate, if◌then◌else◌,
}
use timberlake.Base.Words.{add64, lt64}
use timberlake.Io.{Text, eq_text, Error, message, OpenFunc, Result, ok, err, ◌>>=◌, Reader, copy_n}

-- The output file after the copy, the reports in order, and the error of io.Copy.
pub record Copied : Type 0 where
  pub file : List ℕ
  pub reports : List ℕ
  pub result : Result (Unit {0})

abbrev pub report_first : ℕ → Copied → Copied
report_first n c = record c { reports = n ∷ c.reports }

-- Each chunk is counted and reported as it is read, then written. `room` is the number of bytes
-- that the output still takes before a write fails; `none` if none fails.
unfoldable pub copy_loop :
    (List ℕ → ℕ → List ℕ → List ℕ) → Option ℕ → ℕ → List ℕ → List (List ℕ) → Option Error → Copied
copy_loop write room n file [] none = record { file = file; reports = []; result = ok tt }
copy_loop write room n file [] (some e) = record { file = file; reports = []; result = err e }
copy_loop write none n file (c ∷ cs) fault =
    report_first (add64 n (length c))
      (copy_loop write none (add64 n (length c)) (write file n c) cs fault)
copy_loop write (some k) n file (c ∷ cs) fault =
    let rest =
      copy_loop write (some (k - length c)) (add64 n (length c)) (write file n c) cs fault in
    report_first (add64 n (length c)) (
      if leb (length c) k then rest else record {
        file = write file n (take k c);
        reports = [];
        result = err (message "short write");
      })

-- io.CopyN into a hash: any error is returned, io.EOF too.
unfoldable pub all_copied : List ℕ × Option Error → Result (List ℕ)
all_copied (got, none) = ok got
all_copied (got, some e) = err e

-- partialMatches, with the file opened by `f`: the first `n` bytes of it and of the source.
unfoldable pub same_prefix : (List ℕ → Text) → Result Reader → Result Reader → ℕ → Result Bool
unfolding all_copied
same_prefix sha256 f source n = do
  rf ← f
  dst ← all_copied (copy_n rf n)
  rs ← source
  src ← all_copied (copy_n rs n)
  ok (eq_text (sha256 dst) (sha256 src))

-- `err == nil && ok`
abbrev pub says_yes : Result Bool → Bool
says_yes (ok b) = b
says_yes (err e) = false

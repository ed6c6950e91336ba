-- ===== src/Io.antt =====
-- What the transfers use of Go's `io` package, the item and the opener of transfer/transfer.go.
-- A reader is the chunks that successive calls of Read deliver, then an error or the end.
-- A size or an offset of type int64 is its bit pattern.
pub mod Readers
use Prim.Native.Char.{code}
use Prim.Native.String.{String}
use timberlake.Base.{
  ℕ, ◌≡◌, ◌≢◌, Bool, true, false, ◌&&◌, List, [], ◌∷◌, ◌++◌, flatten, Option, none, some, leb, ◌==◌,
  length, take, drop, if◌then◌else◌,
}

-- Text as its bytes.
abbrev pub Text : Type 0
Text = List ℕ

abbrev pub codes : String → Text
codes String.[] = []
codes (String.◌∷◌ c s) = code c ∷ codes s

unfoldable pub eq_text : Text → Text → Bool
eq_text [] [] = true
eq_text [] (y ∷ ys) = false
eq_text (x ∷ xs) [] = false
eq_text (x ∷ xs) (y ∷ ys) = (x == y) && eq_text xs ys

-- `fmt.Errorf("…: %w", err)` is `wrapped "…" err`, and `outside n` an error of code not modelled.
pub data Error : Type 0 where
  eof unexpected_eof cancelled : Error
  outside : ℕ → Error
  message : String → Error
  wrapped : String → Error → Error
  panic : String → Error

pub data Result {ℓ} (A : Type ℓ) : Type ℓ where
  err : Error → Result A
  ok : A → Result A

infixl 5 ◌>>=◌
abbrev pub ◌>>=◌ {ℓ κ} : {A : Type ℓ} {B : Type κ} → Result A → (A → Result B) → Result B
err failed >>= next = err failed
ok value >>= next = next value

-- `if err != nil { return fmt.Errorf("…: %w", err) }`
abbrev pub context {ℓ} : {A : Type ℓ} → String → Result A → Result A
context s (ok a) = ok a
context s (err e) = err (wrapped s e)

pub record Item : Type 0 where
  pub relative_path : Text
  pub size : ℕ

pub record Reader : Type 0 where
  pub chunks : List (List ℕ)
  pub fault : Option Error

-- Every byte that the reader delivers.
abbrev pub bytes : Reader → List ℕ
bytes r = flatten r.chunks

abbrev pub end_error : Option Error → Error
end_error none = eof
end_error (some e) = e

abbrev pub OpenFunc : Type 0
OpenFunc = ℕ → Result Reader

-- io.CopyN(dst, r, n): what reaches dst, and the error.
unfoldable pub copy_n : Reader → ℕ → List ℕ × Option Error
copy_n r n =
    if leb n (length (bytes r))
    then (take n (bytes r), none)
    else (bytes r, some (end_error r.fault))

-- The error of a full read that ended early, after what it had read.
unfoldable pub short_read : Option Error → List ℕ → Error
short_read (some e) got = e
short_read none [] = eof
short_read none (x ∷ xs) = unexpected_eof

-- io.ReadFull(r, buf) with len(buf) == n.
unfoldable pub read_full : Reader → ℕ → Result (List ℕ)
unfolding short_read
read_full r n =
    if leb n (length (bytes r)) then ok (take n (bytes r)) else err (short_read r.fault (bytes r))

-- The reader delivers a prefix of `content`, and all of it unless it fails. (io.EOF is no failure.)
abbrev pub Reads : Reader → List ℕ → Type 0
Reads r content =
    (rest : List ℕ) × (bytes r ++ rest ≡ content)
    × (r.fault ≡ none → rest ≡ [])
    × (r.fault ≢ some eof)

-- The opener of an item whose content does not change while it is transferred. It may fail.
pub record Serves (open_at : OpenFunc) (content : List ℕ) : Type 0 where
  pub reads : (off : ℕ) (r : Reader) → open_at off ≡ ok r → Reads r (drop off content)

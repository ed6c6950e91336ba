-- ===== src/Io/Readers.antt =====
-- Lemmas on readers, against the content that they stand for, on texts and on results (Io).
use Prim.Native.String.{String}
use timberlake.Base.{
  ℕ, ◌≤◌, ◌≡◌, ◌≢◌, refl, sym, ap, ◌∙◌, true, List, [], ◌∷◌, ◌++◌, append-nil, Option, none, some,
  arith, Bool-cases, leb, ◌⊎◌, length, take, inl, inr,
}
use timberlake.Base.Slices.{take_all, take-append_le}
use timberlake.Io.{
  Text, eq_text, Reader, bytes, Reads, copy_n, read_full, eof, Error, ok, err, Result, ◌>>=◌,
  context, end_error,
}

pub eq_text_sound : (a b : Text) → eq_text a b ≡ true → a ≡ b
unfolding eq_text
eq_text_sound [] [] h = refl
eq_text_sound [] (y ∷ ys) h = cc
eq_text_sound (x ∷ xs) [] h = cc
eq_text_sound (x ∷ xs) (y ∷ ys) h = ground (arith, eq_text_sound xs ys)

pub eq_text_refl : (a : Text) → eq_text a a ≡ true
unfolding eq_text
eq_text_refl [] = refl
eq_text_refl (x ∷ xs) = ground (arith, eq_text_refl xs)

pub >>=-inv {ℓ κ} :
    {A : Type ℓ} {B : Type κ} (first : Result A) (next : A → Result B) {result : B}
    → first >>= next ≡ ok result
    → (value : A) × (first ≡ ok value) × (next value ≡ ok result)
>>=-inv (err failed) next h = cc
>>=-inv (ok value) next h = (value, refl, h)

pub context-ok {ℓ} :
    {A : Type ℓ} (what : String) (m : Result A) {a : A} → context what m ≡ ok a → m ≡ ok a
context-ok what (ok a) h = h
context-ok what (err e) h = cc

-- The end that io.CopyN accepts is no fault.
ended :
    (f e : Option Error)
    → e ≡ some (end_error f)
    → (e ≡ none) ⊎ (e ≡ some eof)
    → f ≢ some eof
    → f ≡ none
ended none e h ends ne = refl
ended (some x) e h ends ne = ground (arith, λ (p : x ≡ eof). ne (ap some p))

module _ (r : Reader) (content : List ℕ) (reads : Reads r content) where
  pub take-bytes : (n : ℕ) → n ≤ length (bytes r) → take n (bytes r) ≡ take n content
  take-bytes n h = sym (take-append_le n (bytes r) reads.0 h) ∙ ap (take n) reads.1

  pub read_full-take : (n : ℕ) {buf : List ℕ} → read_full r n ≡ ok buf → buf ≡ take n content
  unfolding read_full
  read_full-take n h = ground (arith, take-bytes n)

  -- A reader that does not fail delivers the whole content.
  pub bytes-all : r.fault ≡ none → bytes r ≡ content
  bytes-all h = sym (append-nil (bytes r)) ∙ ap (◌++◌ (bytes r)) (sym (reads.2 h)) ∙ reads.1

  -- io.CopyN that meets no error but io.EOF has copied what is there of the first n bytes.
  pub copy_n-take :
      (n : ℕ) (got : List ℕ) (e : Option Error)
      → copy_n r n ≡ (got, e)
      → (e ≡ none) ⊎ (e ≡ some eof)
      → got ≡ take n content
  unfolding copy_n
  copy_n-take n got e h ends = elim (Bool-cases (leb n (length (bytes r)))) [
    | inl full ↦ ground (arith, take-bytes n)
    | inr short ↦
        let all : bytes r ≡ content = bytes-all (ended r.fault e (ground arith) ends reads.3) in
        let got_all : got ≡ content = ground (arith, all) in
        got_all ∙ sym (take_all n content (ground (arith, ap length all)))
  ]

pub ok_inj {ℓ} : {A : Type ℓ} (a b : A) → ok a ≡ ok b → a ≡ b
ok_inj a b h = cc

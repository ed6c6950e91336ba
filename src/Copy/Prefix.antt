-- ===== src/Copy/Prefix.antt =====
-- Copies that append (Copy): the file and the reports, against what the source delivers.
use native.Mathlib.Nat.{add_assoc}
use timberlake.Base.{
  ℕ, ◌+◌, ◌-◌, ◌≤◌, ◌<◌, ◌^◌, ◌≡◌, refl, sym, ap, ◌∙◌, inl, inr, true, List, [], ◌∷◌, ◌++◌,
  append-nil, append_assoc, flatten, Option, none, some, arith, leb, length, take, drop, Bool-cases,
  length-append, length-take, length-drop,
}
use timberlake.Base.Words.{add64}
use timberlake.Base.Slices.{take-append-drop}
use timberlake.Io.{Text, Error, Reads, Result, ok, err, Reader, bytes, copy_n}
use timberlake.Io.Readers.{eq_text_sound, take-bytes, >>=-inv}
use timberlake.Copy.{Copied, report_first, copy_loop, all_copied, same_prefix}

-- Each report lies between its predecessor and the end.
abbrev pub Rising : ℕ → ℕ → List ℕ → Type 0
Rising low high [] = Unit
Rising low high (n ∷ ns) = (low ≤ n) × (n ≤ high) × Rising n high ns

all_copied-take :
    (r : Reader) (content : List ℕ) (n : ℕ) (got : List ℕ)
    → Reads r content
    → all_copied (copy_n r n) ≡ ok got
    → got ≡ take n content
unfolding all_copied copy_n
all_copied-take r content n got reads p = elim (Bool-cases (leb n (length (bytes r)))) [
  | inl full ↦
      let got_is : take n (bytes r) ≡ got = ground arith in
      sym got_is ∙ take-bytes r content reads n (ground arith)
  | inr short ↦ absurd (ground arith)
]

ok_eq {ℓ} : {A : Type ℓ} {a b : A} → ok a ≡ ok b → a ≡ b
ok_eq h = ground arith

-- What a copy from `cs` into a file may leave.
pub record Extends (n : ℕ) (file : List ℕ) (cs : List (List ℕ)) (fault : Option Error) (c : Copied)
    : Type 0 where
  pub sent : List ℕ
  pub rest : List ℕ
  pub split : sent ++ rest ≡ flatten cs
  pub extended : c.file ≡ file ++ sent
  pub complete : c.result ≡ ok tt → (rest ≡ []) × (fault ≡ none)
  pub rising : Rising n (n + length (flatten cs)) c.reports

add64-plain : (a b : ℕ) → a + b < 2 ^ 63 → add64 a b ≡ a + b
add64-plain a b h = omega arith

Extends-cons :
    (n : ℕ) (file c : List ℕ) (cs : List (List ℕ)) (fault : Option Error) (x : Copied)
    → Extends (n + length c) (file ++ c) cs fault x
    → Extends n file (c ∷ cs) fault (report_first (n + length c) x)
unfolding flatten
Extends-cons n file c cs fault x e = record {
  sent = c ++ e.sent;
  rest = e.rest;
  split = append_assoc c e.sent e.rest ∙ ap (◌++◌ c) e.split;
  extended = e.extended ∙ append_assoc file c e.sent;
  complete = e.complete;
  rising = (
    omega arith,
    omega (arith, length-append c (flatten cs)),
    rw (length-append c (flatten cs), ← add_assoc n (length c) (length (flatten cs))) e.rising,
  );
}

-- The write of a chunk falls short: the copy ends with a part of it.
Extends-short :
    (n k : ℕ) (file c : List ℕ) (cs : List (List ℕ)) (fault : Option Error) (e : Error)
    → Extends n file (c ∷ cs) fault (
        report_first
          (n + length c)
          (record { file = file ++ take k c; reports = []; result = err e }))
unfolding flatten
Extends-short n k file c cs fault e = record {
  sent = take k c;
  rest = drop k c ++ flatten cs;
  split =
      sym (append_assoc (take k c) (drop k c) (flatten cs))
      ∙ ap (λ t. t ++ flatten cs) (take-append-drop k c);
  extended = refl;
  complete = λ h. cc;
  rising = (omega arith, omega (arith, length-append c (flatten cs)), tt);
}

module _ (write : List ℕ → ℕ → List ℕ → List ℕ)
    (appends : (file : List ℕ) (n : ℕ) (c : List ℕ)
      → n ≡ length file
      → write file n c ≡ file ++ c) where
  pub copy_loop-Extends :
      (room : Option ℕ) (n : ℕ) (file : List ℕ) (cs : List (List ℕ)) (fault : Option Error)
      → n ≡ length file
      → n + length (flatten cs) < 2 ^ 63
      → Extends n file cs fault (copy_loop write room n file cs fault)
  unfolding copy_loop flatten
  copy_loop-Extends room n file [] none at_end small = record {
    sent = [];
    rest = [];
    split = refl;
    extended = sym (append-nil file);
    complete = λ h. (refl, refl);
    rising = tt;
  }
  copy_loop-Extends room n file [] (some e) at_end small = record {
    sent = [];
    rest = [];
    split = refl;
    extended = sym (append-nil file);
    complete = λ h. cc;
    rising = tt;
  }
  copy_loop-Extends none n file (c ∷ cs) fault at_end small =
      let room_left : n + length c + length (flatten cs) < 2 ^ 63 =
        omega (arith, length-append c (flatten cs)) in
      rw (add64-plain n (length c) (omega arith), appends file n c at_end)
        (Extends-cons n file c cs fault _ (
          copy_loop-Extends none (n + length c) (file ++ c) cs fault
            (omega (arith, length-append file c)) room_left))
  copy_loop-Extends (some k) n file (c ∷ cs) fault at_end small =
      let room_left : n + length c + length (flatten cs) < 2 ^ 63 =
        omega (arith, length-append c (flatten cs)) in
      rw (add64-plain n (length c) (omega arith)) (elim (Bool-cases (leb (length c) k)) [
        | inl fits ↦
            rw (fits, appends file n c at_end)
              (Extends-cons n file c cs fault _ (
                copy_loop-Extends (some (k - length c)) (n + length c) (file ++ c) cs fault
                  (omega (arith, length-append file c)) room_left))
        | inr short ↦
            rw (short, appends file n (take k c) at_end) (Extends-short n k file c cs fault _)
      ])

-- What a copy leaves that starts after a prefix of the content.
pub record Resumed (start : ℕ) (content : List ℕ) (c : Copied) : Type 0 where
  pub missing : List ℕ
  pub so_far : c.file ++ missing ≡ content
  pub whole : c.result ≡ ok tt → c.file ≡ content
  pub rising : Rising start (length content) c.reports

Rising-mono : (low h k : ℕ) (ns : List ℕ) → h ≤ k → Rising low h ns → Rising low k ns
Rising-mono low h k [] le r = tt
Rising-mono low h k (n ∷ ns) le r = (r.0, omega arith, Rising-mono n h k ns le r.2)

-- What the source delivers ends within the content.
pub Reads-bound :
    (start : ℕ) (base content : List ℕ) (src : Reader)
    → base ≡ take start content
    → start ≡ length base
    → Reads src (drop start content)
    → start + length (bytes src) ≤ length content
Reads-bound start base content src based at_end reads = omega (
  arith,
  ap length reads.1,
  length-append (bytes src) reads.0,
  length-drop start content,
  ap length based,
  length-take start content,
)

module _ (start : ℕ) (base content : List ℕ) (src : Reader) (c : Copied)
    (based : base ≡ take start content) (at_end : start ≡ length base)
    (reads : Reads src (drop start content))
    (copied : Extends start base src.chunks src.fault c) where
  joined : c.file ++ (copied.rest ++ reads.0) ≡ content
  joined =
      ap (λ t. t ++ (copied.rest ++ reads.0)) copied.extended
      ∙ append_assoc base copied.sent (copied.rest ++ reads.0)
      ∙ ap (◌++◌ base) (
          sym (append_assoc copied.sent copied.rest reads.0)
          ∙ ap (λ t. t ++ reads.0) copied.split
          ∙ reads.1)
      ∙ ap (λ t. t ++ drop start content) based
      ∙ take-append-drop start content

  pub Extends-Resumed : Resumed start content c
  Extends-Resumed = record {
    missing = copied.rest ++ reads.0;
    so_far = joined;
    whole = λ h.
        sym (append-nil c.file)
        ∙ ap (◌++◌ c.file)
            (sym (ap (λ t. t ++ reads.0) (copied.complete h).0 ∙ reads.2 (copied.complete h).1))
        ∙ joined;
    rising =
        Rising-mono start (start + length (bytes src)) (length content) c.reports
          (Reads-bound start base content src based at_end reads) copied.rising;
  }

-- Both hashes were taken of n bytes, and agree.
pub same_prefix-true :
    (sha256 : List ℕ → Text) (f source : Result Reader) (n : ℕ) (file content : List ℕ)
    → (sha256 (take n file) ≡ sha256 (take n content) → take n file ≡ take n content)
    → ((r : Reader) → f ≡ ok r → Reads r file)
    → ((r : Reader) → source ≡ ok r → Reads r content)
    → same_prefix sha256 f source n ≡ ok true
    → take n file ≡ take n content
unfolding same_prefix
same_prefix-true sha256 f source n file content unmistakable reads_f reads_s p =
    let (rf, f_ok, p₁) = >>=-inv f _ p in
    let (dst, dst_ok, p₂) = >>=-inv (all_copied (copy_n rf n)) _ p₁ in
    let (rs, s_ok, p₃) = >>=-inv source _ p₂ in
    let (src, src_ok, p₄) = >>=-inv (all_copied (copy_n rs n)) _ p₃ in
    let dst_is = all_copied-take rf file n dst (reads_f rf f_ok) dst_ok in
    let src_is = all_copied-take rs content n src (reads_s rs s_ok) src_ok in
    unmistakable (
      ap sha256 (sym dst_is)
      ∙ eq_text_sound (sha256 dst) (sha256 src) (ok_eq p₄)
      ∙ ap sha256 src_is)

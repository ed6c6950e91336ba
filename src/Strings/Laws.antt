-- ===== src/Strings/Laws.antt =====
-- Laws of the functions of `strings` (Strings).
use timberlake.Base.{
  ℕ, ◌≡◌, refl, ap, Bool, true, false, [], ◌∷◌, ◌++◌, Option, none, some, arith, length, drop, ◌==◌,
  Bool-cases, inl, inr, if◌then◌else◌,
}
use timberlake.Io.{Text}
use timberlake.Strings.{has_prefix, trim_prefix, cut, cons_before}

pub has_prefix-append : (p s : Text) → has_prefix p (p ++ s) ≡ true
unfolding has_prefix
has_prefix-append [] s = refl
has_prefix-append (c ∷ p) s = ground (arith, has_prefix-append p s)

pub drop-append : (p s : Text) → drop (length p) (p ++ s) ≡ s
drop-append [] s = refl
drop-append (c ∷ p) s = drop-append p s

pub trim_prefix-append : (p s : Text) → trim_prefix p (p ++ s) ≡ s
unfolding trim_prefix
trim_prefix-append p s = rw (has_prefix-append p s) (drop-append p s)

pub has_prefix-drop : (p s : Text) → has_prefix p s ≡ true → p ++ drop (length p) s ≡ s
unfolding has_prefix
has_prefix-drop [] s h = refl
has_prefix-drop (c ∷ p) [] h = cc
has_prefix-drop (c ∷ p) (x ∷ s) h = ground (arith, has_prefix-drop p s)

-- The text has the byte.
unfoldable pub has_byte : ℕ → Text → Bool
has_byte c [] = false
has_byte c (x ∷ s) = if x == c then true else has_byte c s

pub cut-none : (c : ℕ) (s : Text) → has_byte c s ≡ false → cut c s ≡ none
unfolding cut has_byte
cut-none c [] h = refl
cut-none c (x ∷ s) h = ground (arith, cut-none c s)

pub cut-append :
    (c : ℕ) (s rest : Text) → has_byte c s ≡ false → cut c (s ++ c ∷ rest) ≡ some (s, rest)
unfolding cut has_byte
cut-append c [] rest h = ground arith
cut-append c (x ∷ s) rest h = ground (arith, cut-append c s rest)

pub cut-none_inv : (c : ℕ) (s : Text) → cut c s ≡ none → has_byte c s ≡ false
unfolding cut has_byte
cut-none_inv c [] h = refl
cut-none_inv c (x ∷ s) h = ground (arith, cut-none_inv c s)

cons_before-inv :
    (x : ℕ) (r : Option (Text × Text)) (a b : Text)
    → cons_before x r ≡ some (a, b)
    → (a' : Text) × (r ≡ some (a', b)) × (x ∷ a' ≡ a)
cons_before-inv x none a b h = cc
cons_before-inv x (some (a', b')) a b h =
    let front : x ∷ a' ≡ a = ground arith in
    let back : b' ≡ b = ground arith in (a', rw back refl, front)

pub cut-some_inv :
    (c : ℕ) (s a b : Text) → cut c s ≡ some (a, b) → (has_byte c a ≡ false) × (a ++ c ∷ b ≡ s)
unfolding cut has_byte
cut-some_inv c [] a b h = cc
cut-some_inv c (x ∷ s) a b h = elim (Bool-cases (x == c)) [
  | inl e ↦
      let here : some ([], s) ≡ some (a, b) = rw e at h in
      let front : [] ≡ a = ground arith in
      let back : s ≡ b = ground arith in
      let same : x ≡ c = ground arith in rw (← front, ← back) (refl, rw same refl)
  | inr n ↦
      let (a', rest, front) = cons_before-inv x (cut c s) a b (rw n at h) in
      let (none_in, whole) = cut-some_inv c s a' b rest in
      rw (← front) (rw n none_in, ap (λ t. x ∷ t) whole)
]

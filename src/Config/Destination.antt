-- ===== src/Config/Destination.antt =====
-- ParseDestination (Config) against the texts that it takes apart.
use timberlake.Base.{
  ℕ, ◌≡◌, ◌≢◌, refl, sym, ap, ◌∙◌, ◌⊎◌, inl, inr, false, [], ◌∷◌, ◌++◌, Option, none, some, arith,
  Bool-cases,
}
use timberlake.Io.{Text, codes, ok}
use timberlake.Strings.{has_prefix, trim_prefix, cut}
use timberlake.Strings.Laws.{
  trim_prefix-append, has_prefix-append, has_prefix-drop, has_byte, cut-append, cut-none,
  cut-none_inv, cut-some_inv,
}
use timberlake.Config.{bucket_of, check_bucket, parse_destination}

-- A bucket with no slash in it, and a prefix that does not start with one, come back from the
-- destination that they make, with and without the prefix.
pub parse_destination-roundtrip :
    (c : ℕ) (cs prefix : Text)
    → has_byte b'/' (c ∷ cs) ≡ false
    → has_prefix (codes "/") prefix ≡ false
    → (parse_destination (codes "s3://" ++ ((c ∷ cs) ++ b'/' ∷ prefix)) ≡ ok (c ∷ cs, prefix))
      × (parse_destination (codes "s3://" ++ (c ∷ cs)) ≡ ok (c ∷ cs, []))
unfolding parse_destination
parse_destination-roundtrip c cs prefix no_slash plain = (
  rw
      (
        has_prefix-append (codes "s3://") ((c ∷ cs) ++ b'/' ∷ prefix),
        trim_prefix-append (codes "s3://") ((c ∷ cs) ++ b'/' ∷ prefix),
        cut-append b'/' (c ∷ cs) prefix no_slash,
      )
      (unfold trim_prefix in rw plain refl),
  rw
      (
        has_prefix-append (codes "s3://") (c ∷ cs),
        trim_prefix-append (codes "s3://") (c ∷ cs),
        cut-none b'/' (c ∷ cs) no_slash,
      )
      refl,
)

-- Whatever ParseDestination accepts is s3:// and a bucket that is not empty and has no slash, and
-- then nothing, with the empty prefix, or a slash and the prefix, but for one slash more.
pub parse_destination_sound :
    (dest bucket prefix : Text)
    → parse_destination dest ≡ ok (bucket, prefix)
    → (bucket ≢ [])
      × (has_byte b'/' bucket ≡ false)
      × (((dest ≡ codes "s3://" ++ bucket) × (prefix ≡ []))
          ⊎ ((rest : Text) × (dest ≡ codes "s3://" ++ (bucket ++ b'/' ∷ rest))
              × (prefix ≡ trim_prefix (codes "/") rest)))
unfolding parse_destination
parse_destination_sound dest bucket prefix h = elim (Bool-cases (has_prefix (codes "s3://") dest)) [
  | inl s3 ↦
      let trimmed = trim_prefix (codes "s3://") dest in
      let whole : codes "s3://" ++ trimmed ≡ dest =
        unfold trim_prefix in rw s3 (has_prefix-drop (codes "s3://") dest s3) in
      let checked : check_bucket (bucket_of trimmed (cut b'/' trimmed)) ≡ ok (bucket, prefix) =
        rw s3 at h in
      by_cut dest bucket prefix trimmed whole (cut b'/' trimmed) refl checked
  | inr other ↦ cc (rw other at h)
]
  where
    by_cut :
        (dest bucket prefix trimmed : Text)
        → codes "s3://" ++ trimmed ≡ dest
        → (r : Option (Text × Text)) → cut b'/' trimmed ≡ r
        → check_bucket (bucket_of trimmed r) ≡ ok (bucket, prefix)
        → (bucket ≢ [])
          × (has_byte b'/' bucket ≡ false)
          × (((dest ≡ codes "s3://" ++ bucket) × (prefix ≡ []))
              ⊎ ((rest : Text) × (dest ≡ codes "s3://" ++ (bucket ++ b'/' ∷ rest))
                  × (prefix ≡ trim_prefix (codes "/") rest)))
    by_cut dest bucket prefix [] whole none cut_is checked = unfold check_bucket bucket_of in cc
    by_cut dest bucket prefix (c ∷ cs) whole none cut_is checked =
        let front : c ∷ cs ≡ bucket = unfold check_bucket bucket_of in ground arith in
        let back : [] ≡ prefix = unfold check_bucket bucket_of in ground arith in
        rw (← front, ← back) ((λ e. cc), cut-none_inv b'/' (c ∷ cs) cut_is, inl (sym whole, refl))
    by_cut dest bucket prefix trimmed whole (some ([], rest)) cut_is checked =
        unfold check_bucket bucket_of in cc
    by_cut dest bucket prefix trimmed whole (some (c ∷ cs, rest)) cut_is checked =
        let front : c ∷ cs ≡ bucket = unfold check_bucket bucket_of in ground arith in
        let back : trim_prefix (codes "/") rest ≡ prefix =
          unfold check_bucket bucket_of in ground arith in
        let (no_slash, parts) = cut-some_inv b'/' trimmed (c ∷ cs) rest cut_is in
        rw (← front, ← back)
          (
            (λ e. cc),
            no_slash,
            inr (rest, sym whole ∙ ap (λ t. codes "s3://" ++ t) (sym parts), refl),
          )

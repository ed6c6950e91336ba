-- ===== src/S3/Stat/Bucket.antt =====
-- A bucket, and a listing of its objects by StatAll (S3/Stat, S3/Keys).
use timberlake.Base.{
  ℕ, ◌≡◌, ◌≢◌, refl, sym, ap, ◌∙◌, inl, inr, Bool, true, false, List, [], ◌∷◌, ◌++◌, flatten,
  Option, none, some, some_inj, and_then-inv, arith, Bool-cases, length, drop, if◌then◌else◌,
}
use timberlake.Base.Int.{ℤ}
use timberlake.Io.{Text, eq_text, Error, Result, ok, err}
use timberlake.Io.Readers.{eq_text_sound}
use timberlake.Strings.{has_prefix, trim_prefix}
use timberlake.Strings.Laws.{has_prefix-append, has_prefix-drop}
use timberlake.S3.Keys.{Object, relative, non_empty, add_object, too_many, stat_objects}
use timberlake.Sizes.{put_size, known_size}
use timberlake.Sizes.Laws.{eq_text-other, known_size-put_size}

-- What is stored: the keys with their sizes.
abbrev pub Bucket : Type 0
Bucket = List (Text × ℕ)

unfoldable pub size_in : Text → Bucket → Option ℕ
size_in key [] = none
size_in key ((k, n) ∷ rest) = if eq_text k key then some n else size_in key rest

-- Each key stands there once.
unfoldable pub IsUnique : Bucket → Type 0
IsUnique [] = Unit
IsUnique ((k, n) ∷ rest) = (size_in k rest ≡ none) × IsUnique rest

-- The objects under a prefix.
unfoldable pub objects : Text → Bucket → List Object
objects prefix [] = []
objects prefix ((k, n) ∷ rest) =
    let others = objects prefix rest in
    if has_prefix prefix k then record { key = some k; size = some n } ∷ others else others

-- The documented behaviour of the two calls on a bucket: HeadObject knows the size of each key, and
-- fails with a 404 for any other; ListObjectsV2 gives the keys under the prefix, in pages.
pub record Lists (is_not_found : Error → Bool) (head_object : Text → Result (Option ℕ))
    (prefix : Text) (bucket : Bucket) (blocks : List (List Object)) : Type 0 where
  pub unique_lem : IsUnique bucket
  pub head_some_lem :
      (key : Text) (n : ℕ) → size_in key bucket ≡ some n → head_object key ≡ ok (some n)
  pub head_none_lem :
      (key : Text)
      → size_in key bucket ≡ none
      → (e : Error) × (head_object key ≡ err e) × (is_not_found e ≡ true)
  pub blocks_lem : flatten blocks ≡ objects prefix bucket

eq_text-append : (p a b : Text) → eq_text (p ++ a) (p ++ b) ≡ eq_text a b
unfolding eq_text
eq_text-append [] a b = refl
eq_text-append (c ∷ p) a b = ground (arith, eq_text-append p a b)

-- The answer for a key: its size, or what is known otherwise.
abbrev pub or_known : Option ℕ → Bool × ℕ → Bool × ℕ
or_known none known = known
or_known (some n) known = (true, n)

module _ (prefix rel : Text) (limit : ℤ) (ne : rel ≢ []) where
  -- The key of the path.
  abbrev full : Text
  full = prefix ++ rel

  outside : (k : Text) → has_prefix prefix k ≡ false → eq_text k full ≡ false
  outside k h =
      eq_text-other k full
        (λ e. cc (sym h ∙ ap (has_prefix prefix) e ∙ has_prefix-append prefix rel))

  -- One object under the prefix.
  add-known :
      (r : Text) (n : ℕ) (found next : List (Text × ℕ))
      → add_object limit n found (non_empty r) ≡ some next
      → known_size rel next ≡ (if eq_text r rel then (true, n) else known_size rel found)
  unfolding add_object non_empty
  add-known [] n found next h =
      rw (eq_text-other [] rel (λ e. ne (sym e)), some_inj found next h) refl
  add-known (c ∷ cs) n found next h =
      elim (Bool-cases (too_many limit (put_size (c ∷ cs) n found))) [
        | inl over ↦ cc (rw over at h)
        | inr under ↦
            rw (← some_inj (put_size (c ∷ cs) n found) next (rw under at h))
              (known_size-put_size rel (c ∷ cs) n found)
      ]

  under-known :
      (k : Text) (n : ℕ) (found next : List (Text × ℕ))
      → has_prefix prefix k ≡ true
      → add_object limit n found (relative prefix (some k)) ≡ some next
      → known_size rel next ≡ (if eq_text k full then (true, n) else known_size rel found)
  unfolding relative trim_prefix
  under-known k n found next under h =
      add-known (drop (length prefix) k) n found next (rw under at h)
      ∙ ap (λ b. if b then (true, n) else known_size rel found)
          (sym (eq_text-append prefix (drop (length prefix) k) rel)
            ∙ ap (λ t. eq_text t full) (has_prefix-drop prefix k under))

  -- A listing of the bucket: what is found for the path is what is stored under its key.
  pub objects-known :
      (bucket : Bucket) (found found' : List (Text × ℕ))
      → IsUnique bucket
      → stat_objects prefix limit (objects prefix bucket) found ≡ some found'
      → known_size rel found' ≡ or_known (size_in full bucket) (known_size rel found)
  unfolding stat_objects objects size_in IsUnique
  objects-known [] found found' unique h = rw (some_inj found found' h) refl
  objects-known ((k, n) ∷ rest) found found' (alone, unique) h =
      elim (Bool-cases (has_prefix prefix k)) [
        | inr out ↦ rw (outside k out) (objects-known rest found found' unique (rw out at h))
        | inl under ↦
            let (next, added, more) =
              and_then-inv (stat_objects prefix limit (objects prefix rest)) _ (rw under at h) in
            objects-known rest next found' unique more
            ∙ ap (or_known (size_in full rest)) (under-known k n found next under added)
            ∙ elim (Bool-cases (eq_text k full)) [
              | inl here ↦
                  let gone : size_in full rest ≡ none =
                    ap (λ t. size_in t rest) (sym (eq_text_sound k full here)) ∙ alone in
                  rw (gone, here) refl
              | inr there ↦ rw there refl
            ]
      ]

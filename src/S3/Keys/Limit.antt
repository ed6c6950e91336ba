-- ===== src/S3/Keys/Limit.antt =====
-- The size of what StatAll returns (S3/Keys).
use timberlake.Base.{
  ℕ, ◌<◌, ◌≤◌, ◌≡◌, refl, inl, inr, false, List, [], ◌∷◌, Option, none, some, and_then-inv, arith,
  length, Bool-cases,
}
use timberlake.Base.Int.{pos}
use timberlake.Io.{Text, ok, err}
use timberlake.Sizes.{put_size}
use timberlake.S3.Keys.{
  add_object, Object, Pages, list_prefix, relative, size_of, too_many, stat_objects, stat_pages,
  stat_all,
}

within-limit :
    (limit : ℕ) (found : List (Text × ℕ))
    → 0 < limit
    → too_many (pos limit) found ≡ false
    → length found ≤ limit
unfolding too_many
within-limit limit found h e = ground arith

add_object-limit :
    (limit size : ℕ) (found found' : List (Text × ℕ)) (r : Option Text)
    → 0 < limit
    → length found ≤ limit
    → add_object (pos limit) size found r ≡ some found'
    → length found' ≤ limit
unfolding add_object
add_object-limit limit size found found' none h le e =
    let same : found ≡ found' = ground arith in rw (← same) le
add_object-limit limit size found found' (some rel) h le e =
    elim (Bool-cases (too_many (pos limit) (put_size rel size found))) [
      | inl over ↦ ground arith
      | inr under ↦
          let same : put_size rel size found ≡ found' = ground arith in
          rw (← same) (within-limit limit (put_size rel size found) h under)
    ]

stat_objects-limit :
    (prefix : Text) (limit : ℕ) (os : List Object) (found found' : List (Text × ℕ))
    → 0 < limit
    → length found ≤ limit
    → stat_objects prefix (pos limit) os found ≡ some found'
    → length found' ≤ limit
unfolding stat_objects
stat_objects-limit prefix limit [] found found' h le e =
    let same : found ≡ found' = ground arith in rw (← same) le
stat_objects-limit prefix limit (o ∷ os) found found' h le e =
    let (next, first, more) =
      and_then-inv (stat_objects prefix (pos limit) os)
        (add_object (pos limit) (size_of o.size) found (relative prefix o.key)) e in
    stat_objects-limit prefix limit os next found' h
      (add_object-limit limit (size_of o.size) found next (relative prefix o.key) h le first) more

stat_pages-limit :
    (prefix : Text) (limit : ℕ) (pages : Pages) (so_far : Option (List (Text × ℕ)))
    (found : List (Text × ℕ))
    → 0 < limit
    → ((f : List (Text × ℕ)) → so_far ≡ some f → length f ≤ limit)
    → stat_pages prefix (pos limit) pages so_far ≡ ok (some found)
    → length found ≤ limit
unfolding stat_pages
stat_pages-limit prefix limit pages none found h le e = cc
stat_pages-limit prefix limit [] (some f) found h le e =
    let same : f ≡ found = ground arith in rw (← same) (le f refl)
stat_pages-limit prefix limit (err x ∷ ps) (some f) found h le e = cc
stat_pages-limit prefix limit (ok os ∷ ps) (some f) found h le e =
    stat_pages-limit prefix limit ps (stat_objects prefix (pos limit) os f) found h
      (λ g stat. stat_objects-limit prefix limit os f g h (le f refl) stat) e

-- With a positive limit: a listing that StatAll returns has no more entries than the limit, however
-- the objects are spread over the pages.
pub stat_all-limit :
    (prefix : Text) (limit : ℕ) (pages : Pages) (found : List (Text × ℕ))
    → 0 < limit
    → stat_all prefix (pos limit) pages ≡ ok (some found)
    → length found ≤ limit
unfolding stat_all
stat_all-limit prefix limit pages found h e =
    stat_pages-limit (list_prefix prefix) limit pages (some []) found h
      (λ f none_yet. let same : [] ≡ f = ground arith in rw (← same) (omega arith)) e

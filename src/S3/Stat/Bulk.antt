-- ===== src/S3/Stat/Bulk.antt =====
-- The listing of StatAll against Stat, on one bucket (S3/Stat, S3/Keys).
use timberlake.Base.{
  ℕ, ◌≡◌, ◌≢◌, refl, sym, ap, ◌∙◌, Bool, false, List, [], ◌∷◌, ◌++◌, map, flatten, Option, none,
  some, and_then,
}
use timberlake.Base.Int.{ℤ}
use timberlake.Io.{Text, codes, Error, Result, ok, err}
use timberlake.Io.Readers.{ok_inj}
use timberlake.Strings.{has_prefix}
use timberlake.S3.Keys.{
  Object, list_prefix, relative, add_object, size_of, stat_objects, stat_pages, stat_all,
}
use timberlake.Strings.Laws.{has_byte}
use timberlake.S3.Keys.Roundtrip.{build_key-plain}
use timberlake.S3.Stat.Bucket.{Bucket, size_in, Lists, or_known, objects-known}
use timberlake.S3.Stat.{stat, stat_answer}
use timberlake.Sizes.{known_size}
use timberlake.Ui.Listing.{bulk_stat}
use timberlake.Ui.Model.{Floats, Model}
use timberlake.Ui.Update.{on_bulk_complete}
use timberlake.Ui.Pool.{Queued, Settings, existing}

stat_objects-append :
    (prefix : Text) (limit : ℤ) (xs ys : List Object) (found : List (Text × ℕ))
    → stat_objects prefix limit (xs ++ ys) found
      ≡ and_then (stat_objects prefix limit ys) (stat_objects prefix limit xs found)
unfolding stat_objects
stat_objects-append prefix limit [] ys found = refl
stat_objects-append prefix limit (o ∷ xs) ys found =
    by_added (add_object limit (size_of o.size) found (relative prefix o.key))
      (stat_objects-append prefix limit xs ys)
  where
    by_added :
        (added : Option (List (Text × ℕ)))
        → ((f : List (Text × ℕ))
            → stat_objects prefix limit (xs ++ ys) f
              ≡ and_then (stat_objects prefix limit ys) (stat_objects prefix limit xs f))
        → and_then (stat_objects prefix limit (xs ++ ys)) added
          ≡ and_then (stat_objects prefix limit ys) (and_then (stat_objects prefix limit xs) added)
    by_added none rest = refl
    by_added (some f) rest = rest f

-- Pages without errors are one listing.
stat_pages-flatten :
    (prefix : Text) (limit : ℤ) (blocks : List (List Object)) (found found' : List (Text × ℕ))
    → stat_pages prefix limit (map ok blocks) (some found) ≡ ok (some found')
    → stat_objects prefix limit (flatten blocks) found ≡ some found'
unfolding stat_pages flatten
stat_pages-flatten prefix limit [] found found' h =
    unfold stat_objects in ok_inj (some found) (some found') h
stat_pages-flatten prefix limit (os ∷ blocks) found found' h =
    stat_objects-append prefix limit os (flatten blocks) found
    ∙ by_page (stat_objects prefix limit os found) h (stat_pages-flatten prefix limit blocks)
  where
    by_page :
        (page : Option (List (Text × ℕ)))
        → stat_pages prefix limit (map ok blocks) page ≡ ok (some found')
        → ((f g : List (Text × ℕ))
            → stat_pages prefix limit (map ok blocks) (some f) ≡ ok (some g)
            → stat_objects prefix limit (flatten blocks) f ≡ some g)
        → and_then (stat_objects prefix limit (flatten blocks)) page ≡ some found'
    by_page none h rest = cc
    by_page (some f) h rest = rest f found' h

module _ (is_not_found : Error → Bool) (head_object : Text → Result (Option ℕ)) (prefix : Text)
    (bucket : Bucket) (blocks : List (List Object))
    (lists : Lists is_not_found head_object (list_prefix prefix) bucket blocks) where
  stat-stored :
      (rel : Text)
      → has_prefix (codes "/") rel ≡ false
      → has_byte b'\\' rel ≡ false
      → stat prefix is_not_found head_object rel
        ≡ ok (or_known (size_in (list_prefix prefix ++ rel) bucket) (false, 0))
  unfolding stat
  stat-stored rel no_slash plain =
      ap (λ k. stat_answer is_not_found (head_object k)) (build_key-plain prefix rel no_slash plain)
      ∙ by_size (list_prefix prefix ++ rel) (size_in (list_prefix prefix ++ rel) bucket) refl
    where
      by_size :
          (key : Text) (size : Option ℕ)
          → size_in key bucket ≡ size
          → stat_answer is_not_found (head_object key) ≡ ok (or_known size (false, 0))
      by_size key (some n) h = unfold stat_answer in rw (lists.head_some_lem key n h) refl
      by_size key none h =
          let (e, failed, missing) = lists.head_none_lem key h in
          unfold stat_answer in rw (failed, missing) refl

  existing-found :
      (limit : ℤ) (found : List (Text × ℕ)) (s : Settings) (q : Queued) (answer : Result (Bool × ℕ))
      → stat_all prefix limit (map ok blocks) ≡ ok (some found)
      → s.known ≡ some found
      → q.item.relative_path ≢ []
      → has_prefix (codes "/") q.item.relative_path ≡ false
      → has_byte b'\\' q.item.relative_path ≡ false
      → existing s q answer ≡ stat prefix is_not_found head_object q.item.relative_path
  unfolding stat_all existing known_size
  existing-found limit found s q answer listed known ne no_slash plain =
      let rel = q.item.relative_path in
      let one_page : stat_objects (list_prefix prefix) limit (flatten blocks) [] ≡ some found =
        stat_pages-flatten (list_prefix prefix) limit blocks [] found listed in
      rw known (
        ap ok (
          objects-known (list_prefix prefix) rel limit ne bucket [] found lists.unique_lem
            (rw lists.blocks_lem at one_page))
        ∙ sym (stat-stored rel no_slash plain))

  -- A worker of the pool whose settings have what the model knows after BulkStatCompleteMsg, and this
  -- is what bulkStatCmd makes of StatAll on a bucket, takes for an item just what Stat answers for
  -- it, whether StatAll has listed the bucket or given up at its limit: the catch-up decides as the
  -- check item by item would. The bucket does not change between the two, keys are unique, HeadObject
  -- and the listing do what is documented of them; the path is not empty, has no backslash and no
  -- slash at its start.
  pub existing-stat :
      (fl : Floats) (m : Model fl.F) (limit : ℤ) (s : Settings) (q : Queued)
      → let listed = bulk_stat (stat_all prefix limit (map ok blocks)) in
        s.known ≡ (on_bulk_complete fl listed.0 listed.1 m).0.known_dest
        → q.item.relative_path ≢ []
        → has_prefix (codes "/") q.item.relative_path ≡ false
        → has_byte b'\\' q.item.relative_path ≡ false
        → existing s q (stat prefix is_not_found head_object q.item.relative_path)
          ≡ stat prefix is_not_found head_object q.item.relative_path
  unfolding existing on_bulk_complete
  existing-stat fl m limit s q known ne no_slash plain =
      by_listing (stat_all prefix limit (map ok blocks)) refl known
    where
      by_listing :
          (r : Result (Option (List (Text × ℕ))))
          → stat_all prefix limit (map ok blocks) ≡ r
          → s.known ≡ (bulk_stat r).0
          → existing s q (stat prefix is_not_found head_object q.item.relative_path)
            ≡ stat prefix is_not_found head_object q.item.relative_path
      by_listing (err e) listed unknown = unfold bulk_stat in rw unknown refl
      by_listing (ok none) listed unknown = unfold bulk_stat in rw unknown refl
      by_listing (ok (some found)) listed is_known =
          existing-found limit found s q _ listed (unfold bulk_stat in is_known) ne no_slash plain

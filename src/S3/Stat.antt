-- ===== src/S3/Stat.antt =====
-- Stat and Open of transfer/s3backend. HeadObject and GetObject are arguments, and so is the test
-- for an error that says that there is no such object.
pub mod Bucket
pub mod Bulk
use timberlake.Base.{ℕ, Bool, true, false, Option, none, some, ltb, if◌then◌else◌}
use timberlake.Io.{Text, Error, Result, ok, err, OpenFunc, Reader}
use timberlake.S3.Keys.{build_key}

-- The answer of HeadObject, as Stat reads it: the ContentLength, which may be nil.
unfoldable pub stat_answer : (Error → Bool) → Result (Option ℕ) → Result (Bool × ℕ)
stat_answer is_not_found (err e) = if is_not_found e then ok (false, 0) else err e
stat_answer is_not_found (ok none) = ok (true, 0)
stat_answer is_not_found (ok (some n)) = ok (true, n)

module _ (prefix : Text) where
  unfoldable pub stat : (Error → Bool) → (Text → Result (Option ℕ)) → Text → Result (Bool × ℕ)
  unfolding stat_answer build_key
  stat is_not_found head_object rel_path =
      stat_answer is_not_found (head_object (build_key prefix rel_path))

  -- A Range header from an offset above 0.
  unfoldable pub open_item : (Text → Option ℕ → Result Reader) → Text → OpenFunc
  unfolding build_key
  open_item get_object rel_path offset =
      get_object (build_key prefix rel_path) (if ltb 0 offset then some offset else none)

-- ===== src/S3/Existing.antt =====
-- `validExistingParts` of s3.go and `partMD5Matches` of internal.go: which stored parts to keep.
pub mod Kept
use timberlake.Base.{
  ℕ, zero, Bool, true, false, ◌||◌, not, List, [], ◌∷◌, Option, none, some, ◌==◌, if◌then◌else◌,
}
use timberlake.Base.Words.{lt32}
use timberlake.Io.{
  Text, eq_text, Error, eof, OpenFunc, Result, ok, err, ◌>>=◌, context, Reader, copy_n,
}
use timberlake.Strings.{trim}
use timberlake.S3.Client.{Client, part_start, part_bytes, total_parts}
use timberlake.S3.Service.{Service, Part}

-- map[int32]string
abbrev pub PartMap : Type 0
PartMap = List (ℕ × Text)

unfoldable pub lookup : ℕ → PartMap → Option Text
lookup n [] = none
lookup n ((m, e) ∷ rest) = if m == n then some e else lookup n rest

unfoldable pub insert : ℕ → Text → PartMap → PartMap
insert n e [] = (n, e) ∷ []
insert n e ((m, d) ∷ rest) = if m == n then (n, e) ∷ rest else (m, d) ∷ insert n e rest

-- The error of io.CopyN counts unless it is io.EOF.
unfoldable pub md5_result : (List ℕ → Text) → Text → List ℕ × Option Error → Result Bool
md5_result md5_hex want (got, none) = ok (eq_text (md5_hex got) want)
md5_result md5_hex want (got, some eof) = ok (eq_text (md5_hex got) want)
md5_result md5_hex want (got, some e) = err e

-- On to the next part, unless the parts are misaligned.
abbrev pub check_rest :
    (PartMap → Result (Option PartMap)) → Option PartMap → Result (Option PartMap)
check_rest f none = ok none
check_rest f (some valid) = f valid

module _ (svc : Service) (s : Client) where
  open svc use {State, list_parts, md5_hex}

  unfoldable pub part_md5_matches : OpenFunc → ℕ → ℕ → Text → Result Bool
  unfolding md5_result
  part_md5_matches open_at n size want = do
    r ← open_at (part_start s n)
    md5_result md5_hex want (copy_n r (part_bytes s n size))

  -- A part with its three fields: `none` for misaligned, else the map with the part if it matches.
  unfoldable pub check_fields : OpenFunc → ℕ → ℕ → Text → ℕ → PartMap → Result (Option PartMap)
  check_fields open_at size n e z valid =
      if lt32 n 1 || lt32 (total_parts s size) n
      then ok none
      else if not (z == part_bytes s n size)
      then ok none
      else do
        matches ← part_md5_matches open_at n size (trim b'"' e)
        ok (some (if matches then insert n e valid else valid))

  -- A part with a nil field is passed over.
  unfoldable pub check_present :
      OpenFunc → ℕ → Option ℕ → Option Text → Option ℕ → PartMap → Result (Option PartMap)
  check_present open_at size (some n) (some e) (some z) valid =
      check_fields open_at size n e z valid
  check_present open_at size _ _ _ valid = ok (some valid)

  unfoldable pub check_part : OpenFunc → ℕ → Part → PartMap → Result (Option PartMap)
  unfolding check_present
  check_part open_at size p = check_present open_at size p.part_number p.etag p.size

  unfoldable pub check_parts : OpenFunc → ℕ → List Part → PartMap → Result (Option PartMap)
  check_parts open_at size [] valid = ok (some valid)
  check_parts open_at size (p ∷ ps) valid = do
    v ← check_part open_at size p valid
    check_rest (check_parts open_at size ps) v

  -- `none` for ok = false.
  unfoldable pub valid_existing_parts : State → Text → Text → OpenFunc → ℕ → Result (Option PartMap)
  valid_existing_parts σ key uid open_at size = do
    ps ← context "list parts" (list_parts σ key uid)
    check_parts open_at size ps []

-- ===== src/S3/Existing/Kept.antt =====
-- The parts that validExistingParts keeps (S3/Existing), against those that are stored.
use timberlake.Base.{
  ℕ, suc, ◌-◌, ◌<◌, ◌^◌, ◌≡◌, refl, sym, ap, ◌∙◌, ◌⊎◌, inl, inr, true, false, List, [], ◌∷◌, Option,
  none, some, arith, length, drop, Bool-cases, ◌==◌,
}
use timberlake.Base.Words.{lt32}
use timberlake.Io.{
  Text, Error, eof, OpenFunc, Serves, Reader, Result, ok, err, ◌>>=◌, copy_n, context,
}
use timberlake.Io.Readers.{eq_text_sound, copy_n-take, >>=-inv, context-ok}
use timberlake.Strings.{trim}
use timberlake.S3.Client.{Client, part_start, part_bytes, total_parts}
use timberlake.S3.Parts.{Fits, count, count-lt, total_parts-count, chunk, take-part}
use timberlake.S3.Service.{Service, Laws, Unmistakable, Part, Listed}
use timberlake.S3.Existing.{
  PartMap, insert, md5_result, part_md5_matches, check_fields, check_part, check_present,
  check_rest, check_parts, valid_existing_parts,
}

md5_result-true :
    (h : List ℕ → Text) (want : Text) (got : List ℕ) (e : Option Error)
    → md5_result h want (got, e) ≡ ok true
    → ((e ≡ none) ⊎ (e ≡ some eof)) × (h got ≡ want)
unfolding md5_result
md5_result-true h want got none p = (inl refl, eq_text_sound (h got) want (ground arith))
md5_result-true h want got (some eof) p = (inr refl, eq_text_sound (h got) want (ground arith))
md5_result-true h want got (some e) p = ground arith

check_rest-inv :
    (r : Result (Option PartMap)) (f : PartMap → Result (Option PartMap)) (m' : PartMap)
    → (r >>= check_rest f) ≡ ok (some m')
    → (m : PartMap) × (r ≡ ok (some m)) × (f m ≡ ok (some m'))
check_rest-inv (ok (some m)) f m' p = (m, refl, p)
check_rest-inv (ok none) f m' p = cc
check_rest-inv (err e) f m' p = cc

-- An entry of the map, against what an upload has stored: a part of the file under its number.
abbrev pub KeptPart : (ℕ → Option (List ℕ × Text)) → ℕ → List ℕ → ℕ → ℕ → Text → Type 0
KeptPart parts size content total n e =
    (i : ℕ) × (n ≡ suc i) × (i < total) × (parts n ≡ some (chunk size content i, e))

abbrev pub AllKept : (ℕ → Option (List ℕ × Text)) → ℕ → List ℕ → ℕ → PartMap → Type 0
AllKept parts size content total [] = Unit
AllKept parts size content total ((n, e) ∷ m) =
    KeptPart parts size content total n e × AllKept parts size content total m

insert-AllKept :
    (parts : ℕ → Option (List ℕ × Text)) (size : ℕ) (content : List ℕ) (total n : ℕ) (e : Text)
    (m : PartMap)
    → KeptPart parts size content total n e
    → AllKept parts size content total m
    → AllKept parts size content total (insert n e m)
unfolding insert
insert-AllKept parts size content total n e [] k a = (k, tt)
insert-AllKept parts size content total n e ((l, d) ∷ m) k a = elim (Bool-cases (l == n)) [
  | inl same ↦ rw same (k, a.1)
  | inr other ↦ rw other (a.0, insert-AllKept parts size content total n e m k a.1)
]

module _ (svc : Service) (laws : Laws svc) (s : Client) (open_at : OpenFunc) (content : List ℕ)
    (serves : Serves open_at content) (fits : Fits s (length content))
    (unmistakable : Unmistakable svc laws (chunk s.part_size content)) where
  open svc use {State, md5_hex}
  open laws use {stored, etag_lem, list_parts_lem}

  part_md5_matches-true :
      (i : ℕ) (want : Text)
      → i < count s (length content)
      → part_md5_matches svc s open_at (suc i) (length content) want ≡ ok true
      → md5_hex (chunk s.part_size content i) ≡ want
  unfolding part_md5_matches
  part_md5_matches-true i want h = go (open_at (part_start s (suc i))) refl
    where
      go :
          (o : Result Reader)
          → open_at (part_start s (suc i)) ≡ o
          → (o >>= λ r. md5_result md5_hex want (copy_n r (part_bytes s (suc i) (length content))))
            ≡ ok true
          → md5_hex (chunk s.part_size content i) ≡ want
      go (err e) opened p = cc
      go (ok r) opened p =
          let (got, e) = copy_n r (part_bytes s (suc i) (length content)) in
          let q = md5_result-true md5_hex want got e p in
          let taken =
            copy_n-take r (drop (part_start s (suc i)) content)
              (serves.reads (part_start s (suc i)) r opened) (part_bytes s (suc i) (length content))
              got e refl q.0 in
          ap md5_hex (sym (taken ∙ take-part s content fits i h)) ∙ q.1

  in_range :
      (n : ℕ)
      → n < 2 ^ 32
      → lt32 n 1 ≡ false
      → lt32 (total_parts s (length content)) n ≡ false
      → (i : ℕ) × (n ≡ suc i) × (i < count s (length content))
  in_range n w p q = (
    n - 1,
    ground (arith, total_parts-count s (length content) fits, count-lt s (length content) fits),
    ground (arith, total_parts-count s (length content) fits, count-lt s (length content) fits),
  )

  abbrev Kept : State → Text → PartMap → Type 0
  Kept σ uid = AllKept (stored σ uid) s.part_size content (count s (length content))

  -- A part is kept only after its MD5 has matched, so it is the part of the file.
  insert-Kept :
      (σ : State) (uid : Text) (n : ℕ) (e : Text) (m : PartMap) (b : List ℕ) (i : ℕ)
      → stored σ uid n ≡ some (b, e)
      → n ≡ suc i
      → i < count s (length content)
      → md5_hex (chunk s.part_size content i) ≡ trim b'"' e
      → Kept σ uid m
      → Kept σ uid (insert n e m)
  insert-Kept σ uid n e m b i at_n eq h match kept =
      let body = unmistakable σ uid n b e i at_n (match ∙ etag_lem σ uid n b e at_n) in
      insert-AllKept (stored σ uid) s.part_size content (count s (length content)) n e m
        (i, eq, h, ground (arith, body)) kept

  check_fields-inv :
      (n : ℕ) (e : Text) (z : ℕ) (m m' : PartMap)
      → check_fields svc s open_at (length content) n e z m ≡ ok (some m')
      → (lt32 n 1 ≡ false)
        × (lt32 (total_parts s (length content)) n ≡ false)
        × (m' ≡ m
            ⊎ (part_md5_matches svc s open_at n (length content) (trim b'"' e) ≡ ok true)
              × (m' ≡ insert n e m))
  unfolding check_fields
  check_fields-inv n e z m m' p = ground arith

  check_fields-Kept :
      (σ : State) (uid : Text) (n : ℕ) (e : Text) (z : ℕ) (m m' : PartMap) (b : List ℕ)
      → n < 2 ^ 32
      → stored σ uid n ≡ some (b, e)
      → Kept σ uid m
      → check_fields svc s open_at (length content) n e z m ≡ ok (some m')
      → Kept σ uid m'
  check_fields-Kept σ uid n e z m m' b w at_n kept p =
      let inv = check_fields-inv n e z m m' p in
      elim inv.2 [
        | inl same ↦ rw same kept
        | inr (match, grown) ↦
            let (i, eq, h) = in_range n w inv.0 inv.1 in
            rw grown (
              insert-Kept σ uid n e m b i at_n eq h
                (part_md5_matches-true i (trim b'"' e) h (rw eq at match)) kept)
      ]

  check_present-Kept :
      (σ : State) (uid : Text) (n : Option ℕ) (e : Option Text) (z : Option ℕ) (m m' : PartMap)
      → ((n' : ℕ) (e' : Text) (z' : ℕ)
          → n ≡ some n'
          → e ≡ some e'
          → z ≡ some z'
          → (b : List ℕ) × (n' < 2 ^ 32) × (stored σ uid n' ≡ some (b, e')))
      → Kept σ uid m
      → check_present svc s open_at (length content) n e z m ≡ ok (some m')
      → Kept σ uid m'
  unfolding check_present
  check_present-Kept σ uid (some n) (some e) (some z) m m' listed kept p =
      let (b, w, at_n) = listed n e z refl refl refl in
      check_fields-Kept σ uid n e z m m' b w at_n kept p
  check_present-Kept σ uid (some n) (some e) none m m' listed kept p =
      let same : m ≡ m' = cc in rw (sym same) kept
  check_present-Kept σ uid (some n) none z m m' listed kept p =
      let same : m ≡ m' = cc in rw (sym same) kept
  check_present-Kept σ uid none e z m m' listed kept p =
      let same : m ≡ m' = cc in rw (sym same) kept

  check_parts-Kept :
      (σ : State) (uid : Text) (ps : List Part) (m m' : PartMap)
      → Listed (stored σ uid) ps
      → Kept σ uid m
      → check_parts svc s open_at (length content) ps m ≡ ok (some m')
      → Kept σ uid m'
  unfolding check_parts
  check_parts-Kept σ uid [] m m' listed kept p = let same : m ≡ m' = cc in rw (sym same) kept
  check_parts-Kept σ uid (x ∷ ps) m m' listed kept p =
      let (m₁, here, rest) =
        check_rest-inv (check_part svc s open_at (length content) x m) _ m' p in
      check_parts-Kept σ uid ps m₁ m' listed.1
        (check_present-Kept σ uid x.part_number x.etag x.size m m₁ listed.0 kept
          (unfold check_part in here))
        rest

  -- Each entry n, e that validExistingParts returns is a part of the file: the upload has stored,
  -- under number n with ETag e, exactly the bytes of part n. Part numbers and offsets must not
  -- overflow, the content not change meanwhile, and no stored part have the MD5 of a part of the
  -- file without being that part.
  pub valid_existing_parts-Kept :
      (σ : State) (key uid : Text) (m : PartMap)
      → valid_existing_parts svc s σ key uid open_at (length content) ≡ ok (some m)
      → AllKept (stored σ uid) s.part_size content (count s (length content)) m
  unfolding valid_existing_parts
  valid_existing_parts-Kept σ key uid m p =
      let (ps, listing, checked) = >>=-inv (context "list parts" (svc.list_parts σ key uid)) _ p in
      check_parts-Kept σ uid ps [] m
        (list_parts_lem σ key uid ps (context-ok "list parts" (svc.list_parts σ key uid) listing))
        tt checked

-- ===== src/Demo/Source/Sized.antt =====
-- The sizes of the synthetic source (Demo/Source).
use timberlake.Base.{
  ℕ, zero, suc, ◌*◌, ◌^◌, ◌≤◌, ◌<◌, ◌≡◌, refl, sym, ap, ◌∙◌, true, List, [], ◌∷◌, Option, none,
  some, arith, length, get_elem?, some_inj,
}
use timberlake.Base.Words.{sub64, lt64}
use timberlake.Base.Int.{ℤ, pos, negsuc}
use timberlake.Io.{Text, Item}
use timberlake.Strings.{split, cut, trim_space}
use timberlake.Demo.Source.{
  Spec, default_config, set_key, set_scanned, set_part, set_parts, parse_spec, size_of, items_from,
  item_of, new_source,
}

-- ParseSpec leaves the bounds of the sizes.
abbrev SameSizes : Spec → Spec → Type 0
SameSizes cfg cfg' = (cfg'.min_size ≡ cfg.min_size) × (cfg'.max_size ≡ cfg.max_size)

set_key-SameSizes : (k : Text) (n : ℤ) (cfg : Spec) → SameSizes cfg (set_key k n cfg)
unfolding set_key
set_key-SameSizes k n cfg = ground arith

set_parts-SameSizes :
    (scan_int : Text → Option ℤ) (ps : List Text) (cfg : Spec)
    → SameSizes cfg (set_parts scan_int ps cfg)
unfolding set_parts
set_parts-SameSizes scan_int [] cfg = (refl, refl)
set_parts-SameSizes scan_int (p ∷ ps) cfg =
    let (least, most) = set_part-SameSizes (cut b'=' (trim_space p)) in
    let (least', most') = set_parts-SameSizes scan_int ps _ in (least' ∙ least, most' ∙ most)
  where
    scanned : (k : Text) (o : Option ℤ) → SameSizes cfg (set_scanned scan_int k o cfg)
    scanned k none = unfold set_scanned in (refl, refl)
    scanned k (some n) = unfold set_scanned in set_key-SameSizes k n cfg

    set_part-SameSizes : (o : Option (Text × Text)) → SameSizes cfg (set_part scan_int o cfg)
    set_part-SameSizes none = unfold set_part in (refl, refl)
    set_part-SameSizes (some (k, v)) = unfold set_part in scanned k (scan_int v)

-- What Int63n promises.
abbrev pub Draws : (ℕ → ℕ → ℕ) → Type 0
Draws draw = (i n : ℕ) → 0 < n → draw i n < n

module _ (draw : ℕ → ℕ → ℕ) (five_digits : ℕ → Text) (draws : Draws draw) where
  -- A size is between the bounds, if they are in order and not negative.
  size_of-bounds :
      (cfg : Spec) (i : ℕ)
      → cfg.min_size < cfg.max_size
      → cfg.max_size < 2 ^ 63
      → (cfg.min_size ≤ size_of draw five_digits cfg i)
        × (size_of draw five_digits cfg i < cfg.max_size)
  unfolding size_of
  size_of-bounds cfg i h b =
      let d = draws i (sub64 cfg.max_size cfg.min_size) (omega arith) in
      let below : lt64 cfg.min_size cfg.max_size ≡ true = ground arith in
      rw below (omega (arith, d), omega (arith, d))

  items_from-Sized :
      (cfg : Spec) (i n k : ℕ) (it : Item)
      → cfg.min_size < cfg.max_size
      → cfg.max_size < 2 ^ 63
      → get_elem? (items_from draw five_digits cfg i n) k ≡ some it
      → (cfg.min_size ≤ it.size) × (it.size < cfg.max_size)
  unfolding items_from item_of
  items_from-Sized cfg i zero k it h b e = cc e
  items_from-Sized cfg i (suc n) zero it h b e = rw (← some_inj _ it e) (size_of-bounds cfg i h b)
  items_from-Sized cfg i (suc n) (suc k) it h b e = items_from-Sized cfg (suc i) n k it h b e

  length-items_from : (cfg : Spec) (i n : ℕ) → length (items_from draw five_digits cfg i n) ≡ n
  unfolding items_from
  length-items_from cfg i zero = refl
  length-items_from cfg i (suc n) = ap suc (length-items_from cfg (suc i) n)

  source-Sized :
      (cfg : Spec) (files : ℤ) (items : List Item)
      → cfg.files ≡ files
      → cfg.min_size < cfg.max_size
      → cfg.max_size < 2 ^ 63
      → new_source draw five_digits cfg ≡ some items
      → (files ≡ pos (length items))
        × ((k : ℕ) (it : Item)
            → get_elem? items k ≡ some it
            → (cfg.min_size ≤ it.size) × (it.size < cfg.max_size))
  unfolding new_source
  source-Sized cfg (negsuc n) items e h b made = cc (rw e at made)
  source-Sized cfg (pos n) items e h b made =
      let items_are : items_from draw five_digits cfg 0 n ≡ items =
        some_inj _ items (rw e at made) in
      rw (← items_are) (
        ap pos (sym (length-items_from cfg 0 n)),
        (λ k it at_k. items_from-Sized cfg 0 n k it h b at_k),
      )

  -- The options of --demo do not change the sizes: whatever they are, the source has as many items as
  -- `files` says, or there is none for a negative number, and each is between the default bounds.
  new_source-Sized :
      (scan_int : Text → Option ℤ) (spec : Text) (items : List Item)
      → new_source draw five_digits (parse_spec scan_int spec) ≡ some items
      → ((parse_spec scan_int spec).files ≡ pos (length items))
        × ((k : ℕ) (it : Item)
            → get_elem? items k ≡ some it
            → (180 * 2 ^ 20 ≤ it.size) × (it.size < 260 * 2 ^ 20))
  unfolding parse_spec
  new_source-Sized scan_int spec items h =
      let (least, most) = set_parts-SameSizes scan_int (split b',' spec) default_config in
      let (count, sized) =
        source-Sized _ _ items refl (rw (least, most) (omega arith)) (rw most (omega arith)) h in
      (count, (λ k it at_k. let (lo, hi) = sized k it at_k in (rw least at lo, rw most at hi)))

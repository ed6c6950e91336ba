-- ===== src/Demo/Source.antt =====
-- transfer/demo/demo.go: DefaultConfig, ParseSpec, the synthetic source and Pair. What fmt.Sscanf reads
-- and what the random generator draws are arguments; only the number of the bytes of an item is modelled,
-- since the demo never writes them.
pub mod Sized
use timberlake.Base.{
  ℕ, zero, suc, ◌+◌, ◌-◌, ◌*◌, ◌%◌, ◌^◌, ◌≤◌, ◌<◌, ◌≡◌, refl, sym, ap, ◌∙◌, Bool, true, false, List,
  [], ◌∷◌, ◌++◌, Option, none, some, arith, ltb, length, get_elem?, if◌then◌else◌, some_inj,
}
use timberlake.Base.Words.{add64, sub64, mul64, lt64}
use timberlake.Base.Int.{ℤ, pos, negsuc}
use timberlake.Io.{Text, codes, eq_text, Item}
use timberlake.Strings.{split, cut, trim_space}
use timberlake.Demo.{Dest, new_dest}

-- Config without AlreadyThere and StatDelay, which ParseSpec leaves as they are; int64 as a bit pattern.
pub record Spec : Type 0 where
  pub files : ℤ
  pub bytes_per_sec : ℕ
  pub fail_every : ℤ
  pub min_size : ℕ
  pub max_size : ℕ

abbrev pub default_config : Spec
default_config = record {
  files = pos 4_000;
  bytes_per_sec = 3 * 2 ^ 20;
  fail_every = pos 97;
  min_size = 180 * 2 ^ 20;
  max_size = 260 * 2 ^ 20;
}

-- int64(n) << 20
unfoldable pub mebibytes : ℤ → ℕ
mebibytes (pos n) = mul64 n (2 ^ 20)
mebibytes (negsuc n) = sub64 0 (mul64 (suc n) (2 ^ 20))

unfoldable pub set_key : Text → ℤ → Spec → Spec
unfolding mebibytes
set_key k n cfg =
    if eq_text k (codes "files")
    then record cfg { files = n }
    else if eq_text k (codes "mbps")
    then record cfg { bytes_per_sec = mebibytes n }
    else if eq_text k (codes "fail")
    then record cfg { fail_every = n }
    else cfg

module _ (scan_int : Text → Option ℤ) where
  unfoldable pub set_scanned : Text → Option ℤ → Spec → Spec
  unfolding set_key
  set_scanned k none cfg = cfg
  set_scanned k (some n) cfg = set_key k n cfg

  unfoldable pub set_part : Option (Text × Text) → Spec → Spec
  unfolding set_scanned
  set_part none cfg = cfg
  set_part (some (k, v)) cfg = set_scanned k (scan_int v) cfg

  unfoldable pub set_parts : List Text → Spec → Spec
  unfolding set_part
  set_parts [] cfg = cfg
  set_parts (p ∷ ps) cfg = set_parts ps (set_part (cut b'=' (trim_space p)) cfg)

  -- ParseSpec
  unfoldable pub parse_spec : Text → Spec
  unfolding set_parts
  parse_spec spec = set_parts (split b',' spec) default_config

abbrev pub dirs : List Text
dirs =
    codes "1_The_Kings_Chamber/Photogrammetry"
    ∷ codes "2_West_Passage/Photogrammetry"
    ∷ codes "3_Antechamber/RTI"
    ∷ codes "4_The_Revenge_of_the_Queen/Photogrammetry"
    ∷ []

abbrev pub or_empty : Option Text → Text
or_empty none = []
or_empty (some t) = t

-- `draw i n` is the i-th answer of rng.Int63n(n), and `five_digits` the format %05d.
module _ (draw : ℕ → ℕ → ℕ) (five_digits : ℕ → Text) where
  unfoldable pub size_of : Spec → ℕ → ℕ
  size_of cfg i =
      if lt64 cfg.min_size cfg.max_size
      then add64 cfg.min_size (draw i (sub64 cfg.max_size cfg.min_size))
      else cfg.min_size

  unfoldable pub item_of : Spec → ℕ → Item
  unfolding size_of
  item_of cfg i = record {
    relative_path =
        or_empty (get_elem? dirs (i % 4))
        ++ (codes "/DSC" ++ (five_digits (2_000 + i) ++ codes ".tif"));
    size = size_of cfg i;
  }

  -- The loop, from an index on.
  unfoldable pub items_from : Spec → ℕ → ℕ → List Item
  unfolding item_of
  items_from cfg i zero = []
  items_from cfg i (suc n) = item_of cfg i ∷ items_from cfg (suc i) n

  -- NewSource; `none` for the panic of make with a negative capacity.
  unfoldable pub new_source : Spec → Option (List Item)
  unfolding items_from
  new_source cfg = elim (cfg.files) [ pos n ↦ some (items_from cfg 0 n) | negsuc n ↦ none ]

  -- Pair; `up_to` items are at the destination already.
  unfoldable pub pair : ℕ → Spec → Option (List Item × Dest)
  unfolding new_source
  pair up_to cfg = elim (new_source cfg) [
    | none ↦ none
    | some items ↦ some (items, new_dest up_to items)
  ]

-- Scan, with the bytes that its one report has.
unfoldable pub scanned_bytes : ℕ → List Item → ℕ
scanned_bytes bytes [] = bytes
scanned_bytes bytes (it ∷ items) = scanned_bytes (add64 bytes it.size) items

unfoldable pub scan : List Item → List Item × (ℕ × ℕ)
unfolding scanned_bytes
scan items = (items, (length items, scanned_bytes 0 items))

-- Open: the number of bytes from an offset on.
unfoldable pub remaining : Item → ℕ → ℕ
remaining it offset = if lt64 (sub64 it.size offset) 0 then 0 else sub64 it.size offset

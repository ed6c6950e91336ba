-- ===== src/Sftp/Listing/Agree.antt =====
-- Scan and StatAll of one walk, and the relative paths that they read (Sftp/Listing).
use timberlake.Base.{
  ℕ, ◌≡◌, refl, sym, ap, ◌∙◌, inl, inr, Bool, true, false, ◌||◌, List, [], ◌∷◌, ◌++◌, Option, none,
  some, some_inj, arith, ltb, length, length-append, Bool-cases, ◌==◌, if◌then◌else◌,
}
use timberlake.Base.Int.{ℤ}
use timberlake.Io.{Text, codes, eq_text, ok, Item}
use timberlake.Sizes.{put_size, known_size}
use timberlake.Sizes.Laws.{known_size-put_size}
use timberlake.Strings.{trim_left, has_prefix}
use timberlake.Strings.Laws.{drop-append}
use timberlake.Sftp.Listing.{
  Entry, or_base, rel_path, found_path, add_item, scan, too_many, stat_walk, stat_all,
}

-- The size of the last item with a path, or what is known otherwise.
unfoldable pub last_size : Text → List Item → Bool × ℕ → Bool × ℕ
last_size rel [] known = known
last_size rel (i ∷ items) known =
    last_size rel items (if eq_text i.relative_path rel then (true, i.size) else known)

module _ (base : Text → Text) (root rel : Text) (limit : ℤ) where
  stat_walk-scan :
      (es : List Entry) (found found' : List (Text × ℕ))
      → stat_walk base root limit es found ≡ some found'
      → known_size rel found' ≡ last_size rel (scan base root es) (known_size rel found)
  unfolding stat_walk scan last_size
  stat_walk-scan [] found found' h = ap (known_size rel) (sym (some_inj found found' h))
  stat_walk-scan (e ∷ es) found found' h = by_path (found_path base root e) h (stat_walk-scan es)
    where
      by_path :
          (p : Option Text)
          → (elim p [
            | none ↦ stat_walk base root limit es found
            | some r ↦
                if too_many limit (put_size r e.size found)
                then none
                else stat_walk base root limit es (put_size r e.size found)
          ])
            ≡ some found'
          → ((f g : List (Text × ℕ))
              → stat_walk base root limit es f ≡ some g
              → known_size rel g ≡ last_size rel (scan base root es) (known_size rel f))
          → known_size rel found'
            ≡ last_size rel (add_item p e.size (scan base root es)) (known_size rel found)
      by_path none h rest = unfold add_item in rest found found' h
      by_path (some r) h rest = elim (Bool-cases (too_many limit (put_size r e.size found))) [
        | inl over ↦ cc (rw over at h)
        | inr within ↦
            rest (put_size r e.size found) found' (rw within at h)
            ∙ ap (last_size rel (scan base root es)) (known_size-put_size rel r e.size found)
            ∙ unfold add_item in refl
      ]

-- What StatAll knows of a path is what Scan of the same walk lists of it: the size of its last item
-- with the path, or that there is none, if StatAll does not give up.
pub stat_all-scan :
    (base : Text → Text) (root rel : Text) (limit : ℤ) (es : List Entry) (found : List (Text × ℕ))
    → stat_all base root limit es ≡ some found
    → known_size rel found ≡ last_size rel (scan base root es) (false, 0)
unfolding stat_all known_size
stat_all-scan base root rel limit es found h = stat_walk-scan base root rel limit es [] found h

trim_left-same : (c : ℕ) (s : Text) → has_prefix (c ∷ []) s ≡ false → trim_left c s ≡ s
unfolding trim_left has_prefix
trim_left-same c [] h = refl
trim_left-same c (x ∷ s) h = elim (Bool-cases (x == c)) [
  | inl same ↦ ground arith
  | inr other ↦ rw other refl
]

-- The path of a file under the root gives its relative path back, where the walk joins the two by a
-- slash, or leaves the root away if it is "." or empty.
pub rel_path-join :
    (base : Text → Text) (root : Text) (c : ℕ) (cs : Text)
    → has_prefix (b'/' ∷ []) (c ∷ cs) ≡ false
    → rel_path base root
        (if eq_text root [] || eq_text root (codes ".") then c ∷ cs else root ++ b'/' ∷ c ∷ cs)
      ≡ ok (c ∷ cs)
unfolding rel_path
rel_path-join base root c cs h = elim (Bool-cases (eq_text root [] || eq_text root (codes "."))) [
  | inl here ↦ rw (here, trim_left-same b'/' (c ∷ cs) h) (unfold or_base in refl)
  | inr other ↦
      rw (other, long root, drop-append root (b'/' ∷ c ∷ cs), trimmed) (unfold or_base in refl)
]
  where
    long : (r : Text) → ltb (length (r ++ b'/' ∷ c ∷ cs)) (length r) ≡ false
    long r = ground (arith, length-append r (b'/' ∷ c ∷ cs))

    trimmed : trim_left b'/' (b'/' ∷ c ∷ cs) ≡ c ∷ cs
    trimmed = unfold trim_left in trim_left-same b'/' (c ∷ cs) h

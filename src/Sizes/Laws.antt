-- ===== src/Sizes/Laws.antt =====
-- Lookups after assignments (Sizes).
use timberlake.Base.{
  ℕ, ◌≡◌, ◌≢◌, refl, sym, ap, ◌∙◌, inl, inr, true, false, List, [], ◌∷◌, Bool-cases, if◌then◌else◌,
}
use timberlake.Io.{Text, eq_text}
use timberlake.Io.Readers.{eq_text_sound, eq_text_refl}
use timberlake.Sizes.{put_size, known_size}

pub eq_text-other : (a b : Text) → a ≢ b → eq_text a b ≡ false
eq_text-other a b ne = elim (Bool-cases (eq_text a b)) [
  | inl same ↦ absurd (ne (eq_text_sound a b same))
  | inr other ↦ other
]

pub known_size-put_size :
    (rel r : Text) (n : ℕ) (found : List (Text × ℕ))
    → known_size rel (put_size r n found)
      ≡ (if eq_text r rel then (true, n) else known_size rel found)
unfolding known_size put_size
known_size-put_size rel r n [] = refl
known_size-put_size rel r n ((k, m) ∷ found) = elim (Bool-cases (eq_text k r)) [
  | inl same ↦
      rw (eq_text_sound k r same, eq_text_refl r)
        (elim (Bool-cases (eq_text r rel)) [ inl here ↦ rw here refl | inr there ↦ rw there refl ])
  | inr other ↦ rw other (elim (Bool-cases (eq_text k rel)) [
    | inl here ↦
        rw
          (
            here,
            eq_text-other r rel (λ e. cc (
                sym other
                ∙ ap (λ t. eq_text t r) (eq_text_sound k rel here ∙ sym e)
                ∙ eq_text_refl r)),
          )
          refl
    | inr there ↦ rw there (known_size-put_size rel r n found)
  ])
]

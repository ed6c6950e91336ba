-- ===== src/Ui/View/Format.antt =====
-- Sizes as they are printed (Ui/View).
use timberlake.Base.{
  ℕ, suc, ◌*◌, ◌/◌, ◌^◌, ◌<◌, ◌≤◌, ◌≡◌, refl, ◌⊎◌, inl, inr, false, some, arith, ltb, leb,
  Bool-cases,
}
use timberlake.Ui.View.{scale, byte_at, unit_letter, plain, quotient, format_bytes}

-- What formatBytes shows: the quotient by 1024 to the power of a unit, which is at least 1 and less
-- than 1024.
abbrev pub Scaled : ℕ → Type 0
Scaled bytes =
    (exp : ℕ) × (letter : ℕ) × (format_bytes 6 bytes
      ≡ some (quotient bytes (1024 ^ suc exp) letter))
    × (unit_letter exp ≡ some letter)
    × (1024 ^ suc exp ≤ bytes)
    × (bytes < 1024 * 1024 ^ suc exp)

-- formatBytes of an int64 that is not negative indexes within "KMGTPE" and needs no more than six
-- turns: below 1024 it shows the number, and else the quotient by a power of 1024 that is at least 1
-- and below 1024, with the letter of the power.
pub format_bytes-Scaled :
    (bytes : ℕ)
    → bytes < 2 ^ 63
    → ((bytes < 1024) × (format_bytes 6 bytes ≡ some (plain bytes))) ⊎ Scaled bytes
unfolding format_bytes scale unit_letter byte_at
format_bytes-Scaled bytes h = elim (Bool-cases (ltb bytes 1024)) [
  | inl small ↦ inl (ground arith, rw small refl)
  | inr large ↦ inr (elim (Bool-cases (leb 1024 (bytes / 1024))) [
    | inr k ↦ (0, b'K', rw (large, k) refl, refl, ground arith, ground arith)
    | inl k ↦ elim (Bool-cases (leb 1024 (bytes / 1024 / 1024))) [
      | inr m ↦ (1, b'M', rw (large, k, m) refl, refl, ground arith, ground arith)
      | inl m ↦ elim (Bool-cases (leb 1024 (bytes / 1024 / 1024 / 1024))) [
        | inr g ↦ (2, b'G', rw (large, k, m, g) refl, refl, ground arith, ground arith)
        | inl g ↦ elim (Bool-cases (leb 1024 (bytes / 1024 / 1024 / 1024 / 1024))) [
          | inr t ↦ (3, b'T', rw (large, k, m, g, t) refl, refl, ground arith, ground arith)
          | inl t ↦ elim (Bool-cases (leb 1024 (bytes / 1024 / 1024 / 1024 / 1024 / 1024))) [
            | inr p ↦ (4, b'P', rw (large, k, m, g, t, p) refl, refl, ground arith, ground arith)
            | inl p ↦
                let e : leb 1024 (bytes / 1024 / 1024 / 1024 / 1024 / 1024 / 1024) ≡ false =
                  ground arith in
                (5, b'E', rw (large, k, m, g, t, p, e) refl, refl, ground arith, ground arith)
          ]
        ]
      ]
    ]
  ])
]

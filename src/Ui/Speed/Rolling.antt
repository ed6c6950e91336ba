-- ===== src/Ui/Speed/Rolling.antt =====
-- The rolling window of the upload speed (Ui/Speed).
use timberlake.Base.{
  ℕ, ◌+◌, ◌-◌, ◌*◌, ◌≤◌, ◌≡◌, refl, ◌∙◌, ◌⊎◌, inl, inr, false, List, [], ◌∷◌, ◌++◌, Option, none,
  some, arith, ltb, leb, length, Bool-cases,
}
use timberlake.Base.Words.{sub64, lt64}
use timberlake.Ui.Model.{Floats, Model}
use timberlake.Ui.Update.{live_transferred_bytes}
use timberlake.Ui.Speed.{
  SpeedSample, Speed, speed_warmup, speed_sample_gap, speed_window, drop_old, last_sample, too_soon,
  between, measure, add_sample, sample_speed,
}

abbrev pub last_at : ℕ → List SpeedSample → ℕ
last_at a [] = a
last_at a (s ∷ r) = last_at s.at r

-- Each sample is a gap after the one before it.
abbrev pub Spaced : ℕ → List SpeedSample → Type 0
Spaced a [] = Unit {0}
Spaced a (s ∷ r) = (a + speed_sample_gap ≤ s.at) × Spaced s.at r

-- No sample yet; or spaced samples, the last of them at the time of the last sample and no more than
-- the window after the first.
abbrev pub Window : List SpeedSample → Option ℕ → Type 0
Window [] last = last ≡ none
Window (s ∷ r) last =
    (last ≡ some (last_at s.at r)) × Spaced s.at r × (last_at s.at r ≤ s.at + speed_window)

Spaced-length :
    (a : ℕ) (r : List SpeedSample) → Spaced a r → a + length r * speed_sample_gap ≤ last_at a r
Spaced-length a [] h = omega arith
Spaced-length a (s ∷ r) h = omega (arith, Spaced-length s.at r h.1)

Window-length : (l : List SpeedSample) (last : Option ℕ) → Window l last → length l ≤ 17
Window-length [] last h = omega arith
Window-length (s ∷ r) last h = omega (arith, Spaced-length s.at r h.1)

-- A sample at the end.
Spaced-append :
    (a now b : ℕ) (r : List SpeedSample)
    → Spaced a r
    → last_at a r + speed_sample_gap ≤ now
    → Spaced a (r ++ record { at = now; bytes = b } ∷ [])
Spaced-append a now b [] h k = (k, tt)
Spaced-append a now b (s ∷ r) h k = (h.0, Spaced-append s.at now b r h.1 k)

last_at-append :
    (a now b : ℕ) (r : List SpeedSample)
    → last_at a (r ++ record { at = now; bytes = b } ∷ []) ≡ now
last_at-append a now b [] = refl
last_at-append a now b (s ∷ r) = last_at-append s.at now b r

-- What is left after the cutoff of spaced samples that end at `now`.
drop_old-Window :
    (now : ℕ) (s : SpeedSample) (r : List SpeedSample)
    → Spaced s.at r
    → last_at s.at r ≡ now
    → Window (drop_old (now - speed_window) (s ∷ r)) (some now)
unfolding drop_old
drop_old-Window now s [] h e = ground arith
drop_old-Window now s (t ∷ r) h e = elim (Bool-cases (ltb s.at (now - speed_window))) [
  | inl old ↦ rw old (drop_old-Window now t r h.1 e)
  | inr young ↦ rw young (ground arith, h, ground arith)
]

sampled-Window :
    (now b : ℕ) (l : List SpeedSample) (last : Option ℕ)
    → Window l last
    → too_soon now last ≡ false
    → Window (drop_old (now - speed_window) (l ++ record { at = now; bytes = b } ∷ [])) (some now)
unfolding drop_old too_soon
sampled-Window now b [] last h k = (refl, tt, omega arith)
sampled-Window now b (s ∷ r) last h k =
    let soon : too_soon now (some (last_at s.at r)) ≡ false = rw h.0 at k in
    drop_old-Window now s (r ++ record { at = now; bytes = b } ∷ [])
      (Spaced-append s.at now b r h.1 (ground arith)) (last_at-append s.at now b r)

last_sample-at : (s : SpeedSample) (r : List SpeedSample) → (last_sample s r).at ≡ last_at s.at r
unfolding last_sample
last_sample-at s [] = refl
last_sample-at s (t ∷ r) = last_sample-at t r

-- A property of each sample.
abbrev All : (SpeedSample → Type 0) → List SpeedSample → Type 0
All P [] = Unit {0}
All P (s ∷ r) = P s × All P r

All-snoc :
    (P : SpeedSample → Type 0) (l : List SpeedSample) (t : SpeedSample)
    → All P l
    → P t
    → All P (l ++ t ∷ [])
All-snoc P [] t a p = (p, tt)
All-snoc P (s ∷ r) t a p = (a.0, All-snoc P r t a.1 p)

All-drop_old :
    (P : SpeedSample → Type 0) (cutoff : ℕ) (l : List SpeedSample)
    → All P l
    → All P (drop_old cutoff l)
unfolding drop_old
All-drop_old P cutoff [] a = a
All-drop_old P cutoff (s ∷ []) a = a
All-drop_old P cutoff (s ∷ t ∷ r) a = elim (Bool-cases (ltb s.at cutoff)) [
  | inl old ↦ rw old (All-drop_old P cutoff (t ∷ r) a.1)
  | inr young ↦ rw young a
]

All-last :
    (P : SpeedSample → Type 0) (s : SpeedSample) (r : List SpeedSample)
    → P s
    → All P r
    → P (last_sample s r)
unfolding last_sample
All-last P s [] p a = p
All-last P s (t ∷ r) p a = All-last P t r a.0 a.1

-- One of the samples.
abbrev pub In : SpeedSample → List SpeedSample → Type 0
In s [] = ⊥
In s (t ∷ r) = (s ≡ t) ⊎ In s r

All-of :
    (P : SpeedSample → Type 0) (l : List SpeedSample) → ((s : SpeedSample) → In s l → P s) → All P l
All-of P [] f = tt
All-of P (s ∷ r) f = (f s (inl refl), All-of P r (λ t i. f t (inr i)))

module _ (fl : Floats) where
  open fl use {F, rate}

  -- The sample of a tick: its time, and the bytes that had been sent by then.
  abbrev pub sample_of : ℕ → Model F → SpeedSample
  sample_of now m = record { at = now; bytes = live_transferred_bytes fl m }

  abbrev pub Taken : List (ℕ × Model F) → SpeedSample → Type 0
  Taken [] s = ⊥
  Taken ((now, m) ∷ ts) s = (s ≡ sample_of now m) ⊎ Taken ts s

  abbrev AllTaken : (SpeedSample → Type 0) → List (ℕ × Model F) → Type 0
  AllTaken P [] = Unit {0}
  AllTaken P ((now, m) ∷ ts) = P (sample_of now m) × AllTaken P ts

  AllTaken-of :
      (P : SpeedSample → Type 0) (ts : List (ℕ × Model F))
      → ((s : SpeedSample) → Taken ts s → P s)
      → AllTaken P ts
  AllTaken-of P [] f = tt
  AllTaken-of P ((now, m) ∷ ts) f = (f _ (inl refl), AllTaken-of P ts (λ t i. f t (inr i)))

  -- The old speed, or the growth of the bytes from one sample with P to another, over the time between
  -- them, which is between two and twelve seconds; the growth is not negative.
  abbrev pub IsRate : (SpeedSample → Type 0) → F → F → Type 0
  IsRate P old new =
      (new ≡ old)
      ⊎ ((s : SpeedSample) × (t : SpeedSample) × P s
          × P t
          × (new ≡ rate (sub64 t.bytes s.bytes) (t.at - s.at))
          × (lt64 (sub64 t.bytes s.bytes) 0 ≡ false)
          × (2_000_000_000 ≤ t.at - s.at)
          × (t.at - s.at ≤ speed_window))

  module _ (P : SpeedSample → Type 0) where
    between-IsRate :
        (old : F) (s t : SpeedSample)
        → P s
        → P t
        → t.at ≤ s.at + speed_window
        → IsRate P old (between fl old s t)
    unfolding between
    between-IsRate old s t p q h = elim (Bool-cases (leb 2_000_000_000 (t.at - s.at))) [
      | inr short ↦ inl (rw short refl)
      | inl long ↦ elim (Bool-cases (lt64 (sub64 t.bytes s.bytes) 0)) [
        | inl down ↦ inl (rw (long, down) refl)
        | inr up ↦ inr (s, t, p, q, rw (long, up) refl, up, ground arith, omega arith)
      ]
    ]

    measure-IsRate :
        (old : F) (l : List SpeedSample) (last : Option ℕ)
        → Window l last
        → All P l
        → IsRate P old (measure fl old l)
    unfolding measure
    measure-IsRate old [] last h a = inl refl
    measure-IsRate old (s ∷ []) last h a = inl refl
    measure-IsRate old (s ∷ t ∷ r) last h a =
        between-IsRate old s (last_sample t r) a.0 (All-last P t r a.1.0 a.1.1)
          (omega (arith, last_sample-at t r))

  abbrev pub IsWindow : Speed F → Type 0
  IsWindow sp = Window sp.samples sp.last_speed_time

  -- One tick of the spinner.
  sample_speed-IsWindow :
      (P : SpeedSample → Type 0) (now : ℕ) (m : Model F) (sp : Speed F)
      → IsWindow sp
      → All P sp.samples
      → P (sample_of now m)
      → IsWindow (sample_speed fl now m sp)
        × IsRate P sp.speed_bps (sample_speed fl now m sp).speed_bps
        × All P (sample_speed fl now m sp).samples
  unfolding sample_speed add_sample
  sample_speed-IsWindow P now m sp v a p =
      elim (Bool-cases (ltb (now - m.start_time) speed_warmup)) [
        | inl early ↦ rw early (v, inl refl, a)
        | inr late ↦ elim (Bool-cases (too_soon now sp.last_speed_time)) [
          | inl soon ↦ rw (late, soon) (v, inl refl, a)
          | inr due ↦
              let w =
                sampled-Window now (live_transferred_bytes fl m) sp.samples sp.last_speed_time v
                  due in
              let kept =
                All-drop_old P (now - speed_window) _
                  (All-snoc P sp.samples (sample_of now m) a p) in
              rw (late, due) (w, measure-IsRate P sp.speed_bps _ _ w kept, kept)
        ]
      ]

  abbrev pub ticks : List (ℕ × Model F) → Speed F → Speed F
  ticks [] sp = sp
  ticks ((now, m) ∷ ts) sp = ticks ts (sample_speed fl now m sp)

  then-IsRate : (P : SpeedSample → Type 0) (a b c : F) → IsRate P a b → IsRate P b c → IsRate P a c
  then-IsRate P a b c (inl e) (inl f) = inl (f ∙ e)
  then-IsRate P a b c (inr (s, t, p, q, e, up, long, short)) (inl f) =
      inr (s, t, p, q, f ∙ e, up, long, short)
  then-IsRate P a b c (inl e) (inr f) = inr f
  then-IsRate P a b c (inr e) (inr f) = inr f

  ticks-All :
      (P : SpeedSample → Type 0) (ts : List (ℕ × Model F)) (sp : Speed F)
      → IsWindow sp
      → All P sp.samples
      → AllTaken P ts
      → IsWindow (ticks ts sp)
        × (length (ticks ts sp).samples ≤ 17)
        × IsRate P sp.speed_bps (ticks ts sp).speed_bps
  ticks-All P [] sp v a k = (v, Window-length sp.samples sp.last_speed_time v, inl refl)
  ticks-All P ((now, m) ∷ ts) sp v a k =
      let (v', e, a') = sample_speed-IsWindow P now m sp v a k.0 in
      let (w, n, f) = ticks-All P ts (sample_speed fl now m sp) v' a' k.1 in
      (w, n, then-IsRate P sp.speed_bps _ _ e f)

  -- A sample of the window, or one of a tick with the bytes that had been sent by then.
  abbrev pub Known : List SpeedSample → List (ℕ × Model F) → SpeedSample → Type 0
  Known l ts s = In s l ⊎ Taken ts s

  -- Whatever the times of the ticks and the progress of the workers, from an empty window or one that is
  -- as they leave it: the samples of the window are 750 ms apart at least, the last is no more than
  -- twelve seconds after the first, and they are seventeen at most; SpeedBps is what it was, or the
  -- growth of the bytes that had been sent from one tick, or sample of the window before, to another,
  -- over the time between them, which is between two and twelve seconds; the growth is not negative.
  pub ticks-IsRolling :
      (ts : List (ℕ × Model F)) (sp : Speed F)
      → IsWindow sp
      → IsWindow (ticks ts sp)
        × (length (ticks ts sp).samples ≤ 17)
        × IsRate (Known sp.samples ts) sp.speed_bps (ticks ts sp).speed_bps
  ticks-IsRolling ts sp v =
      ticks-All (Known sp.samples ts) ts sp v
        (All-of (Known sp.samples ts) sp.samples (λ s i. inl i))
        (AllTaken-of (Known sp.samples ts) ts (λ s i. inr i))

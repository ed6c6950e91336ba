-- ===== src/S3/Wire/Order.antt =====
-- The committed bytes of an upload against those on the wire (S3/Wire).
use timberlake.Base.{
  ℕ, zero, suc, ◌+◌, ◌<◌, ◌≤◌, ◌^◌, ◌≡◌, ap, inl, inr, true, false, List, [], ◌∷◌, some, some_inj,
  and_then-inv, arith, Bool-cases, if◌then◌else◌,
}
use timberlake.Base.Words.{add64}
use timberlake.S3.Wire.{
  Body, Wire, no_wire, Traffic, begin, read, return, body_first, bump, close_first, close,
  after_read, after_return, step, run,
}

-- The bytes that all reads deliver together.
unfoldable pub delivered : List Traffic → ℕ
delivered [] = 0
delivered (read k n ∷ ts) = n + delivered ts
delivered (begin ∷ ts) = delivered ts
delivered (return k success ∷ ts) = delivered ts

-- The bytes of the requests that have not returned.
unfoldable pub open_bytes : List Body → ℕ
open_bytes [] = 0
open_bytes (b ∷ bs) = (if b.returned then 0 else b.sent) + open_bytes bs

-- Committed bytes and those of open requests are on the wire, and no body has sent more than that.
unfoldable pub AllBelow : ℕ → List Body → Type 0
AllBelow n [] = Unit
AllBelow n (b ∷ bs) = (b.sent ≤ n) × AllBelow n bs

abbrev pub Ordered : Wire → Type 0
Ordered w = (w.committed + open_bytes w.bodies ≤ w.wire) × AllBelow w.wire w.bodies

AllBelow-le : (m n : ℕ) (bs : List Body) → m ≤ n → AllBelow m bs → AllBelow n bs
unfolding AllBelow
AllBelow-le m n [] h all = tt
AllBelow-le m n (b ∷ bs) h (le, all) = (omega arith, AllBelow-le m n bs h all)

bump-Ordered :
    (k n wire : ℕ) (bs bs' : List Body)
    → wire + n < 2 ^ 63
    → AllBelow wire bs
    → bump k n bs ≡ some bs'
    → (open_bytes bs' ≤ open_bytes bs + n) × AllBelow (wire + n) bs'
unfolding bump open_bytes AllBelow
bump-Ordered k n wire [] bs' small all h = cc
bump-Ordered zero n wire (b ∷ bs) bs' small (le, all) h =
    let sum : add64 b.sent n ≡ b.sent + n = ground arith in
    rw (← some_inj _ bs' h) (
      elim (Bool-cases b.returned) [
        | inl over ↦ rw over (omega arith)
        | inr running ↦ rw (running, sum) (omega arith)
      ],
      (rw sum (omega arith), AllBelow-le wire (wire + n) bs (omega arith) all),
    )
bump-Ordered (suc k) n wire (b ∷ bs) bs' small (le, all) h =
    let (rest, bumped, same) = and_then-inv (body_first b) (bump k n bs) h in
    let (more, below) = bump-Ordered k n wire bs rest small all bumped in
    rw (← some_inj _ bs' same) (omega (arith, more), (omega arith, below))

close-Ordered :
    (k wire sent : ℕ) (bs bs' : List Body)
    → AllBelow wire bs
    → close k bs ≡ some (sent, bs')
    → (sent + open_bytes bs' ≡ open_bytes bs) × AllBelow wire bs'
unfolding close open_bytes AllBelow
close-Ordered k wire sent [] bs' all h = cc
close-Ordered zero wire sent (b ∷ bs) bs' (le, all) h = elim (Bool-cases b.returned) [
  | inl over ↦ cc (rw over at h)
  | inr running ↦
      let same : (b.sent, record b { returned = true } ∷ bs) ≡ (sent, bs') =
        some_inj _ (sent, bs') (rw running at h) in
      rw (← ap (λ t. t.0) same, ← ap (λ t. t.1) same, running) (omega arith, (le, all))
]
close-Ordered (suc k) wire sent (b ∷ bs) bs' (le, all) h =
    let ((sent', rest), closed, same₀) = and_then-inv (close_first b) (close k bs) h in
    let same : (sent', b ∷ rest) ≡ (sent, bs') = some_inj _ (sent, bs') same₀ in
    let (sum, below) = close-Ordered k wire sent' bs rest all closed in
    rw (← ap (λ t. t.0) same, ← ap (λ t. t.1) same) (omega (arith, sum), (le, below))

step-Ordered :
    (t : Traffic) (w w' : Wire) (rest : List Traffic)
    → w.wire + delivered (t ∷ rest) < 2 ^ 63
    → Ordered w
    → step t w ≡ some w'
    → Ordered w' × (w'.wire + delivered rest < 2 ^ 63)
unfolding step delivered open_bytes AllBelow
step-Ordered begin w w' rest small (sum, all) h =
    rw (← some_inj _ w' h) ((omega (arith, sum), (omega arith, all)), omega (arith, small))
step-Ordered (read k n) w w' rest small (sum, all) h =
    let (bs, bumped, same) = and_then-inv (after_read w n) (bump k n w.bodies) h in
    let (more, below) = bump-Ordered k n w.wire w.bodies bs (omega (arith, small)) all bumped in
    let exact : add64 w.wire n ≡ w.wire + n = ground (arith, small) in
    rw (← some_inj _ w' same, exact) ((omega (arith, sum, more), below), omega (arith, small))
step-Ordered (return k true) w w' rest small (sum, all) h =
    let ((sent, bs), closed, same) = and_then-inv (after_return w true) (close k w.bodies) h in
    let (parts, below) = close-Ordered k w.wire sent w.bodies bs all closed in
    let exact : add64 w.committed sent ≡ w.committed + sent = ground (arith, small, sum, parts) in
    rw (← some_inj _ w' same, exact) ((omega (arith, sum, parts), below), omega (arith, small))
step-Ordered (return k false) w w' rest small (sum, all) h =
    let ((sent, bs), closed, same) = and_then-inv (after_return w false) (close k w.bodies) h in
    let (parts, below) = close-Ordered k w.wire sent w.bodies bs all closed in
    rw (← some_inj _ w' same) ((omega (arith, sum, parts), below), omega (arith, small))

run-from :
    (ts : List Traffic) (w w' : Wire)
    → w.wire + delivered ts < 2 ^ 63
    → Ordered w
    → run ts w ≡ some w'
    → Ordered w'
unfolding run
run-from [] w w' small ordered h = rw (← some_inj w w' h) ordered
run-from (t ∷ ts) w w' small ordered h =
    let (next, first, more) = and_then-inv (run ts) (step t w) h in
    let (ordered', small') = step-Ordered t w next ts small ordered first in
    run-from ts next w' small' ordered' more

-- In whatever order the requests of an upload begin, are read and return, be it after a failure and a
-- new attempt, the committed bytes and those of the open requests are on the wire, so that no more
-- are committed than on the wire; all reads together deliver less than 2^63 bytes.
pub run-Ordered :
    (ts : List Traffic) (w : Wire) → delivered ts < 2 ^ 63 → run ts no_wire ≡ some w → Ordered w
unfolding open_bytes AllBelow
run-Ordered ts w small h = run-from ts no_wire w (omega (arith, small)) (omega arith, tt) h

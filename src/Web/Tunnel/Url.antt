-- ===== src/Web/Tunnel/Url.antt =====
-- The URL that the tunnel shows, over all orders of events (Web/Tunnel).
use timberlake.Base.{
  member, ℕ, zero, suc, ◌≡◌, refl, ◌⊎◌, inl, inr, Bool, true, false, List, [], ◌∷◌, none, some,
  and_then-inv, some_inj, ◌≢◌, Bool-cases, if◌then◌else◌,
}
use timberlake.Io.{message}
use timberlake.Web.Tunnel.{
  TunnelState, off, starting, on, failed, Tunnel, Launch, no_pipe, no_start, launched, Event, begin,
  launch, found, gave_up, exited, stop, is_active, is_off, is_starting, on_begin, on_launch,
  on_found, on_gave_up, on_exited, on_stop, step, run,
}

-- A URL stands there in state On only.
abbrev pub UrlRight : Tunnel → Type 0
UrlRight t = (t.state ≡ on) ⊎ (t.url ≡ [])

inactive-ne : (s : TunnelState) → is_active s ≡ false → s ≢ on
unfolding is_active
inactive-ne off h = λ e. cc
inactive-ne starting h = cc
inactive-ne on h = cc
inactive-ne failed h = λ e. cc

no_url : (t : Tunnel) → t.state ≢ on → UrlRight t → t.url ≡ []
no_url t h (inl e) = absurd (h e)
no_url t h (inr e) = e

on_begin-UrlRight : (available : Bool) (t : Tunnel) → UrlRight t → UrlRight (on_begin available t)
unfolding on_begin
on_begin-UrlRight available t v = elim (Bool-cases (is_active t.state)) [
  | inl h ↦ rw h v
  | inr h ↦ rw h (by_binary available (no_url t (inactive-ne t.state h) v))
]
  where
    by_binary :
        (b : Bool)
        → t.url ≡ []
        → UrlRight (
            if b
            then record t { state = starting; url = []; error = none; launching = suc t.launching }
            else record t { state = failed; error = some (message "cloudflared not found") })
    by_binary true e = inr refl
    by_binary false e = inr e

on_launch-UrlRight :
    (l : Launch) (t t' : Tunnel) (n : ℕ) → UrlRight t → on_launch l t n ≡ some t' → UrlRight t'
unfolding on_launch
on_launch-UrlRight l t t' zero v h = cc
on_launch-UrlRight (no_pipe e) t t' (suc n) v h = rw (← some_inj _ t' h) v
on_launch-UrlRight (no_start e) t t' (suc n) v h = rw (← some_inj _ t' h) (inr refl)
on_launch-UrlRight launched t t' (suc n) v h = rw (← some_inj _ t' h) v

step-UrlRight : (e : Event) (t t' : Tunnel) → UrlRight t → step e t ≡ some t' → UrlRight t'
unfolding step
step-UrlRight (begin available) t t' v h = rw (← some_inj _ t' h) (on_begin-UrlRight available t v)
step-UrlRight (launch l) t t' v h = on_launch-UrlRight l t t' t.launching v h
step-UrlRight (found id url path) t t' v h =
    unfold on_found in
    elim (Bool-cases (member id t.watching)) [
      | inl m ↦ rw (← some_inj _ t' (rw m at h)) (inl refl)
      | inr m ↦ cc (rw m at h)
    ]
step-UrlRight (gave_up id) t t' v h =
    unfold on_gave_up in
    elim (Bool-cases (member id t.watching)) [
      | inl m ↦
          rw (← some_inj _ t' (rw m at h))
            (elim (Bool-cases (is_starting t.state)) [ inl s ↦ rw s (inr refl) | inr s ↦ rw s v ])
      | inr m ↦ cc (rw m at h)
    ]
step-UrlRight (exited id) t t' v h =
    unfold on_exited in
    elim (Bool-cases (member id t.waiting)) [
      | inl m ↦
          rw (← some_inj _ t' (rw m at h))
            (elim (Bool-cases (is_off t.state)) [ inl s ↦ rw s v | inr s ↦ rw s (inr refl) ])
      | inr m ↦ cc (rw m at h)
    ]
step-UrlRight stop t t' v h = rw (← some_inj _ t' h) (unfold on_stop in inr refl)

-- Whatever the order in which Start, Stop and the goroutines of all processes move: a URL is there
-- only in the state TunnelOn, if it was so before.
pub run-UrlRight : (es : List Event) (t t' : Tunnel) → UrlRight t → run es t ≡ some t' → UrlRight t'
unfolding run
run-UrlRight [] t t' v h = rw (← some_inj t t' h) v
run-UrlRight (e ∷ es) t t' v h =
    let (u, first, rest) = and_then-inv (run es) (step e t) h in
    run-UrlRight es u t' (step-UrlRight e t u v first) rest

-- ===== src/Web/Hub/Current.antt =====
-- What a browser has been sent, against the snapshot that is stored (Web/Hub).
use timberlake.Base.{
  ℕ, ◌≡◌, ◌⊎◌, inl, inr, refl, Bool, true, false, ◌&&◌, List, [], ◌∷◌, ◌++◌, Option, ◌==◌,
  Bool-cases, if◌then◌else◌,
}
use timberlake.Web.Hub.{
  Snapshot, get, Connection, Hub, new_hub, Event, set, wake, subscribe, first, update, tick,
  heartbeat, leave, send, on_first, on_update, on_tick, on_heartbeat, at_connection, wake_all, step,
  run,
}

module _ (Float : Type 0) (zero_speed : Float) where
  -- The last frame is the stored snapshot.
  abbrev pub IsCurrent : Option (Snapshot Float zero_speed) → Connection Float zero_speed → Type 0
  IsCurrent stored c =
      (before : List (Snapshot Float zero_speed)) × (c.frames
        ≡ get Float zero_speed stored ∷ before)

  -- A connection that has nothing to send has sent the stored snapshot.
  abbrev pub IsServed :
      Bool → Option (Snapshot Float zero_speed) → Connection Float zero_speed → Type 0
  IsServed due stored c =
      (due ≡ true)
      ⊎ ((c.opened ≡ false) ⊎ ((c.pending ≡ true) ⊎ ((c.dirty ≡ true) ⊎ IsCurrent stored c)))

  -- Each connection of a list has a property.
  unfoldable pub Each :
      (Connection Float zero_speed → Type 0) → List (Connection Float zero_speed) → Type 0
  Each P [] = Unit
  Each P (c ∷ cs) = P c × Each P cs

  Each-append :
      (P : Connection Float zero_speed → Type 0) (xs ys : List (Connection Float zero_speed))
      → Each P xs
      → Each P ys
      → Each P (xs ++ ys)
  unfolding Each
  Each-append P [] ys p q = q
  Each-append P (x ∷ xs) ys (h, p) q = (h, Each-append P xs ys p q)

  pub Each-on :
      (P Q : Connection Float zero_speed → Type 0) (k : ℕ)
      (act : Connection Float zero_speed → List (Connection Float zero_speed))
      (cs : List (Connection Float zero_speed))
      → ((c : Connection Float zero_speed) → P c → Each Q (act c))
      → ((c : Connection Float zero_speed) → (c.id == k) ≡ false → P c → Q c)
      → Each P cs
      → Each Q (at_connection Float zero_speed k act cs)
  unfolding Each at_connection
  Each-on P Q k act [] acts keeps all = tt
  Each-on P Q k act (c ∷ cs) acts keeps (h, all) = elim (Bool-cases (c.id == k)) [
    | inl here ↦ rw here (Each-append Q (act c) _ (acts c h) (Each-on P Q k act cs acts keeps all))
    | inr other ↦ rw other (keeps c other h, Each-on P Q k act cs acts keeps all)
  ]

  Each-all :
      (P : Connection Float zero_speed → Type 0) (cs : List (Connection Float zero_speed))
      → ((c : Connection Float zero_speed) → P c)
      → Each P cs
  unfolding Each
  Each-all P [] holds = tt
  Each-all P (c ∷ cs) holds = (holds c, Each-all P cs holds)

  pub Each-if :
      (P : Connection Float zero_speed → Type 0) (b : Bool)
      (xs ys : List (Connection Float zero_speed))
      → (b ≡ true → Each P xs)
      → (b ≡ false → Each P ys)
      → Each P (if b then xs else ys)
  Each-if P true xs ys p q = p refl
  Each-if P false xs ys p q = q refl

  wake_all-Each :
      (due : Bool) (stored : Option (Snapshot Float zero_speed))
      (cs : List (Connection Float zero_speed))
      → Each (IsServed due stored) (wake_all Float zero_speed cs)
  unfolding Each wake_all
  wake_all-Each due stored [] = tt
  wake_all-Each due stored (c ∷ cs) = (inr (inr (inl refl)), wake_all-Each due stored cs)

  send-IsServed :
      (due worked : Bool) (stored : Option (Snapshot Float zero_speed))
      (c : Connection Float zero_speed)
      → Each (IsServed due stored) (send Float zero_speed stored worked c)
  unfolding send Each
  send-IsServed due true stored c = (inr (inr (inr (inr (c.frames, refl)))), tt)
  send-IsServed due false stored c = tt

  on_first-IsServed :
      (due worked : Bool) (stored : Option (Snapshot Float zero_speed))
      (c : Connection Float zero_speed)
      → IsServed due stored c
      → Each (IsServed due stored) (on_first Float zero_speed stored worked c)
  unfolding on_first Each
  on_first-IsServed due worked stored c h =
      Each-if _ c.opened _ _ (λ e. (h, tt))
        (λ e. send-IsServed due worked stored (record c { opened = true }))

  on_update-IsServed :
      (due : Bool) (stored : Option (Snapshot Float zero_speed)) (c : Connection Float zero_speed)
      → IsServed due stored c
      → Each (IsServed due stored) (on_update Float zero_speed c)
  unfolding on_update Each
  on_update-IsServed due stored c h =
      Each-if _ (c.opened && c.pending) _ _ (λ e. (inr (inr (inr (inl refl))), tt)) (λ e. (h, tt))

  on_tick-IsServed :
      (due worked : Bool) (stored : Option (Snapshot Float zero_speed))
      (c : Connection Float zero_speed)
      → IsServed due stored c
      → Each (IsServed due stored) (on_tick Float zero_speed stored worked c)
  unfolding on_tick Each
  on_tick-IsServed due worked stored c h =
      Each-if _ (c.opened && c.dirty) _ _
        (λ e. send-IsServed due worked stored (record c { dirty = false })) (λ e. (h, tt))

  on_heartbeat-IsServed :
      (due worked : Bool) (stored : Option (Snapshot Float zero_speed))
      (c : Connection Float zero_speed)
      → IsServed due stored c
      → Each (IsServed due stored) (on_heartbeat Float zero_speed stored worked c)
  unfolding on_heartbeat Each
  on_heartbeat-IsServed due worked stored c h =
      Each-if _ c.opened _ _ (λ e. send-IsServed due worked stored c) (λ e. (h, tt))

  abbrev pub AllServed : Hub Float zero_speed → Type 0
  AllServed h = Each (IsServed h.due h.stored) h.connections

  subscribe-AllServed :
      (k : ℕ) (h : Hub Float zero_speed)
      → AllServed h
      → AllServed (step Float zero_speed (subscribe k) h)
  unfolding Each step
  subscribe-AllServed k h served = (inr (inl refl), served)

  leave-AllServed :
      (k : ℕ) (h : Hub Float zero_speed)
      → AllServed h
      → AllServed (step Float zero_speed (leave k) h)
  unfolding Each step
  leave-AllServed k h served =
      Each-on _ _ k (λ c. []) h.connections (λ c p. tt) (λ c other p. p) served

  step-AllServed :
      (e : Event Float zero_speed) (h : Hub Float zero_speed)
      → AllServed h
      → AllServed (step Float zero_speed e h)
  unfolding step
  step-AllServed (set now s) h served = Each-all _ h.connections (λ c. inl refl)
  step-AllServed wake h served = wake_all-Each false h.stored h.connections
  step-AllServed (subscribe k) h served = subscribe-AllServed k h served
  step-AllServed (first k worked) h served =
      Each-on _ _ k _ h.connections (on_first-IsServed h.due worked h.stored) (λ c other p. p)
        served
  step-AllServed (update k) h served =
      Each-on _ _ k _ h.connections (on_update-IsServed h.due h.stored) (λ c other p. p) served
  step-AllServed (tick k worked) h served =
      Each-on _ _ k _ h.connections (on_tick-IsServed h.due worked h.stored) (λ c other p. p) served
  step-AllServed (heartbeat k worked) h served =
      Each-on _ _ k _ h.connections (on_heartbeat-IsServed h.due worked h.stored) (λ c other p. p)
        served
  step-AllServed (leave k) h served = leave-AllServed k h served

  run-from :
      (es : List (Event Float zero_speed)) (h : Hub Float zero_speed)
      → AllServed h
      → AllServed (run Float zero_speed es h)
  unfolding run
  run-from [] h served = served
  run-from (e ∷ es) h served = run-from es (step Float zero_speed e h) (step-AllServed e h served)

  -- In any run of publishes, of browsers that come and go and of writes that work or fail, each
  -- browser has as its last frame the snapshot that is stored now, unless an update of it is still
  -- to come: its subscribers are still to be woken, its first frame is not out, an update waits in
  -- its channel, or its loop will write at the next tick.
  pub run-AllServed :
      (es : List (Event Float zero_speed))
      → AllServed (run Float zero_speed es (new_hub Float zero_speed))
  unfolding Each
  run-AllServed es = run-from es (new_hub Float zero_speed) tt

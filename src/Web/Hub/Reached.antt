-- ===== src/Web/Hub/Reached.antt =====
-- That a browser gets what is stored (Web/Hub).
use timberlake.Base.{
  ℕ, ◌≡◌, ◌⊎◌, inl, inr, refl, Bool, true, false, ◌&&◌, List, [], ◌∷◌, ◌++◌, Option, ◌==◌,
  if◌then◌else◌, map, map-append, ap, ◌∙◌,
}
use timberlake.Web.Hub.{
  Snapshot, get, Connection, Hub, new_hub, Event, update, tick, send, on_update, on_tick,
  at_connection, step, run,
}
use timberlake.Web.Hub.Current.{IsCurrent, IsServed, Each, Each-on, Each-if, run-AllServed}

module _ (Float : Type 0) (zero_speed : Float) where
  -- The browser of a number has the stored snapshot as its last frame, once its first is out.
  abbrev pub IsReached :
      ℕ → Option (Snapshot Float zero_speed) → Connection Float zero_speed → Type 0
  IsReached k stored c =
      ((c.id == k) ≡ false) ⊎ ((c.opened ≡ false) ⊎ IsCurrent Float zero_speed stored c)

  -- ... or is to get it at the next tick.
  abbrev IsMarked : ℕ → Option (Snapshot Float zero_speed) → Connection Float zero_speed → Type 0
  IsMarked k stored c =
      ((c.id == k) ≡ false)
      ⊎ ((c.opened ≡ false) ⊎ ((c.dirty ≡ true) ⊎ IsCurrent Float zero_speed stored c))

  unready : (a b : Bool) → b ≡ true → (a && b) ≡ false → a ≡ false
  unready true b h e = cc
  unready false b h e = refl

  on_update-IsMarked :
      (k : ℕ) (stored : Option (Snapshot Float zero_speed)) (c : Connection Float zero_speed)
      → IsServed Float zero_speed false stored c
      → Each Float zero_speed (IsMarked k stored) (on_update Float zero_speed c)
  unfolding on_update Each
  on_update-IsMarked k stored c (inl h) = cc
  on_update-IsMarked k stored c (inr (inl h)) =
      Each-if Float zero_speed _ (c.opened && c.pending) _ _ (λ e. (inr (inr (inl refl)), tt))
        (λ e. (inr (inl h), tt))
  on_update-IsMarked k stored c (inr (inr (inl h))) =
      Each-if Float zero_speed _ (c.opened && c.pending) _ _ (λ e. (inr (inr (inl refl)), tt))
        (λ e. (inr (inl (unready c.opened c.pending h e)), tt))
  on_update-IsMarked k stored c (inr (inr (inr h))) =
      Each-if Float zero_speed _ (c.opened && c.pending) _ _ (λ e. (inr (inr (inl refl)), tt))
        (λ e. (inr (inr h), tt))

  on_tick-IsReached :
      (k : ℕ) (stored : Option (Snapshot Float zero_speed)) (c : Connection Float zero_speed)
      → IsMarked k stored c
      → Each Float zero_speed (IsReached k stored) (on_tick Float zero_speed stored true c)
  unfolding on_tick send Each
  on_tick-IsReached k stored c h =
      Each-if Float zero_speed _ (c.opened && c.dirty) _ _ (λ e. (inr (inr (c.frames, refl)), tt))
        (λ e. (still e h, tt))
    where
      still : (c.opened && c.dirty) ≡ false → IsMarked k stored c → IsReached k stored c
      still e (inl other) = inl other
      still e (inr (inl new)) = inr (inl new)
      still e (inr (inr (inl dirty))) = inr (inl (unready c.opened c.dirty dirty e))
      still e (inr (inr (inr current))) = inr (inr current)

  -- The numbers of the browsers.
  abbrev pub ids : List (Connection Float zero_speed) → List ℕ
  ids cs = map (λ c. c.id) cs

  on-ids :
      (k : ℕ) (act : Connection Float zero_speed → List (Connection Float zero_speed))
      → ((c : Connection Float zero_speed) → ids (act c) ≡ c.id ∷ [])
      → (cs : List (Connection Float zero_speed))
      → ids (at_connection Float zero_speed k act cs) ≡ ids cs
  unfolding at_connection
  on-ids k act keeps [] = refl
  on-ids k act keeps (c ∷ cs) = map-if (c.id == k) ∙ ap (λ t. c.id ∷ t) (on-ids k act keeps cs)
    where
      map-if :
          (b : Bool)
          → ids ((if b then act c else c ∷ []) ++ at_connection Float zero_speed k act cs)
            ≡ c.id ∷ ids (at_connection Float zero_speed k act cs)
      map-if true =
          map-append (λ c. c.id) (act c) (at_connection Float zero_speed k act cs)
          ∙ ap (λ t. t ++ ids (at_connection Float zero_speed k act cs)) (keeps c)
      map-if false = refl

  on_update-ids : (c : Connection Float zero_speed) → ids (on_update Float zero_speed c) ≡ c.id ∷ []
  unfolding on_update
  on_update-ids c = by_test (c.opened && c.pending)
    where
      by_test :
          (b : Bool)
          → ids (if b then record c { pending = false; dirty = true } ∷ [] else c ∷ []) ≡ c.id ∷ []
      by_test true = refl
      by_test false = refl

  on_tick-ids :
      (stored : Option (Snapshot Float zero_speed)) (c : Connection Float zero_speed)
      → ids (on_tick Float zero_speed stored true c) ≡ c.id ∷ []
  unfolding on_tick send
  on_tick-ids stored c = by_test (c.opened && c.dirty)
    where
      by_test :
          (b : Bool)
          → ids (
              if b
              then record c { dirty = false; frames = get Float zero_speed stored ∷ c.frames } ∷ []
              else c ∷ [])
            ≡ c.id ∷ []
      by_test true = refl
      by_test false = refl

  awake :
      (due : Bool) (stored : Option (Snapshot Float zero_speed))
      (cs : List (Connection Float zero_speed))
      → due ≡ false
      → Each Float zero_speed (IsServed Float zero_speed due stored) cs
      → Each Float zero_speed (IsServed Float zero_speed false stored) cs
  awake true stored cs h served = cc
  awake false stored cs h served = served

  -- In any state that a run reaches and in which no subscriber is still to be woken, a turn of the
  -- loop of a browser that takes its update, if it has one, and a tick whose write works keep all
  -- browsers, and leave the stored snapshot as the last frame of that browser, once its first
  -- frame is out.
  pub settle-IsReached :
      (es : List (Event Float zero_speed)) (k : ℕ)
      → (run Float zero_speed es (new_hub Float zero_speed)).due ≡ false
      → let h : Hub Float zero_speed = run Float zero_speed es (new_hub Float zero_speed) in
        let h' : Hub Float zero_speed = run Float zero_speed (update k ∷ tick k true ∷ []) h in
        (ids h'.connections ≡ ids h.connections)
        × (h'.stored ≡ h.stored)
        × Each Float zero_speed (IsReached k h.stored) h'.connections
  unfolding run step
  settle-IsReached es k woken =
      let h : Hub Float zero_speed = run Float zero_speed es (new_hub Float zero_speed) in
      (
        on-ids k (on_tick Float zero_speed h.stored true) (on_tick-ids h.stored) _
            ∙ on-ids k (on_update Float zero_speed) on_update-ids h.connections,
        refl,
        Each-on Float zero_speed _ _ k _ _ (on_tick-IsReached k h.stored) (λ c other p. inl other)
            (Each-on Float zero_speed _ _ k _ h.connections (on_update-IsMarked k h.stored)
              (λ c other p. inl other)
              (awake h.due h.stored h.connections woken (run-AllServed Float zero_speed es))),
      )

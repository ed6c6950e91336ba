-- ===== src/Web/Hub.antt =====
-- web/snapshot.go, and the updates of web/server.go: the stored snapshot, the subscribers that
-- Publish wakes, and the loop of handleWS for each browser. HTTP, JSON and the clock are arguments;
-- a float64 is a parameter, and an int64 its bit pattern.
pub mod Current
pub mod Reached
use timberlake.Base.{
  ℕ, Bool, true, false, ◌&&◌, List, [], ◌∷◌, ◌++◌, Option, none, some, ◌==◌, if◌then◌else◌,
}
use timberlake.Base.Int.{ℤ, pos}
use timberlake.Io.{Text, codes}

pub record WorkerSnapshot : Type 0 where
  pub id : ℤ
  pub status : Text
  pub file : Text
  pub committed : ℕ
  pub uploaded : ℕ
  pub buffered : ℕ
  pub total : ℕ

pub record HistorySnapshot : Type 0 where
  pub name : Text
  pub size : ℕ
  pub status : Text
  pub seconds : ℤ

module _ (Float : Type 0) (zero_speed : Float) where
  pub record Snapshot : Type 0 where
    pub phase : Text
    pub source : Text
    pub destination : Text
    pub total_files : ℕ
    pub uploaded : ℕ
    pub skipped : ℕ
    pub failed : ℕ
    pub total_bytes : ℕ
    pub sent_bytes : ℕ
    pub skip_bytes : ℕ
    pub speed_bps : Float
    pub elapsed_sec : ℤ
    pub eta_sec : ℤ
    pub workers : List WorkerSnapshot
    pub recent : List HistorySnapshot
    pub boring : Bool
    pub updated_at : ℕ

  -- store.get before the first Publish.
  abbrev pub no_snapshot : Snapshot
  no_snapshot = record {
    phase = codes "starting";
    source = [];
    destination = [];
    total_files = 0;
    uploaded = 0;
    skipped = 0;
    failed = 0;
    total_bytes = 0;
    sent_bytes = 0;
    skip_bytes = 0;
    speed_bps = zero_speed;
    elapsed_sec = pos 0;
    eta_sec = pos 0;
    workers = [];
    recent = [];
    boring = false;
    updated_at = 0;
  }

  unfoldable pub get : Option Snapshot → Snapshot
  get none = no_snapshot
  get (some s) = s

  -- A browser: its place in subs, whether its channel holds an update, whether the first frame is
  -- out, the flag of the loop, and the frames written, the last one first.
  pub record Connection : Type 0 where
    pub id : ℕ
    pub pending : Bool
    pub opened : Bool
    pub dirty : Bool
    pub frames : List Snapshot

  -- `due` stands between the store and the loop over the subscribers in Publish.
  pub record Hub : Type 0 where
    pub stored : Option Snapshot
    pub due : Bool
    pub connections : List Connection

  abbrev pub new_hub : Hub
  new_hub = record { stored = none; due = false; connections = [] }

  -- A write says whether it worked.
  pub data Event : Type 0 where
    set : ℕ → Snapshot → Event
    wake : Event
    subscribe : ℕ → Event
    first : ℕ → Bool → Event
    update : ℕ → Event
    tick : ℕ → Bool → Event
    heartbeat : ℕ → Bool → Event
    leave : ℕ → Event

  -- send; a connection whose write fails is gone.
  unfoldable pub send : Option Snapshot → Bool → Connection → List Connection
  unfolding get
  send stored worked c = if worked then record c { frames = get stored ∷ c.frames } ∷ [] else []

  unfoldable pub on_first : Option Snapshot → Bool → Connection → List Connection
  unfolding send
  on_first stored worked c =
      if c.opened then c ∷ [] else send stored worked (record c { opened = true })

  -- The three cases of the loop, which a connection enters after its first frame.
  unfoldable pub on_update : Connection → List Connection
  on_update c =
      if c.opened && c.pending then record c { pending = false; dirty = true } ∷ [] else c ∷ []

  unfoldable pub on_tick : Option Snapshot → Bool → Connection → List Connection
  unfolding send
  on_tick stored worked c =
      if c.opened && c.dirty then send stored worked (record c { dirty = false }) else c ∷ []

  unfoldable pub on_heartbeat : Option Snapshot → Bool → Connection → List Connection
  unfolding send
  on_heartbeat stored worked c = if c.opened then send stored worked c else c ∷ []

  -- The connection of one number, the others left as they are.
  unfoldable pub at_connection :
      ℕ → (Connection → List Connection) → List Connection → List Connection
  at_connection k act [] = []
  at_connection k act (c ∷ cs) =
      let rest = at_connection k act cs in (if c.id == k then act c else c ∷ []) ++ rest

  -- The non-blocking sends of Publish.
  unfoldable pub wake_all : List Connection → List Connection
  wake_all [] = []
  wake_all (c ∷ cs) = record c { pending = true } ∷ wake_all cs

  unfoldable pub step : Event → Hub → Hub
  unfolding at_connection wake_all on_first on_update on_tick on_heartbeat
  step (set now s) h = record h { stored = some (record s { updated_at = now }); due = true }
  step wake h = record h { due = false; connections = wake_all h.connections }
  step (subscribe k) h = record h {
    connections =
        record { id = k; pending = false; opened = false; dirty = false; frames = [] }
        ∷ h.connections;
  }
  step (first k worked) h = record h {
    connections = at_connection k (on_first h.stored worked) h.connections;
  }
  step (update k) h = record h { connections = at_connection k on_update h.connections }
  step (tick k worked) h = record h {
    connections = at_connection k (on_tick h.stored worked) h.connections;
  }
  step (heartbeat k worked) h = record h {
    connections = at_connection k (on_heartbeat h.stored worked) h.connections;
  }
  step (leave k) h = record h { connections = at_connection k (λ c. []) h.connections }

  unfoldable pub run : List Event → Hub → Hub
  unfolding step
  run [] h = h
  run (e ∷ es) h = run es (step e h)

-- ===== src/Web/Tunnel.antt =====
-- web/tunnel.go: the quick tunnel as a state machine. Start has two halves, since it gives up the
-- lock in between; each process that it has started has two goroutines, `watch`, which reads its
-- stderr, and one that waits for its exit. They, Start and Stop move in any order.
pub mod Url
pub mod Stuck
use timberlake.Base.{
  member, remove, ℕ, suc, ◌+◌, Bool, true, false, ◌&&◌, ◌||◌, List, [], ◌∷◌, ◌++◌, Option, none,
  some, and_then, ◌==◌, if◌then◌else◌,
}
use timberlake.Io.{Text, Error, message, Result, ok, err}
use timberlake.Strings.{trim_right}

pub data TunnelState : Type 0 where
  off starting on failed : TunnelState

-- `process` is what cmd and cancel refer to. `launching` counts the calls of Start that are between
-- their halves; `watching` and `waiting` have the processes of the goroutines; `next` is the number
-- of the next process, and `cancelled` has those whose context is cancelled.
pub record Tunnel : Type 0 where
  pub state : TunnelState
  pub url : Text
  pub error : Option Error
  pub process : Option ℕ
  pub launching : ℕ
  pub watching : List ℕ
  pub waiting : List ℕ
  pub next : ℕ
  pub cancelled : List ℕ

abbrev pub new_tunnel : Tunnel
new_tunnel = record {
  state = off;
  url = [];
  error = none;
  process = none;
  launching = 0;
  watching = [];
  waiting = [];
  next = 0;
  cancelled = [];
}

-- How the second half of Start goes.
pub data Launch : Type 0 where
  no_pipe no_start : Error → Launch
  launched : Launch

-- The first half of Start, with whether there is a binary; the second half; a line of stderr with a
-- URL in it, with the path that is appended; the end of `watch` with none; an exit; Stop.
pub data Event : Type 0 where
  begin : Bool → Event
  launch : Launch → Event
  found : ℕ → Text → Text → Event
  gave_up exited : ℕ → Event
  stop : Event

-- t.set
abbrev pub set_state : TunnelState → Text → Option Error → Tunnel → Tunnel
set_state s url e t = record t { state = s; url = url; error = e }

unfoldable pub is_active : TunnelState → Bool
is_active off = false
is_active starting = true
is_active on = true
is_active failed = false

unfoldable pub is_off : TunnelState → Bool
is_off off = true
is_off _ = false

unfoldable pub is_starting : TunnelState → Bool
is_starting starting = true
is_starting _ = false

unfoldable pub on_begin : Bool → Tunnel → Tunnel
unfolding is_active
on_begin available t =
    if is_active t.state
    then t
    else if available
    then record t { state = starting; url = []; error = none; launching = suc t.launching }
    else record t { state = failed; error = some (message "cloudflared not found") }

unfoldable pub on_launch : Launch → Tunnel → ℕ → Option Tunnel
on_launch l t ℕ.zero = none
on_launch (no_pipe e) t (suc n) = some (record t { launching = n })
on_launch (no_start e) t (suc n) = some (set_state failed [] (some e) (record t { launching = n }))
on_launch launched t (suc n) = some (record t {
  launching = n;
  process = some t.next;
  watching = t.next ∷ t.watching;
  waiting = t.next ∷ t.waiting;
  next = suc t.next;
})

unfoldable pub on_found : ℕ → Text → Text → Tunnel → Option Tunnel
on_found id url path t =
    if member id t.watching
    then some (
        set_state on (trim_right b'/' url ++ path) none
          (record t { watching = remove id t.watching }))
    else none

unfoldable pub on_gave_up : ℕ → Tunnel → Option Tunnel
unfolding is_starting
on_gave_up id t =
    if member id t.watching
    then (let t' : Tunnel = record t { watching = remove id t.watching } in
        some (
          if is_starting t.state
          then set_state failed [] (some (message "timed out waiting for a tunnel URL")) t'
          else t'))
    else none

unfoldable pub on_exited : ℕ → Tunnel → Option Tunnel
unfolding is_off
on_exited id t =
    if member id t.waiting
    then (let t' : Tunnel = record t { waiting = remove id t.waiting } in
        some (
          if is_off t.state
          then t'
          else set_state failed [] (some (message "cloudflared exited")) t'))
    else none

abbrev pub cancel_process : Option ℕ → List ℕ → List ℕ
cancel_process none cancelled = cancelled
cancel_process (some id) cancelled = id ∷ cancelled

unfoldable pub on_stop : Tunnel → Tunnel
on_stop t = record t {
  state = off;
  url = [];
  error = none;
  process = none;
  cancelled = cancel_process t.process t.cancelled;
}

unfoldable pub step : Event → Tunnel → Option Tunnel
unfolding on_begin on_launch on_found on_gave_up on_exited on_stop
step (begin available) t = some (on_begin available t)
step (launch l) t = on_launch l t t.launching
step (found id url path) t = on_found id url path t
step (gave_up id) t = on_gave_up id t
step (exited id) t = on_exited id t
step stop t = some (on_stop t)

unfoldable pub run : List Event → Tunnel → Option Tunnel
run [] t = some t
run (e ∷ es) t = and_then (run es) (step e t)

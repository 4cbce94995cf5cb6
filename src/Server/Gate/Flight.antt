-- ===== src/Server/Gate/Flight.antt =====
-- internal/subresourceapi/server.go: requests as they pass the gates of `handleProbe`. The requests run
-- side by side, so a run is a sequence of steps of any of them.
pub mod Bounds
pub mod PerNamespace
use kubewaf.Prelude.{ℕ, ◌+◌, Option, none, some, List, [], ◌∷◌, ◌==◌, if◌then◌else◌, get_elem?}
use kubewaf.Prelude.Bytes.{Bytes}
use kubewaf.Server.Gate.{
  Gate, Limits, put, remove, lookup_sem, send, release_ns, acquire_global, release_global,
}

-- Where a request of a namespace is: behind the global gate, with the channel it has looked up, or
-- with a token in it.
pub data Phase : Type 0 where
  entered : Bytes → Phase
  looked : Bytes → ℕ → Phase
  running : Bytes → ℕ → Phase

pub record World : Type 0 where
  pub gate : Gate
  pub requests : List Phase

-- A new request, or the next step of the request at an index. A lookup is given the order in which
-- the map is visited.
pub data Event : Type 0 where
  arrive : Bytes → Event
  look : ℕ → List Bytes → Event
  send_token : ℕ → Event
  leave : ℕ → Event

-- A request that gives up or ends returns its global token.
unfoldable pub gone : ℕ → Gate → World → World
unfolding release_global
gone i g w = record { gate = release_global g; requests = remove w.requests i }

unfoldable pub arrived : Bytes → World → Option Gate → World
arrived ns w none = w
arrived ns w (some g) = record { gate = g; requests = entered ns ∷ w.requests }

unfoldable pub looked_up : ℕ → Bytes → World → Option ℕ × Gate → World
unfolding gone
looked_up i ns w (none, g) = gone i g w
looked_up i ns w (some a, g) = record { gate = g; requests = put w.requests i (looked ns a) }

unfoldable pub sent : ℕ → Bytes → ℕ → World → Option Gate → World
unfolding gone
sent i ns a w none = gone i w.gate w
sent i ns a w (some g) = record { gate = g; requests = put w.requests i (running ns a) }

unfoldable pub look_from : ℕ → List Bytes → World → Option Phase → World
unfolding looked_up lookup_sem
look_from i visit w (some (entered ns)) = looked_up i ns w (lookup_sem visit ns w.gate)
look_from i visit w _ = w

unfoldable pub send_from : Limits → ℕ → World → Option Phase → World
unfolding sent send
send_from l i w (some (looked ns a)) = sent i ns a w (send l a w.gate)
send_from l i w _ = w

unfoldable pub leave_from : ℕ → World → Option Phase → World
unfolding gone release_ns
leave_from i w (some (running ns a)) = gone i (release_ns a w.gate) w
leave_from i w _ = w

unfoldable pub step : Limits → Event → World → World
unfolding arrived acquire_global look_from send_from leave_from
step l (arrive ns) w = arrived ns w (acquire_global l w.gate)
step l (look i visit) w = look_from i visit w (get_elem? w.requests i)
step l (send_token i) w = send_from l i w (get_elem? w.requests i)
step l (leave i) w = leave_from i w (get_elem? w.requests i)

unfoldable pub run : Limits → List Event → World → World
unfolding step
run l [] w = w
run l (e ∷ es) w = run l es (step l e w)

-- The server as `NewServer` makes it.
abbrev pub idle_world : World
idle_world = record { gate = record { global = 0; channels = []; entries = [] }; requests = [] }

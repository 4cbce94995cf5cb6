-- ===== src/Server/Gate/Flight/PerNamespace.antt =====
-- internal/subresourceapi/server.go: the bound per namespace, where no other request comes between a
-- lookup and its send.
use kubewaf.Prelude.{
  ℕ, ◌+◌, ◌-◌, ◌≤◌, ◌≡◌, refl, sym, ◌∙◌, ap, subst, true, Option, none, some, List, [], ◌∷◌, ltb,
  if◌then◌else◌, if_ind, Option-cases, get_elem?, All, arith, inl, inr,
}
use kubewaf.Prelude.Bytes.{Bytes, bytes_eq, bytes_eq→eq}
use kubewaf.Server.Gate.{
  Gate, Limits, capacity, held, find, lookup_sem, send, release_ns, release_global, acquire_global,
}
use kubewaf.Server.Gate.Kept.{IsKept, lookup_sem-IsKept, another}
use kubewaf.Server.Gate.Counts.{total, remove-All}
use kubewaf.Server.Gate.Flight.{
  Phase, entered, looked, running, World, Event, arrive, look, send_token, leave, gone, arrived,
  looked_up, sent, look_from, send_from, leave_from, step, run, idle_world,
}
use kubewaf.Server.Gate.Flight.Bounds.{tokens_in, IsBounded, run_from-IsBounded, run-IsBounded}

-- A request that runs is in the channel at which its namespace is found.
IsSettled : List (Bytes × ℕ) → Phase → Type 0
IsSettled es (running ns a) = find ns es ≡ some a
IsSettled es _ = ⊥

AreSettled : World → Type 0
AreSettled w = All (IsSettled w.gate.entries) w.requests

-- Requests that take the gates in one go, or leave.
pub data Visit : Type 0 where
  admit : List Bytes → Bytes → Visit
  finish : ℕ → Visit

abbrev events : Visit → List Event
events (admit visit ns) = arrive ns ∷ look 0 visit ∷ send_token 0 ∷ []
events (finish i) = leave i ∷ []

abbrev pub serve : Limits → List Visit → World → World
serve l [] w = w
serve l (v ∷ vs) w = serve l vs (run l (events v) w)

-- The requests of a settled server stay settled where the map keeps what they hold.
carry :
    (cs : List ℕ) (es es' : List (Bytes × ℕ)) (rs : List Phase)
    → ((a : ℕ) → tokens_in a rs ≤ held cs a)
    → ((m : Bytes) (a : ℕ) → 1 ≤ held cs a → find m es ≡ some a → find m es' ≡ some a)
    → All (IsSettled es) rs
    → All (IsSettled es') rs
unfolding IsSettled
carry cs es es' [] t k _ = tt
carry cs es es' (entered ns ∷ rs) t k (h, _) = absurd h
carry cs es es' (looked ns a ∷ rs) t k (h, _) = absurd h
carry cs es es' (running ns a ∷ rs) t k (h, hs) =
    let one : 1 ≤ held cs a = ground (arith, t a) in
    (k ns a one h, carry cs es es' rs (λ c. fewer c) k hs)
  where
    fewer : (c : ℕ) → tokens_in c rs ≤ held cs c
    fewer c = ground (arith, t c)

abbrev world : Gate → List Phase → World
world g rs = record { gate = g; requests = rs }

-- A request that runs neither looks up nor sends.
look_settled :
    (l : Limits) (visit : List Bytes) (g : Gate) (rs : List Phase)
    → All (IsSettled g.entries) rs
    → step l (look 0 visit) (world g rs) ≡ world g rs
unfolding step look_from IsSettled
look_settled l visit g [] _ = refl
look_settled l visit g (entered ns ∷ rs) (h, _) = absurd h
look_settled l visit g (looked ns a ∷ rs) (h, _) = absurd h
look_settled l visit g (running ns a ∷ rs) _ = refl

send_settled :
    (l : Limits) (g : Gate) (rs : List Phase)
    → All (IsSettled g.entries) rs
    → step l (send_token 0) (world g rs) ≡ world g rs
unfolding step send_from IsSettled
send_settled l g [] _ = refl
send_settled l g (entered ns ∷ rs) (h, _) = absurd h
send_settled l g (looked ns a ∷ rs) (h, _) = absurd h
send_settled l g (running ns a ∷ rs) _ = refl

-- The steps behind the global gate, by what the lookup gives.
module _ (l : Limits) (ns : Bytes) (rs : List Phase) where
  sent-AreSettled :
      (a : ℕ) (g : Gate)
      → find ns g.entries ≡ some a
      → All (IsSettled g.entries) rs
      → AreSettled (step l (send_token 0) (world g (looked ns a ∷ rs)))
  unfolding step send_from sent send gone release_global AreSettled IsSettled
  sent-AreSettled a g e h =
      if_ind (λ o. AreSettled (sent 0 ns a (world g (looked ns a ∷ rs)) o))
        (ltb (held g.channels a) (capacity l)) (e, h) h

  looked_up-AreSettled :
      (g : Gate) (o : Option ℕ) (g' : Gate)
      → IsKept g ns o g'
      → All (IsSettled g'.entries) rs
      → AreSettled (step l (send_token 0) (looked_up 0 ns (world g (entered ns ∷ rs)) (o, g')))
  unfolding looked_up gone release_global AreSettled
  looked_up-AreSettled g none g' k h =
      subst AreSettled (sym (send_settled l (record g' { global = g'.global - 1 }) rs h)) h
  looked_up-AreSettled g (some a) g' k h = sent-AreSettled a g' (k.finds a refl) h

admit-AreSettled :
    (l : Limits) (visit : List Bytes) (ns : Bytes) (w : World)
    → IsBounded l w
    → AreSettled w
    → AreSettled (run l (events (admit visit ns)) w)
unfolding run step arrived acquire_global look_from AreSettled
admit-AreSettled l visit ns w b h =
    if_ind (λ o. AreSettled (run l (look 0 visit ∷ send_token 0 ∷ []) (arrived ns w o)))
      (ltb w.gate.global l.global_max)
      (looked_up-AreSettled l ns w.requests one_more (lookup_sem visit ns one_more).0
        (lookup_sem visit ns one_more).1 kept
        (carry w.gate.channels w.gate.entries (lookup_sem visit ns one_more).1.entries w.requests
          (λ a. omega (arith, b.tokens a)) kept.keeps h))
      (subst AreSettled
        (sym (
          ap (step l (send_token 0)) (look_settled l visit w.gate w.requests h)
          ∙ send_settled l w.gate w.requests h))
        h)
  where
    one_more : Gate
    one_more = record w.gate { global = w.gate.global + 1 }

    kept : IsKept one_more ns (lookup_sem visit ns one_more).0 (lookup_sem visit ns one_more).1
    kept = lookup_sem-IsKept visit ns one_more

finish-AreSettled :
    (l : Limits) (i : ℕ) (w : World) → AreSettled w → AreSettled (run l (events (finish i)) w)
unfolding run step leave_from gone release_ns release_global AreSettled
finish-AreSettled l i w h = left (get_elem? w.requests i)
  where
    left : (o : Option Phase) → AreSettled (leave_from i w o)
    left none = h
    left (some (entered ns)) = h
    left (some (looked ns a)) = h
    left (some (running ns a)) = remove-All (IsSettled w.gate.entries) w.requests i h

visit-AreSettled :
    (l : Limits) (v : Visit) (w : World)
    → IsBounded l w
    → AreSettled w
    → AreSettled (run l (events v) w)
visit-AreSettled l (admit visit ns) w b h = admit-AreSettled l visit ns w b h
visit-AreSettled l (finish i) w b h = finish-AreSettled l i w h

-- Whether a request of the namespace runs.
abbrev pub runs_in : Bytes → Phase → ℕ
runs_in ns (running m a) = if bytes_eq ns m then 1 else 0
runs_in ns _ = 0

runs_in-le :
    (ns : Bytes) (a : ℕ) (es : List (Bytes × ℕ)) (rs : List Phase)
    → find ns es ≡ some a
    → All (IsSettled es) rs
    → total (runs_in ns) rs ≤ tokens_in a rs
unfolding IsSettled
runs_in-le ns a es [] e _ = omega arith
runs_in-le ns a es (entered m ∷ rs) e (h, _) = absurd h
runs_in-le ns a es (looked m b ∷ rs) e (h, _) = absurd h
runs_in-le ns a es (running m b ∷ rs) e (h, hs) =
    ground (arith, same_channel, runs_in-le ns a es rs e hs)
  where
    same_channel : bytes_eq ns m ≡ true → b ≡ a
    same_channel same =
        let found : find m es ≡ some a =
          subst (λ k. find k es ≡ some a) (bytes_eq→eq ns m same) e in
        cc

runs_in-none :
    (ns : Bytes) (es : List (Bytes × ℕ)) (rs : List Phase)
    → find ns es ≡ none
    → All (IsSettled es) rs
    → total (runs_in ns) rs ≡ 0
unfolding IsSettled
runs_in-none ns es [] e _ = refl
runs_in-none ns es (entered m ∷ rs) e (h, _) = absurd h
runs_in-none ns es (looked m b ∷ rs) e (h, _) = absurd h
runs_in-none ns es (running m b ∷ rs) e (h, hs) =
    ground (arith, another m ns es b h e, other, runs_in-none ns es rs e hs)
  where
    other : bytes_eq ns m ≡ true → ⊥
    other same =
        let found : find m es ≡ none = subst (λ k. find k es ≡ none) (bytes_eq→eq ns m same) e in cc

serve-IsSettled :
    (l : Limits) (vs : List Visit) (w : World)
    → IsBounded l w
    → AreSettled w
    → IsBounded l (serve l vs w) × AreSettled (serve l vs w)
serve-IsSettled l [] w b h = (b, h)
serve-IsSettled l (v ∷ vs) w b h =
    serve-IsSettled l vs (run l (events v) w) (run_from-IsBounded l (events v) w b)
      (visit-AreSettled l v w b h)

-- Where each request takes its gates in one go, at most as many requests of a namespace run at a time
-- as a semaphore has room for: an eviction never splits a namespace over two semaphores.
pub serve_runs_bounded :
    (l : Limits) (vs : List Visit) (ns : Bytes)
    → total (runs_in ns) (serve l vs idle_world).requests ≤ capacity l
unfolding AreSettled run
serve_runs_bounded l vs ns =
    let w = serve l vs idle_world in
    let bh = serve-IsSettled l vs idle_world (run-IsBounded l []) tt in
    elim (Option-cases (find ns w.gate.entries)) [
      | inl missing ↦ omega (arith, runs_in-none ns w.gate.entries w.requests missing bh.1)
      | inr (a, found) ↦ omega (
        arith,
        runs_in-le ns a w.gate.entries w.requests found bh.1,
        bh.0.tokens a,
        bh.0.tokens_le a,
      )
    ]

-- ===== src/Server/Gate/Flight/Bounds.antt =====
-- internal/subresourceapi/server.go: the bounds that the gates keep, whatever the order of the steps.
use kubewaf.Prelude.{
  ℕ, zero, suc, ◌+◌, ◌-◌, ◌≤◌, ◌<◌, ◌≡◌, refl, sym, subst, Option, none, some, List, [], ◌∷◌, ltb,
  ◌==◌, if◌then◌else◌, if_rec, ltb→lt, length, get_elem?, All, arith,
}
use kubewaf.Prelude.Bytes.{Bytes}
use kubewaf.Server.Gate.{
  Gate, Limits, capacity, held, put, lookup_sem, send, release_ns, acquire_global, release_global,
}
use kubewaf.Server.Gate.Counts.{
  held-put, held-beyond, length-put, length-remove, put-All, remove-All, total, total-put,
  total-remove,
}
use kubewaf.Server.Gate.Lookup.{AreEntries, IsLookup, lookup_sem-IsLookup}
use kubewaf.Server.Gate.Flight.{
  Phase, entered, looked, running, World, Event, arrive, look, send_token, leave, gone, arrived,
  looked_up, sent, look_from, send_from, leave_from, step, run, idle_world,
}

-- Whether a request has a token in the channel.
abbrev token_in : ℕ → Phase → ℕ
token_in a (running ns b) = if b == a then 1 else 0
token_in a _ = 0

-- The requests that have a token in the channel.
abbrev pub tokens_in : ℕ → List Phase → ℕ
tokens_in a rs = total (token_in a) rs

-- The channel that a request has looked up exists.
abbrev HasChannel : Gate → Phase → Type 0
HasChannel g (looked ns a) = a < length g.channels
HasChannel g _ = Unit

pub record IsBounded (l : Limits) (w : World) : Type 0 where
  pub in_flight : w.gate.global ≡ length w.requests
  pub in_flight_le : w.gate.global ≤ l.global_max
  pub tokens : (a : ℕ) → held w.gate.channels a ≡ tokens_in a w.requests
  pub tokens_le : (a : ℕ) → held w.gate.channels a ≤ capacity l
  pub channels_exist : All (HasChannel w.gate) w.requests
  pub entries : AreEntries w.gate

module _ (l : Limits) (w : World) (b : IsBounded l w) where
  arrived-IsBounded : (ns : Bytes) → IsBounded l (arrived ns w (acquire_global l w.gate))
  unfolding arrived acquire_global
  arrived-IsBounded ns =
      if_rec (λ o. IsBounded l (arrived ns w o)) (ltb w.gate.global l.global_max)
        (λ room. record {
          in_flight = omega (arith, b.in_flight);
          in_flight_le = omega (arith, ltb→lt w.gate.global l.global_max room);
          tokens = λ a. omega (arith, b.tokens a);
          tokens_le = b.tokens_le;
          channels_exist = (tt, b.channels_exist);
          entries = record { in_range = b.entries.in_range; entries_le = b.entries.entries_le };
        })
        λ full. b

  -- Channels that exist still exist when more are made.
  widen :
      (g : Gate) (rs : List Phase)
      → length w.gate.channels ≤ length g.channels
      → All (HasChannel w.gate) rs
      → All (HasChannel g) rs
  widen g [] le _ = tt
  widen g (entered ns ∷ rs) le (_, h) = (tt, widen g rs le h)
  widen g (looked ns a ∷ rs) le (p, h) = (omega arith, widen g rs le h)
  widen g (running ns a ∷ rs) le (_, h) = (tt, widen g rs le h)

  -- A request leaves with its token.
  gone-IsBounded :
      (i : ℕ) (r : Phase) (g : Gate)
      → get_elem? w.requests i ≡ some r
      → g.global ≡ w.gate.global
      → ((a : ℕ) → held g.channels a + token_in a r ≡ held w.gate.channels a)
      → length w.gate.channels ≤ length g.channels
      → AreEntries g
      → IsBounded l (gone i g w)
  unfolding gone release_global
  gone-IsBounded i r g e same less more ok = record {
    in_flight = omega (arith, b.in_flight, length-remove w.requests i r e);
    in_flight_le = omega (arith, b.in_flight_le);
    tokens = λ a. omega (arith, b.tokens a, less a, total-remove (token_in a) w.requests i r e);
    tokens_le = λ a. omega (arith, b.tokens_le a, less a);
    channels_exist =
        remove-All (HasChannel g) w.requests i (widen g w.requests more b.channels_exist);
    entries = record { in_range = ok.in_range; entries_le = ok.entries_le };
  }

  -- A request goes on to its next phase.
  put-IsBounded :
      (i : ℕ) (r r' : Phase) (g : Gate)
      → get_elem? w.requests i ≡ some r
      → g.global ≡ w.gate.global
      → ((a : ℕ) → held g.channels a + token_in a r ≡ held w.gate.channels a + token_in a r')
      → ((a : ℕ) → held g.channels a ≤ capacity l)
      → length w.gate.channels ≤ length g.channels
      → HasChannel g r'
      → AreEntries g
      → IsBounded l (record { gate = g; requests = put w.requests i r' })
  put-IsBounded i r r' g e same moved le more exists ok = record {
    in_flight = omega (arith, b.in_flight, length-put w.requests i r');
    in_flight_le = omega (arith, b.in_flight_le);
    tokens = λ a. omega (arith, b.tokens a, moved a, total-put (token_in a) w.requests i r r' e);
    tokens_le = le;
    channels_exist =
        put-All (HasChannel g) w.requests i r' exists (widen g w.requests more b.channels_exist);
    entries = ok;
  }

  looked_up-IsBounded :
      (i : ℕ) (ns : Bytes) (o : Option ℕ) (g : Gate)
      → get_elem? w.requests i ≡ some (entered ns)
      → IsLookup w.gate o g
      → IsBounded l (looked_up i ns w (o, g))
  unfolding looked_up
  looked_up-IsBounded i ns none g e k =
      gone-IsBounded i (entered ns) g e k.same_global (λ a. omega (arith, k.same_tokens a))
        k.more_channels k.entries_kept
  looked_up-IsBounded i ns (some a) g e k =
      put-IsBounded i (entered ns) (looked ns a) g e k.same_global
        (λ c. omega (arith, k.same_tokens c)) (λ c. omega (arith, k.same_tokens c, b.tokens_le c))
        k.more_channels (k.exists a refl) k.entries_kept

  same_entries : (a v : ℕ) → AreEntries (record w.gate { channels = put w.gate.channels a v })
  same_entries a v = record {
    in_range =
        subst (λ n. All (λ (e : Bytes × ℕ). e.1 < n) w.gate.entries)
          (sym (length-put w.gate.channels a v)) b.entries.in_range;
    entries_le = b.entries.entries_le;
  }

  sent-IsBounded :
      (i : ℕ) (ns : Bytes) (a : ℕ)
      → get_elem? w.requests i ≡ some (looked ns a)
      → a < length w.gate.channels
      → IsBounded l (sent i ns a w (send l a w.gate))
  unfolding sent send
  sent-IsBounded i ns a e there =
      if_rec (λ o. IsBounded l (sent i ns a w o)) (ltb (held w.gate.channels a) (capacity l))
        (λ room.
          put-IsBounded i (looked ns a) (running ns a) _ e refl (λ c. ground (arith, put_more c))
            (λ c. ground (arith, put_more c, b.tokens_le c))
            (omega (arith, length-put w.gate.channels a (held w.gate.channels a + 1))) tt
            (same_entries a (held w.gate.channels a + 1)))
        λ full.
          gone-IsBounded i (looked ns a) w.gate e refl (λ c. omega arith) (omega arith) b.entries
    where
      put_more :
          (c : ℕ)
          → held (put w.gate.channels a (held w.gate.channels a + 1)) c
            ≡ (if a == c then held w.gate.channels a + 1 else held w.gate.channels c)
      put_more c = held-put w.gate.channels a c (held w.gate.channels a + 1) there

  left-IsBounded :
      (i : ℕ) (ns : Bytes) (a : ℕ)
      → get_elem? w.requests i ≡ some (running ns a)
      → IsBounded l (gone i (release_ns a w.gate) w)
  unfolding release_ns
  left-IsBounded i ns a e =
      gone-IsBounded i (running ns a) _ e refl (λ c. one_less c (put_less c))
        (omega (arith, length-put w.gate.channels a (held w.gate.channels a - 1)))
        (same_entries a (held w.gate.channels a - 1))
    where
      has_token : 1 ≤ held w.gate.channels a
      has_token =
          ground (arith, b.tokens a, total-remove (token_in a) w.requests i (running ns a) e)

      there : a < length w.gate.channels
      there = grind (arith, has_token, held-beyond w.gate.channels a)

      put_less :
          (c : ℕ)
          → held (put w.gate.channels a (held w.gate.channels a - 1)) c
            ≡ (if a == c then held w.gate.channels a - 1 else held w.gate.channels c)
      put_less c = held-put w.gate.channels a c (held w.gate.channels a - 1) there

      one_less :
          (c : ℕ)
          → held (put w.gate.channels a (held w.gate.channels a - 1)) c
            ≡ (if a == c then held w.gate.channels a - 1 else held w.gate.channels c)
          → held (put w.gate.channels a (held w.gate.channels a - 1)) c + token_in c (running ns a)
            ≡ held w.gate.channels c
      one_less c h = ground (arith, has_token)

look-IsBounded :
    (l : Limits) (w : World) (i : ℕ) (visit : List Bytes) (o : Option Phase)
    → IsBounded l w
    → get_elem? w.requests i ≡ o
    → IsBounded l (look_from i visit w o)
unfolding look_from
look-IsBounded l w i visit none b e = b
look-IsBounded l w i visit (some (looked ns a)) b e = b
look-IsBounded l w i visit (some (running ns a)) b e = b
look-IsBounded l w i visit (some (entered ns)) b e =
    looked_up-IsBounded l w b i ns (lookup_sem visit ns w.gate).0 (lookup_sem visit ns w.gate).1 e
      (lookup_sem-IsLookup visit ns w.gate b.entries)

channel_at :
    (g : Gate) (rs : List Phase) (i : ℕ) (ns : Bytes) (a : ℕ)
    → All (HasChannel g) rs
    → get_elem? rs i ≡ some (looked ns a)
    → a < length g.channels
channel_at g [] i ns a h e = cc
channel_at g (r ∷ rs) zero ns a (h, _) e = subst (HasChannel g) (same r e) h
  where
    same : (r : Phase) → some r ≡ some (looked ns a) → r ≡ looked ns a
    same r e = cc
channel_at g (r ∷ rs) (suc i) ns a (_, h) e = channel_at g rs i ns a h e

send-IsBounded :
    (l : Limits) (w : World) (i : ℕ) (o : Option Phase)
    → IsBounded l w
    → get_elem? w.requests i ≡ o
    → IsBounded l (send_from l i w o)
unfolding send_from
send-IsBounded l w i none b e = b
send-IsBounded l w i (some (entered ns)) b e = b
send-IsBounded l w i (some (running ns a)) b e = b
send-IsBounded l w i (some (looked ns a)) b e =
    sent-IsBounded l w b i ns a e (channel_at w.gate w.requests i ns a b.channels_exist e)

leave-IsBounded :
    (l : Limits) (w : World) (i : ℕ) (o : Option Phase)
    → IsBounded l w
    → get_elem? w.requests i ≡ o
    → IsBounded l (leave_from i w o)
unfolding leave_from
leave-IsBounded l w i none b e = b
leave-IsBounded l w i (some (entered ns)) b e = b
leave-IsBounded l w i (some (looked ns a)) b e = b
leave-IsBounded l w i (some (running ns a)) b e = left-IsBounded l w b i ns a e

pub step-IsBounded : (l : Limits) (w : World) (e : Event) → IsBounded l w → IsBounded l (step l e w)
unfolding step
step-IsBounded l w (arrive ns) b = arrived-IsBounded l w b ns
step-IsBounded l w (look i visit) b = look-IsBounded l w i visit (get_elem? w.requests i) b refl
step-IsBounded l w (send_token i) b = send-IsBounded l w i (get_elem? w.requests i) b refl
step-IsBounded l w (leave i) b = leave-IsBounded l w i (get_elem? w.requests i) b refl

pub run_from-IsBounded :
    (l : Limits) (es : List Event) (w : World) → IsBounded l w → IsBounded l (run l es w)
unfolding run
run_from-IsBounded l [] w b = b
run_from-IsBounded l (e ∷ es) w b = run_from-IsBounded l es (step l e w) (step-IsBounded l w e b)

-- From an idle server, in any order of the steps of any requests: the tokens of the global channel are
-- as many as the requests that have passed it, at most the limit; each namespace channel holds one
-- token for each request that has sent to it, at most its capacity; and the map of namespaces has at
-- most 4096 entries, each of them a channel that exists.
pub run-IsBounded : (l : Limits) (es : List Event) → IsBounded l (run l es idle_world)
run-IsBounded l es = run_from-IsBounded l es idle_world (record {
  in_flight = refl;
  in_flight_le = omega arith;
  tokens = λ a. refl;
  tokens_le = λ a. omega arith;
  channels_exist = tt;
  entries = record { in_range = tt; entries_le = omega arith };
})

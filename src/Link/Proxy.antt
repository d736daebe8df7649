-- ===== src/Link/Proxy.antt =====
-- The proxy of linksim/link_sim.c: whom a packet comes from and goes to, and a turn of the loop. What
-- `recvfrom`, `select` and the clock give is the environment.
use projet.Base.{
  ℕ, ◌/◌, Bool, true, false, not, ◌||◌, Option, none, some, List, [], ◌∷◌, ◌++◌, map, length, take,
  ltb, ◌==◌, if◌then◌else◌,
}
use projet.Base.Exec.{Exec, ok, ◌>>=◌}
use projet.Base.Array.{prefix}
use projet.Base.Int.{pos}
use projet.Link.{
  Timeval, Queue, Outcome, Sending, sent_all, Settings, World, max_pkt_len, simulate_link,
  deliver_delayed_pkt, get_queue_timeout,
}

-- `struct sockaddr_in6`, the other fields as one number.
pub record SockaddrIn6 : Type 0 where
  pub sin6_addr : List ℕ
  pub sin6_port : ℕ
  pub sin6_others : ℕ

-- `memcmp`, as a test.
abbrev pub differ : List ℕ → List ℕ → Bool
differ [] [] = false
differ (a ∷ xs) (b ∷ ys) = not (a == b) || differ xs ys
differ _ _ = true

unfoldable pub sockaddr_cmp : SockaddrIn6 → SockaddrIn6 → Bool
sockaddr_cmp a b = differ a.sin6_addr b.sin6_addr || not (a.sin6_port == b.sin6_port)

-- The global variables.
pub record Proxy : Type 0 where
  pub dest_addr : SockaddrIn6
  pub src_addr : SockaddrIn6
  pub has_source_addr : Bool
  pub last_clock : Timeval
  pub pkt_queue : Queue

-- What `recvfrom` gives: a datagram of at least one byte and where it is from, an error after which
-- it may be tried again, or another error. An empty datagram counts as what `errno` then says.
pub data Received : Type 0 where
  datagram : SockaddrIn6 → List ℕ → Received
  again broken : Received

-- What a call has done: whether it answers EXIT_SUCCESS, the variables, and the packets sent, each
-- with where it goes.
pub record Step : Type 0 where
  pub success : Bool
  pub proxy : Proxy
  pub sent : List (SockaddrIn6 × List ℕ)

-- The packets for the host behind the proxy.
abbrev pub to_host : Proxy → Outcome → Step
to_host proxy r = record {
  success = r.success;
  proxy = record proxy { pkt_queue = r.pkt_queue };
  sent = map (λ bytes. (proxy.dest_addr, bytes)) r.sent;
}

-- `if (!has_source_addr)`: the first one to send is the other party.
unfoldable pub track_source : Proxy → SockaddrIn6 → Proxy
track_source proxy from =
    if proxy.has_source_addr
    then proxy
    else record proxy { src_addr = from; has_source_addr = true }

module _ (rand : ℕ → ℕ) (settings : Settings) (world : World) where
  -- A packet of `len` bytes in `buf`.
  unfoldable pub process_pkt : Proxy → SockaddrIn6 → List ℕ → ℕ → Exec Step
  process_pkt proxy₀ from buf len =
      if ltb len 4
      then ok (record { success = false; proxy = proxy₀; sent = [] })
      else (let proxy = track_source proxy₀ from in
          if not (sockaddr_cmp from proxy.dest_addr)
          then (prefix buf len >>= λ bytes. elim world.sending [
            | sent_all ↦
                ok (record { success = true; proxy = proxy; sent = (proxy.src_addr, bytes) ∷ [] })
            | _ ↦ ok (record { success = false; proxy = proxy; sent = [] })
          ])
          else if sockaddr_cmp from proxy.src_addr
          then ok (record { success = true; proxy = proxy; sent = [] })
          else (simulate_link rand settings world proxy.last_clock proxy.pkt_queue 0 buf len
              >>= λ r. ok (to_host proxy r)))

  -- `recvfrom` leaves the bytes behind `max_pkt_len` out.
  unfoldable pub process_incoming_pkt : Proxy → Received → Exec Step
  process_incoming_pkt proxy again = ok (record { success = true; proxy = proxy; sent = [] })
  process_incoming_pkt proxy broken = ok (record { success = false; proxy = proxy; sent = [] })
  process_incoming_pkt proxy (datagram from bytes) =
      let buf = take max_pkt_len bytes in process_pkt proxy from buf (length buf)

-- `update_time`, where the clock gives seconds and nanoseconds, or fails.
unfoldable pub update_time : Option (ℕ × ℕ) → Proxy → Option Proxy
update_time none proxy = none
update_time (some (sec, nsec)) proxy =
    some (record proxy { last_clock = record { tv_sec = pos sec; tv_usec = pos (nsec / 1000) } })

-- What `select` gives: a signal, another error, or whether there is something to read.
pub data Selected : Type 0 where
  interrupted select_failed : Selected
  ready : Bool → Selected

-- What a turn of the loop meets; `rand` is what the calls of `rand` in the turn give, and `sendings`
-- how the sendings of delayed packets end.
pub record Events : Type 0 where
  pub selected : Selected
  pub time : Option (ℕ × ℕ)
  pub sendings : List Sending
  pub received : Received
  pub rand : ℕ → ℕ
  pub world : World

-- What a turn does once the time is known: the number is the fuel of `deliver_delayed_pkt`.
unfoldable pub serve : ℕ → Settings → Events → Proxy → Bool → Exec Step
serve fuel settings events proxy readable =
    deliver_delayed_pkt fuel events.sendings proxy.last_clock proxy.pkt_queue >>= λ r.
    let delivered = to_host proxy r in
    if not delivered.success
    then ok delivered
    else if not readable
    then ok delivered
    else (process_incoming_pkt events.rand settings events.world delivered.proxy events.received
        >>= λ processed. ok (record processed { sent = delivered.sent ++ processed.sent }))

-- A turn behind its `select`: a signal lets the loop go on, another error ends it, as does a clock
-- that fails.
unfoldable pub after_select : ℕ → Settings → Events → Proxy → Selected → Exec Step
after_select fuel settings events proxy interrupted =
    ok (record { success = true; proxy = proxy; sent = [] })
after_select fuel settings events proxy select_failed =
    ok (record { success = false; proxy = proxy; sent = [] })
after_select fuel settings events proxy (ready readable) = elim (update_time events.time proxy) [
  | none ↦ ok (record { success = false; proxy = proxy; sent = [] })
  | some timed ↦ serve fuel settings events timed readable
]

-- A turn of `proxy_loop`: the answer is whether the loop goes on.
unfoldable pub proxy_turn : ℕ → Settings → Events → Proxy → Exec Step
proxy_turn fuel settings events proxy = do
  _ ← get_queue_timeout proxy.last_clock proxy.pkt_queue
  after_select fuel settings events proxy events.selected

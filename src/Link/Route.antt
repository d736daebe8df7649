-- ===== src/Link/Route.antt =====
-- Where the proxy of linksim/link_sim.c sends packets to.
use mathlib.Core.Path.{subst}
use projet.Base.Int.{pos}
use projet.Base.{
  ◌/◌, ℕ, ◌≡◌, ◌⊎◌, inl, inr, refl, Bool-cases, Bool, true, false, not, none, some, List, [], ◌∷◌,
  ◌++◌, map, length, take, ltb, All, All-append,
}
use projet.Base.Exec.{ok, OnReturn, OnReturn-bind, OnReturn-if, OnReturn-map, OnReturn-any}
use projet.Base.Array.{prefix}
use projet.Link.{
  Queue, Outcome, Settings, World, Sending, sent_all, retry, failed, max_pkt_len, simulate_link,
  deliver_delayed_pkt, get_queue_timeout,
}
use projet.Link.Proxy.{
  SockaddrIn6, Proxy, Received, datagram, again, broken, Step, Events, Selected, to_host,
  track_source, sockaddr_cmp, process_pkt, process_incoming_pkt, update_time, interrupted,
  select_failed, ready, serve, after_select, proxy_turn,
}

-- The packet goes to one of the two.
abbrev pub IsBetween : SockaddrIn6 → SockaddrIn6 → SockaddrIn6 × List ℕ → Type 0
IsBetween host source (to, bytes) = (to ≡ host) ⊎ (to ≡ source)

-- The step keeps the address of the host, and the source once it is known; what is sent goes to one
-- of the two.
pub record IsRouted (proxy : Proxy) (r : Step) : Type 0 where
  pub host : r.proxy.dest_addr ≡ proxy.dest_addr
  pub source :
      proxy.has_source_addr ≡ true
      → (r.proxy.src_addr ≡ proxy.src_addr) × (r.proxy.has_source_addr ≡ true)
  pub within : All (IsBetween proxy.dest_addr r.proxy.src_addr) r.sent

to_host-within :
    (host source : SockaddrIn6) (packets : List (List ℕ))
    → All (IsBetween host source) (map (λ bytes. (host, bytes)) packets)
to_host-within host source [] = tt
to_host-within host source (bytes ∷ packets) = (inl refl, to_host-within host source packets)

-- A step that changes no more than the source that is tracked, and the queue.
tracked :
    (success : Bool) (proxy : Proxy) (from : SockaddrIn6) (q : Queue)
    (sent : List (SockaddrIn6 × List ℕ))
    → All (IsBetween proxy.dest_addr (track_source proxy from).src_addr) sent
    → IsRouted proxy (record {
      success = success;
      proxy = record (track_source proxy from) { pkt_queue = q };
      sent = sent;
    })
unfolding track_source
tracked success proxy from q sent h = elim (Bool-cases proxy.has_source_addr) [
  | inl known ↦ record { host = rw known refl; source = λ k. rw known (refl, refl); within = h }
  | inr unknown ↦ record { host = rw unknown refl; source = λ k. absurd cc; within = h }
]

tracked-host :
    (proxy : Proxy) (from : SockaddrIn6) → (track_source proxy from).dest_addr ≡ proxy.dest_addr
unfolding track_source
tracked-host proxy from = elim (Bool-cases proxy.has_source_addr) [
  | inl known ↦ rw known refl
  | inr unknown ↦ rw unknown refl
]

-- A packet from the host goes back to the source, if it can be sent.
relayed :
    (proxy : Proxy) (from : SockaddrIn6) (bytes : List ℕ) (sending : Sending)
    → OnReturn (IsRouted proxy) (elim sending [
      | sent_all ↦ ok (record {
        success = true;
        proxy = track_source proxy from;
        sent = ((track_source proxy from).src_addr, bytes) ∷ [];
      })
      | _ ↦ ok (record { success = false; proxy = track_source proxy from; sent = [] })
    ])
relayed proxy from bytes sent_all =
    tracked true proxy from (track_source proxy from).pkt_queue
      (((track_source proxy from).src_addr, bytes) ∷ []) (inr refl, tt)
relayed proxy from bytes retry = tracked false proxy from (track_source proxy from).pkt_queue [] tt
relayed proxy from bytes failed = tracked false proxy from (track_source proxy from).pkt_queue [] tt

module _ (rand : ℕ → ℕ) (settings : Settings) (world : World) where
  process_pkt-IsRouted :
      (proxy : Proxy) (from : SockaddrIn6) (buf : List ℕ) (len : ℕ)
      → OnReturn (IsRouted proxy) (process_pkt rand settings world proxy from buf len)
  unfolding process_pkt
  process_pkt-IsRouted proxy₀ from buf len =
      let proxy = track_source proxy₀ from in
      OnReturn-if (IsRouted proxy₀) (ltb len 4) _ _
        (λ short. record { host = refl; source = λ k. (refl, k); within = tt })
        λ long.
          OnReturn-if (IsRouted proxy₀) (not (sockaddr_cmp from proxy.dest_addr)) _ _
            (λ host.
              OnReturn-bind (λ _. Unit {0}) (IsRouted proxy₀) (prefix buf len) _ (OnReturn-any _)
                λ bytes _. relayed proxy₀ from bytes world.sending)
            λ other.
              OnReturn-if (IsRouted proxy₀) (sockaddr_cmp from proxy.src_addr) _ _
                (λ alien. tracked true proxy₀ from proxy.pkt_queue [] tt)
                λ source.
                  OnReturn-bind (λ _. Unit {0}) (IsRouted proxy₀)
                    (simulate_link rand settings world proxy.last_clock proxy.pkt_queue 0 buf len) _
                    (OnReturn-any _)
                    λ r _. tracked r.success proxy₀ from r.pkt_queue _ (
                      subst
                        (λ h.
                          All (IsBetween h proxy.src_addr)
                            (map (λ bytes. (proxy.dest_addr, bytes)) r.sent))
                        (tracked-host proxy₀ from)
                        (to_host-within proxy.dest_addr proxy.src_addr r.sent))

  process_incoming_pkt-IsRouted :
      (proxy : Proxy) (received : Received)
      → OnReturn (IsRouted proxy) (process_incoming_pkt rand settings world proxy received)
  unfolding process_incoming_pkt
  process_incoming_pkt-IsRouted proxy again = record {
    host = refl;
    source = λ k. (refl, k);
    within = tt;
  }
  process_incoming_pkt-IsRouted proxy broken = record {
    host = refl;
    source = λ k. (refl, k);
    within = tt;
  }
  process_incoming_pkt-IsRouted proxy (datagram from bytes) =
      process_pkt-IsRouted proxy from (take max_pkt_len bytes) (length (take max_pkt_len bytes))

-- What the host is sent from the queue.
delivered : (proxy : Proxy) (r : Outcome) → IsRouted proxy (to_host proxy r)
delivered proxy r = record {
  host = refl;
  source = λ k. (refl, k);
  within = to_host-within proxy.dest_addr proxy.src_addr r.sent;
}

-- Two steps in a row, where the first does not change the source.
joined :
    (proxy : Proxy) (r : Outcome) (processed : Step)
    → IsRouted (to_host proxy r).proxy processed
    → IsRouted proxy (record processed { sent = (to_host proxy r).sent ++ processed.sent })
joined proxy r processed i = record {
  host = i.host;
  source = i.source;
  within =
      All-append _ (to_host proxy r).sent processed.sent
        (to_host-within proxy.dest_addr processed.proxy.src_addr r.sent) i.within;
}

serve-IsRouted :
    (fuel : ℕ) (settings : Settings) (events : Events) (proxy : Proxy) (readable : Bool)
    → OnReturn (IsRouted proxy) (serve fuel settings events proxy readable)
unfolding serve
serve-IsRouted fuel settings events proxy readable =
    OnReturn-bind (λ _. Unit {0}) (IsRouted proxy)
      (deliver_delayed_pkt fuel events.sendings proxy.last_clock proxy.pkt_queue) _ (OnReturn-any _)
      λ r _.
        OnReturn-if (IsRouted proxy) (not r.success) _ _ (λ bad. delivered proxy r)
          λ good.
            OnReturn-if (IsRouted proxy) (not readable) _ _ (λ quiet. delivered proxy r)
              λ incoming.
                OnReturn-bind (IsRouted (to_host proxy r).proxy) (IsRouted proxy)
                  (process_incoming_pkt events.rand settings events.world (to_host proxy r).proxy
                    events.received)
                  _
                  (process_incoming_pkt-IsRouted events.rand settings events.world
                    (to_host proxy r).proxy events.received)
                  λ processed i. joined proxy r processed i

after_select-IsRouted :
    (fuel : ℕ) (settings : Settings) (events : Events) (proxy : Proxy) (selected : Selected)
    → OnReturn (IsRouted proxy) (after_select fuel settings events proxy selected)
unfolding after_select update_time
after_select-IsRouted fuel settings events proxy interrupted = record {
  host = refl;
  source = λ k. (refl, k);
  within = tt;
}
after_select-IsRouted fuel settings events proxy select_failed = record {
  host = refl;
  source = λ k. (refl, k);
  within = tt;
}
after_select-IsRouted fuel settings events proxy (ready readable) =
    elim events.time
      as (λ t. OnReturn (IsRouted proxy) (elim (update_time t proxy) [
        | none ↦ ok (record { success = false; proxy = proxy; sent = [] })
        | some timed ↦ serve fuel settings events timed readable
      ])) [
        | none ↦ record { host = refl; source = λ k. (refl, k); within = tt }
        | some (sec, nsec) ↦
            let timed : Proxy = record proxy {
              last_clock = record { tv_sec = pos sec; tv_usec = pos (nsec / 1000) };
            } in
            OnReturn-map (IsRouted timed) (IsRouted proxy) _
              (serve-IsRouted fuel settings events timed readable)
              λ r i. record { host = i.host; source = i.source; within = i.within }
      ]

-- Whatever the state, if the turn returns.
pub proxy_turn-OnReturn :
    (fuel : ℕ) (settings : Settings) (events : Events) (proxy : Proxy)
    → OnReturn (IsRouted proxy) (proxy_turn fuel settings events proxy)
unfolding proxy_turn
proxy_turn-OnReturn fuel settings events proxy =
    OnReturn-bind (λ _. Unit {0}) (IsRouted proxy)
      (get_queue_timeout proxy.last_clock proxy.pkt_queue) _ (OnReturn-any _)
      λ timeout _. after_select-IsRouted fuel settings events proxy events.selected

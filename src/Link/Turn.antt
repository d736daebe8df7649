-- ===== src/Link/Turn.antt =====
-- A turn of the proxy of linksim/link_sim.c returns.
use projet.Base.{
  ℕ, ◌≤◌, ◌<◌, ◌≡◌, ◌≢◌, refl, ◌⊎◌, inl, inr, Bool, false, not, Bool-cases, none, some, List, [],
  arith, length, take, length-take, ltb, le→ltb,
}
use projet.Base.Exec.{ok, Yields, yields, Yields-bind, Yields-if}
use projet.Base.Array.{prefix}
use projet.Link.{Settings, World, PktSlot, max_pkt_len}
use projet.Link.Proxy.{
  SockaddrIn6, Proxy, Received, datagram, again, broken, Step, Events, Selected, to_host,
  track_source, sockaddr_cmp, process_pkt, process_incoming_pkt, update_time, interrupted,
  select_failed, ready, serve, after_select, proxy_turn,
}
use projet.Link.Deliver.{Yields-both}
use projet.Link.Ready.{
  IsReady, by_sending, deliver_delayed_pkt-IsReady, get_queue_timeout-yields, simulate_link-IsReady,
}
use projet.Link.Route.{IsRouted, proxy_turn-OnReturn}

same_queue :
    (proxy : Proxy) (from : SockaddrIn6) → (track_source proxy from).pkt_queue ≡ proxy.pkt_queue
unfolding track_source
same_queue proxy from = elim (Bool-cases proxy.has_source_addr) [
  | inl known ↦ rw known refl
  | inr unknown ↦ rw unknown refl
]

prefix-yields : (buf : List ℕ) → Yields (λ _. Unit {0}) (prefix buf (length buf))
unfolding prefix
prefix-yields buf = rw (le→ltb (length buf) (length buf) (omega arith)) (yields tt)

module _ (d : PktSlot) where
  -- The queue of the proxy is in order, and holds fewer packets than the fuel.
  pub record IsServing (fuel : ℕ) (proxy : Proxy) : Type 0 where
    pub in_order : IsReady d proxy.pkt_queue
    pub enough : length in_order.items < fuel

  -- The queue stays in order.
  abbrev pub KeepsQueue : Step → Type 0
  KeepsQueue r = IsReady d r.proxy.pkt_queue

  module _ (rand : ℕ → ℕ) (settings : Settings) (world : World)
      (jitters : (settings.delay ≡ 0) ⊎ (settings.jitter ≢ 0))
      (roomy : 520 ≤ length world.slot_memory) where
    process_pkt-KeepsQueue :
        (proxy : Proxy) (from : SockaddrIn6) (buf : List ℕ)
        → IsReady d proxy.pkt_queue
        → length buf ≤ 520
        → Yields KeepsQueue (process_pkt rand settings world proxy from buf (length buf))
    unfolding process_pkt
    process_pkt-KeepsQueue proxy₀ from buf r most =
        let proxy = track_source proxy₀ from in
        let r' : IsReady d proxy.pkt_queue = rw (same_queue proxy₀ from) r in
        Yields-if (ltb (length buf) 4) (λ short. yields r)
          λ long.
            Yields-if (not (sockaddr_cmp from proxy.dest_addr))
              (λ host.
                Yields-bind (prefix-yields buf)
                  λ bytes _. by_sending world.sending (yields r') (yields r') (yields r'))
              λ other.
                Yields-if (sockaddr_cmp from proxy.src_addr) (λ alien. yields r')
                  λ source.
                    Yields-bind
                      (simulate_link-IsReady d rand settings world jitters roomy proxy.last_clock
                        proxy.pkt_queue buf r' (ground (arith, long)) most)
                      λ o ready. yields ready

    process_incoming_pkt-KeepsQueue :
        (proxy : Proxy) (received : Received)
        → IsReady d proxy.pkt_queue
        → Yields KeepsQueue (process_incoming_pkt rand settings world proxy received)
    unfolding process_incoming_pkt
    process_incoming_pkt-KeepsQueue proxy again r = yields r
    process_incoming_pkt-KeepsQueue proxy broken r = yields r
    process_incoming_pkt-KeepsQueue proxy (datagram from bytes) r =
        process_pkt-KeepsQueue proxy from (take max_pkt_len bytes) r
          (omega (arith, length-take max_pkt_len bytes))

  module _ (fuel : ℕ) (settings : Settings) (events : Events)
      (jitters : (settings.delay ≡ 0) ⊎ (settings.jitter ≢ 0))
      (roomy : 520 ≤ length events.world.slot_memory) where
    serve-KeepsQueue :
        (proxy : Proxy) (readable : Bool)
        → IsServing fuel proxy
        → Yields KeepsQueue (serve fuel settings events proxy readable)
    unfolding serve
    serve-KeepsQueue proxy readable s =
        let r = s.in_order in
        rw r.queue_eq (
          Yields-bind
            (deliver_delayed_pkt-IsReady d fuel events.sendings proxy.last_clock r.q r.items r.holds
              r.ordered r.fits s.enough)
            λ o kept.
              Yields-if (not o.success) (λ fails. yields kept)
                λ goes.
                  Yields-if (not readable) (λ quiet. yields kept)
                    λ incoming.
                      Yields-bind
                        (process_incoming_pkt-KeepsQueue events.rand settings events.world jitters
                          roomy (to_host proxy o).proxy events.received kept)
                        λ processed k. yields k)

    after_select-KeepsQueue :
        (proxy : Proxy) (selected : Selected)
        → IsServing fuel proxy
        → Yields KeepsQueue (after_select fuel settings events proxy selected)
    unfolding after_select update_time
    after_select-KeepsQueue proxy interrupted s = yields s.in_order
    after_select-KeepsQueue proxy select_failed s = yields s.in_order
    after_select-KeepsQueue proxy (ready readable) s =
        elim events.time
          as (λ t. Yields KeepsQueue (elim (update_time t proxy) [
            | none ↦ ok (record { success = false; proxy = proxy; sent = [] })
            | some timed ↦ serve fuel settings events timed readable
          ])) [
            | none ↦ yields s.in_order
            | some (sec, nsec) ↦
                serve-KeepsQueue _ readable (record { in_order = s.in_order; enough = s.enough })
          ]

    returns :
        (proxy : Proxy)
        → IsServing fuel proxy
        → Yields KeepsQueue (proxy_turn fuel settings events proxy)
    unfolding proxy_turn
    returns proxy s =
        Yields-bind (get_queue_timeout-yields d proxy.last_clock proxy.pkt_queue s.in_order)
          λ timeout _. after_select-KeepsQueue proxy events.selected s

    -- When the queue is ordered by date and holds fewer packets than the fuel, there is no delay or
    -- there is a jitter, and a slot has room for the longest packet, a turn of the loop returns,
    -- whatever comes in and however the allocations and the sendings end. The queue is in order
    -- again. What is sent goes to the host or to the source; once the source is known it stays the
    -- same, and the address of the host stays the same.
    pub proxy_turn-IsRouted :
        (proxy : Proxy)
        → IsServing fuel proxy
        → Yields (λ r. KeepsQueue r × IsRouted proxy r) (proxy_turn fuel settings events proxy)
    proxy_turn-IsRouted proxy s =
        Yields-both _ (returns proxy s) (proxy_turn-OnReturn fuel settings events proxy)

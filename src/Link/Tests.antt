-- ===== src/Link/Tests.antt =====
-- The theorems on the link, with a queue of one packet.
use mathlib.Core.List.{Mem, mem-cons, not-mem-nil}
use mathlib.Core.List.Perm
use mathlib.Core.Logic.Or
use projet.Base.{
  List, ℕ, ◌+◌, true, replicate, ltb, false, ◌≤◌, length, [], ◌∷◌, some, refl, ◌≡◌, ◌⊎◌, arith, inr,
}
use projet.Base.Exec.{Yields, ok}
use projet.Base.Int.{pos, ◌+ℤ◌, ◌≤ℤ◌}
use projet.Link.{
  Timeval, PktSlot, pkt_slot_cmp, timeval_diff, deliver_delayed_pkt, Settings, World, sent_all,
  simulate_link,
}
use projet.Link.Effect.{simulate_link-fate}
use projet.Link.Delay.{IsHeld, simulate_link-IsHeld}
use projet.Link.Proxy.{SockaddrIn6, Proxy, Events, ready, datagram, proxy_turn}
use projet.Link.Options.{
  Opt, opt_p, opt_e, opt_d, Options, defaults, set_options, IsInRange, defaults-IsInRange,
  set_options-IsInRange,
}
use projet.Link.Route.{IsRouted}
use projet.Link.Turn.{IsServing, KeepsQueue, proxy_turn-IsRouted}
use projet.Link.Deliver.{IsDelivered, deliver_delayed_pkt-IsDelivered}
use projet.MinQueue.{MinQueue}
use projet.MinQueue.Queue.{Holds}
use projet.Link.Time.{pkt_slot_cmp-IsOrder, IsDifference, IsMissed, timeval_diff-carry}

abbrev early : Timeval
early = record { tv_sec = pos 7; tv_usec = pos 900000 }

abbrev late : Timeval
late = record { tv_sec = pos 9; tv_usec = pos 100000 }

-- 200 milliseconds after `early`, in the next second.
abbrev soon : Timeval
soon = record { tv_sec = pos 8; tv_usec = pos 100000 }

timeval_diff-carry_example :
    (¬ IsMissed soon early) × IsDifference soon early (timeval_diff soon early)
    ⊎ IsMissed soon early
      × ((timeval_diff soon early).tv_sec ≡ pos 0)
      × (early.tv_usec +ℤ (timeval_diff soon early).tv_usec ≡ soon.tv_usec)
      × ((timeval_diff soon early).tv_usec +ℤ pos 1 ≤ℤ pos 0)
      × (¬ IsDifference soon early (timeval_diff soon early))
unfolding ◌+ℤ◌
timeval_diff-carry_example =
    timeval_diff-carry soon early (omega arith, omega arith) (omega arith, omega arith)

abbrev held : PktSlot
held = record { ts = early; size = 4; buf = 36 ∷ 7 ∷ 0 ∷ 0 ∷ 0 ∷ [] }

abbrev queue : MinQueue PktSlot
queue = record { cmp = pkt_slot_cmp; size = 1; alloc = 1; e = held ∷ [] }

queue-Holds : Holds held queue (held ∷ [])
queue-Holds = record {
  live = held ∷ [];
  spare = [];
  order = pkt_slot_cmp-IsOrder;
  array = refl;
  sized = refl;
  allocated = refl;
  heap = λ c p l. absurd (omega arith);
  same = Perm.rfl;
}

held-fits : (p : PktSlot) → Mem p (held ∷ []) → p.size ≤ length p.buf
held-fits p m =
    let fits : ltb (length p.buf) p.size ≡ false =
      Or.elim (hlevel) (mem-cons.0 m) (λ e. rw e refl) (λ rest. absurd (not-mem-nil rest)) in
    ground arith

deliver_delayed_pkt-IsDelivered_example :
    Yields (IsDelivered held late (held ∷ [])) (deliver_delayed_pkt 2 [] late (some queue))
deliver_delayed_pkt-IsDelivered_example =
    deliver_delayed_pkt-IsDelivered held 2 late queue (held ∷ []) queue-Holds refl held-fits
      (omega arith)

-- A link that loses no packet, and corrupts each that is not cut.
abbrev noisy : Settings
noisy = record { delay = 0; jitter = 0; err_rate = 101; cut_rate = 20; loss_rate = 0 }

abbrev world : World
world = record {
  slot_allocated = true;
  slot_memory = [];
  realloc_succeeds = true;
  queue_memory = held;
  sending = sent_all;
}

simulate_link-fate_example :
    simulate_link (λ n. 50 + n) noisy world early (some queue) 0 (36 ∷ 7 ∷ 0 ∷ 0 ∷ 9 ∷ []) 5
    ≡ ok
        (record { success = true; pkt_queue = some queue; sent = (36 ∷ 7 ∷ 0 ∷ 0 ∷ 246 ∷ []) ∷ [] })
simulate_link-fate_example =
    simulate_link-fate (λ n. 50 + n) noisy world early (some queue) (36 ∷ 7 ∷ 0 ∷ 0 ∷ 9 ∷ []) refl
      refl (omega arith)

-- A link that cuts every packet and holds it for about 200 milliseconds.
abbrev slow : Settings
slow = record { delay = 200; jitter = 50; err_rate = 0; cut_rate = 101; loss_rate = 10 }

abbrev roomy : World
roomy = record {
  slot_allocated = true;
  slot_memory = replicate 520 0;
  realloc_succeeds = true;
  queue_memory = held;
  sending = sent_all;
}

abbrev address : ℕ → SockaddrIn6
address port = record { sin6_addr = replicate 16 0; sin6_port = port; sin6_others = 0 }

abbrev proxy : Proxy
proxy = record {
  dest_addr = address 12345;
  src_addr = address 0;
  has_source_addr = false;
  last_clock = early;
  pkt_queue = some queue;
}

abbrev events : Events
events = record {
  selected = ready true;
  time = some (9, 100000);
  sendings = [];
  received = datagram (address 77) (36 ∷ 8 ∷ 0 ∷ 0 ∷ 9 ∷ []);
  rand = λ n. 50 + n;
  world = roomy;
}

proxy-IsServing : IsServing held 2 proxy
proxy-IsServing = record {
  in_order = record {
    q = queue;
    items = held ∷ [];
    queue_eq = refl;
    holds = queue-Holds;
    ordered = refl;
    fits = held-fits;
  };
  enough = omega arith;
}

proxy_turn-IsRouted_example :
    Yields (λ r. KeepsQueue held r × IsRouted proxy r) (proxy_turn 2 slow events proxy)
proxy_turn-IsRouted_example =
    proxy_turn-IsRouted held 2 slow events (inr (λ e. absurd (omega arith))) (omega arith) proxy
      proxy-IsServing

simulate_link-IsHeld_example :
    Yields
      (λ r.
        (r.success ≡ true)
        × (r.sent ≡ [])
        × IsHeld (λ n. 50 + n) held early (held ∷ []) (some (36 ∷ 7 ∷ 0 ∷ 0 ∷ [])) r.pkt_queue)
      (simulate_link (λ n. 50 + n) slow roomy early (some queue) 0 (36 ∷ 7 ∷ 0 ∷ 0 ∷ 9 ∷ []) 5)
simulate_link-IsHeld_example =
    simulate_link-IsHeld (λ n. 50 + n) slow roomy early held queue (held ∷ []) queue-Holds
      (36 ∷ 7 ∷ 0 ∷ 0 ∷ 9 ∷ []) (λ e. absurd (omega arith)) (λ e. absurd (omega arith)) refl refl
      (omega arith) (omega arith)

abbrev chosen : List Opt
chosen = opt_p (pos 4000) ∷ opt_e (pos 30) ∷ opt_d (pos 200) ∷ []

set_options-IsInRange_example : (o : Options) × (set_options defaults chosen ≡ some o) × IsInRange o
unfolding ◌+ℤ◌
set_options-IsInRange_example =
    set_options-IsInRange defaults chosen defaults-IsInRange
      (omega arith, (omega arith, (omega arith, tt)))

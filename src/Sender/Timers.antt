-- ===== src/Sender/Timers.antt =====
-- The loop over the timers in sel_repeat_write.c.
use projet.Base.{
  All, ◌<◌, All-weaken, ℕ, suc, ◌+◌, ◌≤◌, ◌≡◌, refl, ap, Bool, false, true, ltb, if◌then◌else◌,
  List, [], ◌∷◌, ◌++◌, map, arith, length, append_assoc, length-append,
}
use projet.Base.Exec.{ok}
use projet.Base.Array.{load-append, store-append}
use projet.Packet.{max_payload_size}
use projet.Sender.{Slot, timer, PktTimer}
use projet.Sender.Loop.{check_timer, check_timers}
use projet.Sender.Flight.{packet, datagram, packet-IsContent, IsTimed, Carries, encode_out-frame}

-- What the loop is to do: `clock` gives the seconds of the readings of the clock, which the packets
-- from the number `k` on go through from the reading number `now` on. A packet is due when it was
-- sent more than five seconds ago.
abbrev pub is_due : (ℕ → ℕ) → ℕ → PktTimer → Bool
is_due clock now t = ltb (t.start + 5) (clock now)

-- The number of the reading after the timer.
abbrev pub after : (ℕ → ℕ) → ℕ → PktTimer → ℕ
after clock now t = if is_due clock now t then now + 2 else now + 1

-- The timer with its new times.
abbrev pub timed : (ℕ → ℕ) → ℕ → PktTimer → PktTimer
timed clock now t = record {
  start = if is_due clock now t then clock (now + 1) else t.start;
  finish = clock now;
  packet = t.packet;
}

abbrev pub readings : (ℕ → ℕ) → ℕ → List PktTimer → ℕ
readings clock now [] = now
readings clock now (t ∷ flight) = readings clock (after clock now t) flight

abbrev pub retimed : (ℕ → ℕ) → ℕ → List PktTimer → List PktTimer
retimed clock now [] = []
retimed clock now (t ∷ flight) = timed clock now t ∷ retimed clock (after clock now t) flight

-- The numbers of the packets that are due.
abbrev pub due : (ℕ → ℕ) → ℕ → ℕ → List PktTimer → List ℕ
due clock now k [] = []
due clock now k (t ∷ flight) =
    let others = due clock (after clock now t) (suc k) flight in
    if is_due clock now t then k ∷ others else others

pub length-retimed :
    (clock : ℕ → ℕ) (now : ℕ) (flight : List PktTimer)
    → length (retimed clock now flight) ≡ length flight
length-retimed clock now [] = refl
length-retimed clock now (t ∷ flight) = ap suc (length-retimed clock (after clock now t) flight)

-- What is due is in flight.
pub due-within :
    (clock : ℕ → ℕ) (now k : ℕ) (flight : List PktTimer)
    → All (λ n. (k ≤ n) × (n < k + length flight)) (due clock now k flight)
due-within clock now k [] = tt
due-within clock now k (t ∷ flight) =
    let others : All (λ n. (k ≤ n) × (n < k + length (t ∷ flight)))
        (due clock (after clock now t) (suc k) flight) =
      All-weaken _ _ _ (λ n (from, to). (omega arith, omega arith))
        (due-within clock (after clock now t) (suc k) flight) in
    elim (is_due clock now t)
      as (λ b.
        All (λ n. (k ≤ n) × (n < k + length (t ∷ flight)))
          (if b
            then k ∷ due clock (after clock now t) (suc k) flight
            else due clock (after clock now t) (suc k) flight)) [
              | true ↦ ((omega arith, omega arith), others)
              | false ↦ others
            ]

sent_if :
    (b : Bool) (f : ℕ → List ℕ) (k : ℕ) (ks : List ℕ)
    → (if b then f k ∷ [] else []) ++ map f ks ≡ map f (if b then k ∷ ks else ks)
sent_if true f k ks = refl
sent_if false f k ks = refl

module _ (data_of : ℕ → List ℕ) where
  pub Carries-retimed :
      (clock : ℕ → ℕ) (now base : ℕ) (flight : List PktTimer)
      → Carries data_of base flight
      → Carries data_of base (retimed clock now flight)
  Carries-retimed clock now base [] c = tt
  Carries-retimed clock now base (t ∷ flight) (c, cs) = (
    record { packet_eq = c.packet_eq; owned = c.owned },
    Carries-retimed clock (after clock now t) (suc base) flight cs,
  )

  module _ (short : (k : ℕ) → length (data_of k) ≤ max_payload_size) (crc32 : List ℕ → ℕ) (junk : ℕ)
      (clock : ℕ → ℕ) where
    one_timer :
        (k now : ℕ) (pre post : List Slot) (t : PktTimer) {i : ℕ}
        → i ≡ length pre
        → IsTimed data_of k t
        → check_timer crc32 junk clock now (pre ++ timer t ∷ post) i
          ≡ ok (
            after clock now t,
            (
              pre ++ timer (timed clock now t) ∷ post,
              if is_due clock now t then datagram data_of crc32 k ∷ [] else [],
            ),
          )
    unfolding check_timer
    one_timer k now pre post t at_i c =
        let t' : PktTimer = record t { finish = clock now } in
        let out =
          encode_out-frame crc32 junk t.packet (packet data_of k)
            (packet-IsContent data_of k (short k)) c.packet_eq in
        let t'' : PktTimer = record t' { start = clock (now + 1) } in
        rw
          (
            load-append pre (timer t) post at_i,
            store-append pre (timer t) (timer t') post at_i,
            out,
            store-append pre (timer t') (timer t'') post at_i,
          )
          (ground arith)

    -- For a stream of payloads of at most 512 bytes, the loop over the timers of the packets in
    -- flight, which stand in the slots from `i` on, returns: it sends again, in the order of
    -- their numbers, the packets that are due, each as its frame, and gives these a new start;
    -- the slots around stay.
    pub check_timers-due :
        (base now : ℕ) (flight : List PktTimer) (pre post : List Slot) {i : ℕ}
        → i ≡ length pre
        → Carries data_of base flight
        → check_timers crc32 junk (length flight) clock now (pre ++ (map timer flight ++ post)) i
          ≡ ok (
            readings clock now flight,
            (
              pre ++ (map timer (retimed clock now flight) ++ post),
              map (datagram data_of crc32) (due clock now base flight),
            ),
          )
    unfolding check_timers
    check_timers-due base now [] pre post at_i c = refl
    check_timers-due base now (t ∷ flight) pre post {i = i} at_i (c, cs) =
        let t' = timed clock now t in
        let now' = after clock now t in
        let ih =
          check_timers-due (suc base) now' flight (pre ++ timer t' ∷ []) post {i = i + 1}
            (omega (arith, length-append pre (timer t' ∷ []))) cs in
        let moved : (ts : List PktTimer)
            → (pre ++ timer t' ∷ []) ++ (map timer ts ++ post)
              ≡ pre ++ (timer t' ∷ map timer ts ++ post) =
          λ ts. append_assoc pre (timer t' ∷ []) (map timer ts ++ post) in
        rw
          (
            one_timer base now pre (map timer flight ++ post) t at_i c,
            ← moved flight,
            ih,
            moved (retimed clock now' flight),
          )
          (ap
            (λ sent. ok (
              readings clock now' flight,
              (pre ++ (timer t' ∷ map timer (retimed clock now' flight) ++ post), sent),
            ))
            (sent_if (is_due clock now t) (datagram data_of crc32) base
              (due clock now' (suc base) flight)))

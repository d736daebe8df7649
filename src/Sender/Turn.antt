-- ===== src/Sender/Turn.antt =====
-- One turn of the loop of sel_repeat_write.c.
use projet.Base.{
  All-append, All-weaken, length-append, ℕ, ◌+◌, ◌≤◌, ◌<◌, ◌≡◌, refl, sym, ap, ◌∙◌, true, List, [],
  ◌++◌, map, arith, length, All, take, Option, none, some, ◌⊎◌,
}
use projet.Base.Exec.{ok, Yields, yields, Yields-bind}
use projet.Base.Int.{pos_part}
use projet.Packet.{Pkt, max_payload_size, max_window_size}
use projet.Packet.Wire.{IsByte}
use projet.Sender.{Sender, Slot, timer, Reaction}
use projet.Sender.Loop.{Input, may_send, read_socket, turn, check_timers}
use projet.Sender.Flight.{datagram, Sends}
use projet.Sender.Send.{map-append, length-map}
use projet.Sender.Incoming.{
  IsTimely, Acknowledges, acks, nacks, data_packet, IsAnswered, unchanged, on_answer-IsAnswered,
}
use projet.Sender.Timers.{
  check_timers-due, retimed, readings, due, due-within, length-retimed, Carries-retimed,
}
use projet.Sender.Feed.{IsNext, consumed, read_file-IsFed}
use projet.Sender.Answer.{few_in_flight}

-- What the socket has while the `len` packets from the number `base` on are in flight.
abbrev pub IsExpected : (List ℕ → ℕ) → ℕ → ℕ → Option (List ℕ) → Type 0
IsExpected crc32 base len none = Unit
IsExpected crc32 base len (some bytes) =
    All IsByte (take 8 bytes) × IsTimely crc32 base len (take 8 bytes)

-- What has come from the socket is an acknowledgement of the packets before the number `k`.
abbrev pub IsAckOf : (List ℕ → ℕ) → Option (List ℕ) → ℕ → Type 0
IsAckOf crc32 none k = ⊥
IsAckOf crc32 (some bytes) k = Acknowledges crc32 k (take 8 bytes)

module _ (data_of : ℕ → List ℕ) (crc32 : List ℕ → ℕ) where
  -- What a turn leads to: the first `d` packets are no longer in flight, since an acknowledgement
  -- has come if there are any, `more` packets are new, and the datagrams sent are those of packets
  -- in flight.
  pub record Proceeds (base : ℕ) (s : Sender) (e : Sends data_of base s) (input : Input)
      (r : Reaction) : Type 0 where
    pub d : ℕ
    pub caused : (d ≡ 0) ⊎ IsAckOf crc32 input.socket (base + d)
    pub more : ℕ
    pub more_eq : more ≡ consumed s input.file
    pub room : length e.flight + more ≤ max_window_size
    pub one : more ≤ 1
    pub sends : Sends data_of (base + d) r.sender
    pub count : d + length sends.flight ≡ length e.flight + more
    pub numbers : List ℕ
    pub sent_eq : r.sent ≡ map (datagram data_of crc32) numbers
    pub within : All (λ k. (base ≤ k) × (k < base + (length e.flight + more))) numbers
    pub ended :
        r.sender.finish ≡ true
        → (s.finish ≡ true) × (more ≡ 0)
          ⊎ (more ≡ 1) × (length (data_of (base + length e.flight)) ≡ 0)
    pub exits_last : r.exits ≡ true → (length sends.flight ≡ 0) × (r.sender.finish ≡ true)

module _ (data_of : ℕ → List ℕ) (short : (k : ℕ) → length (data_of k) ≤ max_payload_size)
    (crc32 : List ℕ → ℕ) (junk : ℕ) (memory : Pkt) (clock : ℕ → ℕ) (unread : ℕ) where
  -- The first loop of a turn.
  swept :
      (base : ℕ) (s : Sender) (e : Sends data_of base s) (now : ℕ)
      → check_timers crc32 junk (pos_part s.current_index_window) clock now s.window 0
        ≡ ok (
          readings clock now e.flight,
          (
            map timer (retimed clock now e.flight) ++ e.rest,
            map (datagram data_of crc32) (due clock now base e.flight),
          ),
        )
  swept base s e now =
      rw (e.count, e.slots)
        (check_timers-due data_of short crc32 junk clock base now e.flight [] e.rest refl e.carried)

  swept-Sends :
      (base : ℕ) (s : Sender) (e : Sends data_of base s) (now : ℕ)
      → Sends data_of base (record s { window = map timer (retimed clock now e.flight) ++ e.rest })
  swept-Sends base s e now =
      let flight' = retimed clock now e.flight in
      let same = length-retimed clock now e.flight in
      record {
        flight = flight';
        rest = e.rest;
        next = rw same e.next;
        slots = refl;
        sized = omega (
          arith,
          e.sized,
          ap length e.slots,
          same,
          length-map timer e.flight,
          length-map timer flight',
          length-append (map timer e.flight) e.rest,
          length-append (map timer flight') e.rest,
        );
        count = rw same e.count;
        carried = Carries-retimed data_of clock now base e.flight e.carried;
        limit = e.limit;
      }

  -- Whether the file is read does not depend on the slots.
  consumed-window :
      (s : Sender) (slots : List Slot) (file : Option (List ℕ))
      → consumed (record s { window = slots }) file ≡ consumed s file
  unfolding may_send
  consumed-window s slots none = refl
  consumed-window s slots (some bytes) = refl

  -- With more packets in flight, the same answers are expected.
  IsExpected-more :
      (base len len' : ℕ) (socket : Option (List ℕ))
      → len ≤ len'
      → IsExpected crc32 base len socket
      → IsExpected crc32 base len' socket
  IsExpected-more base len len' none h x = tt
  IsExpected-more base len len' (some bytes) h (byte, timely) = (
    byte,
    λ c filler rest v f z w. elim (timely c filler rest v f z w) [
      | acks d ty most number ↦ acks d ty (omega arith) number
      | nacks d ty inside number ↦ nacks d ty (omega arith) number
      | data_packet ty ↦ data_packet ty
    ],
  )

  read_socket-IsAnswered :
      (base : ℕ) (s : Sender) (e : Sends data_of base s) (socket : Option (List ℕ)) (now : ℕ)
      → IsExpected crc32 base (length e.flight) socket
      → Yields
          (IsAnswered data_of (λ d. IsAckOf crc32 socket (base + d)) base crc32 s e)
          (read_socket crc32 junk memory clock unread s socket now)
  unfolding read_socket
  read_socket-IsAnswered base s e none now x =
      yields (unchanged data_of (λ d. IsAckOf crc32 none (base + d)) base crc32 s e)
  read_socket-IsAnswered base s e (some bytes) now (byte, timely) =
      on_answer-IsAnswered data_of short crc32 junk memory (clock now) base s e (take 8 bytes) byte
        timely

  -- If the file has the next payload of the stream, and the socket no packet but one that the receiver
  -- may send now, a turn of the loop returns, stays inside the window, and sends nothing but packets
  -- of the stream that are in flight.
  pub turn-Proceeds :
      (base : ℕ) (s : Sender) (e : Sends data_of base s) (input : Input) (now : ℕ)
      → IsNext data_of (base + length e.flight) input.file
      → IsExpected crc32 base (length e.flight) input.socket
      → Yields
          (Proceeds data_of crc32 base s e input)
          (turn crc32 junk memory clock unread s input now)
  unfolding turn
  turn-Proceeds base s e input now next expected =
      let s₁ : Sender = record s { window = map timer (retimed clock now e.flight) ++ e.rest } in
      let e₁ : Sends data_of base s₁ = swept-Sends base s e now in
      let same : length e₁.flight ≡ length e.flight = ap pos_part (sym e₁.count ∙ e.count) in
      let next' = let same' = sym same in rw same' at next in
      rw (swept base s e now) (
        Yields-bind
          (read_file-IsFed data_of short crc32 junk memory clock unread base s₁ e₁ input.file
            (readings clock now e.flight) next')
          λ new fed.
            Yields-bind
              (read_socket-IsAnswered base new.sender fed.sends input.socket
                (readings clock now e.flight + 1)
                (IsExpected-more base (length e.flight) (length fed.sends.flight) input.socket
                  (omega (arith, same, fed.grown)) expected))
              λ answered a.
                let ended = fed.ended in
                yields (record {
                  d = a.d;
                  caused = a.caused;
                  more = fed.more;
                  more_eq = fed.more_eq ∙ consumed-window s _ input.file;
                  room =
                      omega
                        (arith, few_in_flight data_of base new.sender fed.sends, fed.grown, same);
                  one = fed.one;
                  sends = a.sends;
                  count = omega (arith, a.fewer, a.most, fed.grown, same);
                  numbers = due clock now base e.flight ++ (fed.numbers ++ a.numbers);
                  sent_eq =
                      rw
                        (
                          map-append (datagram data_of crc32) (due clock now base e.flight)
                              (fed.numbers ++ a.numbers),
                          map-append (datagram data_of crc32) fed.numbers a.numbers,
                          fed.sent_eq,
                          a.sent_eq,
                        )
                        refl;
                  within =
                      All-append _ (due clock now base e.flight) _
                        (All-weaken _ _ _ (λ k (from, to). (from, omega arith))
                          (due-within clock now base e.flight))
                        (All-append _ fed.numbers _
                          (All-weaken _ _ _ (λ k (from, to). (from, omega (arith, same, fed.grown)))
                            fed.within)
                          (All-weaken _ _ _ (λ k (from, to). (from, omega (arith, same, fed.grown)))
                            a.within));
                  ended = λ f. (rw same at ended) (sym a.finish_eq ∙ f);
                  exits_last = λ left.
                      let (all, closed) = a.exits_last left in
                      (omega (arith, a.fewer, all), a.finish_eq ∙ closed);
                }))

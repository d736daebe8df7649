-- ===== src/Sender/Run.antt =====
-- The loop of sel_repeat_write.c over any number of turns.
use mathlib.Core.Path.{subst₂}
use projet.Base.{
  ℕ, ◌+◌, ◌-◌, ◌%◌, ◌≤◌, ◌<◌, ◌≡◌, refl, sym, ap, ◌∙◌, false, true, List, [], map, arith, length,
  All, All-weaken, replicate, length-replicate, inl, inr, ◌⊎◌,
}
use projet.Base.Exec.{ok, Yields, yields, Yields-inv, Yields-elim}
use projet.Base.Int.{pos, pos_part}
use projet.Packet.{Pkt, max_window_size, max_payload_size}
use projet.Sender.{Sender, Slot, unset, Reaction}
use projet.Sender.Loop.{Input, begin, turn}
use projet.Sender.Flight.{datagram, Sends}
use projet.Sender.Answer.{few_in_flight}
use projet.Sender.Feed.{IsNext, consumed}
use projet.Sender.Turn.{IsExpected, IsAckOf, Proceeds, turn-Proceeds}

module _ (data_of : ℕ → List ℕ) (crc32 : List ℕ → ℕ) (junk : ℕ) where
  -- The states of a sender that reads the payloads of the stream from its file, and meets only
  -- answers that a receiver may give; `base` is the first packet without acknowledgement, and `next`
  -- the number of the next packet.
  pub data Reached : ℕ → ℕ → Sender → Type 0 where
    initial : Reached 0 0 begin
    further :
        {base next : ℕ} {s : Sender}
        → Reached base next s
        → (memory : Pkt) (clock : ℕ → ℕ) (unread : ℕ) (input : Input) (now : ℕ)
        → IsNext data_of next input.file
        → IsExpected crc32 base (next - base) input.socket
        → (r : Reaction) → turn crc32 junk memory clock unread s input now ≡ ok r
        → r.exits ≡ false
        → (base' next' : ℕ) → base' ≤ next'
        → next ≤ next'
        → next' < next + 256
        → r.sender.seqnum ≡ next' % 256
        → r.sender.current_index_window ≡ pos (next' - base')
        → Reached base' next' r.sender

  -- The sender has the packets from `base` up to `next` in flight, and has read the end of the file
  -- only if the last of all its packets is empty.
  pub record Serves (base next : ℕ) (s : Sender) : Type 0 where
    pub sends : Sends data_of base s
    pub span : base + length sends.flight ≡ next
    pub closed : s.finish ≡ true → (0 < next) × (length (data_of (next - 1)) ≡ 0)

  pub begin-Serves : Serves 0 0 begin
  unfolding begin
  begin-Serves = record {
    sends = record {
      flight = [];
      rest = replicate max_window_size unset;
      next = refl;
      slots = refl;
      sized = length-replicate {A = Slot} max_window_size unset;
      count = refl;
      carried = tt;
      limit = omega arith;
    };
    span = refl;
    closed = λ f. absurd cc;
  }

  -- What a turn in such a state leads to: the packets before `base'` are acknowledged, by what has
  -- come from the socket if there are more than before, and those before `next'` have been read;
  -- the window holds those between.
  pub record IsTurned (base next : ℕ) (s : Sender) (input : Input) (r : Reaction) : Type 0 where
    pub base' : ℕ
    pub next' : ℕ
    pub acknowledged : (base' ≡ base) ⊎ IsAckOf crc32 input.socket base'
    pub all_read : next' ≡ next + consumed s input.file
    pub in_flight : r.sender.current_index_window ≡ pos (next' - base')
    pub forward : base ≤ base'
    pub one : (next ≤ next') × (next' ≤ next + 1)
    pub narrow : (base' ≤ next') × (next' ≤ base' + max_window_size)
    pub numbers : List ℕ
    pub sent_eq : r.sent ≡ map (datagram data_of crc32) numbers
    pub within : All (λ k. (base ≤ k) × (k < next')) numbers
    pub goes_on : r.exits ≡ false → Reached base' next' r.sender
    pub exits_last :
        r.exits ≡ true → (base' ≡ next') × (0 < next') × (length (data_of (next' - 1)) ≡ 0)

  pub step-Serves :
      (base next : ℕ) (s : Sender) (input : Input) (r : Reaction) (e : Serves base next s)
      → (p : Proceeds data_of crc32 base s e.sends input r)
      → Serves (base + p.d) (next + p.more) r.sender
  step-Serves base next s input r e p = record {
    sends = p.sends;
    span = omega (arith, p.count, e.span);
    closed = λ f. elim (p.ended f) [
      | inl (before, none) ↦
          let (some_sent, empty) = e.closed before in
          let same : next + p.more - 1 ≡ next - 1 = omega (arith, none) in
          (omega arith, rw same empty)
      | inr (one_more, empty) ↦
          let same : base + length e.sends.flight ≡ next + p.more - 1 =
            omega (arith, one_more, e.span) in
          (omega (arith, one_more), rw same at empty)
    ];
  }

  module _ (short : (k : ℕ) → length (data_of k) ≤ max_payload_size) where
    -- A turn in a state that serves, with what it leads to.
    pub turn-step :
        (base next : ℕ) (s : Sender) (e : Serves base next s)
        → (memory : Pkt) (clock : ℕ → ℕ) (unread : ℕ) (input : Input) (now : ℕ)
        → IsNext data_of next input.file
        → IsExpected crc32 base (next - base) input.socket
        → Yields
            (Proceeds data_of crc32 base s e.sends input)
            (turn crc32 junk memory clock unread s input now)
    turn-step base next s e memory clock unread input now file socket =
        let n : base + length e.sends.flight ≡ next = e.span in
        let len : length e.sends.flight ≡ next - base = omega (arith, e.span) in
        turn-Proceeds data_of short crc32 junk memory clock unread base s e.sends input now
          (rw n file) (rw len socket)

    Reached-Serves : (base next : ℕ) (s : Sender) → Reached base next s → Serves base next s
    Reached-Serves _ _ _ initial = begin-Serves
    Reached-Serves base' next' _
          (further {base} {next} {s} before memory clock unread input now file socket r run goes _ _
            span from to number count) =
        let e = Reached-Serves base next s before in
        let p =
          Yields-elim (turn-step base next s e memory clock unread input now file socket) run in
        let e' = step-Serves base next s input r e p in
        let same_next : next + p.more ≡ next' =
          omega (arith, p.one, number, e'.sends.next, e'.span) in
        let same_base : base + p.d ≡ base' =
          omega (arith, ap pos_part (sym e'.sends.count ∙ count), e'.span) in
        subst₂ (λ b n. Serves b n r.sender) same_base same_next e'

    -- For a stream of payloads of at most 512 bytes, in every state that the sender reaches, if
    -- the file gives the next payload of the stream and the socket no packet but one that the
    -- receiver may send now, a turn of the loop returns. It sends nothing but packets of the
    -- stream, each from the first one without acknowledgement up to the newest; at most one of
    -- these is new, and at most 31 are without acknowledgement after the turn. A packet counts as
    -- acknowledged only when the datagram that has come is an acknowledgement of all packets up to
    -- some number behind it, or when it was so before the turn. The program exits only when all
    -- packets that it has read are acknowledged and the last of them is the empty one, which marks the
    -- end of the file; otherwise the new state is again one that the sender reaches.
    pub Reached-IsTurned :
        {base next : ℕ} {s : Sender}
        → Reached base next s
        → (memory : Pkt) (clock : ℕ → ℕ) (unread : ℕ) (input : Input) (now : ℕ)
        → IsNext data_of next input.file
        → IsExpected crc32 base (next - base) input.socket
        → Yields (IsTurned base next s input) (turn crc32 junk memory clock unread s input now)
    Reached-IsTurned {base} {next} {s} reached memory clock unread input now file socket =
        let e = Reached-Serves base next s reached in
        let (r, run, p) =
          Yields-inv (turn-step base next s e memory clock unread input now file socket) in
        let e' = step-Serves base next s input r e p in
        let few = few_in_flight data_of (base + p.d) r.sender e'.sends in
        let left : length e'.sends.flight ≡ next + p.more - (base + p.d) = omega (arith, e'.span) in
        rw run (
          yields (record {
            base' = base + p.d;
            next' = next + p.more;
            acknowledged = elim p.caused [
              | inl none_new ↦ inl (omega (arith, none_new))
              | inr ack ↦ inr ack
            ];
            all_read = ap (λ m. next + m) p.more_eq;
            in_flight = e'.sends.count ∙ ap pos left;
            forward = omega arith;
            one = (omega arith, omega (arith, p.one));
            narrow = (omega (arith, e'.span), omega (arith, e'.span));
            numbers = p.numbers;
            sent_eq = p.sent_eq;
            within = All-weaken _ _ _ (λ k (from, to). (from, omega (arith, e.span))) p.within;
            goes_on = λ goes.
                further reached memory clock unread input now file socket r run goes (base + p.d)
                  (next + p.more) (omega (arith, e'.span)) (omega arith) (omega (arith, p.one))
                  (e'.sends.next ∙ ap (λ n. n % 256) e'.span) (e'.sends.count ∙ ap pos left);
            exits_last = λ done.
                let (none, closed) = p.exits_last done in
                let (some_sent, empty) = e'.closed closed in
                (omega (arith, p.count, e.span, none), some_sent, empty);
          }))

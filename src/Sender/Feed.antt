-- ===== src/Sender/Feed.antt =====
-- The new data of a turn of sel_repeat_write.c.
use projet.Base.{
  ℕ, ◌+◌, ◌≤◌, ◌<◌, ◌≡◌, refl, ap, false, true, List, [], ◌∷◌, map, arith, length, All, Option,
  none, some, inl, inr, ◌⊎◌, sym, if◌then◌else◌,
}
use projet.Base.Exec.{Yields, yields, Yields-map, Yields-if}
use projet.Packet.{Pkt, max_window_size, max_payload_size}
use projet.Sender.{Sender, Reaction}
use projet.Sender.Loop.{may_send, read_file}
use projet.Sender.Flight.{datagram, Sends}
use projet.Sender.Send.{send_new-IsSent}

-- What the file has for the sender whose next packet has the number `next`: its payload, if the file
-- can be read.
abbrev pub IsNext : (ℕ → List ℕ) → ℕ → Option (List ℕ) → Type 0
IsNext data_of next none = Unit
IsNext data_of next (some bytes) = bytes ≡ data_of next

-- A sender that may read the file has a free slot.
may_send-room :
    (data_of : ℕ → List ℕ) (base : ℕ) (s : Sender) (e : Sends data_of base s)
    → may_send s ≡ true
    → (length e.flight < max_window_size) × (s.finish ≡ false)
unfolding may_send
may_send-room data_of base s e h =
    let count = e.count in
    let limit = e.limit in let free = rw count at h in (ground arith, ground arith)

-- How many payloads a turn takes from the file.
abbrev pub consumed : Sender → Option (List ℕ) → ℕ
consumed s none = 0
consumed s (some bytes) = if may_send s then 1 else 0

module _ (data_of : ℕ → List ℕ) (crc32 : List ℕ → ℕ) where
  -- The new data of a turn: nothing, or the next packet.
  pub record IsFed (base : ℕ) (s : Sender) (e : Sends data_of base s) (file : Option (List ℕ))
      (r : Reaction) : Type 0 where
    pub more : ℕ
    pub more_eq : more ≡ consumed s file
    pub one : more ≤ 1
    pub sends : Sends data_of base r.sender
    pub grown : length sends.flight ≡ length e.flight + more
    pub numbers : List ℕ
    pub sent_eq : r.sent ≡ map (datagram data_of crc32) numbers
    pub within : All (λ k. (base ≤ k) × (k < base + length sends.flight)) numbers
    pub ended :
        r.sender.finish ≡ true
        → (s.finish ≡ true) × (more ≡ 0)
          ⊎ (more ≡ 1) × (length (data_of (base + length e.flight)) ≡ 0)

module _ (data_of : ℕ → List ℕ) (short : (k : ℕ) → length (data_of k) ≤ max_payload_size)
    (crc32 : List ℕ → ℕ) (junk : ℕ) (memory : Pkt) (clock : ℕ → ℕ) (unread : ℕ) where
  nothing_new :
      (base : ℕ) (s : Sender) (e : Sends data_of base s) (file : Option (List ℕ))
      → consumed s file ≡ 0
      → IsFed data_of crc32 base s e file (record { sender = s; sent = []; exits = false })
  nothing_new base s e file none_read = record {
    more = 0;
    more_eq = sym none_read;
    one = omega arith;
    sends = e;
    grown = omega arith;
    numbers = [];
    sent_eq = refl;
    within = tt;
    ended = λ f. inl (f, refl);
  }

  pub read_file-IsFed :
      (base : ℕ) (s : Sender) (e : Sends data_of base s) (file : Option (List ℕ)) (now : ℕ)
      → IsNext data_of (base + length e.flight) file
      → Yields
          (IsFed data_of crc32 base s e file)
          (read_file crc32 junk memory clock unread s file now)
  unfolding read_file
  read_file-IsFed base s e none now next = yields (nothing_new base s e none refl)
  read_file-IsFed base s e (some bytes) now next =
      Yields-if (may_send s)
        (λ free.
          let (room, unfinished) = may_send-room data_of base s e free in
          let n = base + length e.flight in
          Yields-map
            (send_new-IsSent data_of crc32 junk memory (clock now) unread base s e room bytes next
              (omega (arith, short n, ap length next)))
            λ r sent. record {
              more = 1;
              more_eq = rw free refl;
              one = omega arith;
              sends = sent.sends;
              grown = sent.more;
              numbers = n ∷ [];
              sent_eq = sent.datagram;
              within = ((omega arith, omega (arith, sent.more)), tt);
              ended = λ f. inr (refl, ground (arith, ap length next, sent.ended, f, unfinished));
            })
        λ full. yields (nothing_new base s e (some bytes) (rw full refl))

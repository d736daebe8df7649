-- ===== src/Protocol/System/Flow.antt =====
-- The packets on the way to the receiver, in the order in which the sender has sent them.
use projet.Base.{ℕ, ◌+◌, ◌≤◌, ◌<◌, ◌≡◌, refl, List, [], ◌∷◌, ◌++◌, map, arith, All}
use projet.Sender.Flight.{datagram}

-- The bytes come from the packet number `k`. When it was sent, the packets up to `high` had been
-- sent; the window was at most 31, and the receiver did not expect a number after `n`.
pub record IsPassing (P : ℕ → List ℕ → Type 0) (n low : ℕ) (bytes : List ℕ) : Type 0 where
  pub k : ℕ
  pub high : ℕ
  pub later : low ≤ high
  pub sent_then : k < high
  pub near : high ≤ k + 31
  pub close : high ≤ n + 31
  pub holds : P k bytes

-- The numbers `high` do not go down, from the first bound on, and are at most the second.
abbrev pub Flow : (ℕ → List ℕ → Type 0) → ℕ → ℕ → ℕ → List (List ℕ) → Type 0
Flow P n low top [] = low ≤ top
Flow P n low top (bytes ∷ queue) = (p : IsPassing P n low bytes) × Flow P n p.high top queue

module _ (P : ℕ → List ℕ → Type 0) where
  pub Flow-bounds : (n low top : ℕ) (queue : List (List ℕ)) → Flow P n low top queue → low ≤ top
  Flow-bounds n low top [] f = f
  Flow-bounds n low top (bytes ∷ queue) (p, f) =
      omega (arith, p.later, Flow-bounds n p.high top queue f)

  pub Flow-lower :
      (n low low' top : ℕ) (queue : List (List ℕ))
      → low' ≤ low
      → Flow P n low top queue
      → Flow P n low' top queue
  Flow-lower n low low' top [] h f = omega arith
  Flow-lower n low low' top (bytes ∷ queue) h (p, f) = (
    record {
      k = p.k;
      high = p.high;
      later = omega (arith, p.later);
      sent_then = p.sent_then;
      near = p.near;
      close = p.close;
      holds = p.holds;
    },
    f,
  )

  -- The receiver has come further.
  pub Flow-later :
      (n n' low top : ℕ) (queue : List (List ℕ))
      → n ≤ n'
      → Flow P n low top queue
      → Flow P n' low top queue
  Flow-later n n' low top [] h f = f
  Flow-later n n' low top (bytes ∷ queue) h (p, f) = (
    record {
      k = p.k;
      high = p.high;
      later = p.later;
      sent_then = p.sent_then;
      near = p.near;
      close = omega (arith, p.close);
      holds = p.holds;
    },
    Flow-later n n' p.high top queue h f,
  )

  pub Flow-append :
      (n low mid top : ℕ) (front back : List (List ℕ))
      → Flow P n low mid front
      → Flow P n mid top back
      → Flow P n low top (front ++ back)
  Flow-append n low mid top [] back f g = Flow-lower n mid low top back f g
  Flow-append n low mid top (bytes ∷ front) back (p, f) g =
      (p, Flow-append n p.high mid top front back f g)

module _ (data_of : ℕ → List ℕ) (crc32 : List ℕ → ℕ) where
  -- The bytes are the packet number `k` of the stream.
  abbrev pub IsSent : ℕ → List ℕ → Type 0
  IsSent k bytes = bytes ≡ datagram data_of crc32 k

  -- What a turn of the sender sends: packets from `base` on, up to `high`.
  pub Flow-IsSent :
      (n base low high : ℕ) (numbers : List ℕ)
      → base ≤ n
      → low ≤ high
      → high ≤ base + 31
      → All (λ k. (base ≤ k) × (k < high)) numbers
      → Flow IsSent n low high (map (datagram data_of crc32) numbers)
  Flow-IsSent n base low high [] b h few all = h
  Flow-IsSent n base low high (k ∷ numbers) b h few ((from, to), all) = (
    record {
      k = k;
      high = high;
      later = h;
      sent_then = to;
      near = omega arith;
      close = omega arith;
      holds = refl;
    },
    Flow-IsSent n base high high numbers b (omega arith) few all,
  )

-- ===== src/Protocol/System/Relay.antt =====
-- What a link without delay of linksim/link_sim.c leaves of a datagram, and its addresses.
use mathlib.Core.Path.{subst}
use projet.Base.{
  ℕ, ◌≤◌, ◌≡◌, refl, sym, ap, Bool, true, false, none, some, List, [], ◌∷◌, arith, length, take,
  if◌then◌else◌, le→ltb,
}
use projet.Base.Exec.{ok, Yields, yields, Yields-map}
use projet.Base.Array.{prefix}
use projet.Link.{
  Settings, World, Sending, sent_all, retry, failed, Timeval, Queue, Outcome, write_out, forward,
  simulate_link,
}
use projet.Link.Effect.{inverted, simulate_link-cases}
use projet.Link.Proxy.{SockaddrIn6, differ, sockaddr_cmp}

-- What arrives of a packet: all of it, its header, or all with the last byte inverted.
pub data Arriving (bytes : List ℕ) : List ℕ → Type 0 where
  intact : Arriving bytes bytes
  cut : Arriving bytes (take 4 bytes)
  corrupted : Arriving bytes (inverted bytes)

pub differ_refl : (xs : List ℕ) → differ xs xs ≡ false
differ_refl [] = refl
differ_refl (x ∷ xs) = let rest = differ_refl xs in ground arith

differ_sym : (xs ys : List ℕ) → differ xs ys ≡ differ ys xs
differ_sym [] [] = refl
differ_sym [] (y ∷ ys) = refl
differ_sym (x ∷ xs) [] = refl
differ_sym (x ∷ xs) (y ∷ ys) = let rest = differ_sym xs ys in ground arith

pub sockaddr_cmp_refl : (a : SockaddrIn6) → sockaddr_cmp a a ≡ false
unfolding sockaddr_cmp
sockaddr_cmp_refl a = let same = differ_refl a.sin6_addr in ground arith

pub sockaddr_cmp_sym : (a b : SockaddrIn6) → sockaddr_cmp a b ≡ sockaddr_cmp b a
unfolding sockaddr_cmp
sockaddr_cmp_sym a b = let same = differ_sym a.sin6_addr b.sin6_addr in ground arith

chosen :
    (lost short bad : Bool) (buf bytes : List ℕ)
    → (if lost
        then none
        else if short
        then some (take 4 buf)
        else if bad
        then some (inverted buf)
        else some buf)
      ≡ some bytes
    → Arriving buf bytes
chosen true short bad buf bytes e = absurd cc
chosen false true bad buf bytes e =
    let same : take 4 buf ≡ bytes = cc in subst (Arriving buf) same cut
chosen false false true buf bytes e =
    let same : inverted buf ≡ bytes = cc in subst (Arriving buf) same corrupted
chosen false false false buf bytes e =
    let same : buf ≡ bytes = cc in subst (Arriving buf) same intact

-- At most one datagram goes out, and it satisfies `P`.
pub data AtMost (P : List ℕ → Type 0) : List (List ℕ) → Type 0 where
  nothing : AtMost P []
  just_one : (bytes : List ℕ) → P bytes → AtMost P (bytes ∷ [])

AtMost-map :
    {P Q : List ℕ → Type 0}
    → ((b : List ℕ) → P b → Q b)
    → (bs : List (List ℕ)) → AtMost P bs
    → AtMost Q bs
AtMost-map f _ nothing = nothing
AtMost-map f _ (just_one b p) = just_one b (f b p)

sent_now :
    (sending : Sending) (q : Queue) (bytes : List ℕ)
    → Yields
        (λ (o : Outcome). AtMost (λ b. b ≡ bytes) o.sent)
        (elim sending [
          | sent_all ↦ ok (record { success = true; pkt_queue = q; sent = bytes ∷ [] })
          | retry ↦ ok (record { success = false; pkt_queue = q; sent = [] })
          | failed ↦ ok (record { success = false; pkt_queue = q; sent = [] })
        ])
sent_now sent_all q bytes = yields (just_one bytes refl)
sent_now retry q bytes = yields nothing
sent_now failed q bytes = yields nothing

module _ (rand : ℕ → ℕ) (settings : Settings) (world : World) where
  forward-AtMost :
      (clock : Timeval) (q : Queue) (draw : ℕ) (buf : List ℕ) (len : ℕ)
      → settings.delay ≡ 0
      → len ≤ length buf
      → Yields
          (λ (o : Outcome). AtMost (λ b. b ≡ take len buf) o.sent)
          (forward rand settings world clock q draw buf len)
  unfolding forward write_out prefix
  forward-AtMost clock q draw buf len undelayed h =
      rw (undelayed, le→ltb (length buf) len h) (sent_now world.sending q (take len buf))

  -- On a link without delay, whether the sending succeeds or not.
  pub simulate_link-AtMost :
      (clock : Timeval) (q : Queue) (buf : List ℕ)
      → settings.delay ≡ 0
      → 4 ≤ length buf
      → Yields
          (λ (o : Outcome). AtMost (Arriving buf) o.sent)
          (simulate_link rand settings world clock q 0 buf (length buf))
  simulate_link-AtMost clock q buf undelayed h =
      Yields-map
        (simulate_link-cases rand settings world clock q
          (λ f m. Yields (λ (o : Outcome). AtMost (λ b. f ≡ some b) o.sent) m) buf h
          (yields nothing)
          λ draw len buf' inside same.
            Yields-map (forward-AtMost clock q draw buf' len undelayed inside)
              λ o one. AtMost-map (λ b e. ap some (sym e)) o.sent one)
        λ o one. AtMost-map (λ b e. chosen _ _ _ buf b e) o.sent one

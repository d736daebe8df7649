-- ===== src/Protocol/System/Passing.antt =====
-- What the proxy of linksim/link_sim.c, on a link without delay, sends on of a datagram.
use projet.Base.{
  ℕ, zero, suc, map, ◌≤◌, ◌≡◌, refl, ap, ◌∙◌, true, false, ◌⊎◌, inl, inr, List, [], ◌∷◌, arith,
  length, take, le→ltb, Bool-cases,
}
use projet.Base.Exec.{ok, Yields, yields, Yields-bind}
use projet.Base.Array.{prefix}
use projet.Link.{Settings, World, Sending, sent_all, retry, failed}
use projet.Link.Proxy.{
  SockaddrIn6, sockaddr_cmp, Proxy, Step, datagram, track_source, process_pkt, process_incoming_pkt,
}
use projet.Protocol.System.Relay.{
  Arriving, AtMost, nothing, just_one, sockaddr_cmp_refl, simulate_link-AtMost,
}

-- The proxy knows both sides, and has sent at most one datagram, to the address `to`.
pub record IsRelayed (host source to : SockaddrIn6) (P : List ℕ → Type 0) (r : Step) : Type 0 where
  pub host_eq : r.proxy.dest_addr ≡ host
  pub known : r.proxy.has_source_addr ≡ true
  pub source_eq : r.proxy.src_addr ≡ source
  pub out : List (List ℕ)
  pub sent_eq : r.sent ≡ map (λ bytes. (to, bytes)) out
  pub one : AtMost P out

take_all : (n : ℕ) (xs : List ℕ) → length xs ≤ n → take n xs ≡ xs
take_all zero [] h = refl
take_all (suc n) [] h = refl
take_all zero (x ∷ xs) h = absurd (omega arith)
take_all (suc n) (x ∷ xs) h = ap (◌∷◌ x) (take_all n xs (omega arith))

track_source-of :
    (proxy : Proxy) (from : SockaddrIn6)
    → (proxy.has_source_addr ≡ false) ⊎ (proxy.src_addr ≡ from)
    → ((track_source proxy from).dest_addr ≡ proxy.dest_addr)
      × ((track_source proxy from).has_source_addr ≡ true)
      × ((track_source proxy from).src_addr ≡ from)
unfolding track_source
track_source-of proxy from source = elim (Bool-cases proxy.has_source_addr) [
  | inl known ↦ elim source [ inl unknown ↦ absurd cc | inr same ↦ rw known (refl, refl, same) ]
  | inr unknown ↦ rw unknown (refl, refl, refl)
]

answered :
    (sending : Sending) (proxy : Proxy) (host source : SockaddrIn6) (bytes : List ℕ)
    → proxy.dest_addr ≡ host
    → proxy.has_source_addr ≡ true
    → proxy.src_addr ≡ source
    → Yields (IsRelayed host source source (λ b. b ≡ bytes)) (elim sending [
      | sent_all ↦ ok (record {
        success = true;
        proxy = proxy;
        sent = (proxy.src_addr, take (length bytes) bytes) ∷ [];
      })
      | _ ↦ ok (record { success = false; proxy = proxy; sent = [] })
    ])
answered sent_all proxy host source bytes named known same = yields (record {
  host_eq = named;
  known = known;
  source_eq = same;
  out = bytes ∷ [];
  sent_eq = rw (same, take_all (length bytes) bytes (omega arith)) refl;
  one = just_one bytes refl;
})
answered retry proxy host source bytes named known same = yields (record {
  host_eq = named;
  known = known;
  source_eq = same;
  out = [];
  sent_eq = refl;
  one = nothing;
})
answered failed proxy host source bytes named known same = yields (record {
  host_eq = named;
  known = known;
  source_eq = same;
  out = [];
  sent_eq = refl;
  one = nothing;
})

module _ (rand : ℕ → ℕ) (settings : Settings) (world : World) where
  -- What is left of a packet of the sender goes to the host.
  pub packet-IsRelayed :
      (proxy : Proxy) (from : SockaddrIn6) (bytes : List ℕ)
      → settings.delay ≡ 0
      → 4 ≤ length bytes
      → length bytes ≤ 520
      → sockaddr_cmp from proxy.dest_addr ≡ true
      → (proxy.has_source_addr ≡ false) ⊎ (proxy.src_addr ≡ from)
      → Yields
          (IsRelayed proxy.dest_addr from proxy.dest_addr (Arriving bytes))
          (process_incoming_pkt rand settings world proxy (datagram from bytes))
  unfolding process_incoming_pkt process_pkt
  packet-IsRelayed proxy from bytes undelayed least most apart source =
      let (same_host, known, same_source) = track_source-of proxy from source in
      let other : sockaddr_cmp from (track_source proxy from).dest_addr ≡ true =
        rw same_host apart in
      let own : sockaddr_cmp from (track_source proxy from).src_addr ≡ false =
        rw same_source (sockaddr_cmp_refl from) in
      rw (take_all 520 bytes most, le→ltb (length bytes) 4 least, other, own)
        (Yields-bind
          (simulate_link-AtMost rand settings world (track_source proxy from).last_clock
            (track_source proxy from).pkt_queue bytes undelayed least)
          λ o one. yields (record {
            host_eq = same_host;
            known = known;
            source_eq = same_source;
            out = o.sent;
            sent_eq = rw same_host refl;
            one = one;
          }))

  known_proxy :
      (proxy : Proxy) (from : SockaddrIn6)
      → proxy.has_source_addr ≡ true
      → track_source proxy from ≡ proxy
  unfolding track_source
  known_proxy proxy from known = rw known refl

  -- An answer of the host goes to the source.
  pub answer-IsRelayed :
      (proxy : Proxy) (host source : SockaddrIn6) (bytes : List ℕ)
      → 4 ≤ length bytes
      → length bytes ≤ 520
      → proxy.dest_addr ≡ host
      → proxy.has_source_addr ≡ true
      → proxy.src_addr ≡ source
      → Yields
          (IsRelayed host source source (λ b. b ≡ bytes))
          (process_incoming_pkt rand settings world proxy (datagram host bytes))
  unfolding process_incoming_pkt process_pkt prefix
  answer-IsRelayed proxy host source bytes least most named known same =
      let proxy' = track_source proxy host in
      let same_proxy : proxy' ≡ proxy = known_proxy proxy host known in
      let same_host : proxy'.dest_addr ≡ host =
        ap (λ (p : Proxy). p.dest_addr) same_proxy ∙ named in
      let own : sockaddr_cmp host proxy'.dest_addr ≡ false =
        rw same_host (sockaddr_cmp_refl host) in
      let now_known : proxy'.has_source_addr ≡ true =
        ap (λ (p : Proxy). p.has_source_addr) same_proxy ∙ known in
      let same_source : proxy'.src_addr ≡ source =
        ap (λ (p : Proxy). p.src_addr) same_proxy ∙ same in
      rw
        (
          take_all 520 bytes most,
          le→ltb (length bytes) 4 least,
          own,
          le→ltb (length bytes) (length bytes) (omega arith),
        )
        (answered world.sending proxy' host source bytes same_host now_known same_source)

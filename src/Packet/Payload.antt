-- ===== src/Packet/Payload.antt =====
-- The padding, and the payload that `pkt_set_payload` stores.
use projet.Base.{
  ℕ, ◌≤◌, ◌<◌, lt→ltb, ◌≡◌, refl, sym, ap, ◌∙◌, List, [], ◌++◌, arith, length, length-replicate,
  le→ltb, replicate, replicate-add, append-nil,
}
use projet.Base.Exec.{ok}
use projet.Base.Array.{copy-append, fill-rest}
use projet.Packet.{Pkt, pkt_ok, e_length, block, max_payload_size, padding_of, pkt_set_payload}
use projet.Packet.Wire.{gap}

pub padding_of-eq-gap : (n : ℕ) → padding_of n ≡ gap n
unfolding padding_of
padding_of-eq-gap n = ground arith

-- The setter accepts up to 512 bytes: the block then holds the payload and the padding of zeros, the
-- length becomes that of the payload, and the other fields stay.
pub pkt_set_payload-ok :
    (junk : ℕ) (pkt : Pkt) (payload beyond : List ℕ)
    → length payload ≤ max_payload_size
    → pkt_set_payload junk pkt (payload ++ beyond) (length payload)
      ≡ ok (
        pkt_ok,
        record pkt {
          payload = block (payload ++ replicate (gap (length payload)) 0);
          length = length payload;
        },
      )
unfolding pkt_set_payload
pkt_set_payload-ok junk pkt payload beyond h =
    let n = length payload in
    rw (
      le→ltb max_payload_size n h,
      padding_of-eq-gap n,
      replicate-add n (gap n) junk,
      copy-append [] (replicate n junk) (replicate (gap n) junk) [] payload beyond refl
          (length-replicate n junk) refl refl,
      fill-rest payload (replicate (gap n) junk) 0 (sym (length-replicate (gap n) junk)) refl,
    )

-- A longer payload is refused.
pub pkt_set_payload-long :
    (junk : ℕ) (pkt : Pkt) (bytes : List ℕ) (n : ℕ)
    → max_payload_size < n
    → pkt_set_payload junk pkt bytes n ≡ ok (e_length, pkt)
unfolding pkt_set_payload
pkt_set_payload-long junk pkt bytes n h = rw (lt→ltb max_payload_size n h) refl

pub pkt_set_payload-whole :
    (junk : ℕ) (pkt : Pkt) (payload : List ℕ)
    → length payload ≤ max_payload_size
    → pkt_set_payload junk pkt payload (length payload)
      ≡ ok (
        pkt_ok,
        record pkt {
          payload = block (payload ++ replicate (gap (length payload)) 0);
          length = length payload;
        },
      )
pkt_set_payload-whole junk pkt payload h =
    ap (λ bytes. pkt_set_payload junk pkt bytes (length payload)) (sym (append-nil payload))
    ∙ pkt_set_payload-ok junk pkt payload [] h

-- ===== src/Packet/Encode/Room.antt =====
-- What `pkt_encode` does with a buffer that is too small: it never answers.
use projet.Base.{ℕ, ◌+◌, ◌≤◌, ◌<◌, ◌≡◌, ◌≢◌, List, arith, length, ltb}
use projet.Base.Exec.{
  Exec, ok, ◌>>=◌, OnReturn, OnReturn-bind, OnReturn-map, OnReturn-if, OnReturn-elim, OnReturn-any,
}
use projet.Base.Array.{store, copy, fill, prefix, store-inside, copy-length, fill-length}
use projet.Base.Word.{u16}
use projet.Packet.{Pkt, bytes_at, padding_of, pkt_get_length}
use projet.Packet.Encode.{Encoded, store_crc, pkt_encode}

-- A store that returns, followed by code of which something is known for every array of that size.
after_store {κ} :
    {B : Type 0} (Q : B → Type κ) (a : List ℕ) (i v : ℕ) (next : List ℕ → Exec B)
    → ((b : List ℕ) → i < length a → length b ≡ length a → OnReturn Q (next b))
    → OnReturn Q (store a i v >>= next)
after_store Q a i v next keep =
    OnReturn-bind _ Q (store a i v) next (store-inside a i v) λ b at. keep b at.0 at.1

store_crc-inside :
    (buf : List ℕ) (at crc : ℕ) → OnReturn (λ b. at + 4 ≤ length buf) (store_crc buf at crc)
unfolding store_crc
store_crc-inside buf at crc = after_store _ buf at _ _ λ b₀ i₀ e₀.
    after_store _ b₀ (at + 1) _ _ λ b₁ i₁ e₁. after_store _ b₁ (at + 2) _ _ λ b₂ i₂ e₂.
      OnReturn-map _ _ (store b₂ (at + 3) _) (store-inside b₂ (at + 3) _) λ b₃ last. omega arith

-- A call that returns, with whatever status, had a buffer with room for the whole packet.
pkt_encode-inside :
    (crc32 : List ℕ → ℕ) (pkt : Pkt) (buf : List ℕ) (len : ℕ)
    → OnReturn
        (λ _. 8 + pkt.length + padding_of pkt.length ≤ length buf)
        (pkt_encode crc32 pkt buf len)
unfolding pkt_encode pkt_get_length
pkt_encode-inside crc32 pkt buf len = after_store _ buf 0 _ _ λ b₀ i₀ e₀.
    after_store _ b₀ 1 _ _ λ b₁ i₁ e₁. after_store _ b₁ 2 _ _ λ b₂ i₂ e₂.
      after_store _ b₂ 3 _ _ λ b₃ i₃ e₃.
        OnReturn-bind _ _ (copy n b₃ 4 (bytes_at pkt.payload) 0) _
          (copy-length n b₃ 4 (bytes_at pkt.payload) 0)
          λ b₄ e₄. OnReturn-bind _ _ (fill g b₄ (4 + n) 0) _ (fill-length g b₄ (4 + n) 0) λ b₅ e₅.
            OnReturn-bind _ _ (prefix b₅ (n + 4 + g)) _ (OnReturn-any _) λ bytes _.
              OnReturn-bind _ _ (store_crc b₅ (4 + n + g) _) _ (store_crc-inside b₅ (4 + n + g) _)
                λ b₆ room.
                  OnReturn-if _ (ltb (u16 len) (8 + n + g)) _ _ (λ _. omega arith)
                    (λ _. omega arith)
  where
    n : ℕ
    n = pkt.length

    g : ℕ
    g = padding_of pkt.length

-- On a buffer that is smaller than the packet the call returns nothing, E_NOMEM included: some
-- store falls outside the buffer before the size is compared.
pub pkt_encode-small :
    (crc32 : List ℕ → ℕ) (pkt : Pkt) (buf : List ℕ) (len : ℕ) (e : Encoded)
    → length buf < 8 + pkt.length + padding_of pkt.length
    → pkt_encode crc32 pkt buf len ≢ ok e
pkt_encode-small crc32 pkt buf len e small returned = absurd (
    omega (
      arith,
      OnReturn-elim _ (pkt_encode crc32 pkt buf len) (pkt_encode-inside crc32 pkt buf len) returned,
    ))

-- ===== src/Receiver.antt =====
-- sel_repeat_read.c: the receiver of the selective repeat. `read` and `write` on the two
-- descriptors are the datagram that a round is given and the list of what it writes.
pub mod Seqnum
pub mod Control
pub mod Refresh
pub mod Insert
pub mod Stream
pub mod Drain
pub mod Handled
pub mod Accept
pub mod Handle
pub mod Round
pub mod Run
pub mod Horizon
pub mod Genuine
mod Tests
use projet.Base.{
  ℕ, zero, suc, ◌+◌, ◌-◌, ◌%◌, Bool, true, false, not, ◌&&◌, Option, none, some, List, [], ◌∷◌, leb,
  ◌==◌, if◌then◌else◌, replicate,
}
use projet.Base.Exec.{Exec, ok, ◌>>=◌}
use projet.Base.Array.{load, store, prefix, fill}
use projet.Base.Int.{ℤ, pos, negsuc, sub_ℕ, ltb_ℤ, ◌+ℤ◌, ◌-ℤ◌}
use projet.Packet.{
  Pkt, Status, pkt_ok, e_noheader, e_unconsistent, ptype_ack, ptype_nack, max_window_size, bytes_at,
  pkt_new, pkt_del, pkt_get_seqnum, pkt_get_length, pkt_get_payload, pkt_set_type, pkt_set_window,
  pkt_set_seqnum, pkt_set_length,
}
use projet.Packet.Encode.{Encoded, pkt_encode}
use projet.Packet.Decode.{pkt_decode, failed, is_noheader}

-- The conversion of an `int` to `uint8_t`.
abbrev pub u8_ℤ : ℤ → ℕ
u8_ℤ (pos n) = n % 256
u8_ℤ (negsuc n) = 255 - n % 256

unfoldable pub compare_seqnums : ℕ → ℕ → ℕ → ℤ
compare_seqnums lastack seqnum1 seqnum2 =
    let n1 = if leb seqnum1 lastack then seqnum1 + 256 else seqnum1 in
    let n2 = if leb seqnum2 lastack then seqnum2 + 256 else seqnum2 in sub_ℕ n1 n2

-- `receive_buffer`: a slot is NULL or owns a packet.
abbrev pub Buffer : Type 0
Buffer = List (Option Pkt)

-- `for (j = 0; j + i < MAX_WINDOW_SIZE; j++) buffer[j] = buffer[j + i];` The first argument counts
-- the rounds.
unfoldable pub shift_down : ℕ → ℕ → ℕ → Buffer → Exec Buffer
shift_down zero i j buffer = ok buffer
shift_down (suc n) i j buffer = do
  slot ← load buffer (j + i)
  buffer' ← store buffer j slot
  shift_down n i (j + 1) buffer'

-- The loop of `refresh` from `i` on, with `n` rounds left.
unfoldable pub refresh_loop : ℕ → ℕ → Buffer → Exec Buffer
refresh_loop zero i buffer = ok buffer
refresh_loop (suc n) i buffer = load buffer i >>= λ slot. elim slot [
  | none ↦ refresh_loop n (i + 1) buffer
  | some pkt ↦ do
    buffer' ← shift_down (max_window_size - i) i 0 buffer
    fill i buffer' (max_window_size - i) none
]

unfoldable pub refresh : Buffer → Exec Buffer
refresh buffer = refresh_loop max_window_size 0 buffer

-- The slots from `at` on move up by one, `this` going into the first; `n` rounds.
unfoldable pub shift_up : ℕ → ℕ → Option Pkt → Buffer → Exec Buffer
shift_up zero at this buffer = ok buffer
shift_up (suc n) at this buffer = do
  next ← load buffer at
  buffer' ← store buffer at this
  shift_up n (at + 1) next buffer'

-- The loop of `insert_pkt` from `i` on, with `n` rounds left.
unfoldable pub insert_loop : ℕ → ℕ → ℕ → Buffer → Pkt → ℤ → Exec (Buffer × ℤ)
insert_loop zero i lastack buffer pkt window_size = ok (buffer, window_size)
insert_loop (suc n) i lastack buffer pkt window_size = load buffer i >>= λ slot. elim slot [
  | none ↦ do buffer' ← store buffer i (some pkt); ok (buffer', window_size -ℤ pos 1)
  | some other ↦
      let order = compare_seqnums lastack (pkt_get_seqnum pkt) (pkt_get_seqnum other) in
      let rest = insert_loop n (i + 1) lastack buffer pkt window_size in
      if not (ltb_ℤ order (pos 0)) && not (ltb_ℤ (pos 0) order)
      then (pkt_del pkt >>= λ _. ok (buffer, window_size))
      else if ltb_ℤ order (pos 0)
      then (do
        buffer₁ ← store buffer i (some pkt)
        buffer₂ ← shift_up (max_window_size - i - 1) (i + 1) (some other) buffer₁
        ok (buffer₂, window_size -ℤ pos 1))
      else rest
]

unfoldable pub insert_pkt : ℕ → Buffer → Pkt → ℤ → Exec (Buffer × ℤ)
insert_pkt lastack buffer pkt window_size =
    insert_loop max_window_size 0 lastack buffer pkt window_size

-- `receive_buffer[0] == NULL;` compares and discards, so the slot keeps the pointer to the released
-- packet.
unfoldable pub remove_from_buffer : Buffer → ℕ → ℤ → Exec (Buffer × ℤ)
remove_from_buffer buffer seqnum window_size = load buffer 0 >>= λ slot. elim slot [
  | none ↦ ok (buffer, window_size)
  | some first ↦
      if pkt_get_seqnum first == seqnum
      then (do
        gone ← pkt_del first
        dangling ← store buffer 0 (some gone)
        buffer' ← refresh dangling
        ok (buffer', window_size +ℤ pos 1))
      else ok (buffer, window_size)
]

-- `write_payload`: the bytes that it writes.
unfoldable pub write_payload : Pkt → Exec (List ℕ)
write_payload pkt = prefix (bytes_at (pkt_get_payload pkt)) (pkt_get_length pkt)

-- What the receiver writes: bytes on the standard output, or a datagram to the sender.
pub data Output : Type 0 where
  delivered sent : List ℕ → Output

-- The variables of `sel_repeat_read`.
pub record Receiver : Type 0 where
  pub lastack : ℕ
  pub window_size : ℤ
  pub receive_buffer : Buffer

unfoldable pub start : Receiver
start = record {
  lastack = 255;
  window_size = pos max_window_size;
  receive_buffer = replicate max_window_size none;
}

abbrev pub is_unconsistent : Status → Bool
is_unconsistent e_unconsistent = true
is_unconsistent _ = false

-- `memory` is what a fresh packet structure holds.
module _ (crc32 : List ℕ → ℕ) (junk : ℕ) (memory : Pkt) where
  -- What `send_ack` and `send_nack` share: the bytes of a packet without payload.
  unfoldable pub control_packet : ℕ → ℕ → ℤ → Exec (List ℕ)
  control_packet type seqnum window_size =
      let (_, pkt₁) = pkt_set_type (pkt_new memory) type in
      let (_, pkt₂) = pkt_set_window pkt₁ (u8_ℤ window_size) in
      let (_, pkt₃) = pkt_set_seqnum pkt₂ seqnum in
      let (_, pkt₄) = pkt_set_length pkt₃ 0 in
      pkt_encode crc32 pkt₄ (replicate 8 junk) 8 >>= λ encoded. prefix encoded.buf encoded.len

  unfoldable pub send_ack : ℕ → ℤ → Exec (List ℕ)
  send_ack lastack window_size = control_packet ptype_ack ((lastack + 1) % 256) window_size

  unfoldable pub send_nack : ℕ → ℤ → Exec (List ℕ)
  send_nack seqnum window_size = control_packet ptype_nack (seqnum % 256) window_size

  -- The loop that writes the buffered packets that follow `lastack`.
  unfoldable pub drain : ℕ → ℕ → Receiver → Exec (Receiver × List Output)
  drain zero i r = ok (r, [])
  drain (suc n) i r = load r.receive_buffer i >>= λ slot. elim slot [
    | none ↦ do ack ← send_ack r.lastack r.window_size; ok (r, sent ack ∷ [])
    | some pkt ↦
        let next = (r.lastack + 1) % 256 in
        if pkt_get_seqnum pkt == next
        then (do
          bytes ← write_payload pkt
          _ ← pkt_del pkt
          buffer ← store r.receive_buffer i none
          let r' : Receiver = record {
            lastack = next;
            window_size = r.window_size +ℤ pos 1;
            receive_buffer = buffer;
          }
          ack ← send_ack r'.lastack r'.window_size
          (r'', out) ← drain n (i + 1) r'
          ok (r'', delivered bytes ∷ sent ack ∷ out))
        else (do ack ← send_ack r.lastack r.window_size; ok (r, sent ack ∷ []))
  ]

  -- The expected packet has come.
  unfoldable pub accept : Receiver → Pkt → Exec (Receiver × List Output)
  accept r pkt =
      let next = (r.lastack + 1) % 256 in
      do
        bytes ← write_payload pkt
        _ ← pkt_del pkt
        (buffer, window_size) ← remove_from_buffer r.receive_buffer next r.window_size
        (r', out) ←
            drain max_window_size 0
              (record { lastack = next; window_size = window_size; receive_buffer = buffer })
        ok (r', delivered bytes ∷ out)

  -- A packet whose header could be read.
  unfoldable pub handle : Receiver → ℕ → Status → Pkt → Exec (Receiver × List Output)
  handle r sdu_size err pkt =
      let next = (r.lastack + 1) % 256 in
      if not (ltb_ℤ (compare_seqnums r.lastack (pkt_get_seqnum pkt) next) (pos max_window_size))
      then ok (r, [])
      else if failed err
      then (if is_unconsistent err && sdu_size == 4
          then (do nack ← send_nack (pkt_get_seqnum pkt) r.window_size; ok (r, sent nack ∷ []))
          else ok (r, []))
      else if pkt_get_seqnum pkt == next
      then accept r pkt
      else (do
        (buffer, window_size) ← insert_pkt r.lastack r.receive_buffer pkt r.window_size
        ok (record r { window_size = window_size; receive_buffer = buffer }, []))

  -- One round of the loop of `sel_repeat_read`, for a datagram of `sdu_size` bytes that `read` has
  -- put in `pkt_buffer`.
  unfoldable pub round : Receiver → List ℕ → ℕ → Exec (Receiver × List Output)
  round r pkt_buffer sdu_size = do
    (err, pkt) ← pkt_decode crc32 junk pkt_buffer sdu_size (pkt_new memory)
    (r', out) ←
        if is_noheader err then (pkt_del pkt >>= λ _. ok (r, [])) else handle r sdu_size err pkt
    buffer ← refresh r'.receive_buffer
    ok (record r' { receive_buffer = buffer }, out)

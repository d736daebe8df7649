-- ===== src/Sender/Loop.antt =====
-- The loop of sel_repeat_write.c: its start, the timers, and a turn.
use projet.Base.{
  ℕ, zero, suc, ◌+◌, Bool, false, ◌&&◌, ◌||◌, Option, none, some, List, [], ◌∷◌, ◌++◌, length, take,
  replicate, ltb, ◌==◌, if◌then◌else◌, not,
}
use projet.Base.Exec.{Exec, ok, ◌>>=◌}
use projet.Base.Array.{load, store}
use projet.Base.Int.{pos, pos_part, ltb_ℤ}
use projet.Packet.{Pkt, max_window_size}
use projet.Sender.{
  Sender, Slot, unset, timer, timer_of, PktTimer, Reaction, is_zero, encode_out, send_new,
  on_answer,
}

module _ (crc32 : List ℕ → ℕ) (junk : ℕ) where
  -- One turn of the loop over the timers: a packet whose last sending is more than five seconds ago
  -- is sent again. The clock is read at `now`, and once more for the new start.
  unfoldable pub check_timer : (ℕ → ℕ) → ℕ → List Slot → ℕ → Exec (ℕ × (List Slot × List (List ℕ)))
  check_timer clock now window i = do
    slot ← load window i
    t ← timer_of slot
    let t' : PktTimer = record t { finish = clock now }
    window' ← store window i (timer t')
    let resend : Exec (ℕ × (List Slot × List (List ℕ))) = do
      window'' ← store window' i (timer (record t' { start = clock (now + 1) }))
      bytes ← encode_out crc32 junk t.packet
      ok (now + 2, (window'', bytes ∷ []))
    if ltb (t.start + 5) (clock now) then resend else ok (now + 1, (window', []))

  -- The loop from `i` on, with `n` rounds left. Its result is the number of the next reading of the
  -- clock, the window, and the datagrams sent.
  unfoldable pub check_timers :
      ℕ → (ℕ → ℕ) → ℕ → List Slot → ℕ → Exec (ℕ × (List Slot × List (List ℕ)))
  check_timers zero clock now window i = ok (now, (window, []))
  check_timers (suc n) clock now window i = do
    (now', (window', sent)) ← check_timer clock now window i
    (now'', (window'', more)) ← check_timers n clock now' window' (i + 1)
    ok (now'', (window'', sent ++ more))

-- Whether the file may be read: the window is not full, or it is empty and the receiver has none.
unfoldable pub may_send : Sender → Bool
may_send s =
    (ltb_ℤ s.current_index_window (pos s.limited_window_size) && not s.finish)
    || (s.limited_window_size == 0 && is_zero s.current_index_window && not s.finish)

-- The start of `sel_repeat_write`: no slot of the window has been set.
unfoldable pub begin : Sender
begin = record {
  seqnum = 0;
  window = replicate max_window_size unset;
  current_index_window = pos 0;
  limited_window_size = max_window_size;
  finish = false;
}

-- What a turn of the loop finds: the bytes that `read` gives of the file, at most 512 and none at its
-- end, if it can be read, and the datagram that has come, if one has.
pub record Input : Type 0 where
  pub file : Option (List ℕ)
  pub socket : Option (List ℕ)

module _ (crc32 : List ℕ → ℕ) (junk : ℕ) (memory : Pkt) (clock : ℕ → ℕ) (unread : ℕ) where
  unfoldable pub read_file : Sender → Option (List ℕ) → ℕ → Exec Reaction
  read_file s none now = ok (record { sender = s; sent = []; exits = false })
  read_file s (some bytes) now =
      if may_send s
      then send_new crc32 junk memory (clock now) unread s bytes (length bytes)
      else ok (record { sender = s; sent = []; exits = false })

  -- `read(socket, buffer, 8)`: what the datagram has more is lost.
  unfoldable pub read_socket : Sender → Option (List ℕ) → ℕ → Exec Reaction
  read_socket s none now = ok (record { sender = s; sent = []; exits = false })
  read_socket s (some bytes) now =
      let received = take 8 bytes in
      on_answer crc32 junk memory (clock now) s received (length received)

  -- One turn of the loop of `sel_repeat_write`, where `select` does not fail; `now` numbers the next
  -- reading of the clock, and a number is left out where the file is not read.
  unfoldable pub turn : Sender → Input → ℕ → Exec Reaction
  turn s input now = do
    (now₁, (window, again)) ←
        check_timers crc32 junk (pos_part s.current_index_window) clock now s.window 0
    new ← read_file (record s { window = window }) input.file now₁
    answered ← read_socket new.sender input.socket (now₁ + 1)
    ok (record answered { sent = again ++ (new.sent ++ answered.sent) })

-- ===== src/Receiver/Seqnum.antt =====
-- `compare_seqnums` of sel_repeat_read.c.
use projet.Base.{ℕ, ◌+◌, ◌-◌, ◌%◌, ◌<◌, ◌≡◌, arith, ltb}
use projet.Base.Int.{pos, sub_ℕ, ltb_ℤ}
use projet.Packet.{max_window_size}
use projet.Receiver.{compare_seqnums}

-- How many numbers lie between the expected number and `seqnum`, going round at 256.
abbrev pub ahead : ℕ → ℕ → ℕ
ahead lastack seqnum = (seqnum + 255 - lastack) % 256

-- Seen from `lastack`, `compare_seqnums` is the difference of the distances from the expected number.
pub compare_seqnums-ahead :
    (lastack a b : ℕ)
    → lastack < 256
    → a < 256
    → b < 256
    → compare_seqnums lastack a b ≡ sub_ℕ (ahead lastack a) (ahead lastack b)
unfolding compare_seqnums
compare_seqnums-ahead l a b hl ha hb = ground arith

-- The test of `sel_repeat_read` lets a number through exactly when it is one of the 31 from the
-- expected one on.
pub window_test :
    (lastack a : ℕ)
    → lastack < 256
    → a < 256
    → ltb_ℤ (compare_seqnums lastack a ((lastack + 1) % 256)) (pos max_window_size)
      ≡ ltb (ahead lastack a) max_window_size
unfolding compare_seqnums
window_test l a hl ha = ground arith

-- ===== src/Sender/Position.antt =====
-- `get_ack_position` of sel_repeat_write.c.
use projet.Base.{ℕ, ◌+◌, ◌-◌, ◌%◌, ◌<◌, ◌≡◌}
use projet.Base.Int.{ℤ, pos, ◌-ℤ◌, int_laws}
use projet.Sender.{get_ack_position}

-- With `next` the number of the next packet and `last` the slot of the last one sent, the position
-- of an acknowledgement of all numbers before `acked`, and that of the packet `number`, are as many
-- slots before `last` as the numbers say, going round at 256.
pub get_ack_position-distance :
    (next acked number : ℕ) (last : ℤ)
    → next < 256
    → acked < 256
    → number < 256
    → (get_ack_position (pos next -ℤ pos 1) (pos acked -ℤ pos 1) last
        ≡ last -ℤ pos ((next + 256 - acked) % 256))
      × (get_ack_position (pos next -ℤ pos 1) (pos number) last
          ≡ last -ℤ pos ((next + 255 - number) % 256))
unfolding get_ack_position
get_ack_position-distance next acked number last hn ha hs = (grind int_laws, grind int_laws)

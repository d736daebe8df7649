-- ===== src/Base/Word.antt =====
-- Fixed widths, and the byte order functions of <arpa/inet.h> on a little-endian host.
use Prim.Native.Nat.{ℕ, ◌+◌, ◌-◌, ◌*◌, ◌/◌, ◌%◌, ◌^◌, ◌<◌}
use mathlib.Core.Path.{◌≡◌}
use native.Mathlib.Omega.{arith}
use projet.Base.Tests.{ltb, if◌then◌else◌}

-- Conversions to the unsigned types.
abbrev pub u8 : ℕ → ℕ
u8 n = n % 2 ^ 8

abbrev pub u16 : ℕ → ℕ
u16 n = n % 2 ^ 16

abbrev pub u32 : ℕ → ℕ
u32 n = n % 2 ^ 32

-- A byte read through `char`, which is signed, and converted to `uint16_t` or `uint32_t`.
abbrev pub char_to_u16 : ℕ → ℕ
char_to_u16 b = if ltb b 0x80 then b else b + (2 ^ 16 - 2 ^ 8)

abbrev pub char_to_u32 : ℕ → ℕ
char_to_u32 b = if ltb b 0x80 then b else b + (2 ^ 32 - 2 ^ 8)

-- `htons` and `ntohs`
abbrev pub swap16 : ℕ → ℕ
swap16 w = w % 256 * 256 + w / 256 % 256

-- `htonl` and `ntohl`
abbrev pub swap32 : ℕ → ℕ
swap32 w = w % 256 * 2 ^ 24 + w / 2 ^ 8 % 256 * 2 ^ 16 + w / 2 ^ 16 % 256 * 2 ^ 8 + w / 2 ^ 24 % 256

pub swap32-swap32 : (w : ℕ) → w < 2 ^ 32 → swap32 (swap32 w) ≡ w
swap32-swap32 w h = omega arith

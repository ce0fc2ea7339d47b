-- ===== src/Prelude/Words.antt =====
-- Byte order on a little-endian host: htons, ntohs, htonl and ntohl swap the bytes.
use Prim.Native.Nat.{ℕ, ◌+◌, ◌*◌, ◌/◌, ◌%◌, ◌^◌, ◌<◌}
use mathlib.Core.Path.{◌≡◌}
use native.Mathlib.Omega.{arith}

unfoldable pub htons : ℕ → ℕ
htons w = w % 0x100 * 0x100 + w / 0x100 % 0x100

unfoldable pub htonl : ℕ → ℕ
htonl w =
    w % 0x100 * 0x1000000
    + w / 0x100 % 0x100 * 0x10000
    + w / 0x10000 % 0x100 * 0x100
    + w / 0x1000000 % 0x100

pub htons-htons : (w : ℕ) → w < 2 ^ 16 → htons (htons w) ≡ w
unfolding htons
htons-htons w h = omega arith

pub htonl-htonl : (w : ℕ) → w < 2 ^ 32 → htonl (htonl w) ≡ w
unfolding htonl
htonl-htonl w h = omega arith

pub htonl-lt : (w : ℕ) → htonl w < 2 ^ 32
unfolding htonl
htonl-lt w = omega arith

pub htonl_pos : (w : ℕ) → w < 2 ^ 32 → 0 < w → 0 < htonl w
unfolding htonl
htonl_pos w h p = omega arith

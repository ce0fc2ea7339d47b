-- ===== src/Ctrlplane/Gtpc/Memory.antt =====
-- memcpy and the 16-bit fields of ctrlplane/src/pkt, octet by octet.
use mixi_pgw.Prelude.{ℕ, suc, ◌+◌, ◌-◌, ◌%◌, ◌^◌, ◌<◌, ◌≤◌, ◌≡◌, refl, ◌∙◌, ap, arith}
use mixi_pgw.Ctrlplane.Gtpc.{Octets, GtpPacket, memcpy, u16_at, put_u16, written}

pub memcpy_before :
    (dst : Octets) (at : ℕ) (src : Octets) (len j : ℕ) → j < at → memcpy dst at src len j ≡ dst j
unfolding memcpy
memcpy_before dst at src len j h = ground arith

pub memcpy_inside :
    (dst : Octets) (at : ℕ) (src : Octets) (len i : ℕ)
    → i < len
    → memcpy dst at src len (at + i) ≡ src i
unfolding memcpy
memcpy_inside dst at src len i h =
    let back : at + i - at ≡ i = omega arith in ground (arith, ap src back)

pub u16_at-put_u16 :
    (memory : Octets) (i value : ℕ) → u16_at (put_u16 memory i value) i ≡ value % 2 ^ 16
unfolding u16_at put_u16
u16_at-put_u16 memory i value = ground arith

pub put_u16_above :
    (memory : Octets) (i value j : ℕ) → suc i < j → put_u16 memory i value j ≡ memory j
unfolding put_u16
put_u16_above memory i value j h = ground arith

-- What an append writes, to a packet whose header ends at 4 or later.
module _ (p : GtpPacket) (item : Octets) (len : ℕ) (h : 4 ≤ p.offset) where
  copied_length : u16_at (memcpy p.packet p.offset item len) 2 ≡ u16_at p.packet 2
  unfolding u16_at
  copied_length =
      rw
        (
          memcpy_before p.packet p.offset item len 2 (omega arith),
          memcpy_before p.packet p.offset item len 3 (omega arith),
        )
        refl

  pub written_length : u16_at (written p item len) 2 ≡ (u16_at p.packet 2 + len) % 2 ^ 16
  unfolding written
  written_length =
      u16_at-put_u16 (memcpy p.packet p.offset item len) 2
        (u16_at (memcpy p.packet p.offset item len) 2 + len)
      ∙ ap (λ t. (t + len) % 2 ^ 16) copied_length

  pub written_before : (j : ℕ) → 4 ≤ j → j < p.offset → written p item len j ≡ p.packet j
  unfolding written
  written_before j lo hi =
      put_u16_above (memcpy p.packet p.offset item len) 2 _ j (omega arith)
      ∙ memcpy_before p.packet p.offset item len j hi

  pub written_inside : (i : ℕ) → i < len → written p item len (p.offset + i) ≡ item i
  unfolding written
  written_inside i lt =
      put_u16_above (memcpy p.packet p.offset item len) 2 _ (p.offset + i) (omega arith)
      ∙ memcpy_inside p.packet p.offset item len i lt

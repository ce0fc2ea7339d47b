-- ===== src/Dataplane/Mbuf/Memory.antt =====
-- What a write changes in the data of a packet buffer.
use mixi_pgw.Prelude.{
  leb, ltb, ◌&&◌, inl, inr, Bool-cases, refl, ℕ, ◌+◌, ◌-◌, ◌≤◌, ◌<◌, ◌≡◌, sym, ◌∙◌, ap, fun_ext,
  arith,
}
use mixi_pgw.Ctrlplane.Gtpc.{Octets, shift, memcpy}
use mixi_pgw.Ctrlplane.Gtpc.Memory.{memcpy_inside}
use mixi_pgw.Dataplane.Mbuf.{Mbuf, mtod, write}

pub memcpy_after :
    (dst : Octets) (at : ℕ) (src : Octets) (len j : ℕ)
    → at + len ≤ j
    → memcpy dst at src len j ≡ dst j
unfolding memcpy
memcpy_after dst at src len j h = ground arith

pub memcpy_head : (dst src : Octets) (len i : ℕ) → i < len → memcpy dst 0 src len i ≡ src i
memcpy_head dst src len i h =
    let e : 0 + i ≡ i = omega arith in
    ap (memcpy dst 0 src len) (sym e) ∙ memcpy_inside dst 0 src len i h

-- Copying what is there already.
pub memcpy_same :
    (dst : Octets) (at : ℕ) (src : Octets) (len i : ℕ)
    → ((k : ℕ) → k < len → src k ≡ dst (at + k))
    → memcpy dst at src len i ≡ dst i
unfolding memcpy
memcpy_same dst at src len i h = elim (Bool-cases (leb at i && ltb i (at + len))) [
  | inl b ↦
      let lt : i - at < len = ground arith in
      let back : at + (i - at) ≡ i = ground arith in rw b (h (i - at) lt ∙ ap dst back)
  | inr b ↦ rw b refl
]

-- A pointer into memory that a copy changes behind it.
shift-memcpy :
    (dst : Octets) (d at : ℕ) (src : Octets) (len : ℕ)
    → shift (memcpy dst (d + at) src len) d ≡ memcpy (shift dst d) at src len
unfolding memcpy
shift-memcpy dst d at src len = fun_ext (λ j. same j)
  where
    same : (j : ℕ) → memcpy dst (d + at) src len (d + j) ≡ memcpy (shift dst d) at src len j
    same j = let e : d + j - (d + at) ≡ j - at = omega arith in ground (arith, ap src e)

-- A write through the data pointer is a copy into the data.
pub mtod-write :
    (m : Mbuf) (at : ℕ) (src : Octets) (len : ℕ)
    → mtod (write m at src len) ≡ memcpy (mtod m) at src len
unfolding write
mtod-write m at src len = shift-memcpy m.buffer m.data_off at src len

-- ===== src/Dataplane/Encap/Wire.antt =====
-- Where the octets of an encapsulated packet stand.
use mixi_pgw.Prelude.{ℕ, ◌+◌, ◌≤◌, ◌<◌, ◌≡◌, refl, ◌∙◌, arith}
use mixi_pgw.Ctrlplane.Gtpc.{Octets, shift, memcpy}
use mixi_pgw.Ctrlplane.Gtpc.Memory.{memcpy_before, memcpy_inside}
use mixi_pgw.Dataplane.Mbuf.{Mbuf, mtod, write, ipv4_octets, udp_octets, gtpu_octets}
use mixi_pgw.Dataplane.Mbuf.Memory.{memcpy_after, memcpy_head, mtod-write}
use mixi_pgw.Dataplane.Encap.{Headers, put_headers, move_ether}

-- The data of a packet: the Ethernet header of `m`, the headers `h`, and what follows the octet
-- 50 - len of `m`.
pub record IsTunnelled (len : ℕ) (h : Headers) (m out : Octets) : Type 0 where
  pub ether : (i : ℕ) → i < 14 → out i ≡ m i
  pub ip : (i : ℕ) → i < 20 → out (14 + i) ≡ ipv4_octets h.iph i
  pub udp : (i : ℕ) → i < 8 → out (34 + i) ≡ udp_octets h.udph i
  pub gtpu : (i : ℕ) → i < 8 → out (42 + i) ≡ gtpu_octets h.gtpuh i
  pub inner : (i : ℕ) → 50 ≤ len + i → out (len + i) ≡ m i

mtod-put_headers :
    (h : Headers) (m : Mbuf)
    → mtod (put_headers h m)
      ≡ memcpy
          (memcpy (memcpy (mtod m) 14 (ipv4_octets h.iph) 20) 34 (udp_octets h.udph) 8)
          42
          (gtpu_octets h.gtpuh)
          8
unfolding put_headers
mtod-put_headers h m =
    let with_ip = write m 14 (ipv4_octets h.iph) 20 in
    let with_udp = write with_ip 34 (udp_octets h.udph) 8 in
    mtod-write with_udp 42 (gtpu_octets h.gtpuh) 8
    ∙ rw (mtod-write with_ip 34 (udp_octets h.udph) 8, mtod-write m 14 (ipv4_octets h.iph) 20) refl

mtod-move_ether :
    (len : ℕ) (m : Mbuf) → mtod (move_ether len m) ≡ memcpy (mtod m) 0 (shift (mtod m) len) 14
unfolding move_ether
mtod-move_ether len m = mtod-write m 0 (shift (mtod m) len) 14

-- Headers in front of a packet whose data lies `len` octets further on.
pub put_headers-IsTunnelled :
    (len : ℕ) (h : Headers) (m : Octets) (pkt : Mbuf)
    → len ≤ 36
    → 14 ≤ len
    → ((i : ℕ) → mtod pkt (len + i) ≡ m i)
    → IsTunnelled len h m (mtod (put_headers h (move_ether len pkt)))
put_headers-IsTunnelled len h m pkt le ge copied =
    let moved = memcpy (mtod pkt) 0 (shift (mtod pkt) len) 14 in
    let ipo = ipv4_octets h.iph in
    let udpo = udp_octets h.udph in
    let with_ip = memcpy moved 14 ipo 20 in
    let with_udp = memcpy with_ip 34 udpo 8 in
    let go = gtpu_octets h.gtpuh in
    rw (mtod-put_headers h (move_ether len pkt), mtod-move_ether len pkt)
      (record {
        ether = λ i lt.
            memcpy_before with_udp 42 go 8 i (omega arith)
            ∙ memcpy_before with_ip 34 udpo 8 i (omega arith)
            ∙ memcpy_before moved 14 ipo 20 i lt
            ∙ memcpy_head (mtod pkt) (shift (mtod pkt) len) 14 i lt
            ∙ copied i;
        ip = λ i lt.
            memcpy_before with_udp 42 go 8 (14 + i) (omega arith)
            ∙ memcpy_before with_ip 34 udpo 8 (14 + i) (omega arith)
            ∙ memcpy_inside moved 14 ipo 20 i lt;
        udp = λ i lt.
            memcpy_before with_udp 42 go 8 (34 + i) (omega arith)
            ∙ memcpy_inside with_ip 34 udpo 8 i lt;
        gtpu = λ i lt. memcpy_inside with_udp 42 go 8 i lt;
        inner = λ i lo.
            memcpy_after with_udp 42 go 8 (len + i) (omega arith)
            ∙ memcpy_after with_ip 34 udpo 8 (len + i) (omega arith)
            ∙ memcpy_after moved 14 ipo 20 (len + i) (omega arith)
            ∙ memcpy_after (mtod pkt) 0 (shift (mtod pkt) len) 14 (len + i) (omega arith)
            ∙ copied i;
      })

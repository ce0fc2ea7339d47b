-- ===== src/Dataplane/Decap/Sixrd.antt =====
-- The IPv4 header that CorePgwIngressTunnelWorker::ModifyPacket writes before an IPv6 packet.
use mixi_pgw.Prelude.{
  true, false, some, ◌==◌, ℕ, ◌+◌, ◌-◌, ◌%◌, ◌^◌, ◌≤◌, ◌<◌, ◌≡◌, refl, ap, ◌∙◌, [], ◌∷◌, htons,
  arith,
}
use mixi_pgw.Ctrlplane.Gtpc.{Octets, shift, memcpy}
use mixi_pgw.Dataplane.Mbuf.{Mbuf, Rte, IsRte, mtod, write, le16, octets_of, ipv4_octets}
use mixi_pgw.Dataplane.Mbuf.Headers.{le16-octet}
use mixi_pgw.Dataplane.Mbuf.Memory.{mtod-write}
use mixi_pgw.Dataplane.Decap.{ip_version, sixrd_header, put_sixrd_header, keep_ether, ingress_decap}

-- The octets where gtph points are part of the header that was just set to 0.
gtph_zeroed :
    (buffer : Octets) (p d i : ℕ)
    → p ≡ d + 16
    → 44 ≤ i
    → i < 50
    → memcpy
        (memcpy buffer (p + 14) (octets_of []) 20)
        (p + 14)
        (octets_of (0x45 ∷ 0x00 ∷ []))
        2
        (d + i)
      ≡ 0
unfolding memcpy
gtph_zeroed buffer p d i e lo hi = ground arith

htons_total : (g : ℕ) → g ≡ 0 → htons (htons (g + 20)) ≡ 20
unfolding htons
htons_total g e = omega arith

htons-mod : (w : ℕ) → htons w % 2 ^ 16 ≡ htons w
unfolding htons
htons-mod w = omega arith

put_sixrd_header-total_length :
    (ipkey : ℕ) (m pkt : Mbuf)
    → pkt.data_off ≡ m.data_off + 16
    → htons (le16 (mtod (put_sixrd_header ipkey m pkt)) 16) ≡ 20
unfolding put_sixrd_header write ipv4_octets memcpy
put_sixrd_header-total_length ipkey m pkt e =
    let zeroed = write pkt 14 (octets_of []) 20 in
    let begun = write zeroed 14 (octets_of (0x45 ∷ 0x00 ∷ [])) 2 in
    let g = le16 (shift begun.buffer m.data_off) 44 in
    let clear : g ≡ 0 = omega (
      arith,
      gtph_zeroed pkt.buffer pkt.data_off m.data_off 44 e (omega arith) (omega arith),
      gtph_zeroed pkt.buffer pkt.data_off m.data_off 45 e (omega arith) (omega arith),
    ) in
    let length : le16 (mtod (put_sixrd_header ipkey m pkt)) 16 ≡ htons (g + 20) =
      ap (λ f. le16 f 16) (mtod-write begun 14 (ipv4_octets (sixrd_header ipkey g)) 20)
      ∙ le16-octet (htons (g + 20))
      ∙ htons-mod (g + 20) in
    ap htons length ∙ htons_total g clear

-- Whatever the length of an IPv6 packet in a G-PDU is, the IPv4 header that is put before it says 20
-- octets: the length in the GTP header is read after its octets were cleared.
pub ingress_decap-total_length :
    (rte : Rte) (ipkey : ℕ) (m : Mbuf)
    → IsRte rte
    → 16 ≤ m.pkt_len
    → ip_version m 50 ≡ 6
    → (out : Mbuf) × ((size : ℕ) × ((ingress_decap rte ipkey m ≡ some (out, size))
          × (htons (le16 (mtod out) 16) ≡ 20)))
unfolding ingress_decap
ingress_decap-total_length rte ipkey m law room six =
    let typed = record m {
      buffer = memcpy m.buffer (m.data_off + 12) (octets_of (0x08 ∷ 0x00 ∷ [])) 2;
      data_off = m.data_off + 16;
      pkt_len = m.pkt_len - 16;
      is_ipv4_hdr = true;
      is_ipv6_hdr = false;
    } in
    let yes : (ip_version m 50 == 6) ≡ true = ground arith in
    rw (yes, law.adjusted m 16 room, ingress_decap)
      (
        put_sixrd_header ipkey m (keep_ether m typed),
        (_, (refl, put_sixrd_header-total_length ipkey m (keep_ether m typed) refl)),
      )

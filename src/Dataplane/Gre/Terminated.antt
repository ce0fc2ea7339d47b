-- ===== src/Dataplane/Gre/Terminated.antt =====
-- From CorePgwIngressDistributorWorker to CoreGretermWorker: the capsule that the one makes is what the
-- other takes off.
use mixi_pgw.Prelude.{
  ==_iff, ℕ, ◌+◌, ◌-◌, ◌*◌, ◌/◌, ◌%◌, ◌^◌, ◌≤◌, ◌<◌, ◌≡◌, refl, sym, ap, ◌∙◌, Bool, true, false,
  ◌==◌, if◌then◌else◌, inl, inr, [], ◌∷◌, arith, Bool-cases,
}
use mixi_pgw.Dataplane.Distributor.{ipproto_udp}
use mixi_pgw.Dataplane.Mbuf.{Mbuf, Rte, IsRte, mtod, write, octets_of}
use mixi_pgw.Dataplane.Encap.{Drops, Modified, sent}
use mixi_pgw.Dataplane.Decap.{
  ip_version, greterm_proto, greterm_iphlen, greterm_typed, greterm_modify_packet,
}
use mixi_pgw.Dataplane.Gre.{Distributor, ingress_headers, ingress_rewrite, swap_mac}
use mixi_pgw.Dataplane.Gre.Wire.{
  write_apart, write_inside, write_head, ingress_headers_apart, gre_proto, gre_version, udp_proto,
  udp_version, swap_mac_apart, swap_mac_first, swap_mac_second,
}

-- What the packet was before its capsule: GTP-U over UDP and a header without options.
pub record IsUdp (m : Mbuf) : Type 0 where
  pub proto : mtod m 23 ≡ ipproto_udp
  pub version : mtod m 14 ≡ 0x45

rewrite_proto :
    (use_gre : Bool) (w : Distributor) (m : Mbuf)
    → IsUdp m
    → mtod (ingress_rewrite use_gre w m) 23 ≡ greterm_proto use_gre
unfolding ingress_rewrite
rewrite_proto true w m u =
    swap_mac_apart (ingress_headers true w m) 23 (omega arith) ∙ gre_proto w m
rewrite_proto false w m u =
    swap_mac_apart (ingress_headers false w m) 23 (omega arith) ∙ udp_proto w m ∙ u.proto

rewrite_iphlen :
    (use_gre : Bool) (w : Distributor) (m : Mbuf)
    → IsUdp m
    → mtod (ingress_rewrite use_gre w m) 14 % 0x10 * 4 ≡ greterm_iphlen use_gre
unfolding ingress_rewrite
rewrite_iphlen true w m u =
    ap (λ o. o % 0x10 * 4)
      (swap_mac_apart (ingress_headers true w m) 14 (omega arith) ∙ gre_version w m)
rewrite_iphlen false w m u =
    ap (λ o. o % 0x10 * 4)
      (swap_mac_apart (ingress_headers false w m) 14 (omega arith) ∙ udp_version w m ∙ u.version)

rewrite_pkt_len :
    (use_gre : Bool) (w : Distributor) (m : Mbuf)
    → (ingress_rewrite use_gre w m).pkt_len ≡ m.pkt_len
unfolding ingress_rewrite ingress_headers
rewrite_pkt_len true w m = refl
rewrite_pkt_len false w m = refl

-- the packet after rte_pktmbuf_adj
abbrev adjusted : Mbuf → Mbuf
adjusted m = record m { data_off = m.data_off + 36; pkt_len = m.pkt_len - 36 }

-- the octets of the packet with the Ethernet header of `out`
abbrev under_ether : Mbuf → Mbuf
under_ether out = write (adjusted out) 0 (mtod out) 14

under_ether_behind : (out : Mbuf) (i : ℕ) → 14 ≤ i → mtod (under_ether out) i ≡ mtod out (36 + i)
under_ether_behind out i h =
    let e : out.data_off + 36 + i ≡ out.data_off + (36 + i) = omega arith in
    write_apart (adjusted out) 0 (mtod out) 14 i (inr h) ∙ ap out.buffer e

-- What is behind the addresses of the Ethernet header, and the addresses.
typed_behind :
    (out : Mbuf) (i : ℕ) → 14 ≤ i → mtod (greterm_typed out (adjusted out)) i ≡ mtod out (36 + i)
unfolding greterm_typed
typed_behind out i h = elim (Bool-cases (ip_version (adjusted out) 14 == 4)) [
  | inl four ↦ rw four (under_ether_behind out i h)
  | inr six ↦ rw six (
      write_apart (under_ether out) 12 (octets_of (0x86 ∷ 0xdd ∷ [])) 2 i (inr h)
      ∙ under_ether_behind out i h)
]

typed_ether : (out : Mbuf) (i : ℕ) → i < 12 → mtod (greterm_typed out (adjusted out)) i ≡ mtod out i
unfolding greterm_typed
typed_ether out i h = elim (Bool-cases (ip_version (adjusted out) 14 == 4)) [
  | inl four ↦ rw four (write_head (adjusted out) (mtod out) 14 i (omega arith))
  | inr six ↦ rw six (
      write_apart (under_ether out) 12 (octets_of (0x86 ∷ 0xdd ∷ [])) 2 i (inl h)
      ∙ write_head (adjusted out) (mtod out) 14 i (omega arith))
]

typed_pkt_len : (out : Mbuf) → (greterm_typed out (adjusted out)).pkt_len ≡ out.pkt_len - 36
unfolding greterm_typed
typed_pkt_len out = elim (Bool-cases (ip_version (adjusted out) 14 == 4)) [
  | inl four ↦ rw four refl
  | inr six ↦ rw six refl
]

-- The type: what it was where the inner packet has the version 4, else that of IPv6.
typed_type :
    (out : Mbuf)
    → (mtod (greterm_typed out (adjusted out)) 12
        ≡ (if mtod out 50 % 2 ^ 8 / 0x10 == 4 then mtod out 12 else 0x86))
      × (mtod (greterm_typed out (adjusted out)) 13
          ≡ (if mtod out 50 % 2 ^ 8 / 0x10 == 4 then mtod out 13 else 0xdd))
unfolding greterm_typed
typed_type out =
    let at : out.data_off + 36 + 14 ≡ out.data_off + 50 = omega arith in
    let inner : mtod (adjusted out) 14 ≡ mtod out 50 = ap out.buffer at in
    elim (Bool-cases (mtod out 50 % 2 ^ 8 / 0x10 == 4)) [
      | inl four ↦
          rw (inner, four)
            (
              write_head (adjusted out) (mtod out) 14 12 (omega arith),
              write_head (adjusted out) (mtod out) 14 13 (omega arith),
            )
      | inr six ↦
          rw (inner, six)
            (
              write_inside (under_ether out) 12 (octets_of (0x86 ∷ 0xdd ∷ [])) 2 0 (omega arith),
              write_inside (under_ether out) 12 (octets_of (0x86 ∷ 0xdd ∷ [])) 2 1 (omega arith),
            )
    ]

-- The packet that was in the capsule, with the addresses of the Ethernet header exchanged.
pub record IsTerminated (m : Mbuf) (counter : Drops) (r : Modified Drops) : Type 0 where
  pub is_sent : r.verdict ≡ sent
  pub uncounted : r.worker ≡ counter
  pub d_addr : (i : ℕ) → i < 6 → mtod r.mbuf i ≡ mtod m (6 + i)
  pub s_addr : (i : ℕ) → i < 6 → mtod r.mbuf (6 + i) ≡ mtod m i
  pub inner : (i : ℕ) → 14 ≤ i → mtod r.mbuf i ≡ mtod m (36 + i)
  pub pkt_len : r.mbuf.pkt_len ≡ m.pkt_len - 36
  pub type_high : mtod r.mbuf 12 ≡ (if mtod m 50 % 2 ^ 8 / 0x10 == 4 then mtod m 12 else 0x86)
  pub type_low : mtod r.mbuf 13 ≡ (if mtod m 50 % 2 ^ 8 / 0x10 == 4 then mtod m 13 else 0xdd)

-- A packet in GTP-U that the ingress distributor rewrote for the way to the GRE terminator comes out of
-- the terminator without its 36 octets of outer headers and otherwise as it was, but that the two
-- addresses of its Ethernet header are exchanged, and that its type stays for an inner packet of version 4 and is that
-- of IPv6 for every other; both where
-- the capsule is GRE and where the build cannot use GRE.
pub greterm_modify_packet-ingress_rewrite :
    (use_gre : Bool) (rte : Rte) (counter : Drops) (w : Distributor) (m : Mbuf)
    → IsRte rte
    → IsUdp m
    → 36 ≤ m.pkt_len
    → IsTerminated m counter
        (greterm_modify_packet use_gre rte counter (ingress_rewrite use_gre w m))
unfolding ingress_rewrite greterm_modify_packet
greterm_modify_packet-ingress_rewrite use_gre rte counter w m law u room =
    let h = ingress_headers use_gre w m in
    let out = swap_mac h in
    let proto : (mtod out 23 == greterm_proto use_gre) ≡ true =
      (==_iff (mtod out 23) (greterm_proto use_gre)).1 (rewrite_proto use_gre w m u) in
    let iphlen : (mtod out 14 % 0x10 * 4 == greterm_iphlen use_gre) ≡ true =
      (==_iff (mtod out 14 % 0x10 * 4) (greterm_iphlen use_gre)).1 (rewrite_iphlen use_gre w m u) in
    let size = rewrite_pkt_len use_gre w m in
    let behind : (j : ℕ) → 50 ≤ j → mtod out j ≡ mtod m j =
      λ j le. swap_mac_apart h j (omega arith) ∙ ingress_headers_apart use_gre w m j (inr le) in
    let kept : (j : ℕ) → 12 ≤ j → j < 14 → mtod out j ≡ mtod m j = λ j lo hi.
      swap_mac_apart h j (omega arith) ∙ ingress_headers_apart use_gre w m j (inl (omega arith)) in
    rw (proto, iphlen, law.adjusted out 36 (omega arith), greterm_modify_packet)
      (record {
        is_sent = refl;
        uncounted = refl;
        d_addr = λ i lt.
            typed_ether out i (omega arith)
            ∙ swap_mac_first h i lt
            ∙ ingress_headers_apart use_gre w m (6 + i) (inl (omega arith));
        s_addr = λ i lt.
            typed_ether out (6 + i) (omega arith)
            ∙ swap_mac_second h i lt
            ∙ ingress_headers_apart use_gre w m i (inl (omega arith));
        inner = λ i le. typed_behind out i le ∙ behind (36 + i) (omega arith);
        pkt_len = typed_pkt_len out ∙ ap (λ t. t - 36) size;
        type_high =
            rw (sym (behind 50 (omega arith)), sym (kept 12 (omega arith) (omega arith)))
              (typed_type out).0;
        type_low =
            rw (sym (behind 50 (omega arith)), sym (kept 13 (omega arith) (omega arith)))
              (typed_type out).1;
      })

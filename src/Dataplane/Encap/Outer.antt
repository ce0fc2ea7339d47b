-- ===== src/Dataplane/Encap/Outer.antt =====
-- CoreEncapWorker::ModifyPacket (dataplane/src/core/core_encap_worker.cc), which puts a packet into GTP-U
-- on its way to the egress workers.
use mixi_pgw.Prelude.{ℕ, ◌+◌, true, false, if◌then◌else◌, Option, none, some, [], ◌∷◌}
use mixi_pgw.Dataplane.Policer.{masked}
use mixi_pgw.Dataplane.Mbuf.{Mbuf, Rte, mtod, write, le32, octets_of}
use mixi_pgw.Dataplane.Encap.{
  Drops, Headers, Modified, sent, freed, inc, with_lengths, with_checksum, put_headers, move_ether,
}

-- CoreEncapWorker
pub record Encapper : Type 0 where
  pub headers : Headers
  pub counter : Drops

-- the destination of the outer header and the packet whose type says IPv4
unfoldable pub outer_dst : Mbuf → Option (ℕ × Mbuf)
unfolding masked write
outer_dst m =
    if m.is_ipv4_hdr
    then some (le32 (mtod m) 66, m)
    else if m.is_ipv6_hdr
    then some (masked (le32 (mtod m) 78) + 0x0a, write m 12 (octets_of (0x08 ∷ 0x00 ∷ [])) 2)
    else none

-- CoreEncapWorker::ModifyPacket
unfoldable pub encap_modify_packet : Rte → Encapper → Mbuf → Modified Encapper
unfolding move_ether outer_dst inc with_lengths with_checksum put_headers
encap_modify_packet rte w m = elim (rte.prepend m 36) [
  | none ↦ record { mbuf = m; worker = record w { counter = inc 0 w.counter }; verdict = freed }
  | some pkt ↦ elim (outer_dst (move_ether 36 pkt)) [
    | none ↦ record {
      mbuf = move_ether 36 pkt;
      worker = record w { counter = inc pkt.pkt_len w.counter };
      verdict = freed;
    }
    | some (dst, typed) ↦
        let h = with_lengths pkt.pkt_len w.headers in
        let h' = record h { iph = with_checksum (record h.iph { dst_addr = dst }) } in
        let full = put_headers h' typed in
        record {
          mbuf = record full { is_ipv4_hdr = true; is_ipv6_hdr = false };
          worker = record w { headers = h' };
          verdict = sent;
        }
  ]
]

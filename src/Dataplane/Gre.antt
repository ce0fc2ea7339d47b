-- ===== src/Dataplane/Gre.antt =====
-- The cores that rewrite the outer headers in place, between GTP-U and GRE and on to the SGW:
-- CorePgwIngressDistributorWorker::ModifyPacket and CorePgwEgressDistributorWorker::ModifyPacket
-- (dataplane/src/core/core_pgw_ingress_distributor_worker.cc, core_pgw_egress_distributor_worker.cc),
-- CoreGtpu2GreWorker::ModifyPacket (core_gtpu2gre_worker.cc) and error_indicate of
-- dataplane/inc/mixi_pgw_data_plane_def.hpp. The argument use_gre is false where the build defines
-- __CANNOT_USE_GRE__; __TEST_MODE__ and NON_SUPPORTED_ERRIND are not defined.
pub mod Wire
pub mod Terminated
use mixi_pgw.Prelude.{
  ℕ, ◌+◌, ◌-◌, ◌%◌, ◌^◌, Bool, true, false, ◌==◌, if◌then◌else◌, Option, none, some, [], ◌∷◌, htons,
  htonl,
}
use mixi_pgw.Ctrlplane.Gtpc.{Octets, shift}
use mixi_pgw.Dataplane.Policer.{Item, masked}
use mixi_pgw.Dataplane.Distributor.{gtpu_port}
use mixi_pgw.Dataplane.Worker.{Worker, find_session}
use mixi_pgw.Dataplane.Mbuf.{
  Mbuf, Rte, mtod, write, le16, le32, octet, octets_of, checksum, wrapsum,
}
use mixi_pgw.Dataplane.Encap.{Drops, Modified, sent, freed, queued_and_sent, inc}
use mixi_pgw.Dataplane.Decap.{ip_version, ipproto_gre}

-- an integer written into a field of 1, 2 or 4 octets
unfoldable pub put8 : ℕ → ℕ → Mbuf → Mbuf
unfolding write
put8 at value m = write m at (octets_of (value ∷ [])) 1

unfoldable pub put16 : ℕ → ℕ → Mbuf → Mbuf
unfolding write
put16 at value m = write m at (octets_of (octet value 0 ∷ octet value 1 ∷ [])) 2

unfoldable pub put32 : ℕ → ℕ → Mbuf → Mbuf
unfolding write
put32 at value m =
    write m at (octets_of (octet value 0 ∷ octet value 1 ∷ octet value 2 ∷ octet value 3 ∷ [])) 4

-- eh->d_addr and eh->s_addr exchanged
unfoldable pub swap_mac : Mbuf → Mbuf
unfolding write
swap_mac m = let t_macaddr = mtod m in write (write m 0 (shift (mtod m) 6) 6) 6 t_macaddr 6

-- hdr_checksum of the outer IP header, of `len` octets
unfoldable pub put_checksum : ℕ → Mbuf → Mbuf
unfolding put16 checksum wrapsum
put_checksum len m =
    let zeroed = put16 24 0 m in put16 24 (wrapsum (checksum (shift (mtod zeroed) 14) len 0)) zeroed

-- the options and the GRE header in the place of the UDP and the GTP header; greo is the GRE header
unfoldable pub put_gre : Octets → Mbuf → Mbuf
unfolding write
put_gre greo m = let nops : Octets = λ _. 0x01 in write (write m 34 nops 12) 46 greo 4

-- the octets of error_indicate's packet
abbrev pub errind_len : ℕ
errind_len = 14 + 20 + 8 + 8 + 12

-- what error_indicate writes; the octets of the ports and of the addresses are as in memory
unfoldable pub errind_octets : Mbuf → Mbuf
unfolding put8 put16 put32 swap_mac write
errind_octets bf =
    let tid = le32 (mtod bf) 46 in
    let t_ipaddr = le32 (mtod bf) 30 in
    let macs = swap_mac bf in
    let addresses = put32 26 t_ipaddr (put32 30 (le32 (mtod macs) 26) macs) in
    let ip = put16 24 0 (put16 16 (htons (errind_len - 14)) addresses) in
    let ports = put16 34 (le16 (mtod ip) 36) ip in
    let udp = put16 40 0 (put16 38 (htons (errind_len - 14 - 20)) ports) in
    let teid = put32 51 tid (put8 50 16 udp) in
    let peer = put32 58 t_ipaddr (put16 56 (htons 4) (put8 55 133 teid)) in
    put16 44 (htons 12) (put32 46 0 (put8 43 26 peer))

-- error_indicate; none is rte_panic
unfoldable pub error_indicate : Rte → Mbuf → Option Mbuf
unfolding errind_octets
error_indicate rte bf = elim (rte.trim bf ((bf.pkt_len + 2 ^ 16 - errind_len) % 2 ^ 16)) [
  | none ↦ none
  | some cut ↦ some (errind_octets (record cut { pkt_len = errind_len }))
]

-- CorePgwIngressDistributorWorker and CorePgwEgressDistributorWorker
pub record Distributor : Type 0 where
  pub worker : Worker
  pub greipv4 : ℕ
  pub gresrcipv4 : ℕ
  pub counter : Drops

-- greo of the ingress distributor and that of CoreGtpu2GreWorker
abbrev pub greo_ip : Octets
greo_ip = octets_of (0x00 ∷ 0x00 ∷ 0x08 ∷ 0x00 ∷ [])

abbrev pub greo_gtpu : Octets
greo_gtpu = octets_of (0x00 ∷ 0x00 ∷ 0x80 ∷ 0x00 ∷ [])

-- counted, and put on the ring to the tap, with the return value 0; where it is full, given back
unfoldable pub refused : Bool → Distributor → Mbuf → Modified Distributor
unfolding inc
refused ring_ok w m = record {
  mbuf = m;
  worker = record w { counter = inc m.pkt_len w.counter };
  verdict = if ring_ok then queued_and_sent else freed;
}

-- the outer headers that CorePgwIngressDistributorWorker::ModifyPacket writes, with the packet type
unfoldable pub ingress_headers : Bool → Distributor → Mbuf → Mbuf
unfolding put8 put16 put32 put_gre put_checksum
ingress_headers true w m =
    let versioned = put32 26 (htonl w.gresrcipv4) (put8 14 0x48 m) in
    let addressed = put8 23 ipproto_gre (put32 30 (htonl w.greipv4) versioned) in
    let out = put_checksum 32 (put_gre greo_ip (put16 24 0 addressed)) in
    record out { is_ipv4_hdr = true; is_ipv6_hdr = false }
ingress_headers false w m =
    put_checksum 20 (put32 30 (htonl w.greipv4) (put32 26 (htonl w.gresrcipv4) m))

-- CorePgwIngressDistributorWorker::ModifyPacket with the session of the packet
unfoldable pub ingress_rewrite : Bool → Distributor → Mbuf → Mbuf
unfolding ingress_headers swap_mac
ingress_rewrite use_gre w m = swap_mac (ingress_headers use_gre w m)

-- ipkey, from the source or from the destination of the inner packet
unfoldable pub inner_ipkey : ℕ → ℕ → Mbuf → Option ℕ
inner_ipkey at4 at6 m =
    if ip_version m 50 == 4
    then some (le32 (mtod m) at4)
    else if ip_version m 50 == 6
    then some (le32 (mtod m) at6)
    else none

-- a packet that is neither IPv4 nor IPv6 inside
unfoldable pub unknown : Distributor → Mbuf → Modified Distributor
unfolding inc
unknown w m = record {
  mbuf = m;
  worker = record w { counter = inc m.pkt_len w.counter };
  verdict = freed;
}

-- CorePgwIngressDistributorWorker::ModifyPacket
unfoldable pub ingress_distribute : Bool → Bool → Distributor → Mbuf → Modified Distributor
unfolding inner_ipkey unknown refused ingress_rewrite find_session masked
ingress_distribute use_gre ring_ok w m = elim (inner_ipkey 62 62 m) [
  | none ↦ unknown w m
  | some ipkey ↦ elim (find_session (htonl (le32 (mtod m) 46)) w.worker) [
    | none ↦ refused ring_ok w m
    | some itm ↦
        if masked itm.ue_ipv4 == masked ipkey
        then record { mbuf = ingress_rewrite use_gre w m; worker = w; verdict = sent }
        else refused ring_ok w m
  ]
]

-- CorePgwEgressDistributorWorker::ModifyPacket with the session of the packet
unfoldable pub egress_rewrite : Item → Mbuf → Mbuf
unfolding put16 put32 put_checksum swap_mac
egress_rewrite itm m =
    let tid = put32 46 itm.sgw_gtpu_teid m in
    let ports = put16 34 (htons gtpu_port) (put16 36 (htons gtpu_port) tid) in
    let addressed = put32 30 itm.sgw_gtpu_ipv4 (put32 26 itm.pgw_gtpu_ipv4 ports) in
    swap_mac (put_checksum 20 addressed)

-- CorePgwEgressDistributorWorker::ModifyPacket; none is rte_panic
unfoldable pub egress_distribute : Rte → Distributor → Mbuf → Option (Modified Distributor)
unfolding inner_ipkey unknown inc error_indicate egress_rewrite find_session masked
egress_distribute rte w m = elim (inner_ipkey 66 78 m) [
  | none ↦ some (unknown w m)
  | some ipkey ↦ elim (find_session (masked ipkey) w.worker) [
    | some itm ↦ some (record { mbuf = egress_rewrite itm m; worker = w; verdict = sent })
    | none ↦ elim (error_indicate rte m) [
      | none ↦ none
      | some out ↦
          let counted = record w { counter = inc m.pkt_len w.counter } in
          some (record { mbuf = out; worker = counted; verdict = sent })
    ]
  ]
]

-- CoreGtpu2GreWorker::ModifyPacket; the checksum is left 0
unfoldable pub gtpu2gre_modify_packet : ℕ → Mbuf → Mbuf
unfolding put8 put16 put32 put_gre
gtpu2gre_modify_packet pgwipv4 m =
    let addressed = put8 23 ipproto_gre (put32 30 pgwipv4 (put8 14 0x48 m)) in
    record (put_gre greo_gtpu (put16 24 0 addressed)) { is_ipv4_hdr = true; is_ipv6_hdr = false }

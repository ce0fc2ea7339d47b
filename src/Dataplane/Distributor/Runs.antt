-- ===== src/Dataplane/Distributor/Runs.antt =====
-- The distributor at concrete inputs.
use mixi_pgw.Prelude.{◌≡◌, refl, true, List, [], ◌∷◌, htons}
use mixi_pgw.Dataplane.Distributor.{
  Frame, cycle, destination, distribute, is_udp, is_gtpu, is_pdu, is_user, is_gtpc, decap, encap,
}
use mixi_pgw.Dataplane.Distributor.Partition.{IsPartition, cycle-IsPartition}

-- A user packet in a tunnel, an echo request, and a packet of the egress side.
abbrev pdu_frame : Frame
pdu_frame = record {
  is_ipv4_hdr = true;
  ether_type = htons 0x0800;
  next_proto_id = 17;
  dst_addr = 0x0100000a;
  dst_port = htons 2152;
  gtp_type = 255;
  gtp_length = 0;
  gtp_tid = 5;
  gtpc_version = 1;
  gtpc_piggy = 0;
}

abbrev echo_frame : Frame
echo_frame = record pdu_frame { gtp_type = 1 }

abbrev returned : Frame
returned = record pdu_frame { dst_port = htons 50999 }

abbrev mixed : List Frame
mixed = pdu_frame ∷ echo_frame ∷ returned ∷ []

cycle-mixed :
    cycle mixed
    ≡ record { to_egress = returned ∷ []; to_ingress = pdu_frame ∷ []; to_tap = echo_frame ∷ [] }
unfolding cycle destination distribute is_udp is_gtpu htons
cycle-mixed = refl

pdu_frame-decap :
    (is_pdu pdu_frame ≡ decap) × (is_user pdu_frame ≡ encap) × (is_gtpc 1518 pdu_frame ≡ 0)
unfolding is_pdu is_user is_gtpc htons
pdu_frame-decap = (refl, refl, refl)

cycle-IsPartition_example :
    IsPartition mixed (cycle mixed).to_egress (cycle mixed).to_ingress (cycle mixed).to_tap
cycle-IsPartition_example = cycle-IsPartition mixed

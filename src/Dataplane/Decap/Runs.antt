-- ===== src/Dataplane/Decap/Runs.antt =====
-- The workers of the tunnels at concrete packets.
use mixi_pgw.Prelude.{
  List, length, ℕ, ◌+◌, ◌%◌, ◌^◌, ◌≡◌, refl, true, false, some, [], ◌∷◌, lookup, htons, htonl,
  arith, inl,
}
use mixi_pgw.Dataplane.Policer.{Item, masked}
use mixi_pgw.Dataplane.Distributor.{encap, decap, is_user, is_pdu}
use mixi_pgw.Dataplane.Mbuf.{Mbuf, mtod, le16, le32, frame_of, mbfu_flag_pdu}
use mixi_pgw.Dataplane.Encap.{
  Tunneler, Modified, default_headers, is_sixrd, egress_ipkey, egress_modify_packet,
}
use mixi_pgw.Dataplane.Encap.Outer.{encap_modify_packet, Encapper}
use mixi_pgw.Dataplane.Encap.Capsule.{HasEgressPort, IsCapsule, encap_modify_packet-IsCapsule}
use mixi_pgw.Dataplane.Encap.Tunnels.{HasDefaults}
use mixi_pgw.Dataplane.Encap.Sending.{session_key, IsForwarded, egress_modify_packet-IsForwarded}
use mixi_pgw.Dataplane.Decap.{ingress_decap, ingress_modify_packet, greterm_modify_packet}
use mixi_pgw.Dataplane.Decap.Delivery.{tunnel_key, IsDelivered, ingress_modify_packet-IsDelivered}
use mixi_pgw.Dataplane.Decap.Own.{ingress_modify_packet-IsOwn}
use mixi_pgw.Dataplane.Decap.Roundtrip.{IsReturned, egress_modify_packet-ingress_modify_packet}
use mixi_pgw.Dataplane.Decap.Sixrd.{ingress_decap-total_length}
use mixi_pgw.Dataplane.Cycles.{L2Type, l2_ether, l2_ether_vlan, l2_unknown, encap_cycle}
use mixi_pgw.Dataplane.Cycles.Counted.{encap_cycle-counted}
use mixi_pgw.Dataplane.Gre.{Distributor, ingress_rewrite}
use mixi_pgw.Dataplane.Gre.Terminated.{IsUdp, IsTerminated, greterm_modify_packet-ingress_rewrite}
use mixi_pgw.Dataplane.Decap.Samples.{
  one_segment, one_segment-IsRte, user_packet, g_pdu, session, worker, tunneler,
}

defaults : HasDefaults tunneler.headers
unfolding default_headers
defaults = record { version = refl; proto = refl; port = refl; type = refl }

user_packet-user : is_user (frame_of user_packet) ≡ encap
unfolding is_user frame_of htons
user_packet-user = refl

user_packet-found : lookup (session_key user_packet) tunneler.base.map ≡ some (session 0x0201000a)
unfolding lookup htonl masked egress_ipkey is_sixrd
user_packet-found = refl

user_packet-plain : is_sixrd user_packet ≡ false
unfolding is_sixrd htonl
user_packet-plain = refl

egress_modify_packet-IsForwarded_example :
    (r : Modified Tunneler) × ((egress_modify_packet one_segment true 1000 tunneler user_packet
        ≡ some r)
      × IsForwarded 1000 (session 0x0201000a) user_packet r)
egress_modify_packet-IsForwarded_example =
    egress_modify_packet-IsForwarded one_segment true 1000 tunneler user_packet (session 0x0201000a)
      one_segment-IsRte defaults refl (omega arith) user_packet-user user_packet-found

returned : lookup (htonl (htonl (6 % 2 ^ 32))) (worker 6 0x08080808).map ≡ some (session 0x08080808)
unfolding lookup htonl
returned = refl

own_source : masked 0x08080808 ≡ masked (le32 (mtod user_packet) 26)
own_source = refl

egress_modify_packet-ingress_modify_packet_example :
    (r : Modified Tunneler) × ((egress_modify_packet one_segment true 1000 tunneler user_packet
        ≡ some r)
      × IsReturned user_packet
          (ingress_modify_packet one_segment true 1001 (worker 6 0x08080808) r.mbuf))
egress_modify_packet-ingress_modify_packet_example =
    egress_modify_packet-ingress_modify_packet one_segment true true 1000 1001 tunneler
      (worker 6 0x08080808) user_packet (session 0x0201000a) (session 0x08080808) one_segment-IsRte
      defaults refl (omega arith) user_packet-user user_packet-found user_packet-plain refl refl
      returned own_source

g_pdu-pdu : is_pdu (frame_of (g_pdu 4)) ≡ decap
unfolding is_pdu frame_of htons
g_pdu-pdu = refl

g_pdu-found :
    lookup (tunnel_key (g_pdu 4)) (worker 0x06000000 0x0201000a).map ≡ some (session 0x0201000a)
unfolding lookup htonl
g_pdu-found = refl

ingress_modify_packet-IsDelivered_example :
    IsDelivered 1000
      (session 0x0201000a)
      (g_pdu 4)
      (ingress_modify_packet one_segment true 1000 (worker 0x06000000 0x0201000a) (g_pdu 4))
ingress_modify_packet-IsDelivered_example =
    ingress_modify_packet-IsDelivered one_segment true 1000 (worker 0x06000000 0x0201000a) (g_pdu 4)
      (session 0x0201000a) one_segment-IsRte refl (omega arith) g_pdu-pdu refl g_pdu-found refl

delivered_flag :
    (ingress_modify_packet one_segment true 1000
      (worker 0x06000000 0x0201000a)
      (g_pdu 4)).mbuf.udata.flag
    ≡ mbfu_flag_pdu
delivered_flag =
    (ingress_modify_packet-IsDelivered one_segment true 1000 (worker 0x06000000 0x0201000a)
      (g_pdu 4) (session 0x0201000a) one_segment-IsRte refl (omega arith) g_pdu-pdu refl g_pdu-found
      refl).flag

ingress_modify_packet-IsOwn_example :
    (itm : Item) × ((lookup (tunnel_key (g_pdu 4)) (worker 0x06000000 0x0201000a).map ≡ some itm)
      × (masked itm.ue_ipv4 ≡ masked (le32 (mtod (g_pdu 4)) 62)))
ingress_modify_packet-IsOwn_example =
    ingress_modify_packet-IsOwn one_segment true 1000 (worker 0x06000000 0x0201000a) (g_pdu 4)
      one_segment-IsRte (inl delivered_flag)

ingress_decap-total_length_example :
    (out : Mbuf) × ((size : ℕ) × ((ingress_decap one_segment 0x0201000a (g_pdu 6)
          ≡ some (out, size))
        × (htons (le16 (mtod out) 16) ≡ 20)))
ingress_decap-total_length_example =
    ingress_decap-total_length one_segment 0x0201000a (g_pdu 6) one_segment-IsRte (omega arith) refl

g_pdu-IsUdp : IsUdp (g_pdu 6)
g_pdu-IsUdp = record { proto = refl; version = refl }

abbrev distributor : Distributor
distributor = record {
  worker = record {
    findtype = true;
    is_egress = false;
    groupid = 0;
    pgwid = 0;
    cnt_pgw = 1;
    policer_cir = 0;
    policer_cbs = 0;
    policer_eir = 0;
    policer_ebs = 0;
    map = [];
    lookup_table = record {
      data_side_a = λ _. record { valid = 0; body = session 0 };
      data_side_b = λ _. record { valid = 0; body = session 0 };
      end_item = record { valid = 0; body = session 0 };
      data_side_bmp = λ _. 0;
      virtual_clock_counter = 0;
      virtual_clock_counter_prv = 0;
    };
  };
  greipv4 = 0x0a000001;
  gresrcipv4 = 0x0a000002;
  counter = record { drop_bytes = 0; drop_count = 0 };
}

greterm_modify_packet-ingress_rewrite_example :
    IsTerminated
      (g_pdu 6)
      (record { drop_bytes = 0; drop_count = 0 })
      (greterm_modify_packet true one_segment
        (record { drop_bytes = 0; drop_count = 0 })
        (ingress_rewrite true distributor (g_pdu 6)))
greterm_modify_packet-ingress_rewrite_example =
    greterm_modify_packet-ingress_rewrite true one_segment
      (record { drop_bytes = 0; drop_count = 0 }) distributor (g_pdu 6) one_segment-IsRte
      g_pdu-IsUdp (omega arith)

-- A packet that is sent, one with a VLAN tag, and one without headroom.
abbrev burst : List (L2Type × Mbuf)
burst =
    (l2_ether, user_packet)
    ∷ (l2_ether_vlan, g_pdu 4)
    ∷ (l2_unknown, record user_packet { data_off = 8 })
    ∷ []

abbrev encapper : Encapper
encapper = record {
  headers = default_headers 50999 0;
  counter = record { drop_bytes = 0; drop_count = 5 };
}

encap_cycle-counted_example :
    (length (encap_cycle one_segment burst encapper).output
        + (encap_cycle one_segment burst encapper).worker.counter.drop_count)
      % 2 ^ 64
    ≡ (5 + length burst) % 2 ^ 64
encap_cycle-counted_example = encap_cycle-counted one_segment burst encapper

egress_port : HasEgressPort encapper.headers
unfolding default_headers
egress_port = record { version = refl; proto = refl; port = refl; flags = refl; type = refl }

encap_modify_packet-IsCapsule_example :
    IsCapsule user_packet encapper (encap_modify_packet one_segment encapper user_packet)
encap_modify_packet-IsCapsule_example =
    encap_modify_packet-IsCapsule one_segment encapper user_packet one_segment-IsRte egress_port
      (omega arith) refl

-- ===== src/Lib.antt =====
-- mixi-pgw: a packet gateway of a mobile network. The data plane (dataplane/, C++ on DPDK) forwards
-- and polices user packets on cores that pass them on through rings; the control plane (ctrlplane/)
-- answers GTP-C, with a proxy that spreads the requests of the SGWs over the PGWs; the tools
-- (tools/) keep BFD sessions with the routers.
--
-- Prelude: shared names, Boolean tests, lists, maps as association lists, bits and byte order.
-- Dataplane.Lookup: dataplane/inc/lookup_tpl.hpp and lookup_tpl.hh, the table with two sides that a
--   writer and readers share. A pointer into it is an Iterator; all operations are modelled.
-- Dataplane.Policer: the callbacks of CorePgwIngressTunnelWorker::ModifyPacket and
--   CorePgwEgressTunnelWorker::ModifyPacket (dataplane/src/core/core_pgw_ingress_tunnel_worker.cc,
--   core_pgw_egress_tunnel_worker.cc) with Find of core_pgw_base_worker.cc, on a map of entries.
-- Dataplane.Mbuf: rte_mbuf with its octets, the headers and _checksum of
--   dataplane/inc/mixi_pgw_data_plane_def.hpp. The calls of DPDK on an mbuf are fields of a record,
--   with what their documentation says as hypotheses.
-- Dataplane.Encap: ModifyPacket of CorePgwEgressTunnelWorker and, in Encap.Outer, of CoreEncapWorker
--   (core_pgw_egress_tunnel_worker.cc, core_encap_worker.cc), on octets, with the callback of
--   Dataplane.Policer.
-- Dataplane.Decap: ModifyPacket of CorePgwIngressTunnelWorker and of CoreGretermWorker
--   (core_pgw_ingress_tunnel_worker.cc, core_greterm_worker.cc).
-- Dataplane.Gre: ModifyPacket of the distributor workers and of CoreGtpu2GreWorker
--   (core_pgw_ingress_distributor_worker.cc, core_pgw_egress_distributor_worker.cc,
--   core_gtpu2gre_worker.cc), with the sessions of Dataplane.Worker, and error_indicate.
-- Dataplane.Cycles: is_arp_or_innericmp, check_decapability and what Cycle of core_encap_worker.cc,
--   core_greterm_worker.cc and core_gtpu2gre_worker.cc does with each packet before ModifyPacket.
-- Dataplane.Rings: SendOrBuffer and BurstFlush of dataplane/src/core/cores.cc and the flush of
--   core_rx_distributor.cc; the DPDK ring is a parameter.
-- Dataplane.Counter: Counting of dataplane/src/core/core_counter_worker.cc and what Cycle of
--   core_counter_ingress_worker.cc and core_counter_egress_worker.cc does with the packets.
-- Dataplane.Distributor: Cycle of dataplane/src/core/core_rx_distributor.cc with the packet tests of
--   dataplane/inc/mixi_pgw_data_plane_def.hpp.
-- Dataplane.Worker: Find, VirtualCycle with OnNotify and the warm-up ring of
--   dataplane/src/core/core_pgw_base_worker.cc, on the map and on the table of Dataplane.Lookup. The
--   binlog reader (binlog/) is left out; an event is the list of its columns.
-- Ctrlplane.Routes and Ctrlplane.Proxy: ctrlplane/src/proxy/routes.cc, route.cc, proxy_stats.cc and
--   the handlers of proxy_event.cc. The handlers call the routes; sockets, clock, database and GTP-C
--   parser are values that a handler is given.
-- Ctrlplane.Gtpc: the GTP-C packets of ctrlplane/src/pkt (gtp_alloc_packet.c, gtpc_validate_header.c,
--   gtpc_item_func.c, gtpc_item_func_v1.c). Gtpc.Digits has the numbers in decimal digits, Gtpc.State
--   the callbacks that fill gtpc_parse_state, Gtpc.Items and Gtpc.Bearer the functions that set an item
--   and the items of a bearer context, Gtpc.Version1 the parser _ParseImsi of
--   ctrlplane/src/proxy/proxy_event.cc with the message table of pgw/event/event_gtpc_v1_any.c.
-- Ctrlplane.Tunnel: the handlers of session requests (ctrlplane/src/pgw/event): Tunnel.Create, Modify
--   and Remove have event_gtpc_create_session.c, _modify_bearer.c, _delete_session.c,
--   _delete_bearer.c, _suspend_notification.c and _resume_notification.c; Tunnel.Options has the
--   options of a response, Tunnel.Dispatch event_rx.c, event_gtpc_other.c and the loops of the
--   nodes, which put packets on the queues of Ctrlplane.Node and call the handlers. A handler is
--   given what the database answers, and returns OK or ERR with the responses queued and the
--   UPDATEs made.
-- Ctrlplane.Peers, Ctrlplane.Node and Ctrlplane.Echo: the table of SGWs (ctrlplane/src/cmn/sgw_peers.c),
--   the queues between the nodes of the PGW (enq.c, deq_burst.c, alloc_packet.c) and the echo node
--   on both (ctrlplane/src/pgw/event/event_gtpc_echo.c).
-- Tools.Bfd: tools/src/lib_srv/bfd.cc with bfd.hpp and bfd.h. Each handler runs under one mutex and
--   is one step.
--
-- Words wrap around where the source's do: 16, 32 and 64 bits, written out. Loops are structural
-- recursion over lists or over the number of rounds that the source itself bounds. The two loops over
-- a GTP-C request of version 1 have no bound in the source and run on a number of rounds, which the
-- statements on Ctrlplane.Gtpc.Version1.Progress speak of. errno is a value that gtpc_digits_get is
-- given and returns: a handler of the PGW is given it (World.is_erange), while _ParseImsi is modelled
-- where errno is not ERANGE.
--
-- Not modelled: setup of DPDK, sockets, MySQL, logs, prefetching and the threads of the nodes, which
-- are I/O; the transfer of the counted octets; the accumulator, whose functions map files; the
-- requests of GTPv1 to the PGW, GTP-U and the timers of the control plane; the RADIUS, Diameter and SGW modules of the tools.
pub mod Prelude
pub mod Ctrlplane
pub mod Dataplane
pub mod Tools

-- ===== src/Ctrlplane/Tunnel/Runs.antt =====
-- The handlers of session requests at concrete requests.
use mixi_pgw.Prelude.{
  Bool, ℕ, arith, ◌≡◌, refl, true, false, ◌&&◌, ◌==◌, if◌then◌else◌, none, some, List, [], ◌∷◌, inl,
}
use mixi_pgw.Ctrlplane.Gtpc.{
  Piece, GtpPacket, GenericPacket, alloc_packet, alloc_packet_from_payload, validate_header, u16_at,
  type_issupported, is_echo, type_headerlen, parse_items, append_item, item_length, iterate_item,
  visit_items, written, put_u16, memcpy,
}
use mixi_pgw.Ctrlplane.Gtpc.Items.{octets}
use mixi_pgw.Ctrlplane.Gtpc.State.{
  on_gtpc_parse_root, root_rule, bearer_rule, follow, set_flag, store, bearer_items,
  iterate_bearer_ctx_item, on_gtpc_parse_bearer_context,
}
use mixi_pgw.Ctrlplane.Tunnel.{
  Tunnel, Processing, World, TunnelNode, delete_session, resume_notify, read_request, new_state,
  no_tunnel, root_ebi, imsi_number, lookup_tunnel, prefixed, on_tunnel_record, cause_piece, c_teid,
}
use mixi_pgw.Ctrlplane.Tunnel.Remove.{
  find_by_teid, delete_session_accepted, delete_session_denied, event_gtpc_delete_session_req,
  delete_bearer_accepted, delete_bearer_denied, event_gtpc_delete_bearer_req,
  event_gtpc_resume_notification_req,
}
use mixi_pgw.Ctrlplane.Tunnel.Create.{
  included_all, create_session_accepted, create_session_denied, on_create_session,
}
use mixi_pgw.Ctrlplane.Tunnel.Notifying.{rows_of, event_gtpc_resume_notification_req-IsResponded}
use mixi_pgw.Ctrlplane.Node.{Queue}
use mixi_pgw.Ctrlplane.Tunnel.Dispatch.{other_packet, node_burst, rx_node, gtpc_node}
use mixi_pgw.Ctrlplane.Tunnel.Received.{receive_all, IsHandled, node_burst-receive_all}
use mixi_pgw.Ctrlplane.Tunnel.Creating.{HasAddress, attempts, all_done}
use mixi_pgw.Ctrlplane.Tunnel.Created.{
  request_rows, chosen, create_steps, on_create_session-IsResponded,
}
use mixi_pgw.Ctrlplane.Tunnel.Causes.{IsResponded}
use mixi_pgw.Ctrlplane.Tunnel.Answers.{is_any, last_row}
use mixi_pgw.Ctrlplane.Tunnel.Removing.{
  event_gtpc_delete_session_req-IsResponded, event_gtpc_delete_bearer_req-IsResponded,
}

abbrev request_packet : List ℕ → ℕ → GenericPacket
request_packet bytes len = record {
  payload = octets bytes;
  datalen = len;
  saddr = 10 ∷ [];
  caddr = 20 ∷ [];
}

abbrev tunnel_row : Tunnel
tunnel_row = record no_tunnel { sgw_c_teid = 0x55; pgw_teid = 0x77; imsi_num = 440100; ebi = 5 }

-- A database with one tunnel, whose updates succeed.
abbrev world : World
world = record {
  find_imsi = λ imsi. [];
  find_msisdn = λ msisdn. tunnel_row ∷ [];
  find_teid = λ teid. if teid == 0x77 then tunnel_row ∷ [] else [];
  is_done = λ update. true;
  is_bound = true;
  ext_set_num = 1;
  pgw_unit_num = 2;
  is_erange = false;
  recovery_count = 3;
}

abbrev node : TunnelNode
node = record { egress = record { queue = []; queue_count = 0; queue_drops = 0 }; updates = [] }

abbrev nothing_read : GtpPacket × Processing
nothing_read = (
  alloc_packet 36,
  record { parse = new_state; gtph_seqno = 0; gtph_teid = 0; tunnel = no_tunnel },
)

-- What a packet is read as.
abbrev requested : GenericPacket → GtpPacket × Processing
requested pckt = elim (read_request pckt) [ none ↦ nothing_read | some request ↦ request ]

-- A Delete Session Request with an EBI.
abbrev delete_request : GenericPacket
delete_request =
    request_packet (0x48 ∷ 36 ∷ 0 ∷ 13 ∷ 0 ∷ 0 ∷ 0 ∷ 0x77 ∷ 0 ∷ 0 ∷ 9 ∷ 0 ∷ 73 ∷ 0 ∷ 1 ∷ 0 ∷ 5 ∷ [])
      17

delete_request_read : read_request delete_request ≡ some (requested delete_request)
unfolding read_request alloc_packet_from_payload validate_header u16_at type_issupported is_echo
    type_headerlen parse_items append_item item_length alloc_packet
delete_request_read = refl

event_gtpc_delete_session_req-IsResponded_example :
    IsResponded
      (event_gtpc_delete_session_req world delete_request node)
      node
      37
      (last_row no_tunnel (world.find_teid (requested delete_request).1.gtph_teid)).sgw_c_teid
      (requested delete_request).1.gtph_seqno
      (requested delete_request).0
      (if is_any (world.find_teid (requested delete_request).1.gtph_teid)
        then delete_session
            (requested delete_request).1.gtph_teid
            (root_ebi (requested delete_request).1.parse)
          ∷ []
        else [])
      (if is_any (world.find_teid (requested delete_request).1.gtph_teid)
          && world.is_done (
              delete_session
                (requested delete_request).1.gtph_teid
                (root_ebi (requested delete_request).1.parse))
        then delete_session_accepted world (find_by_teid world (requested delete_request).1)
        else delete_session_denied world (find_by_teid world (requested delete_request).1))
      (if is_any (world.find_teid (requested delete_request).1.gtph_teid)
          && world.is_done (
              delete_session
                (requested delete_request).1.gtph_teid
                (root_ebi (requested delete_request).1.parse))
        then 16
        else 93)
event_gtpc_delete_session_req-IsResponded_example =
    event_gtpc_delete_session_req-IsResponded world delete_request node (requested delete_request).0
      (requested delete_request).1 delete_request_read

-- A Delete Bearer Request without a PCO item.
abbrev bearer_request : GenericPacket
bearer_request =
    request_packet (0x48 ∷ 99 ∷ 0 ∷ 13 ∷ 0 ∷ 0 ∷ 0 ∷ 0x77 ∷ 0 ∷ 0 ∷ 9 ∷ 0 ∷ 73 ∷ 0 ∷ 1 ∷ 0 ∷ 5 ∷ [])
      17

bearer_request_read : read_request bearer_request ≡ some (requested bearer_request)
unfolding read_request alloc_packet_from_payload validate_header u16_at type_issupported is_echo
    type_headerlen parse_items append_item item_length alloc_packet
bearer_request_read = refl

bearer_request_pco : (requested bearer_request).1.parse.flag 19 ≡ false
unfolding read_request alloc_packet_from_payload validate_header u16_at type_issupported is_echo
    type_headerlen parse_items append_item item_length alloc_packet iterate_item visit_items
    on_gtpc_parse_root root_rule follow set_flag store
bearer_request_pco = refl

event_gtpc_delete_bearer_req-IsResponded_example :
    IsResponded
      (event_gtpc_delete_bearer_req world bearer_request node)
      node
      (if is_any (world.find_teid (requested bearer_request).1.gtph_teid)
          && world.is_done (
              delete_session
                (requested bearer_request).1.gtph_teid
                (root_ebi (requested bearer_request).1.parse))
        then 100
        else 37)
      (last_row no_tunnel (world.find_teid (requested bearer_request).1.gtph_teid)).sgw_c_teid
      (requested bearer_request).1.gtph_seqno
      (requested bearer_request).0
      (if is_any (world.find_teid (requested bearer_request).1.gtph_teid)
        then delete_session
            (requested bearer_request).1.gtph_teid
            (root_ebi (requested bearer_request).1.parse)
          ∷ []
        else [])
      (if is_any (world.find_teid (requested bearer_request).1.gtph_teid)
          && world.is_done (
              delete_session
                (requested bearer_request).1.gtph_teid
                (root_ebi (requested bearer_request).1.parse))
        then delete_bearer_accepted (find_by_teid world (requested bearer_request).1)
        else delete_bearer_denied world (find_by_teid world (requested bearer_request).1))
      (if is_any (world.find_teid (requested bearer_request).1.gtph_teid)
          && world.is_done (
              delete_session
                (requested bearer_request).1.gtph_teid
                (root_ebi (requested bearer_request).1.parse))
        then 16
        else 93)
event_gtpc_delete_bearer_req-IsResponded_example =
    event_gtpc_delete_bearer_req-IsResponded world bearer_request node (requested bearer_request).0
      (requested bearer_request).1 bearer_request_read bearer_request_pco

-- A Resume Notification with an IMSI.
abbrev resume_request : GenericPacket
resume_request =
    request_packet
      (0x48 ∷ 164 ∷ 0 ∷ 20 ∷ 0 ∷ 0 ∷ 0 ∷ 0x77 ∷ 0 ∷ 0 ∷ 9 ∷ 0 ∷ 1 ∷ 0 ∷ 8 ∷ 0 ∷ 0x44 ∷ 0x10 ∷ 0
        ∷ 0x21 ∷ 0x43 ∷ 0x65 ∷ 0x87 ∷ 0xf9 ∷ [])
      24

resume_request_read : read_request resume_request ≡ some (requested resume_request)
unfolding read_request alloc_packet_from_payload validate_header u16_at type_issupported is_echo
    type_headerlen parse_items append_item item_length alloc_packet
resume_request_read = refl

event_gtpc_resume_notification_req-IsResponded_example :
    IsResponded
      (event_gtpc_resume_notification_req world resume_request node)
      node
      165
      (last_row no_tunnel (rows_of world (requested resume_request).1)).sgw_c_teid
      (requested resume_request).1.gtph_seqno
      (requested resume_request).0
      (if is_any (rows_of world (requested resume_request).1)
        then resume_notify (imsi_number world.is_erange (requested resume_request).1.parse) ∷ []
        else [])
      (if is_any (rows_of world (requested resume_request).1)
          && world.is_done
              (resume_notify (imsi_number world.is_erange (requested resume_request).1.parse))
        then cause_piece 16 ∷ []
        else cause_piece 93 ∷ [])
      (if is_any (rows_of world (requested resume_request).1)
          && world.is_done
              (resume_notify (imsi_number world.is_erange (requested resume_request).1.parse))
        then 16
        else 93)
event_gtpc_resume_notification_req-IsResponded_example =
    event_gtpc_resume_notification_req-IsResponded world resume_request node
      (requested resume_request).0 (requested resume_request).1 resume_request_read

-- A Create Session Request with the MSISDN, the F-TEID of the SGW, the AMBR and a bearer.
abbrev create_request : GenericPacket
create_request =
    request_packet
      (0x48 ∷ 32 ∷ 0 ∷ 90 ∷ 0 ∷ 0 ∷ 0 ∷ 0 ∷ 0 ∷ 0 ∷ 9 ∷ 0 ∷ 76 ∷ 0 ∷ 6 ∷ 0 ∷ 0x18 ∷ 0x90 ∷ 0x21
        ∷ 0x43 ∷ 0x65 ∷ 0x87 ∷ 87 ∷ 0 ∷ 9 ∷ 0 ∷ 0x86 ∷ 0 ∷ 0 ∷ 0 ∷ 0x33 ∷ 10 ∷ 0 ∷ 0 ∷ 1 ∷ 72 ∷ 0
        ∷ 8 ∷ 0 ∷ 0 ∷ 0 ∷ 1 ∷ 0 ∷ 0 ∷ 0 ∷ 2 ∷ 0 ∷ 93 ∷ 0 ∷ 39 ∷ 0 ∷ 87 ∷ 0 ∷ 9 ∷ 2 ∷ 0x84 ∷ 0 ∷ 0
        ∷ 0 ∷ 0x34 ∷ 10 ∷ 0 ∷ 0 ∷ 1 ∷ 80 ∷ 0 ∷ 22 ∷ 0 ∷ 0 ∷ 9 ∷ [])
      94

create_request_read : read_request create_request ≡ some (requested create_request)
unfolding read_request alloc_packet_from_payload validate_header u16_at type_issupported is_echo
    type_headerlen parse_items append_item item_length alloc_packet
create_request_read = refl

create_request_free : HasAddress (chosen world (requested create_request).1)
unfolding read_request alloc_packet_from_payload validate_header u16_at type_issupported is_echo
    type_headerlen parse_items append_item item_length alloc_packet iterate_item visit_items
    on_gtpc_parse_root root_rule follow set_flag store bearer_items iterate_bearer_ctx_item
    on_gtpc_parse_bearer_context bearer_rule prefixed lookup_tunnel on_tunnel_record written put_u16
    memcpy
create_request_free = inl refl

create_request_included : included_all (requested create_request).1.parse ≡ true
unfolding read_request alloc_packet_from_payload validate_header u16_at type_issupported is_echo
    type_headerlen parse_items append_item item_length alloc_packet iterate_item visit_items
    on_gtpc_parse_root root_rule follow set_flag store bearer_items iterate_bearer_ctx_item
    on_gtpc_parse_bearer_context bearer_rule included_all written put_u16 memcpy
create_request_included = refl

on_create_session-IsResponded_example :
    (accepted : List Piece) × (denied : List Piece) × (create_session_accepted world
        (chosen world (requested create_request).1)
      ≡ some accepted)
    × (create_session_denied ≡ some denied)
    × IsResponded
        (on_create_session world create_request node)
        node
        33
        (c_teid (requested create_request).1.parse)
        (requested create_request).1.gtph_seqno
        (requested create_request).0
        (if included_all (requested create_request).1.parse
          then attempts world (create_steps world (requested create_request).1)
          else [])
        (if included_all (requested create_request).1.parse
            && (is_any (request_rows world (requested create_request).1)
                && all_done world (create_steps world (requested create_request).1))
          then accepted
          else denied)
        (if included_all (requested create_request).1.parse
            && (is_any (request_rows world (requested create_request).1)
                && all_done world (create_steps world (requested create_request).1))
          then 16
          else 93)
on_create_session-IsResponded_example =
    on_create_session-IsResponded world create_request node (requested create_request).0
      (requested create_request).1 create_request_read create_request_free

abbrev empty_queues : ℕ → Queue GenericPacket
empty_queues idx = record { queue = []; queue_count = 0; queue_drops = 0 }

-- The node of the requests without a node of their own, without those of version 1.
abbrev other_handler : GenericPacket → TunnelNode → Bool × TunnelNode
other_handler = other_packet (λ pkt n. (true, n)) world

node_burst-receive_all_example :
    ((node_burst other_handler
        (receive_all 2123 (delete_request ∷ resume_request ∷ []) empty_queues 6)
        node).0
      ≡ true)
    × IsHandled other_handler
        (delete_request ∷ resume_request ∷ [])
        node
        (node_burst other_handler
          (receive_all 2123 (delete_request ∷ resume_request ∷ []) empty_queues 6)
          node).2
unfolding rx_node gtpc_node
node_burst-receive_all_example =
    node_burst-receive_all other_handler 2123 6 delete_request (resume_request ∷ []) empty_queues
      node (refl, (refl, tt)) refl refl (omega arith)

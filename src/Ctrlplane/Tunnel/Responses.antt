-- ===== src/Ctrlplane/Tunnel/Responses.antt =====
-- ctrlplane/src/pgw/event: the packet that the end of a session handler puts on the egress queue.
use mixi_pgw.Prelude.{
  ℕ, ◌+◌, ◌-◌, ◌%◌, ◌^◌, ◌<◌, ◌≤◌, ◌≡◌, refl, ◌∙◌, ap, arith, some, true, false, List, [], ◌∷◌, All,
}
use mathlib.Core.Path.{subst}
use mixi_pgw.Ctrlplane.Gtpc.{
  Octets, Piece, GtpItem, GtpPacket, GenericPacket, alloc_packet, memcpy, u16_at, convert_to_packet,
  copy_packet_addr, is_echo, type_headerlen, new_header,
}
use mixi_pgw.Ctrlplane.Gtpc.Layout.{IsLaid, Holds, Holds-count, alloc_packet-IsLaid}
use mixi_pgw.Ctrlplane.Gtpc.Appending.{total, append_each_succeeds}
use mixi_pgw.Ctrlplane.Node.{enq, swap_address}
use mixi_pgw.Ctrlplane.Tunnel.{TunnelNode, respond, label, le32_at, seqno_at}

-- A response with a tunnel: its header, its items, and the addresses of the request, swapped.
pub record IsReply (type teid seqno : ℕ) (rpckt : GtpPacket) (pieces : List Piece)
    (r : GenericPacket) : Type 0 where
  pub version_2 : r.payload 0 ≡ 0x48
  pub typed : r.payload 1 ≡ type
  pub measured : u16_at r.payload 2 + 4 ≡ r.datalen
  pub tunnelled : le32_at r.payload 4 ≡ teid % 2 ^ 32
  pub numbered : seqno_at r.payload ≡ seqno % 2 ^ 24
  pub items : List GtpItem
  pub holds : Holds r.payload 12 r.datalen items pieces
  pub sent_to : r.saddr ≡ rpckt.caddr
  pub sent_from : r.caddr ≡ rpckt.saddr

-- Two memories that agree up to the end hold the same items.
Holds-agree :
    (a b : Octets) (start end : ℕ) (items : List GtpItem) (pieces : List Piece)
    → ((j : ℕ) → start ≤ j → j < end → b j ≡ a j)
    → Holds a start end items pieces
    → Holds b start end items pieces
Holds-agree a b start end [] [] same h = h
Holds-agree a b start end [] (piece ∷ pieces) same h = h
Holds-agree a b start end (item ∷ items) [] same h = h
Holds-agree a b start end (item ∷ items) (piece ∷ pieces) same h =
    let after = Holds-count a (start + piece.len) end items pieces h.1.1 in
    (
      h.0,
      (
        (λ i lt. same (start + i) (omega arith) (omega (arith, after, lt)) ∙ h.1.0 i lt),
        Holds-agree a b (start + piece.len) end items pieces
            (λ j lo hi. same j (omega (arith, lo)) hi) h.1.1,
      ),
    )

-- The header of the response, octet by octet.
module _ (p : GenericPacket) (teid seqno : ℕ) where
  label_rest : (j : ℕ) → 11 ≤ j → (label teid seqno p).payload j ≡ p.payload j
  unfolding label memcpy
  label_rest j h = ground (arith, h)

  label_first : (j : ℕ) → j < 4 → (label teid seqno p).payload j ≡ p.payload j
  unfolding label memcpy
  label_first j h = ground (arith, h)

  label_teid : le32_at (label teid seqno p).payload 4 ≡ teid % 2 ^ 32
  unfolding label memcpy le32_at
  label_teid = omega arith

  label_seqno : seqno_at (label teid seqno p).payload ≡ seqno % 2 ^ 24
  unfolding label memcpy seqno_at
  label_seqno = omega arith

-- The response that a packet with all its items becomes.
unfoldable response : GtpPacket → GtpPacket → ℕ → ℕ → GenericPacket
response q rpckt teid seqno =
    swap_address (label teid seqno (convert_to_packet (copy_packet_addr q rpckt)))

module _ (type teid seqno : ℕ) (rpckt q : GtpPacket) (pieces : List Piece)
    (laid : IsLaid 4 12 q pieces) (kept : (j : ℕ) → j < 2 → q.packet j ≡ new_header type j)
    (tunnel : is_echo type ≡ false) where
  cpckt : GenericPacket
  cpckt = convert_to_packet (copy_packet_addr q rpckt)

  converted : (j : ℕ) → j < q.offset → cpckt.payload j ≡ q.packet j
  unfolding cpckt convert_to_packet copy_packet_addr memcpy
  converted j lt = let same : j - 0 ≡ j = omega arith in ground (arith, lt, ap q.packet same)

  early : (j : ℕ) → j < 4 → (response q rpckt teid seqno).payload j ≡ q.packet j
  unfolding response swap_address cpckt
  early j lt =
      label_first (convert_to_packet (copy_packet_addr q rpckt)) teid seqno j lt
      ∙ converted j (omega (arith, laid.headed, lt))

  late : (j : ℕ) → 12 ≤ j → j < q.offset → (response q rpckt teid seqno).payload j ≡ q.packet j
  unfolding response swap_address cpckt
  late j lo hi =
      label_rest (convert_to_packet (copy_packet_addr q rpckt)) teid seqno j (omega arith)
      ∙ converted j hi

  header_0 : new_header type 0 ≡ 0x48
  unfolding new_header
  header_0 = rw tunnel refl

  header_1 : new_header type 1 ≡ type
  unfolding new_header
  header_1 = refl

  response-IsReply : IsReply type teid seqno rpckt pieces (response q rpckt teid seqno)
  unfolding response swap_address label convert_to_packet copy_packet_addr u16_at cpckt
  response-IsReply = record {
    version_2 = early 0 (omega arith) ∙ kept 0 (omega arith) ∙ header_0;
    typed = early 1 (omega arith) ∙ kept 1 (omega arith) ∙ header_1;
    measured = rw (early 2 (omega arith), early 3 (omega arith)) laid.summed;
    tunnelled = label_teid (convert_to_packet (copy_packet_addr q rpckt)) teid seqno;
    numbered = label_seqno (convert_to_packet (copy_packet_addr q rpckt)) teid seqno;
    items = q.items;
    holds =
        Holds-agree q.packet (response q rpckt teid seqno).payload 12 q.offset q.items pieces late
          laid.holds;
    sent_to = refl;
    sent_from = refl;
  }

headerlen : (type : ℕ) → is_echo type ≡ false → type_headerlen type ≡ 12
unfolding type_headerlen
headerlen type tunnel = rw tunnel refl

first : (type j : ℕ) → (alloc_packet type).packet j ≡ new_header type j
unfolding alloc_packet
first type j = refl

alloc_packet_room :
    (type : ℕ) (pieces : List Piece)
    → is_echo type ≡ false
    → total pieces < 1502
    → (alloc_packet type).offset + total pieces < (alloc_packet type).length
unfolding alloc_packet
alloc_packet_room type pieces tunnel room = omega (arith, room, headerlen type tunnel)

-- Where all pieces have octets and there is room for them, the response is sent.
pub respond-replies :
    (rpckt : GtpPacket) (type : ℕ) (pieces : List Piece) (teid seqno : ℕ) (n : TunnelNode)
    → is_echo type ≡ false
    → All (λ piece. 0 < piece.len) pieces
    → total pieces < 1502
    → (r : GenericPacket) × (respond rpckt type (some pieces) teid seqno n
        ≡ (true, record n { egress = enq n.egress r }))
      × IsReply type teid seqno rpckt pieces r
unfolding respond response
respond-replies rpckt type pieces teid seqno n tunnel all room =
    let (q, e, laid, at, kept) =
      append_each_succeeds (alloc_packet type) [] pieces
        (subst (λ h. IsLaid 4 h (alloc_packet type) []) (headerlen type tunnel)
          (alloc_packet-IsLaid type))
        all (alloc_packet_room type pieces tunnel room) in
    (
      response q rpckt teid seqno,
      rw (e, respond) refl,
      response-IsReply type teid seqno rpckt q pieces laid (λ j lt. kept j lt ∙ first type j)
          tunnel,
    )

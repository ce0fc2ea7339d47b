-- ===== src/Ctrlplane/Tunnel/Options.antt =====
-- setup_pco of ctrlplane/src/pgw/event/event_gtpc_create_session.c: the protocol configuration
-- options of a response.
use mixi_pgw.Prelude.{
  ℕ, ◌+◌, ◌==◌, ◌&&◌, ◌||◌, if◌then◌else◌, Option, none, some, List, [], ◌∷◌, ◌++◌, length,
}
use mixi_pgw.Ctrlplane.Gtpc.Items.{pco_set}
use mixi_pgw.Ctrlplane.Gtpc.State.{ParseState}
use mixi_pgw.Ctrlplane.Gtpc.{Piece}
use mixi_pgw.Ctrlplane.Tunnel.{pdn_type, piece}

abbrev pco_dns_ipv6_val : List ℕ
pco_dns_ipv6_val =
    0 ∷ 3 ∷ 0x10 ∷ 0x20 ∷ 1 ∷ 0x48 ∷ 0x60 ∷ 0x48 ∷ 0x60 ∷ 0 ∷ 0 ∷ 0 ∷ 0 ∷ 0 ∷ 0 ∷ 0 ∷ 0 ∷ 0x88
    ∷ 0x88 ∷ 0 ∷ 3 ∷ 0x10 ∷ 0x20 ∷ 1 ∷ 0x48 ∷ 0x60 ∷ 0x48 ∷ 0x60 ∷ 0 ∷ 0 ∷ 0 ∷ 0 ∷ 0 ∷ 0 ∷ 0 ∷ 0
    ∷ 0x88 ∷ 0x44 ∷ []

abbrev pco_dns_ipv4_val : List ℕ
pco_dns_ipv4_val = 0 ∷ 0xd ∷ 4 ∷ 8 ∷ 8 ∷ 8 ∷ 8 ∷ 0 ∷ 0xd ∷ 4 ∷ 8 ∷ 8 ∷ 4 ∷ 4 ∷ []

abbrev pco_mtu_ipv4_val : List ℕ
pco_mtu_ipv4_val = 0 ∷ 0x10 ∷ 2 ∷ 5 ∷ 0xb8 ∷ []

abbrev pco_mtu_nonip_val : List ℕ
pco_mtu_nonip_val = 0 ∷ 0x15 ∷ 2 ∷ 5 ∷ 0xb8 ∷ []

abbrev pco_dns_ipcp_ipv4_val : List ℕ
pco_dns_ipcp_ipv4_val =
    0x80 ∷ 0x21 ∷ 0x10 ∷ 3 ∷ 0 ∷ 0 ∷ 0x10 ∷ 0x81 ∷ 6 ∷ 8 ∷ 8 ∷ 8 ∷ 8 ∷ 0x83 ∷ 6 ∷ 8 ∷ 8 ∷ 4 ∷ 4 ∷ []

-- The value has the octets of both.
abbrev pco_dns_ipv64_val : List ℕ
pco_dns_ipv64_val = pco_dns_ipv6_val ++ pco_dns_ipv4_val

unfoldable pub pco_dns : ParseState → List ℕ
pco_dns cs =
    if cs.flag 6 && cs.flag 5
    then (if cs.flag 12 && pdn_type cs == 3 then pco_dns_ipv4_val else pco_dns_ipv64_val)
    else if cs.flag 5
    then pco_dns_ipv6_val
    else if cs.flag 6
    then pco_dns_ipv4_val
    else []

unfoldable pub pco_mtu : ParseState → List ℕ
pco_mtu cs = if cs.flag 7 then pco_mtu_nonip_val else if cs.flag 8 then pco_mtu_ipv4_val else []

unfoldable pub pco_ipcp : ParseState → List ℕ
pco_ipcp cs = if cs.flag 9 && cs.flag 10 then pco_dns_ipcp_ipv4_val else []

-- GTPC_PCO_EXTENSION_ON where an MTU or an IPCP item is sent
unfoldable pub pco_extension : ParseState → ℕ
pco_extension cs = if cs.flag 7 || cs.flag 8 || cs.flag 9 && cs.flag 10 then 0x80 else 0

-- One of PCO_ALL asks for the options. pcolen is never 1 or less then.
unfoldable pub setup_pco : ParseState → Option (List ℕ)
setup_pco cs =
    let pcobuffer = pco_dns cs ++ pco_mtu cs ++ pco_ipcp cs in
    if cs.flag 8 || cs.flag 7 || cs.flag 5 || cs.flag 6
    then pco_set (pco_extension cs) pcobuffer (length pcobuffer + 1)
    else none

-- The item is sent where have_pco is OK.
unfoldable pub pco_pieces : ParseState → List Piece
pco_pieces cs = elim (setup_pco cs) [ none ↦ [] | some pco ↦ piece 78 pco ∷ [] ]

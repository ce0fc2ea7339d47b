-- ===== src/Ctrlplane/Tunnel.antt =====
-- ctrlplane/src/pgw/event: what the handlers of session requests share. A request is read into a
-- parse state, the tunnel is looked up in the database, and a response goes to the egress queue.
-- The database is a value that a handler is given: the rows that it answers to a SELECT and whether
-- an UPDATE succeeds. inet_aton has read the addresses of a row. A reset or bound statement does
-- not fail. The build is the one without __IPV64__.
pub mod Options
pub mod Create
pub mod Modify
pub mod Remove
pub mod Responses
pub mod Sizes
pub mod Answers
pub mod Causes
pub mod Removing
pub mod Notifying
pub mod Creating
pub mod Created
pub mod Dispatch
pub mod Received
mod Runs
use mixi_pgw.Prelude.{
  ℕ, zero, suc, ◌+◌, ◌-◌, ◌*◌, ◌/◌, ◌%◌, ◌^◌, Bool, true, false, not, ◌&&◌, ◌||◌, ◌==◌,
  if◌then◌else◌, Option, none, some, List, [], ◌∷◌, ◌++◌, length, update,
}
use mixi_pgw.Ctrlplane.Gtpc.{
  Octets, GtpPacket, GenericPacket, Piece, Made, made, failed, shift, memcpy, iterate_item,
  alloc_packet, alloc_packet_from_payload, append_each, copy_packet_addr, convert_to_packet,
}
use mixi_pgw.Ctrlplane.Gtpc.Items.{
  octets, prefix, item_len, le32, cause_set, recovery_set, private_extension_set,
}
use mixi_pgw.Ctrlplane.Gtpc.Bearer.{BearerCtx, bearer_ctx_octets, bearer_ctx_length}
use mixi_pgw.Ctrlplane.Gtpc.State.{ParseState, on_gtpc_parse_root, set_flag, state_of}
use mixi_pgw.Ctrlplane.Gtpc.Version1.{imsi_digits}
use mixi_pgw.Ctrlplane.Gtpc.Digits.{digits_get}
use mixi_pgw.Ctrlplane.Node.{Queue, enq, swap_address}

-- A row of the tunnel table, with the columns that the handlers use.
pub record Tunnel : Type 0 where
  pub sgw_c_teid : ℕ
  pub pgw_teid : ℕ
  pub imsi_num : ℕ
  pub msisdn_num : ℕ
  pub ebi : ℕ
  pub ue_ipv : List ℕ
  pub pgw_u_ipv : List ℕ
  pub pgw_c_ipv : List ℕ

-- The parse state of a request with the sequence number and the tunnel of its header.
pub record Processing : Type 0 where
  pub parse : ParseState
  pub gtph_seqno : ℕ
  pub gtph_teid : ℕ
  pub tunnel : Tunnel

-- The SQL of ctrlplane/src/pgw/pgw.h, by what it is given. The restart counter is an Option where
-- a statement comes with it and without.
pub data Update : Type 0 where
  pgwip : ℕ → Update
  imsi_msisdn : ℕ → ℕ → Update
  create_session : ℕ → List ℕ → ℕ → List ℕ → ℕ → ℕ → ℕ → Option ℕ → ℕ → Update
  modify_bearer : ℕ → List ℕ → ℕ → List ℕ → ℕ → Option ℕ → Option ℕ → ℕ → Update
  rat_only : ℕ → Option ℕ → ℕ → Update
  modify_ebi : ℕ → ℕ → Update
  delete_session : ℕ → ℕ → Update
  suspend_notify : ℕ → Update
  resume_notify : ℕ → Update

-- What the database answers, and the settings of the program.
pub record World : Type 0 where
  pub find_imsi : ℕ → List Tunnel
  pub find_msisdn : ℕ → List Tunnel
  pub find_teid : ℕ → List Tunnel
  pub is_done : Update → Bool
  pub is_bound : Bool
  pub ext_set_num : ℕ
  pub pgw_unit_num : ℕ
  pub recovery_count : ℕ
  pub is_erange : Bool

pub record TunnelNode : Type 0 where
  pub egress : Queue GenericPacket
  pub updates : List Update

-- bzero
abbrev pub new_state : ParseState
new_state = record {
  flag = λ _. false;
  flag_v1 = λ _. false;
  stored = λ _ _. 0;
  qos_len = 0;
  nsapi = 0;
  cause_v1 = 0;
}

abbrev pub no_tunnel : Tunnel
no_tunnel = record {
  sgw_c_teid = 0;
  pgw_teid = 0;
  imsi_num = 0;
  msisdn_num = 0;
  ebi = 0;
  ue_ipv = 0 ∷ 0 ∷ 0 ∷ 0 ∷ [];
  pgw_u_ipv = 0 ∷ 0 ∷ 0 ∷ 0 ∷ [];
  pgw_c_ipv = 0 ∷ 0 ∷ 0 ∷ 0 ∷ [];
}

infixl 5 ◌>>=◌
abbrev pub ◌>>=◌ {ℓ κ} : {A : Type ℓ} {B : Type κ} → Option A → (A → Option B) → Option B
none >>= f = none
some x >>= f = f x

-- q.sq_t.seqno: 24 bits, on a little-endian host
unfoldable pub seqno_at : Octets → ℕ
seqno_at gtp = gtp 8 + gtp 9 * 0x100 + gtp 10 * 0x10000

-- ntohl of the four octets
unfoldable pub be32_at : Octets → ℕ → ℕ
be32_at memory i =
    memory i * 0x1000000 + memory (i + 1) * 0x10000 + memory (i + 2) * 0x100 + memory (i + 3)

-- the four octets as a U32 of a little-endian host
unfoldable pub le32_at : Octets → ℕ → ℕ
le32_at memory i =
    memory i + memory (i + 1) * 0x100 + memory (i + 2) * 0x10000 + memory (i + 3) * 0x1000000

-- The parsed packet, which keeps the addresses of the request, and the state; none is ERR.
unfoldable pub read_request : GenericPacket → Option (GtpPacket × Processing)
read_request pckt = elim (alloc_packet_from_payload pckt.payload (pckt.datalen % 2 ^ 16)) [
  | failed left ↦ none
  | made parsed ↦ some (
    record parsed { saddr = pckt.saddr; caddr = pckt.caddr },
    record {
      parse = state_of (iterate_item on_gtpc_parse_root parsed new_state);
      gtph_seqno = seqno_at pckt.payload;
      gtph_teid = be32_at pckt.payload 4;
      tunnel = no_tunnel;
    },
  )
]

-- HAVE_RECORD
abbrev pub have_record : ℕ
have_record = 26

unfoldable pub on_tunnel_record : Tunnel → Processing → Processing
on_tunnel_record rec cs = record cs { tunnel = rec; parse = set_flag have_record cs.parse }

-- DBPROVIDER_EXECUTE: the callback on each row.
unfoldable pub lookup_tunnel : List Tunnel → Processing → Processing
lookup_tunnel [] cs = cs
lookup_tunnel (rec ∷ rest) cs = lookup_tunnel rest (on_tunnel_record rec cs)

unfoldable pub query : World → Update → TunnelNode → Bool × TunnelNode
query w update n = (w.is_done update, record n { updates = n.updates ++ (update ∷ []) })

-- An item as it is appended, with the length that its header tells.
abbrev pub piece : ℕ → List ℕ → Piece
piece type item = record { type = type; octets = octets item; len = item_len item }

-- The teid and the sequence number in the header of the response.
unfoldable pub label : ℕ → ℕ → GenericPacket → GenericPacket
label teid seqno p = record p {
  payload = memcpy (memcpy p.payload 4 (octets (le32 teid)) 4) 8 (octets (le32 seqno)) 3;
}

-- The end of each handler: ERR where an item could not be set or appended, or else the response in
-- the egress queue, with its addresses swapped.
unfoldable pub respond :
    GtpPacket → ℕ → Option (List Piece) → ℕ → ℕ → TunnelNode → Bool × TunnelNode
respond rpckt type none teid seqno n = (false, n)
respond rpckt type (some pieces) teid seqno n = elim (append_each (alloc_packet type) pieces) [
  | none ↦ (false, n)
  | some lpckt ↦
      let cpckt = label teid seqno (convert_to_packet (copy_packet_addr lpckt rpckt)) in
      (true, record n { egress = enq n.egress (swap_address cpckt) })
]

-- cs->imsi.digits and cs->msisdn.digits
-- `is_erange`: whether errno is ERANGE before the call
unfoldable pub imsi_number : Bool → ParseState → ℕ
imsi_number is_erange cs = (digits_get is_erange (imsi_digits 8 (shift (cs.stored 1) 4))).0

unfoldable pub msisdn_number : Bool → ParseState → ℕ
msisdn_number is_erange cs = (digits_get is_erange (imsi_digits 6 (shift (cs.stored 76) 4))).0

-- on_create_session reads the MSISDN first, which may set errno.
unfoldable pub erange_after_msisdn : Bool → ParseState → Bool
erange_after_msisdn is_erange cs = (digits_get is_erange (imsi_digits 6 (shift (cs.stored 76) 4))).1

-- ebi_r.ebi.low and ebi_b.ebi.low
abbrev pub root_ebi : ParseState → ℕ
root_ebi cs = cs.stored 73 4 % 0x10

abbrev pub bearer_ebi : ParseState → ℕ
bearer_ebi cs = cs.stored 302 4 % 0x10

-- pdn.bit.pdn_type
abbrev pub pdn_type : ParseState → ℕ
pdn_type cs = cs.stored 99 4 % 8

-- The four bits of the bearer's EBI take the place of the first four of the teid.
unfoldable pub with_ebi : ℕ → ℕ → ℕ
with_ebi pgw_teid ebi = pgw_teid % 0x10000000 + ebi % 0x10 * 0x10000000

-- HAVE_RECOVERY with recovery.recovery_restart_counter
abbrev pub restart_counter : ParseState → Option ℕ
restart_counter cs = if cs.flag 24 then some (cs.stored 3 4) else none

-- pgw_teid with the EBI of the bearer
unfoldable pub prefixed : Processing → Processing
prefixed cs = record cs {
  tunnel = record cs.tunnel { pgw_teid = with_ebi cs.tunnel.pgw_teid (bearer_ebi cs.parse) };
}

-- c_teid.teid_grekey and u_teid.teid_grekey
abbrev pub c_teid : ParseState → ℕ
c_teid cs = le32_at (cs.stored 87) 5

abbrev pub u_teid : ParseState → ℕ
u_teid cs = le32_at (cs.stored 300) 5

-- the addresses c_teid.blk and u_teid.blk
abbrev pub c_blk : ParseState → List ℕ
c_blk cs = prefix 4 (shift (cs.stored 87) 9)

abbrev pub u_blk : ParseState → List ℕ
u_blk cs = prefix 4 (shift (cs.stored 300) 9)

-- HAVE_RECORD after the SELECT
abbrev pub is_found : Processing → Bool
is_found cs = cs.parse.flag have_record

-- The responses of the requests that are looked up by their teid.
unfoldable pub reply :
    GtpPacket → ℕ → Option (List Piece) → Processing → TunnelNode → Bool × TunnelNode
reply rpckt type pieces cs n = respond rpckt type pieces cs.tunnel.sgw_c_teid cs.gtph_seqno n

-- An UPDATE, and what is done where it succeeds and where it fails.
unfoldable pub after_query :
    World
    → Update
    → (TunnelNode → Bool × TunnelNode)
    → (TunnelNode → Bool × TunnelNode)
    → TunnelNode
    → Bool × TunnelNode
after_query w update ok ng n =
    let (done, after) = query w update n in if done then ok after else ng after

-- REQUEST_ACCEPTED and REQUEST_DENIED_APN_ACCESS
abbrev pub accepted_cause : ℕ
accepted_cause = 16

abbrev pub denied_cause : ℕ
denied_cause = 93

abbrev pub cause_piece : ℕ → Piece
cause_piece cause = piece 2 (cause_set cause)

unfoldable pub recovery_piece : World → Piece
recovery_piece w = piece 3 (recovery_set w.recovery_count)

unfoldable pub bearer_piece : BearerCtx → Piece
bearer_piece bctx = record {
  type = 93;
  octets = bearer_ctx_octets bctx;
  len = bearer_ctx_length bctx;
}

-- sizeof(gtpc_private_extension_t)
unfoldable pub private_piece : Processing → Piece
private_piece cs = record {
  type = 255;
  octets = octets (
      private_extension_set (u_blk cs.parse) (prefix 4 (shift (cs.parse.stored 300) 5))
        cs.tunnel.ue_ipv cs.tunnel.pgw_teid cs.tunnel.pgw_u_ipv);
  len = 32;
}

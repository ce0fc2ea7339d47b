-- ===== src/Dataplane/Encap/Sending.antt =====
-- CorePgwEgressTunnelWorker::ModifyPacket from its arguments on: the packet of a subscriber goes
-- to the SGW of its session.
use mixi_pgw.Prelude.{
  ℕ, zero, suc, ◌+◌, ◌-◌, ◌%◌, ◌^◌, ◌≤◌, ◌<◌, ◌≡◌, refl, ap, ◌∙◌, Bool, true, [], ◌∷◌,
  if◌then◌else◌, some, htons, htonl, lookup, lookup-insert, insert, arith, inl, inr, Bool-cases,
}
use mixi_pgw.Dataplane.Policer.{Item, meter, masked, Color, egress_callback, find_update}
use mixi_pgw.Dataplane.Policer.Table.{find_update-found}
use mixi_pgw.Dataplane.Distributor.{encap, is_user}
use mixi_pgw.Dataplane.Mbuf.{
  Mbuf, Rte, IsRte, mtod, write, le16, octets_of, frame_of, mbfu_flag_pdu, policer_mode_lte,
}
use mixi_pgw.Dataplane.Mbuf.Memory.{memcpy_same, mtod-write}
use mixi_pgw.Dataplane.Encap.{
  Base, Tunneler, sent, Modified, tunnel_headers, blank_udata, is_sixrd, egress_encap,
  egress_filled, egress_ipkey, egress_looked_up, egress_modify_packet, less,
}
use mixi_pgw.Dataplane.Encap.Kept.{meter-IsSameTunnel, IsForTunnel-IsSameTunnel}
use mixi_pgw.Dataplane.Encap.Wire.{put_headers-IsTunnelled}
use mixi_pgw.Dataplane.Encap.Tunnels.{
  HasDefaults, IsForTunnel, tunnel_headers-HasDefaults, tunnelled-IsForTunnel,
}

-- How many octets the encapsulation adds: the outer header of a 6rd packet is used again.
abbrev pub added : Mbuf → ℕ
added m = if is_sixrd m then 16 else 36

-- What is known of a packet that was sent into the tunnel `itm`.
pub record IsSent (itm : Item) (n : ℕ) (w : Tunneler) (m : Mbuf) (r : Modified Tunneler)
    : Type 0 where
  pub is_sent : r.verdict ≡ sent
  pub flag : r.mbuf.udata.flag ≡ mbfu_flag_pdu
  pub wire : IsForTunnel itm n m r.mbuf
  pub headers : HasDefaults r.worker.headers
  pub color : r.mbuf.udata.color ≡ m.udata.color
  pub base : r.worker.base ≡ w.base

-- the packet after rte_pktmbuf_prepend
abbrev prepended : Mbuf → ℕ → Mbuf
prepended m n = record m { data_off = m.data_off - n; pkt_len = m.pkt_len + n }

egress_filled-IsSent :
    (w : Tunneler) (n : ℕ) (m base : Mbuf)
    → HasDefaults w.headers
    → le16 (mtod m) 12 ≡ htons 0x0800
    → n ≤ 36
    → 14 ≤ n
    → n ≤ base.data_off
    → ((i : ℕ) → mtod base i ≡ mtod m i)
    → base.pkt_len ≡ m.pkt_len
    → base.udata ≡ m.udata
    → IsSent w.base.lookup_itm n w m (egress_filled w n (prepended base n))
unfolding egress_filled
egress_filled-IsSent w n m base d e le ge room same size user =
    let pkt = prepended base n in
    let h = tunnel_headers pkt.pkt_len w.base.lookup_itm w.headers in
    let copied : (i : ℕ) → mtod pkt (n + i) ≡ mtod m i = λ i.
      let back : base.data_off - n + (n + i) ≡ base.data_off + i = omega arith in
      ap base.buffer back ∙ same i in
    record {
      is_sent = refl;
      flag = refl;
      wire =
          tunnelled-IsForTunnel w.base.lookup_itm w.headers n m (egress_filled w n pkt).mbuf d e
            (ap (λ t. t + n) size) (put_headers-IsTunnelled n h (mtod m) pkt le ge copied);
      headers = tunnel_headers-HasDefaults pkt.pkt_len w.base.lookup_itm w.headers d;
      color = ap (λ u. u.color) user;
      base = refl;
    }

-- Setting the type that a frame has already.
typed_same :
    (m : Mbuf)
    → le16 (mtod m) 12 ≡ htons 0x0800
    → (i : ℕ) → mtod (write m 12 (octets_of (0x08 ∷ 0x00 ∷ [])) 2) i ≡ mtod m i
unfolding htons
typed_same m e i =
    ap (λ f. f i) (mtod-write m 12 (octets_of (0x08 ∷ 0x00 ∷ [])) 2)
    ∙ memcpy_same (mtod m) 12 (octets_of (0x08 ∷ 0x00 ∷ [])) 2 i set
  where
    set : (k : ℕ) → k < 2 → octets_of (0x08 ∷ 0x00 ∷ []) k ≡ mtod m (12 + k)
    set zero h = omega arith
    set (suc zero) h = omega arith
    set (suc (suc k)) h = absurd (omega arith)

egress_encap-IsSent :
    (rte : Rte) (w : Tunneler) (m : Mbuf)
    → IsRte rte
    → HasDefaults w.headers
    → le16 (mtod m) 12 ≡ htons 0x0800
    → 36 ≤ m.data_off
    → (r : Modified Tunneler) × ((egress_encap rte w m ≡ some r)
        × IsSent w.base.lookup_itm (added m) w m r)
unfolding egress_encap write
egress_encap-IsSent rte w m law d e room = elim (Bool-cases (is_sixrd m)) [
  | inl six ↦
      let typed = write m 12 (octets_of (0x08 ∷ 0x00 ∷ [])) 2 in
      rw (six, law.prepended typed 16 (omega arith))
        (
          egress_filled w 16 (prepended typed 16),
          (
            refl,
            egress_filled-IsSent w 16 m typed d e (omega arith) (omega arith) (omega arith)
                (typed_same m e) refl refl,
          ),
        )
  | inr four ↦
      rw (four, law.prepended m 36 room)
        (
          egress_filled w 36 (prepended m 36),
          (
            refl,
            egress_filled-IsSent w 36 m m d e (omega arith) (omega arith) room (λ i. refl) refl
                refl,
          ),
        )
]

is_user-ether_type : (m : Mbuf) → is_user (frame_of m) ≡ encap → le16 (mtod m) 12 ≡ htons 0x0800
unfolding is_user frame_of
is_user-ether_type m u = ground arith

-- What the worker meters the packet with.
abbrev pub metered : ℕ → Mbuf → Item → Item × Color
metered now m itm = meter now (less m.pkt_len 14 % 2 ^ 12) itm

abbrev pub session_key : Mbuf → ℕ
session_key m = htonl (masked (egress_ipkey m))

-- The packet `r` that was sent for the packet `m` of the session `itm`.
pub record IsForwarded (now : ℕ) (itm : Item) (m : Mbuf) (r : Modified Tunneler) : Type 0 where
  pub is_sent : r.verdict ≡ sent
  pub flag : r.mbuf.udata.flag ≡ mbfu_flag_pdu
  pub color : r.mbuf.udata.color ≡ (metered now m itm).1
  pub wire : IsForTunnel itm (added m) m r.mbuf
  pub headers : HasDefaults r.worker.headers
  pub session : lookup (session_key m) r.worker.base.map ≡ some (metered now m itm).0

-- The state and the packet when the callback is done.
abbrev metered_worker : ℕ → Tunneler → Mbuf → Item → Tunneler
metered_worker now w m itm = record w {
  base = record w.base {
    findkey = masked (egress_ipkey m);
    map = insert (session_key m) (metered now m itm).0 w.base.map;
    lookup_itm = (metered now m itm).0;
  };
}

abbrev metered_mbuf : ℕ → Tunneler → Mbuf → Item → Mbuf
metered_mbuf now w m itm = record m {
  udata = record blank_udata {
    size = less m.pkt_len 14 % 2 ^ 12;
    mode = policer_mode_lte;
    color = (metered now m itm).1;
    teid = w.base.findkey;
  };
}

egress_modify_packet-found :
    (rte : Rte) (ring_ok : Bool) (now : ℕ) (w : Tunneler) (m : Mbuf) (itm : Item)
    → w.base.findtype ≡ true
    → is_user (frame_of m) ≡ encap
    → lookup (session_key m) w.base.map ≡ some itm
    → egress_modify_packet rte ring_ok now w m
      ≡ egress_encap rte (metered_worker now w m itm) (metered_mbuf now w m itm)
unfolding egress_modify_packet egress_looked_up find_update egress_callback
egress_modify_packet-found rte ring_ok now w m itm typed user found =
    let callback = egress_callback w.base.findkey now (less m.pkt_len 14 % 2 ^ 12) in
    let step =
      find_update-found w.base.findtype (masked (egress_ipkey m)) callback w.base.map itm
        (record {
          entry = (metered now m itm).0;
          color = (metered now m itm).1;
          teid = w.base.findkey;
        })
        typed found refl in
    rw (user, step, egress_modify_packet) refl

-- A packet for a subscriber with a session leaves for the SGW of the session: it is a G-PDU for the
-- session's tunnel with right lengths and a right checksum in the outer header, around the octets that
-- came; it has the colour that the policer gives it and the session keeps the tokens that are left.
-- The mbuf needs 36 octets of headroom.
pub egress_modify_packet-IsForwarded :
    (rte : Rte) (ring_ok : Bool) (now : ℕ) (w : Tunneler) (m : Mbuf) (itm : Item)
    → IsRte rte
    → HasDefaults w.headers
    → w.base.findtype ≡ true
    → 36 ≤ m.data_off
    → is_user (frame_of m) ≡ encap
    → lookup (session_key m) w.base.map ≡ some itm
    → (r : Modified Tunneler) × ((egress_modify_packet rte ring_ok now w m ≡ some r)
        × IsForwarded now itm m r)
unfolding is_sixrd
egress_modify_packet-IsForwarded rte ring_ok now w m itm law d typed room user found =
    let e = is_user-ether_type m user in
    let w' = metered_worker now w m itm in
    let m' = metered_mbuf now w m itm in
    let (r, (step, s)) = egress_encap-IsSent rte w' m' law d e room in
    let same = meter-IsSameTunnel now (less m.pkt_len 14 % 2 ^ 12) itm in
    (
      r,
      (
        egress_modify_packet-found rte ring_ok now w m itm typed user found ∙ step,
        record {
          is_sent = s.is_sent;
          flag = s.flag;
          color = s.color;
          wire =
              IsForTunnel-IsSameTunnel w'.base.lookup_itm itm (added m) m m' r.mbuf same refl refl
                s.wire;
          headers = s.headers;
          session =
              ap (λ (b : Base). lookup (session_key m) b.map) s.base
              ∙ ground (
                arith,
                lookup-insert (session_key m) (session_key m) (metered now m itm).0 w.base.map,
              );
        },
      ),
    )

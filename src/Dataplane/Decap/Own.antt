-- ===== src/Dataplane/Decap/Own.antt =====
-- CorePgwIngressTunnelWorker::ModifyPacket and packets whose source address is not that of the tunnel's
-- session. Without an error ring such a packet is taken out of its tunnel and sent, with the flag
-- MBFU_FLAG_DC.
use mixi_pgw.Prelude.{
  ℕ, ◌≡◌, refl, sym, ap, ◌∙◌, Bool, ◌==◌, leb, Option, none, some, List, htonl, lookup, arith, ◌⊎◌,
  inl, inr, Bool-cases, Option-cases, if_both, leb→le, true, false,
}
use mathlib.Core.Path.{subst}
use mixi_pgw.Dataplane.Policer.{Item, Metered, masked, ingress_callback, find_update}
use mixi_pgw.Dataplane.Policer.Table.{find_update-taken}
use mixi_pgw.Dataplane.Distributor.{pass, decap, is_pdu}
use mixi_pgw.Dataplane.Mbuf.{
  Mbuf, Rte, IsRte, mtod, write, le32, frame_of, mbfu_flag_pdu, policer_mode_lte,
}
use mixi_pgw.Dataplane.Encap.{Base, Modified, Verdict, sent, blank_udata, missed, enqueue_error}
use mixi_pgw.Dataplane.Decap.{
  ip_version, ingress_ipkey, ingress_decap, keep_ether, put_sixrd_header, ingress_looked_up,
  ingress_modify_packet, dropped,
}
use mixi_pgw.Dataplane.Decap.Delivery.{tunnel_key}

is_pdu-cases : (m : Mbuf) → (is_pdu (frame_of m) ≡ pass) ⊎ (is_pdu (frame_of m) ≡ decap)
unfolding is_pdu frame_of
is_pdu-cases m = if_both (λ p. (p ≡ pass) ⊎ (p ≡ decap)) _ _ _ (inr refl) (inl refl)

abbrev is_sent : Verdict → Bool
is_sent sent = true
is_sent _ = false

-- A packet out of a tunnel that is sent: with the flag of one, or by a worker with an error ring.
abbrev pub IsOut : Base → Mbuf → Modified Base → Type 0
IsOut w m r =
    (r.mbuf.udata.flag ≡ mbfu_flag_pdu)
    ⊎ ((w.has_err_ring ≡ true) × (is_pdu (frame_of m) ≡ decap) × (r.verdict ≡ sent))

-- A packet that is not sent, or has no flag without an error ring.
record IsKept (w : Base) (m : Mbuf) (r : Modified Base) : Type 0 where
  flag : r.mbuf.udata.flag ≡ 0
  verdict : w.has_err_ring ≡ true → is_pdu (frame_of m) ≡ decap → is_sent r.verdict ≡ false

IsKept-out : (w : Base) (m : Mbuf) (r : Modified Base) → IsKept w m r → IsOut w m r → ⊥
IsKept-out w m r k (inl flag) = omega (arith, k.flag, flag)
IsKept-out w m r k (inr (ring, pdu, sent_is)) =
    let no : true ≡ false = sym (ap is_sent sent_is) ∙ k.verdict ring pdu in ground (arith, no)

missed-flag :
    (ring_ok : Bool) (w : Base) (m : Mbuf)
    → m.udata.flag ≡ 0
    → (missed ring_ok w m).mbuf.udata.flag ≡ 0
unfolding missed
missed-flag ring_ok w m e =
    if_both (λ (r : Modified Base). r.mbuf.udata.flag ≡ 0) w.has_err_ring _ _ e refl

missed-IsKept :
    (ring_ok : Bool) (w : Base) (m m' : Mbuf) → m.udata.flag ≡ 0 → IsKept w m' (missed ring_ok w m)
unfolding missed enqueue_error
missed-IsKept ring_ok w m m' e = record {
  flag = missed-flag ring_ok w m e;
  verdict = λ ring _. rw ring (enqueue-unsent ring_ok);
}
  where
    enqueue-unsent : (b : Bool) → is_sent (enqueue_error b) ≡ false
    enqueue-unsent true = unfold enqueue_error in refl
    enqueue-unsent false = unfold enqueue_error in refl

looked_up-out :
    (ring_ok : Bool) (w : Base) (m m' : Mbuf) (res : List (ℕ × Item) × Option Metered)
    → m.udata.flag ≡ 0
    → IsOut w m' (ingress_looked_up ring_ok w m res)
    → (met : Metered) × (res.1 ≡ some met)
unfolding ingress_looked_up
looked_up-out ring_ok w m m' (map, none) e out =
    absurd (IsKept-out w m' (missed ring_ok w m) (missed-IsKept ring_ok w m m' e) out)
looked_up-out ring_ok w m m' (map, some met) e out = (met, refl)

-- the flag of the packet that ingress_decap returns, or `d`
flag_or : ℕ → Option (Mbuf × ℕ) → ℕ
flag_or d none = d
flag_or d (some (pkt, size)) = pkt.udata.flag

-- Only Find's callback sets the flag.
decap_keeps_flag :
    (rte : Rte) (ipkey : ℕ) (m : Mbuf)
    → IsRte rte
    → flag_or m.udata.flag (ingress_decap rte ipkey m) ≡ m.udata.flag
unfolding flag_or ingress_decap keep_ether put_sixrd_header write
decap_keeps_flag rte ipkey m law = elim (Bool-cases (ip_version m 50 == 6)) [
  | inl six ↦ elim (Bool-cases (leb 16 m.pkt_len)) [
    | inl room ↦ rw (six, law.adjusted m 16 (leb→le 16 m.pkt_len room), ingress_decap) refl
    | inr short ↦ rw (six, law.too_short m 16 (ground arith), ingress_decap) refl
  ]
  | inr other ↦ elim (Bool-cases (leb 36 m.pkt_len)) [
    | inl room ↦ rw (other, law.adjusted m 36 (leb→le 36 m.pkt_len room), ingress_decap) refl
    | inr short ↦ rw (other, law.too_short m 36 (ground arith), ingress_decap) refl
  ]
]

ingress_decap-flag :
    (rte : Rte) (ipkey : ℕ) (m pkt : Mbuf) (size : ℕ)
    → IsRte rte
    → ingress_decap rte ipkey m ≡ some (pkt, size)
    → pkt.udata.flag ≡ m.udata.flag
unfolding flag_or
ingress_decap-flag rte ipkey m pkt size law e =
    sym (ap (flag_or m.udata.flag) e) ∙ decap_keeps_flag rte ipkey m law

ingress_callback-taken :
    (findkey now size : ℕ) (itm : Item) (met : Metered)
    → ingress_callback findkey now size itm ≡ some met
    → masked itm.ue_ipv4 ≡ masked findkey
unfolding ingress_callback
ingress_callback-taken findkey now size itm met e = ground arith

ingress_ipkey-is : (m : Mbuf) (ipkey : ℕ) → ingress_ipkey m ≡ some ipkey → ipkey ≡ le32 (mtod m) 62
unfolding ingress_ipkey
ingress_ipkey-is m ipkey e = ground arith

-- A packet gets the flag of one out of a tunnel, or is a packet of a tunnel and sent on by a worker with
-- an error ring, only if its tunnel has a session and its source address, cut to 24 bits, is that of
-- the session.
pub ingress_modify_packet-IsOwn :
    (rte : Rte) (ring_ok : Bool) (now : ℕ) (w : Base) (m : Mbuf)
    → IsRte rte
    → IsOut w m (ingress_modify_packet rte ring_ok now w m)
    → (itm : Item) × ((lookup (tunnel_key m) w.map ≡ some itm)
        × (masked itm.ue_ipv4 ≡ masked (le32 (mtod m) 62)))
unfolding ingress_modify_packet dropped blank_udata
ingress_modify_packet-IsOwn rte ring_ok now w m law out = elim (is_pdu-cases m) [
  | inl p ↦
      let no : IsKept w m (ingress_modify_packet rte ring_ok now w m) =
        rw (p, ingress_modify_packet) (record { flag = refl; verdict = λ _ pdu. not_both p pdu }) in
      absurd (IsKept-out w m _ no out)
  | inr p ↦ elim (Option-cases (ingress_ipkey m)) [
    | inl k ↦
        let no : IsKept w m (ingress_modify_packet rte ring_ok now w m) =
          rw (p, k, ingress_modify_packet) (record { flag = refl; verdict = λ _ _. refl }) in
        absurd (IsKept-out w m _ no out)
    | inr (ipkey, k) ↦
        let m0 = record m { udata = blank_udata } in
        elim (Option-cases (ingress_decap rte ipkey m0)) [
          | inl c ↦
              let no : IsKept w m (ingress_modify_packet rte ring_ok now w m) =
                rw (p, k, c, ingress_modify_packet)
                  (record { flag = refl; verdict = λ _ _. refl }) in
              absurd (IsKept-out w m _ no out)
          | inr ((pkt, size), c) ↦
              let metered = record pkt.udata { size = size; mode = policer_mode_lte } in
              let res =
                find_update w.findtype (htonl (le32 (mtod m) 46)) (ingress_callback ipkey now size)
                  w.map in
              let step : ingress_modify_packet rte ring_ok now w m
                  ≡ ingress_looked_up ring_ok (record w { findkey = ipkey })
                      (record pkt { udata = metered }) res =
                rw (p, k, c, ingress_modify_packet) refl in
              let (met, some_met) =
                looked_up-out ring_ok (record w { findkey = ipkey })
                  (record pkt { udata = metered }) m res
                  (ingress_decap-flag rte ipkey m0 pkt size law c)
                  (subst (λ (r : Modified Base). IsOut w m r) step out) in
              let (itm, (found, took)) =
                find_update-taken w.findtype (htonl (le32 (mtod m) 46))
                  (ingress_callback ipkey now size) w.map met some_met in
              (
                itm,
                (
                  found,
                  ingress_callback-taken ipkey now size itm met took
                      ∙ ap masked (ingress_ipkey-is m ipkey k),
                ),
              )
        ]
  ]
]
  where
    not_both : {b : Bool} → is_pdu (frame_of m) ≡ pass → is_pdu (frame_of m) ≡ decap → b ≡ false
    not_both p d = absurd (cc (p, d))

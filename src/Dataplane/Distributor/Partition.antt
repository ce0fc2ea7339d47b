-- ===== src/Dataplane/Distributor/Partition.antt =====
-- Which frames reach which ring.
use mixi_pgw.Prelude.{ℕ, ◌≡◌, refl, ◌≢◌, true, List, [], ◌∷◌, htons, arith}
use mixi_pgw.Dataplane.Distributor.{
  Frame, Destination, egress, ingress, tap, is_udp, is_gtpu, destination, Outputs, distribute,
  cycle,
}

-- An IPv4 packet with UDP to a port.
pub record IsUdpTo (port : ℕ) (m : Frame) : Type 0 where
  pub ipv4 : m.is_ipv4_hdr ≡ true
  pub udp : m.next_proto_id ≡ 17
  pub to_port : m.dst_port ≡ htons port

-- What a worker of the ingress side may rely on.
pub record IsTunnelled (m : Frame) : Type 0 where
  pub to_gtpu : IsUdpTo 2152 m
  pub no_echo : (m.gtp_type ≢ 1) × (m.gtp_type ≢ 2)
  pub tunnel : m.gtp_tid ≢ 0

egress_lem : (m : Frame) → destination m ≡ egress → IsUdpTo 50999 m
unfolding destination is_udp is_gtpu htons
egress_lem m h = ground arith

ingress_lem : (m : Frame) → destination m ≡ ingress → IsTunnelled m
unfolding destination is_udp is_gtpu htons
ingress_lem m h = ground arith

tap_lem : (m : Frame) → destination m ≡ tap → ¬ IsTunnelled m × (¬ IsUdpTo 50999 m)
unfolding destination is_udp is_gtpu htons
tap_lem m h = (λ t. ground (arith, t.no_echo), λ u. ground arith)

abbrev pub IsForTap : Frame → Type 0
IsForTap m = ¬ IsTunnelled m × (¬ IsUdpTo 50999 m)

-- Each frame of a burst stands in the output that its kind asks for, in the order of the burst, and
-- nothing else stands there.
pub data IsPartition : List Frame → List Frame → List Frame → List Frame → Type 0 where
  nothing : IsPartition [] [] [] []
  to_egress :
      {m : Frame} {ms es is ts : List Frame}
      → IsUdpTo 50999 m
      → IsPartition ms es is ts
      → IsPartition (m ∷ ms) (m ∷ es) is ts
  to_ingress :
      {m : Frame} {ms es is ts : List Frame}
      → IsTunnelled m
      → IsPartition ms es is ts
      → IsPartition (m ∷ ms) es (m ∷ is) ts
  to_tap :
      {m : Frame} {ms es is ts : List Frame}
      → IsForTap m
      → IsPartition ms es is ts
      → IsPartition (m ∷ ms) es is (m ∷ ts)

distribute-IsPartition :
    (m : Frame) (ms : List Frame) (d : Destination) (o : Outputs)
    → destination m ≡ d
    → IsPartition ms o.to_egress o.to_ingress o.to_tap
    → IsPartition
        (m ∷ ms)
        (distribute d m o).to_egress
        (distribute d m o).to_ingress
        (distribute d m o).to_tap
unfolding distribute
distribute-IsPartition m ms egress o e v = to_egress (egress_lem m e) v
distribute-IsPartition m ms ingress o e v = to_ingress (ingress_lem m e) v
distribute-IsPartition m ms tap o e v = to_tap (tap_lem m e) v

-- A burst is split up without loss: the egress ring gets its UDP packets to the port 50999, the
-- ingress ring its GTP-U packets with a tunnel that are no echo, and the tap interface the others,
-- unchanged and each in the order of the burst.
pub cycle-IsPartition :
    (ms : List Frame) → IsPartition ms (cycle ms).to_egress (cycle ms).to_ingress (cycle ms).to_tap
unfolding cycle
cycle-IsPartition [] = nothing
cycle-IsPartition (m ∷ ms) =
    distribute-IsPartition m ms (destination m) (cycle ms) refl (cycle-IsPartition ms)

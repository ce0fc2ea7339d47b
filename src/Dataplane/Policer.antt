-- ===== src/Dataplane/Policer.antt =====
-- The policer in dataplane/src/core/core_pgw_ingress_tunnel_worker.cc and
-- core_pgw_egress_tunnel_worker.cc: the callbacks that Find of core_pgw_base_worker.cc runs on an
-- entry of the map under the lock. A callback is one step; the time is an argument.
pub mod Conformance
pub mod Refill
pub mod Seconds
pub mod Table
mod Runs
use mixi_pgw.Prelude.{
  ℕ, ◌+◌, ◌-◌, ◌*◌, ◌/◌, ◌%◌, ◌^◌, min, Bool, true, false, ◌==◌, leb, if◌then◌else◌, Option, none,
  some, List, [], ◌∷◌, lookup, insert, htonl,
}

-- lookup_t of core.hpp, with the policer's fields (ARCH >= 15)
pub record Item : Type 0 where
  pub active : ℕ
  pub mode : ℕ
  pub ue_ipv4 : ℕ
  pub ue_teid : ℕ
  pub sgw_gtpu_teid : ℕ
  pub sgw_gtpu_ipv4 : ℕ
  pub pgw_gtpu_ipv4 : ℕ
  pub epoch_w : ℕ
  pub commit_rate : ℕ
  pub commit_burst_size : ℕ
  pub commit_information_rate : ℕ
  pub excess_rate : ℕ
  pub excess_burst_size : ℕ
  pub excess_information_rate : ℕ

-- POLICER_COLOR_GREEN, POLICER_COLOR_YELLOW and POLICER_COLOR_RED
pub data Color : Type 0 where
  green yellow red : Color

-- `now_ - itm->epoch_w` on uint32_t
unfoldable pub elapsed : ℕ → Item → ℕ
elapsed now itm = (now % 2 ^ 32 + 2 ^ 32 - itm.epoch_w) % 2 ^ 32

-- MIN(burst, rate + information * dt), all of them uint32_t
unfoldable pub top_up : ℕ → ℕ → ℕ → ℕ → ℕ
top_up burst rate information dt = min burst ((rate + information * dt % 2 ^ 32) % 2 ^ 32)

unfoldable pub refill : ℕ → Item → Item
unfolding elapsed top_up
refill now itm =
    let dt = elapsed now itm in
    if dt == 0 then itm else record itm {
      commit_rate = top_up itm.commit_burst_size itm.commit_rate itm.commit_information_rate dt;
      excess_rate = top_up itm.excess_burst_size itm.excess_rate itm.excess_information_rate dt;
      epoch_w = now % 2 ^ 32;
    }

unfoldable pub paint : ℕ → Item → Item × Color
paint size itm =
    if leb size itm.commit_rate
    then (record itm { commit_rate = itm.commit_rate - size }, green)
    else if leb size itm.excess_rate
    then (record itm { excess_rate = itm.excess_rate - size }, yellow)
    else (itm, red)

-- The part of both callbacks that meters a packet of `size` octets.
unfoldable pub meter : ℕ → ℕ → Item → Item × Color
unfolding refill paint
meter now size itm = paint size (refill now itm)

-- `a & 0xffffff00` on uint32_t
unfoldable pub masked : ℕ → ℕ
masked a = a % 2 ^ 32 / 0x100 * 0x100

-- What a callback leaves in the entry and in the packet's user data.
pub record Metered : Type 0 where
  pub entry : Item
  pub color : Color
  pub teid : ℕ

-- The callback of CorePgwIngressTunnelWorker::ModifyPacket; none is its return value -1.
unfoldable pub ingress_callback : ℕ → ℕ → ℕ → Item → Option Metered
unfolding masked meter
ingress_callback findkey now size itm =
    if masked itm.ue_ipv4 == masked findkey
    then (let (itm', c) = meter now size itm in
        some (record { entry = itm'; color = c; teid = masked itm.ue_ipv4 }))
    else none

-- The callback of CorePgwEgressTunnelWorker::ModifyPacket, which leaves the teid of the user data.
unfoldable pub egress_callback : ℕ → ℕ → ℕ → Item → Option Metered
unfolding meter
egress_callback teid now size itm =
    let (itm', c) = meter now size itm in some (record { entry = itm'; color = c; teid = teid })

-- CorePgwBaseWorker::Find(key, callback, arg): without findtype_ it is not implemented
unfoldable pub find_update :
    Bool → ℕ → (Item → Option Metered) → List (ℕ × Item) → List (ℕ × Item) × Option Metered
find_update false key callback map = (map, none)
find_update true key callback map = elim (lookup (htonl key) map) [
  | none ↦ (map, none)
  | some itm ↦ elim (callback itm) [
    | none ↦ (map, none)
    | some m ↦ (insert (htonl key) m.entry map, some m)
  ]
]

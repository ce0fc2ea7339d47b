-- ===== src/Dataplane/Counter.antt =====
-- dataplane/src/core/core_counter_worker.cc, core_counter_ingress_worker.cc and
-- core_counter_egress_worker.cc: what a counter worker does with each packet of a burst. The cycle
-- counters of the CPU are left out, and so is the transfer of the counted octets.
mod Runs
pub mod Billing
use mixi_pgw.Prelude.{
  ℕ, ◌+◌, ◌%◌, ◌^◌, Bool, true, false, not, ◌&&◌, ◌==◌, if◌then◌else◌, Option, none, some, List, [],
  ◌∷◌, lookup, insert, update,
}
use mixi_pgw.Dataplane.Policer.{Color, green, yellow, red}

-- counting_item_t; the name of the time of creation is the source's
pub record CountingItem : Type 0 where
  pub key : ℕ
  pub used : ℕ
  pub used_3g : ℕ
  pub used_low : ℕ

-- CoreCounterWorker, with map_ as a function of the index
pub record Counter : Type 0 where
  pub map : ℕ → List (ℕ × CountingItem)
  pub counting_count : ℕ
  pub traffic_bytes : ℕ

abbrev pub count_map_size : ℕ
count_map_size = 16

-- POLICER_MODE_3G, POLICER_MODE_LOW, and any other mode, which the source treats as POLICER_MODE_LTE
pub data Mode : Type 0 where
  mode_lte mode_3g mode_low : Mode

abbrev pub is_low : Mode → Bool
is_low mode_low = true
is_low _ = false

abbrev pub is_3g : Mode → Bool
is_3g mode_3g = true
is_3g _ = false

abbrev pub is_green : Color → Bool
is_green green = true
is_green _ = false

abbrev pub is_red : Color → Bool
is_red red = true
is_red _ = false

unfoldable pub charge : Mode → ℕ → CountingItem → CountingItem
charge mode_low val itm = record itm { used_low = (itm.used_low + val) % 2 ^ 32 }
charge mode_3g val itm = record itm { used_3g = (itm.used_3g + val) % 2 ^ 32 }
charge mode_lte val itm = record itm { used = (itm.used + val) % 2 ^ 32 }

-- the item that Counting puts in for a new key: all 0 but the time, and then the octets
unfoldable pub new_item : ℕ → Mode → ℕ → CountingItem
new_item now mode val =
    charge mode val (record { key = now % 2 ^ 32; used = 0; used_3g = 0; used_low = 0 })

unfoldable pub charged : ℕ → Mode → ℕ → Option CountingItem → CountingItem
charged now mode val none = new_item now mode val
charged now mode val (some itm) = charge mode val itm

-- Counting
unfoldable pub counting : ℕ → ℕ → ℕ → Mode → Counter → Counter
counting now key used mode c =
    let idx = key % count_map_size in
    let val = used % 2 ^ 16 in
    record c {
      map =
          update c.map idx (insert key (charged now mode val (lookup key (c.map idx))) (c.map idx));
      counting_count = (c.counting_count + 1) % 2 ^ 64;
      traffic_bytes = (c.traffic_bytes + val) % 2 ^ 64;
    }

-- mbuf_userdat_t, as the PGW worker leaves it: `pdu` is the flag MBFU_FLAG_PDU
pub record Userdat : Type 0 where
  pub pdu : Bool
  pub size : ℕ
  pub color : Color
  pub mode : Mode
  pub teid : ℕ

-- the policy of Cycle: a slow session passes green packets alone, a 3G session all but red ones
unfoldable pub is_dropped : Userdat → Bool
is_dropped udat =
    if is_low udat.mode && not (is_green udat.color)
    then true
    else is_3g udat.mode && is_red udat.color

-- Cycle on the packets of a burst: the counters, and what goes to SendOrBufferPassThrough
unfoldable pub cycle : ℕ → List Userdat → Counter → Counter × List Userdat
cycle now [] c = (c, [])
cycle now (udat ∷ rest) c =
    if is_dropped udat
    then cycle now rest c
    else let c' = if udat.pdu then counting now udat.teid udat.size udat.mode c else c in
      let (last, passed) = cycle now rest c' in (last, udat ∷ passed)

-- ===== src/Dataplane/Decap/Samples.antt =====
-- Packets, sessions and workers for the tests of the tunnels.
use mixi_pgw.Prelude.{
  ℕ, ◌+◌, ◌-◌, ◌*◌, ◌≤◌, ◌<◌, ◌≡◌, refl, true, false, leb, if◌then◌else◌, none, some, [], ◌∷◌,
  get_or, arith,
}
use mixi_pgw.Dataplane.Policer.{Item, green}
use mixi_pgw.Dataplane.Mbuf.{Mbuf, Rte, IsRte}
use mixi_pgw.Dataplane.Encap.{Base, Tunneler, default_headers}

-- The documented behaviour of the three calls, on one segment.
abbrev pub one_segment : Rte
one_segment = record {
  prepend = λ m len.
      if leb len m.data_off
      then some (record m { data_off = m.data_off - len; pkt_len = m.pkt_len + len })
      else none;
  adj = λ m len.
      if leb len m.pkt_len
      then some (record m { data_off = m.data_off + len; pkt_len = m.pkt_len - len })
      else none;
  trim = λ m len. if leb len m.pkt_len then some (record m { pkt_len = m.pkt_len - len }) else none;
}

taken {ℓ} : {A : Type ℓ} (a b : ℕ) (x y : A) → a ≤ b → (if leb a b then x else y) ≡ x
taken a b x y h = let yes : leb a b ≡ true = ground arith in rw yes refl

passed {ℓ} : {A : Type ℓ} (a b : ℕ) (x y : A) → b < a → (if leb a b then x else y) ≡ y
passed a b x y h = let no : leb a b ≡ false = ground arith in rw no refl

pub one_segment-IsRte : IsRte one_segment
one_segment-IsRte = record {
  prepended = λ m len h. taken len m.data_off _ _ h;
  too_long = λ m len h. passed len m.data_off _ _ h;
  adjusted = λ m len h. taken len m.pkt_len _ _ h;
  too_short = λ m len h. passed len m.pkt_len _ _ h;
  trimmed = λ m len h. taken len m.pkt_len _ _ h;
  too_much = λ m len h. passed len m.pkt_len _ _ h;
}

-- A packet of 62 octets from 8.8.8.8 to the subscriber 10.0.1.2, or from and to other addresses.
abbrev pub user_packet : Mbuf
user_packet = record {
  buffer = λ j.
      get_or
        (0x02 ∷ 0 ∷ 0 ∷ 0 ∷ 0 ∷ 1 ∷ 0x02 ∷ 0 ∷ 0 ∷ 0 ∷ 0 ∷ 2 ∷ 0x08 ∷ 0x00 ∷ 0x45 ∷ 0 ∷ 0 ∷ 48 ∷ 0
          ∷ 0 ∷ 0 ∷ 0 ∷ 64 ∷ 1 ∷ 0 ∷ 0 ∷ 8 ∷ 8 ∷ 8 ∷ 8 ∷ 10 ∷ 0 ∷ 1 ∷ 2 ∷ [])
        (j - 128) 0;
  data_off = 128;
  pkt_len = 62;
  is_ipv4_hdr = true;
  is_ipv6_hdr = false;
  udata = record { flag = 0; size = 0; color = green; mode = 0; teid = 0 };
}

-- A G-PDU for the tunnel endpoint 6 whose inner packet has the version `v`, from 10.0.1.2.
abbrev pub g_pdu : ℕ → Mbuf
g_pdu v = record user_packet {
  buffer = λ j.
      get_or
        (0x02
          ∷ 0
          ∷ 0
          ∷ 0
          ∷ 0
          ∷ 1
          ∷ 0x02
          ∷ 0
          ∷ 0
          ∷ 0
          ∷ 0
          ∷ 2
          ∷ 0x08
          ∷ 0x00
          ∷ 0x45
          ∷ 0
          ∷ 0
          ∷ 84
          ∷ 0
          ∷ 0
          ∷ 0
          ∷ 0
          ∷ 64
          ∷ 17
          ∷ 0
          ∷ 0
          ∷ 9
          ∷ 9
          ∷ 9
          ∷ 9
          ∷ 9
          ∷ 9
          ∷ 9
          ∷ 8
          ∷ 8
          ∷ 104
          ∷ 8
          ∷ 104
          ∷ 0
          ∷ 64
          ∷ 0
          ∷ 0
          ∷ 0x30
          ∷ 255
          ∷ 0
          ∷ 48
          ∷ 0
          ∷ 0
          ∷ 0
          ∷ 6
          ∷ v * 16
          ∷ 0
          ∷ 0
          ∷ 48
          ∷ 0
          ∷ 0
          ∷ 0
          ∷ 0
          ∷ 64
          ∷ 1
          ∷ 0
          ∷ 0
          ∷ 10
          ∷ 0
          ∷ 1
          ∷ 2
          ∷ 8
          ∷ 8
          ∷ 8
          ∷ 8
          ∷ [])
        (j - 128) 0;
  pkt_len = 98;
}

-- A session of the endpoint 6 with the address `ue`.
abbrev pub session : ℕ → Item
session ue = record {
  active = 1;
  mode = 0;
  ue_ipv4 = ue;
  ue_teid = 6;
  sgw_gtpu_teid = 6;
  sgw_gtpu_ipv4 = 0x01010101;
  pgw_gtpu_ipv4 = 0x02020202;
  epoch_w = 1000;
  commit_rate = 12500;
  commit_burst_size = 12500;
  commit_information_rate = 128;
  excess_rate = 12500;
  excess_burst_size = 12500;
  excess_information_rate = 128;
}

abbrev pub worker : ℕ → ℕ → Base
worker key ue = record {
  findtype = true;
  map = (key, session ue) ∷ [];
  findkey = 0;
  lookup_itm = session 0;
  counter = record { drop_bytes = 0; drop_count = 0 };
  has_err_ring = true;
}

-- The egress worker's key is the address 10.0.1.2 without its first octet.
abbrev pub tunneler : Tunneler
tunneler = record { base = worker 0x102 0x0201000a; headers = default_headers 2152 0 }

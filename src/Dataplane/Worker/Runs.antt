-- ===== src/Dataplane/Worker/Runs.antt =====
-- The sessions of a PGW worker at concrete inputs.
use mixi_pgw.Prelude.{◌≡◌, refl, true, false, []}
use mixi_pgw.Dataplane.Policer.{Item}
use mixi_pgw.Dataplane.Worker.{Worker, groupid, pgwid, groupval}

abbrev tunnel : Item
tunnel = record {
  active = 1;
  mode = 0;
  ue_ipv4 = 0x0200000a;
  ue_teid = 0xab50123;
  sgw_gtpu_teid = 6;
  sgw_gtpu_ipv4 = 7;
  pgw_gtpu_ipv4 = 8;
  epoch_w = 0;
  commit_rate = 0;
  commit_burst_size = 12500;
  commit_information_rate = 128;
  excess_rate = 0;
  excess_burst_size = 12500;
  excess_information_rate = 128;
}

-- 0x0ab50123 names the PGW 11 and the group 5.
teid-parts : (pgwid 0x0ab50123 ≡ 11) × (groupid 0x0ab50123 ≡ 5) × (groupval 0x0ab50123 ≡ 0x0123)
unfolding pgwid groupid groupval
teid-parts = (refl, refl, refl)

abbrev ingress : Worker
ingress = record {
  findtype = true;
  is_egress = false;
  groupid = 5;
  pgwid = 11;
  cnt_pgw = 16;
  policer_cir = 128;
  policer_cbs = 12500;
  policer_eir = 128;
  policer_ebs = 12500;
  map = [];
  lookup_table = record {
    data_side_a = λ _. record { valid = 1; body = tunnel };
    data_side_b = λ _. record { valid = 1; body = tunnel };
    end_item = record { valid = 0; body = tunnel };
    data_side_bmp = λ _. 0;
    virtual_clock_counter = 0;
    virtual_clock_counter_prv = 0;
  };
}

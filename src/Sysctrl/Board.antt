-- ===== src/Sysctrl/Board.antt =====
-- The box that the daemon runs on: `check_board` of
-- package/alt-f-utils/alt-f-utils-0.1.11/sysctrl.c. The text that it logs before it leaves is left out.
use alt_f.Prelude.{ℕ, Bool, true, false, Option, none, some, List, [], ◌∷◌, if◌then◌else◌}
use alt_f.Prelude.Int.{pos}
use alt_f.Prelude.Text.{codes, bytes_eq}
use alt_f.Sysctrl.Globals.{
  Board, dns_323_a1, dns_323_b1, dns_323_c1, dns_321_ax, dns_325_ax, dns_320_ax, dns_320_bx,
  dns_320l_ax, dns_327l_ax, dnr_322l_ax, fan_always_slow, Args, Led, usb_led, Sys, Flow, on, left,
  exited, read_str_from_file,
}

-- A row of the tests of `check_board`.
pub record BoardRow : Type 0 where
  pub name : List ℕ
  pub board : Board
  pub has_usb_led : Bool
  pub slot_count : ℕ
  pub warm : Bool
  pub slow : Bool

-- `warm` is that `lo_temp` becomes 45, `slow` that the fan mode becomes FAN_ALWAYS_SLOW.
abbrev pub board_rows : List BoardRow
board_rows =
    record {
      name = codes "DNS-323-A1";
      board = dns_323_a1;
      has_usb_led = false;
      slot_count = 3;
      warm = false;
      slow = false;
    }
    ∷ record {
      name = codes "DNS-323-B1";
      board = dns_323_b1;
      has_usb_led = false;
      slot_count = 3;
      warm = false;
      slow = false;
    }
    ∷ record {
      name = codes "DNS-323-C1";
      board = dns_323_c1;
      has_usb_led = false;
      slot_count = 3;
      warm = true;
      slow = false;
    }
    ∷ record {
      name = codes "DNS-321-Ax";
      board = dns_321_ax;
      has_usb_led = false;
      slot_count = 2;
      warm = true;
      slow = false;
    }
    ∷ record {
      name = codes "DNS-325-Ax";
      board = dns_325_ax;
      has_usb_led = true;
      slot_count = 3;
      warm = true;
      slow = false;
    }
    ∷ record {
      name = codes "DNS-320-Ax";
      board = dns_320_ax;
      has_usb_led = true;
      slot_count = 3;
      warm = true;
      slow = true;
    }
    ∷ record {
      name = codes "DNS-320L-Ax";
      board = dns_320l_ax;
      has_usb_led = true;
      slot_count = 3;
      warm = true;
      slow = true;
    }
    ∷ record {
      name = codes "DNS-320-Bx";
      board = dns_320_bx;
      has_usb_led = true;
      slot_count = 3;
      warm = true;
      slow = true;
    }
    ∷ record {
      name = codes "DNS-327L-Ax";
      board = dns_327l_ax;
      has_usb_led = false;
      slot_count = 3;
      warm = true;
      slow = true;
    }
    ∷ record {
      name = codes "DNR-322L-Ax";
      board = dnr_322l_ax;
      has_usb_led = true;
      slot_count = 3;
      warm = true;
      slow = true;
    }
    ∷ []

find_board : List ℕ → List BoardRow → Option BoardRow
find_board res [] = none
find_board res (r ∷ rs) = elim (bytes_eq r.name res) [ true ↦ some r | false ↦ find_board res rs ]

without_usb : (Led → Option (List ℕ)) → Led → Option (List ℕ)
without_usb leds usb_led = none
without_usb leds other = leds other

module _ {F : Type 0} where
  tune_args : BoardRow → Args F → Args F
  tune_args r a =
      let b = if r.warm then record a { lo_temp = pos 45 } else a in
      if r.slow then record b { fan_mode = fan_always_slow } else b

module _ {S F : Type 0} where
  apply_row : BoardRow → Sys S F → Sys S F
  unfolding without_usb tune_args
  apply_row r s = record s {
    board = r.board;
    leds = if r.has_usb_led then s.leds else without_usb s.leds;
    nslots = r.slot_count;
    args = tune_args r s.args;
  }

  pub check_board : Sys S F → Flow (Sys S F)
  unfolding find_board apply_row
  check_board s = elim (read_str_from_file s (codes "/tmp/board") 64) [
    | none ↦ left exited
    | some res ↦ elim (find_board res board_rows) [
      | none ↦ left exited
      | some r ↦ on (apply_row r s)
    ]
  ]

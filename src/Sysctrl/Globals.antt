-- ===== src/Sysctrl/Globals.antt =====
-- The globals of sysctrl, and what its functions ask of the system:
-- package/alt-f-utils/alt-f-utils-0.1.11/sysctrl.c.
use alt_f.Prelude.{
  ℕ, ◌-◌, Bool, Option, none, some, List, [], ◌∷◌, ◌++◌, length, take, ltb, if◌then◌else◌,
}
use alt_f.Prelude.Int.{ℤ, pos}
use alt_f.Prelude.Text.{codes, bytes_eq}
use alt_f.Prelude.Scan.{c_string, show_ℤ, scan_int}

pub data Board : Type 0 where
  dns_323_a1 dns_323_b1 dns_323_c1 dns_321_ax dns_325_ax dns_320_ax dns_320_bx dns_320l_ax : Board
  dns_327l_ax dnr_322l_ax : Board

-- `enum FanMode`, as the `int` that `config` reads.
abbrev pub fan_auto : ℤ
fan_auto = pos 0

abbrev pub fan_always_off : ℤ
fan_always_off = pos 1

abbrev pub fan_always_slow : ℤ
fan_always_slow = pos 2

abbrev pub fan_always_fast : ℤ
fan_always_fast = pos 3

-- `F` is the type of the floating-point numbers. A command is `none` where the pointer is NULL.
pub record Args (F : Type 0) : Type 0 where
  pub hist_temp : F
  pub lo_fan : ℤ
  pub hi_fan : ℤ
  pub lo_temp : ℤ
  pub hi_temp : ℤ
  pub disks_temp : ℤ
  pub mail : ℤ
  pub recovery : ℤ
  pub fan_off_temp : ℤ
  pub max_fan_speed : ℤ
  pub warn_temp : ℤ
  pub crit_temp : ℤ
  pub fan_mode : ℤ
  pub warn_temp_command : Option (List ℕ)
  pub crit_temp_command : Option (List ℕ)
  pub front_button_command1 : Option (List ℕ)
  pub front_button_command2 : Option (List ℕ)
  pub back_button_command : Option (List ℕ)

pub data Led : Type 0 where
  left_led right_led usb_led power_led : Led

pub data Slot : Type 0 where
  left_dev right_dev usb_dev : Slot

pub record Disk : Type 0 where
  pub dev : Option (List ℕ)
  pub slot : List ℕ
  pub rdwr_cnt : ℕ
  pub last_access : ℕ
  pub spindow_time : ℤ
  pub power_state : ℤ

pub data LedMode : Type 0 where
  na ledoff ledon ledblink : LedMode

-- What the program makes others do, in order: a script with its argument, a mail, a disk spun down.
pub data Call : Type 0 where
  script : List ℕ → ℕ → Option (List ℕ) → Call
  mails : List ℕ → ℤ → Call
  spindown : List ℕ → Call

-- `world` is the rest of the machine. `files` has `none` where a file does not exist or cannot be
-- read. `queue` is `leds_pqueue`; `leds_state`, `bt`, `events_open`, `last_degraded`, `degraded`
-- and those of `FanStatics` are the statics of functions.
pub record FanStatics (F : Type 0) : Type 0 where
  pub temp : F
  pub log_temp : F
  pub warn : Bool
  pub crit : Bool
  pub log_fan : ℤ
  pub log_pos : Option ℕ

pub record Sys (S F : Type 0) : Type 0 where
  pub world : S
  pub files : List ℕ → Option (List ℕ)
  pub calls : List Call
  pub args : Args F
  pub board : Board
  pub leds : Led → Option (List ℕ)
  pub nslots : ℕ
  pub disks : Slot → Disk
  pub ndisks : ℕ
  pub queue : List LedMode
  pub leds_state : Bool
  pub bt : ℤ
  pub events_open : Bool
  pub fan : FanStatics F
  pub last_degraded : Bool
  pub degraded : List Bool

-- What `read` gives on the device of the buttons: 0 bytes, an event, another number of bytes, EAGAIN,
-- or another error.
pub data Reading : Type 0 where
  nothing partial again broken : Reading
  event : Bool → ℕ → ℕ → Reading

-- What `ioctl` gives for the two commands that ask for the power mode: that the first or the second
-- passes with `args[2]`, or that both fail, with whether this is how a sleeping disk fails.
pub data Drive : Type 0 where
  closed : Drive
  passes : ℕ → Drive
  fails : Bool → Drive

pub record Stat : Type 0 where
  pub uid : ℕ
  pub mode : ℕ

-- What the program does not decide. `pending` bounds the events and read errors that
-- the device still has, `zeros` the reads in a row that give nothing, and `holds` how often the program looks while
-- a button on the back is held. `first_line` is what a shell command prints first, `hddtemp` what its
-- server sends (nothing after an error). `stale_int` and `stale_text` stand in
-- uninitialised variables. `date` is the local time as text.
pub record Machine (S : Type 0) : Type 0 where
  pub writable : List ℕ → Bool
  pub stale_int : ℤ
  pub stale_text : List ℕ
  pub opens_events : S → Bool
  pub reads_event : S → Reading × S
  pub pending : S → ℕ
  pub zeros : S → ℕ
  pub time : S → ℕ × S
  pub date : S → List ℕ
  pub execs : S → Bool
  pub makes_lock : S → Bool × S
  pub drops_lock : S → S
  pub alive : ℤ → Bool
  pub pid : ℤ
  pub hddtemp : S → List ℕ × S
  pub drive : S → List ℕ → Drive × S
  pub stat : List ℕ → Option Stat
  pub first_line : List ℕ → Option (List ℕ)
  pub holds : S → ℕ

-- The program goes on, or it is another one or none from here: `hung` is fuel used up.
pub data End : Type 0 where
  rebooted powered_off exited fault hung : End

pub data Flow {ℓ} (A : Type ℓ) : Type ℓ where
  on : A → Flow A
  left : End → Flow A

infixl 5 ◌>>=◌
abbrev pub ◌>>=◌ {ℓ κ} : {A : Type ℓ} {B : Type κ} → Flow A → (A → Flow B) → Flow B
on a >>= f = f a
left e >>= f = left e

abbrev pub with_text : List ℕ → List ℕ → (List ℕ → Option (List ℕ)) → List ℕ → Option (List ℕ)
with_text name text files other = if bytes_eq other name then some text else files other

-- A file that is removed or renamed.
abbrev pub without : List ℕ → (List ℕ → Option (List ℕ)) → List ℕ → Option (List ℕ)
without name files other = if bytes_eq other name then none else files other

abbrev pub syserrorfn : List ℕ
syserrorfn = codes "/var/log/systemerror.log"

unfoldable pub append_to : Option (List ℕ) → List ℕ → List ℕ
append_to none text = text
append_to (some old) text = old ++ text

module _ {S F : Type 0} where
  -- `none` is -1. The last byte, a newline, gives way to the 0.
  unfoldable pub read_str_from_file : Sys S F → List ℕ → ℕ → Option (List ℕ)
  read_str_from_file s name sz = elim (s.files name) [
    | none ↦ none
    | some bytes ↦
        let got = take sz bytes in
        if ltb (length got) 1 then none else some (c_string (take (length got - 1) got))
  ]

  unfoldable pub read_int_from_file : Sys S F → List ℕ → ℤ → Option ℤ
  read_int_from_file s name old = elim (read_str_from_file s name 64) [
    | none ↦ none
    | some text ↦ some (scan_int text old)
  ]

  -- The result, which no caller uses, is left out. A text has less than 64 bytes.
  unfoldable pub write_str_to_file : Machine S → Sys S F → List ℕ → List ℕ → Sys S F
  write_str_to_file m s name str =
      if m.writable name then record s { files = with_text name (str ++ 10 ∷ []) s.files } else s

  unfoldable pub write_int_to_file : Machine S → Sys S F → List ℕ → ℤ → Sys S F
  write_int_to_file m s name u = write_str_to_file m s name (show_ℤ u)

  unfoldable pub syswrite : Machine S → Sys S F → List ℕ → List ℕ → Sys S F
  syswrite = write_str_to_file

  -- A message of less than 242 bytes, as `buf` has 256.
  unfoldable pub syserrorlog : Machine S → Sys S F → List ℕ → Sys S F
  unfolding append_to
  syserrorlog m s emsg =
      if m.writable syserrorfn
      then record s {
        files =
            with_text syserrorfn
              (append_to (s.files syserrorfn) (codes "<li>" ++ emsg ++ codes "</li>" ++ 10 ∷ []))
              s.files;
      }
      else s

  -- A call that is made is one of the list; whether it can be made is the system's.
  unfoldable pub calling : Sys S F → Call → Sys S F
  calling s c = record s { calls = s.calls ++ c ∷ [] }

  unfoldable pub exec_userscript : Sys S F → Option (List ℕ) → ℕ → Option (List ℕ) → Sys S F
  exec_userscript s none timeout arg = s
  exec_userscript s (some []) timeout arg = s
  exec_userscript s (some (c ∷ cs)) timeout arg = calling s (script (c ∷ cs) timeout arg)

  -- `execl`, when it works, does not come back.
  unfoldable pub become : Machine S → End → Sys S F → Flow (Sys S F)
  become m e s = if m.execs s.world then left e else on s

  unfoldable pub reboot : Machine S → Sys S F → Flow (Sys S F)
  unfolding become
  reboot m s = become m rebooted (exec_userscript s s.args.front_button_command1 5 none)

  unfoldable pub poweroff : Machine S → Sys S F → Flow (Sys S F)
  unfolding become
  poweroff m s = become m powered_off (exec_userscript s s.args.front_button_command2 5 none)

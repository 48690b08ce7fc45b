-- ===== src/Daemon/Commands.antt =====
-- The packets of the microcontroller and its thermal table,
-- package/alt-f-utils/alt-f-utils-0.1.11/dns320l.h. `char` is unsigned on the ARM targets.
use alt_f.Prelude.{ℕ, List, [], ◌∷◌}

abbrev pub stop_magic : ℕ
stop_magic = 0xfb

abbrev pub r_date_and_time_cmd : List ℕ
r_date_and_time_cmd = 0xfa ∷ 0x01 ∷ 0x08 ∷ 0x01 ∷ 0x01 ∷ 0x00 ∷ 0xfb ∷ []

abbrev pub w_date_and_time_cmd : List ℕ
w_date_and_time_cmd =
    0xfa ∷ 0x01 ∷ 0x08 ∷ 0x02 ∷ 0x07 ∷ 0x17 ∷ 0x06 ∷ 0x21 ∷ 0x02 ∷ 0x10 ∷ 0x09 ∷ 0x13 ∷ 0xfb ∷ []

abbrev pub r_alarm_month_cmd : List ℕ
r_alarm_month_cmd = 0xfa ∷ 0x01 ∷ 0x0a ∷ 0x01 ∷ 0x01 ∷ 0x00 ∷ 0xfb ∷ []

abbrev pub w_alarm_month_cmd : List ℕ
w_alarm_month_cmd = 0xfa ∷ 0x01 ∷ 0x0a ∷ 0x02 ∷ 0x01 ∷ 0x00 ∷ 0xfb ∷ []

abbrev pub r_alarm_date_cmd : List ℕ
r_alarm_date_cmd = 0xfa ∷ 0x01 ∷ 0x0b ∷ 0x01 ∷ 0x01 ∷ 0x00 ∷ 0xfb ∷ []

abbrev pub w_alarm_date_cmd : List ℕ
w_alarm_date_cmd = 0xfa ∷ 0x01 ∷ 0x0b ∷ 0x02 ∷ 0x01 ∷ 0x00 ∷ 0xfb ∷ []

abbrev pub r_alarm_hour_cmd : List ℕ
r_alarm_hour_cmd = 0xfa ∷ 0x01 ∷ 0x0c ∷ 0x01 ∷ 0x01 ∷ 0x00 ∷ 0xfb ∷ []

abbrev pub w_alarm_hour_cmd : List ℕ
w_alarm_hour_cmd = 0xfa ∷ 0x01 ∷ 0x0c ∷ 0x02 ∷ 0x01 ∷ 0x00 ∷ 0xfb ∷ []

abbrev pub r_alarm_minute_cmd : List ℕ
r_alarm_minute_cmd = 0xfa ∷ 0x01 ∷ 0x0d ∷ 0x01 ∷ 0x01 ∷ 0x00 ∷ 0xfb ∷ []

abbrev pub w_alarm_minute_cmd : List ℕ
w_alarm_minute_cmd = 0xfa ∷ 0x01 ∷ 0x0d ∷ 0x02 ∷ 0x01 ∷ 0x00 ∷ 0xfb ∷ []

abbrev pub r_alarm_second_cmd : List ℕ
r_alarm_second_cmd = 0xfa ∷ 0x01 ∷ 0x0e ∷ 0x01 ∷ 0x01 ∷ 0x00 ∷ 0xfb ∷ []

abbrev pub w_alarm_second_cmd : List ℕ
w_alarm_second_cmd = 0xfa ∷ 0x01 ∷ 0x0e ∷ 0x02 ∷ 0x01 ∷ 0x00 ∷ 0xfb ∷ []

abbrev pub r_alarm_flag_cmd : List ℕ
r_alarm_flag_cmd = 0xfa ∷ 0x01 ∷ 0x0f ∷ 0x01 ∷ 0x01 ∷ 0x00 ∷ 0xfb ∷ []

abbrev pub w_alarm_disable_cmd : List ℕ
w_alarm_disable_cmd = 0xfa ∷ 0x01 ∷ 0x10 ∷ 0x02 ∷ 0x01 ∷ 0x00 ∷ 0xfb ∷ []

abbrev pub w_alarm_enable_cmd : List ℕ
w_alarm_enable_cmd = 0xfa ∷ 0x01 ∷ 0x10 ∷ 0x02 ∷ 0x01 ∷ 0x01 ∷ 0xfb ∷ []

abbrev pub fan_stop_cmd : List ℕ
fan_stop_cmd = 0xfa ∷ 0x02 ∷ 0x00 ∷ 0x00 ∷ 0x00 ∷ 0x00 ∷ 0xfb ∷ []

abbrev pub fan_half_cmd : List ℕ
fan_half_cmd = 0xfa ∷ 0x02 ∷ 0x00 ∷ 0x01 ∷ 0x00 ∷ 0x00 ∷ 0xfb ∷ []

abbrev pub fan_full_cmd : List ℕ
fan_full_cmd = 0xfa ∷ 0x02 ∷ 0x00 ∷ 0x02 ∷ 0x00 ∷ 0x00 ∷ 0xfb ∷ []

abbrev pub device_ready_cmd : List ℕ
device_ready_cmd = 0xfa ∷ 0x03 ∷ 0x01 ∷ 0x00 ∷ 0x00 ∷ 0x00 ∷ 0xfb ∷ []

abbrev pub apr_disable_cmd : List ℕ
apr_disable_cmd = 0xfa ∷ 0x03 ∷ 0x02 ∷ 0x00 ∷ 0x00 ∷ 0x00 ∷ 0xfb ∷ []

abbrev pub apr_enable_cmd : List ℕ
apr_enable_cmd = 0xfa ∷ 0x03 ∷ 0x02 ∷ 0x01 ∷ 0x00 ∷ 0x00 ∷ 0xfb ∷ []

abbrev pub apr_status_cmd : List ℕ
apr_status_cmd = 0xfa ∷ 0x03 ∷ 0x02 ∷ 0x02 ∷ 0x00 ∷ 0x00 ∷ 0xfb ∷ []

abbrev pub device_shutdown_cmd : List ℕ
device_shutdown_cmd = 0xfa ∷ 0x03 ∷ 0x03 ∷ 0x01 ∷ 0x01 ∷ 0x05 ∷ 0xfb ∷ []

abbrev pub pwr_led_off_cmd : List ℕ
pwr_led_off_cmd = 0xfa ∷ 0x03 ∷ 0x06 ∷ 0x00 ∷ 0x00 ∷ 0x01 ∷ 0xfb ∷ []

abbrev pub pwr_led_on_cmd : List ℕ
pwr_led_on_cmd = 0xfa ∷ 0x03 ∷ 0x06 ∷ 0x01 ∷ 0x00 ∷ 0x01 ∷ 0xfb ∷ []

abbrev pub pwr_led_blink_cmd : List ℕ
pwr_led_blink_cmd = 0xfa ∷ 0x03 ∷ 0x06 ∷ 0x02 ∷ 0x00 ∷ 0x01 ∷ 0xfb ∷ []

abbrev pub thermal_status_get_cmd : List ℕ
thermal_status_get_cmd = 0xfa ∷ 0x03 ∷ 0x08 ∷ 0x00 ∷ 0x00 ∷ 0x00 ∷ 0xfb ∷ []

abbrev pub wol_status_disable_cmd : List ℕ
wol_status_disable_cmd = 0xfa ∷ 0x03 ∷ 0x0a ∷ 0x00 ∷ 0x00 ∷ 0x00 ∷ 0xfb ∷ []

abbrev pub wol_status_enable_cmd : List ℕ
wol_status_enable_cmd = 0xfa ∷ 0x03 ∷ 0x0a ∷ 0x01 ∷ 0x00 ∷ 0x00 ∷ 0xfb ∷ []

abbrev pub wol_status_get_cmd : List ℕ
wol_status_get_cmd = 0xfa ∷ 0x03 ∷ 0x0a ∷ 0x02 ∷ 0x00 ∷ 0x00 ∷ 0xfb ∷ []

abbrev pub ack_from_serial : List ℕ
ack_from_serial = 0xfa ∷ 0x30 ∷ 0x00 ∷ 0x00 ∷ 0x00 ∷ 0x00 ∷ 0xfb ∷ []

abbrev pub thermal_table : List ℕ
thermal_table =
    0x74 ∷ 0x73 ∷ 0x72 ∷ 0x71 ∷ 0x70 ∷ 0x6F ∷ 0x6E ∷ 0x6D ∷ 0x6C ∷ 0x6B ∷ 0x6A ∷ 0x69 ∷ 0x68 ∷ 0x67
    ∷ 0x66 ∷ 0x65 ∷ 0x64 ∷ 0x63 ∷ 0x62 ∷ 0x61 ∷ 0x60 ∷ 0x5F ∷ 0x5E ∷ 0x5D ∷ 0x5C ∷ 0x5B ∷ 0x5A
    ∷ 0x59 ∷ 0x58 ∷ 0x57 ∷ 0x56 ∷ 0x55 ∷ 0x54 ∷ 0x53 ∷ 0x52 ∷ 0x51 ∷ 0x50 ∷ 0x4F ∷ 0x4E ∷ 0x4D
    ∷ 0x4C ∷ 0x4B ∷ 0x4A ∷ 0x49 ∷ 0x48 ∷ 0x47 ∷ 0x46 ∷ 0x45 ∷ 0x44 ∷ 0x43 ∷ 0x42 ∷ 0x41 ∷ 0x41
    ∷ 0x40 ∷ 0x3F ∷ 0x3E ∷ 0x3E ∷ 0x3D ∷ 0x3D ∷ 0x3C ∷ 0x3B ∷ 0x3A ∷ 0x3A ∷ 0x39 ∷ 0x38 ∷ 0x38
    ∷ 0x37 ∷ 0x36 ∷ 0x36 ∷ 0x35 ∷ 0x34 ∷ 0x34 ∷ 0x33 ∷ 0x33 ∷ 0x32 ∷ 0x31 ∷ 0x31 ∷ 0x30 ∷ 0x30
    ∷ 0x2F ∷ 0x2F ∷ 0x2E ∷ 0x2E ∷ 0x2D ∷ 0x2C ∷ 0x2C ∷ 0x2B ∷ 0x2B ∷ 0x2A ∷ 0x2A ∷ 0x29 ∷ 0x29
    ∷ 0x28 ∷ 0x28 ∷ 0x27 ∷ 0x27 ∷ 0x27 ∷ 0x26 ∷ 0x26 ∷ 0x25 ∷ 0x25 ∷ 0x24 ∷ 0x24 ∷ 0x23 ∷ 0x23
    ∷ 0x22 ∷ 0x22 ∷ 0x21 ∷ 0x21 ∷ 0x21 ∷ 0x20 ∷ 0x20 ∷ 0x1F ∷ 0x1F ∷ 0x1E ∷ 0x1E ∷ 0x1E ∷ 0x1D
    ∷ 0x1D ∷ 0x1C ∷ 0x1C ∷ 0x1B ∷ 0x1B ∷ 0x1B ∷ 0x1B ∷ 0x1A ∷ 0x19 ∷ 0x19 ∷ 0x19 ∷ 0x18 ∷ 0x18
    ∷ 0x17 ∷ 0x17 ∷ 0x25 ∷ 0x1B ∷ 0x1B ∷ 0x19 ∷ 0x19 ∷ 0x19 ∷ 0x18 ∷ 0x18 ∷ 0x17 ∷ 0x17 ∷ 0x16
    ∷ 0x16 ∷ 0x16 ∷ 0x15 ∷ 0x15 ∷ 0x14 ∷ 0x14 ∷ 0x14 ∷ 0x13 ∷ 0x13 ∷ 0x12 ∷ 0x12 ∷ 0x12 ∷ 0x11
    ∷ 0x11 ∷ 0x10 ∷ 0x10 ∷ 0x10 ∷ 0x0F ∷ 0x0F ∷ 0x0E ∷ 0x0E ∷ 0x0E ∷ 0x0D ∷ 0x0D ∷ 0x0C ∷ 0x0C
    ∷ 0x0C ∷ 0x0B ∷ 0x0B ∷ 0x0A ∷ 0x0A ∷ 0x09 ∷ 0x09 ∷ 0x09 ∷ 0x08 ∷ 0x08 ∷ 0x07 ∷ 0x07 ∷ 0x07
    ∷ 0x06 ∷ 0x06 ∷ 0x05 ∷ 0x05 ∷ 0x04 ∷ 0x04 ∷ 0x04 ∷ 0x03 ∷ 0x03 ∷ 0x02 ∷ 0x02 ∷ 0x01 ∷ 0x01
    ∷ 0x00 ∷ 0x00 ∷ 0x00 ∷ 0x00 ∷ 0x00 ∷ 0x00 ∷ 0x00 ∷ 0x00 ∷ []

-- ===== src/Lib.antt =====
-- Three programs of Alt-F's own utilities, package/alt-f-utils/alt-f-utils-0.1.11: `dns323-fw`, which
-- takes the firmware files of the D-Link boxes apart and puts them together, `dns320l-daemon`, which
-- stands between the system and the microcontroller of the DNS-320L, and `sysctrl`, the daemon that
-- looks after the buttons, LEDs, disks and the fan of all boxes. On the DNS-320L the two daemons meet
-- in the files under /tmp/sys.
--
-- dns323-fw.c (Firmware). A firmware file is a header of 64 or 128 bytes and, behind it, a kernel, an
-- initramfs, a sqimage (with 128 bytes only) and defaults. `merge` writes such a file, `split` takes
-- the components out, `info` reads the header; `main` chooses by the options.
--   Firmware/File: open, lseek, read and write on regular files. What a machine decides is a parameter
--     (Os): memory, the largest sizes, which reads fail, what stands in uninitialised variables.
--   Firmware/Header, Firmware/Layout: the three header structs, the table `signatures`, `cmp_sig`, and
--     the packed structs as bytes (`encode64`, `decode64`, `encode128`, `decode128`), `set_header64`,
--     `set_header128`, `get_info64`, `get_info128`, `check_sig`.
--   Firmware/Copy: `readwrite` (its loop is `copy_loop`) and `is_uboot`.
--   Firmware/Save: `savefile`, `savecomp`, `save_header`, `size_ok`.
--   Firmware/Options, Merge, Split, Program: the options and `merge`, `split`, `info`, `main`.
--   Firmware/Image: what an image is, said without the code, and its comparison with `merge` (Build),
--     with the header that is found (Found), and with `split` (Restore, RoundTrip, Refusals).
-- A call that leaves the program is `exit` with the status; the files that a run creates are its
-- result, and those of a run that fails are not kept. Texts that are only printed are left out. Names
-- of files that a run reads and creates are taken to be of different files. The fuel of `copy_loop` is
-- `sz / 65536 + 2`, one more than its rounds and the last test. Sizes are unbounded where the source
-- has `int`, so that a component of 2^31 bytes is not covered; 32-bit fields wrap around.
--
-- dns320l-daemon.c, dns320l-daemon.h and dns320l.h (Daemon). The controller is spoken to in packets
-- over a serial line. The daemon's loop looks after the LED and the fan, which other programs set in
-- files under /tmp/sys, and serves clients that send a command a line over a local socket.
--   Daemon/Commands, Bcd: the packets, the table of temperatures, `bcd2int` and `int2bcd`.
--   Daemon/Serial: `ClearSerialPort`, `send_pkt`, `receive_pkt`, `CheckResponse`, `_SendCommand`,
--     `SendCommand`. The line is a parameter (Wire).
--   Daemon/State: the globals, the files under /tmp/sys, and the functions that read and write them.
--   Daemon/Actions, Rtc, Alarm: the functions of the commands. The C library's calendar is a parameter
--     (Clock), and so is what stands in uninitialised variables or behind ThermalTable (Host).
--   Daemon/Handle: `cmds`, `help_cmd`, `HandleCommand`.
--   Daemon/Control: `readset_powerled` and `readset_temp`.
--   Daemon/Poll: `poll_setup` and `poll_wait` with the table `fds`. Sockets are a parameter (Net), what
--     `poll` returns is an argument (Polled). Writing beyond `fds` or `response` is the outcome `fault`.
--   Daemon/Loop: what `main` does once the socket listens; a run is the list of what `poll` returns.
--   Daemon/Client: `client_cmd`, with the server's socket as a parameter (Peer).
-- Bytes are numbers below 256: `char` is unsigned, as on the ARM processors of these boxes. The fuel of
-- `clear_loop` is one more than the number of full buffers that were pending. `sleepCount` times
-- `pollTimeMs` wraps around at 2^32. Log texts, signal handlers, the options of the daemon and the
-- opening of line and socket are left out, and so is the range of the numbers that clients write. What
-- stands in the uninitialised `led_brightness` may differ from round to round.
--
-- Daemon/Alarm/Stored says what a controller that keeps the alarm's registers does (KeepsAlarm), and
-- Daemon/Tests/Alarm gives one, byte by byte.
--
-- sysctrl.c (Sysctrl). Each second a round of the loop regulates the fan, asks for the buttons, looks
-- at disks, RAID arrays and the log of errors, and acts on the button that is held.
--   Sysctrl/Globals: the globals and the statics of functions as one record, the functions on files,
--     `syserrorlog`, `exec_userscript`, `reboot`, `poweroff`. What the machine decides is a parameter
--     (Machine); what the program makes others do is the list `calls`.
--   Sysctrl/Led: `led_set`, `led_get`, `led_blink`, `leds_proc`, `check_syserrlog`.
--   Sysctrl/Button: `button` and `debounce`. Sysctrl/Loop: `back_button` and `mainloop`, where `round`
--     is the body of the loop, `prepare` its part up to the button and `react` the rest.
--   Sysctrl/Disks, Raid: `hdd_powercheck` and `md_stat` with what they call.
--   Sysctrl/Temp, Log, Fan: `dolock`, `read_temp`, `read_disks_temp`, `fanlog`, `fanctl`. Floating-point
--     numbers are a parameter (Floats), with each rounding to `float` written out.
--   Sysctrl/Lines, Config, Board, Bay: `trim`, `checkfile`, `config`, `read_config`, `check_board`,
--     `read_misc`, `read_bay`. Sysctrl/Start: `main` up to its loop, `check_other_daemon`,
--     `sighup_handler`, `inotify_handler`.
-- Sysctrl/Fan/Exact says what is asked of floating-point numbers where a theorem needs their values:
-- that whole numbers up to 2^24 are exact.
--
-- The loops that wait for events have the number of events and read errors to come as fuel, and the one behind a
-- key event the number of reads in a row that give nothing; `hung` is fuel used up, and
-- Sysctrl/Button/Settles says of what devices it does not come. The loop of `back_button` lasts as
-- long as the user holds the button, and its fuel is what the machine says of that. Counters and
-- temperatures are unbounded. A child whose `execl` fails is not followed. The socket to hddtemp,
-- the printing of the configuration and texts for syslog are left out.
--
-- Firmware/Tests, Daemon/Tests and Sysctrl/Tests run the programs on small inputs. Prelude has the
-- shared names, integers, and lemmas on lists, slices, texts and words.
--
-- rpcinfo.c and unbuffer.c beside these files are not modelled; the rest of the repository is a build
-- tree, third-party tools, patches and scripts.
pub mod Prelude
pub mod Firmware
pub mod Daemon
pub mod Sysctrl

-- ===== src/Daemon/Handle/Answers.antt =====
-- How long the answers to a client are: `HandleCommand` of
-- package/alt-f-utils/alt-f-utils-0.1.11/dns320l-daemon.c with its buffer of 512 bytes.
use alt_f.Prelude.{
  ℕ, ◌+◌, ◌≤◌, ◌<◌, ◌≡◌, refl, sym, ap, ◌∙◌, map, length-map, Bool, true, false, not, Bool-cases,
  inl, inr, Option, none, some, List, [], ◌∷◌, ◌++◌, length, length-append, length-take, take,
  arith, if◌then◌else◌,
}
use alt_f.Prelude.Int.{ℤ, ltb_ℤ}
use alt_f.Prelude.Text.{codes, bytes_eq_sound}
use alt_f.Daemon.Serial.{Status, success, wrong_answer, write_error, failed, Wire}
use alt_f.Daemon.State.{Daemon, Host, show_ℤ}
use alt_f.Daemon.Actions.{
  Done, send, err, done_ok, simple_cmd, simple_cmd2, setfan_cmd, set_fan, set_powerled,
  gettemperature_cmd, setpowerled_cmd, deviceshutdown_cmd, shutdowndaemon_cmd, quit_cmd,
}
use alt_f.Daemon.Commands.{r_date_and_time_cmd}
use alt_f.Daemon.Alarm.{
  to_lower, Tm, Clock, AlarmRead, is_disabled, readalarm, unread, report_alarm, alarm_err,
  alarm_set, read_alarm_cmd,
}
use alt_f.Daemon.Alarm.Write.{
  Wish, refused, disabled, wanted, wish, write_err, written, grant, write_alarm_cmd,
}
use alt_f.Daemon.Rtc.{set_clock, systohc_cmd, hctosys_cmd, readrtc_cmd}
use alt_f.Daemon.Handle.{
  Func, simple, simple2, deviceshutdown, shutdowndaemon, setfan, setpowerled, readrtc, read_alarm,
  write_alarm, systohc, hctosys, gettemperature, help, quit, call, Cmd, cmds, find, dispatch,
  unknown, HandleCommand, help_text, same_name, split_name,
}

-- The message and its closing 0 fit 512 bytes.
abbrev pub Fits : {S : Type 0} → Done S → Type 0
Fits r = length r.message < 512

take-Fits : (text : List ℕ) → length (take 511 text) < 512
take-Fits text = omega (arith, length-take 511 text)

abbrev ended : {S : Type 0} → Status → Done S → Done S → Done S
ended s good bad = elim s [ success ↦ good | _ ↦ bad ]

ended-Fits : {S : Type 0} (s : Status) (a b : Done S) → Fits a → Fits b → Fits (ended s a b)
ended-Fits success a b ha hb = ha
ended-Fits wrong_answer a b ha hb = hb
ended-Fits write_error a b ha hb = hb
ended-Fits failed a b ha hb = hb

if_Fits : {S : Type 0} (b : Bool) (x y : Done S) → Fits x → Fits y → Fits (if b then x else y)
if_Fits true x y hx hy = hx
if_Fits false x y hx hy = hy

option_Fits :
    {S A : Type 0} (o : Option A) (bad : Done S) (good : A → Done S)
    → Fits bad
    → ((a : A) → Fits (good a))
    → Fits (elim o [ none ↦ bad | some a ↦ good a ])
option_Fits none bad good hb hg = hb
option_Fits (some a) bad good hb hg = hg a

module _ {S : Type 0} (w : Wire S) (retries : ℕ) (host : Host) where
  err-Fits : (d : Daemon S) → Fits (err w retries host d 512)
  unfolding err
  err-Fits d = omega arith

  done_ok-Fits : (d : Daemon S) → Fits (done_ok w retries host d 512)
  unfolding done_ok
  done_ok-Fits d = omega arith

  simple_cmd-Fits : (d : Daemon S) (m : List ℕ) → Fits (simple_cmd w retries host d m 512)
  unfolding simple_cmd
  simple_cmd-Fits d m =
      ended-Fits (send w retries host d m false).status _ _ (done_ok-Fits _) (err-Fits _)

  simple_cmd2-Fits : (d : Daemon S) (m : List ℕ) → Fits (simple_cmd2 w retries host d m 512)
  unfolding simple_cmd2
  simple_cmd2-Fits d m =
      ended-Fits (send w retries host d m true).status _ _ (take-Fits _) (err-Fits _)

  setfan_cmd-Fits : (d : Daemon S) (m : List ℕ) → Fits (setfan_cmd w retries host d m 512)
  unfolding setfan_cmd set_fan done_ok err
  setfan_cmd-Fits d m = ground arith

  setpowerled_cmd-Fits : (d : Daemon S) (m : List ℕ) → Fits (setpowerled_cmd w retries host d m 512)
  unfolding setpowerled_cmd set_powerled done_ok err
  setpowerled_cmd-Fits d m = ground arith

  gettemperature_cmd-Fits :
      (d : Daemon S) (m : List ℕ) → Fits (gettemperature_cmd w retries host d m 512)
  unfolding gettemperature_cmd
  gettemperature_cmd-Fits d m =
      ended-Fits (send w retries host d m true).status _ _ (take-Fits _) (err-Fits _)

  module _ (clock : Clock) where
    readrtc_cmd-Fits : (d : Daemon S) (m : List ℕ) → Fits (readrtc_cmd w retries host clock d m 512)
    unfolding readrtc_cmd
    readrtc_cmd-Fits d m =
        ended-Fits (send w retries host d m true).status _ _ (take-Fits _) (err-Fits _)

    set_clock-Fits : (d : Daemon S) (rtc : ℤ) → Fits (set_clock w retries host clock d rtc 512)
    unfolding set_clock
    set_clock-Fits d rtc = elim (Bool-cases (clock.settimeofday rtc)) [
      | inl set ↦ rw set (take-Fits _)
      | inr refused_time ↦ rw refused_time (omega arith)
    ]

    hctosys_cmd-Fits : (d : Daemon S) → Fits (hctosys_cmd w retries host clock d 512)
    unfolding hctosys_cmd
    hctosys_cmd-Fits d =
        ended-Fits (send w retries host d r_date_and_time_cmd true).status _ _ (set_clock-Fits _ _)
          (err-Fits _)

    alarm_err-Fits :
        (a : AlarmRead S) (d : Daemon S) → Fits (alarm_err w retries host clock a d 512)
    unfolding alarm_err
    alarm_err-Fits a d = take-Fits (
        codes "ERR "
        ++ show_ℤ a.month
        ++ codes "/"
        ++ show_ℤ a.day
        ++ codes " "
        ++ show_ℤ a.hour
        ++ codes ":"
        ++ show_ℤ a.minute)

    alarm_set-Fits : (d : Daemon S) (utime : ℤ) → Fits (alarm_set w retries host clock d utime 512)
    unfolding alarm_set
    alarm_set-Fits d utime = take-Fits (
        codes "Wakeup alarm"
        ++ (if ltb_ℤ utime clock.now then codes " (elapsed) " else codes " ")
        ++ codes "set to: "
        ++ clock.date_text (clock.localtime utime))

    report_alarm-Fits : (a : AlarmRead S) → Fits (report_alarm w retries host clock a 512)
    unfolding report_alarm
    report_alarm-Fits a = if_Fits (not a.ok) _ _ (alarm_err-Fits a _) (
        if_Fits (is_disabled a) _ _ (omega arith)
          (option_Fits (clock.timegm _) _ _ (alarm_err-Fits a _) (λ utime. alarm_set-Fits _ utime)))

    read_alarm_cmd-Fits : (d : Daemon S) → Fits (read_alarm_cmd w retries host clock d 512)
    unfolding read_alarm_cmd
    read_alarm_cmd-Fits d = report_alarm-Fits (readalarm w retries host (unread w retries host d))

    written-Fits : (p : Bool × Daemon S) → Fits (written w retries host clock p 512)
    unfolding written write_err
    written-Fits (true, d) = read_alarm_cmd-Fits d
    written-Fits (false, d) = omega arith

    grant-Fits : (wish : Wish S) → Fits (grant w retries host clock wish 512)
    unfolding grant write_err
    grant-Fits (refused d) = omega arith
    grant-Fits (disabled d) = written-Fits _
    grant-Fits (wanted month day hour minute d) =
        option_Fits (clock.mktime _) _ _ (omega arith)
          (λ utime. option_Fits (clock.gmtime utime) _ _ (omega arith) (λ t. written-Fits _))

    write_alarm_cmd-Fits :
        (d : Daemon S) (text : List ℕ) → Fits (write_alarm_cmd w retries host clock d text 512)
    unfolding write_alarm_cmd
    write_alarm_cmd-Fits d text = grant-Fits (wish w retries host clock d text)

-- The name that is looked for stands at the front of the line.
pub split_name-le : (line : List ℕ) → length (split_name line).0 ≤ length line
unfolding split_name
split_name-le [] = omega arith
split_name-le (c ∷ cs) = ground (arith, split_name-le cs)

help_text-short : length help_text < 512
unfolding help_text
help_text-short = omega arith

module _ {S : Type 0} (w : Wire S) (retries : ℕ) (host : Host) (clock : Clock) (utc : Tm) where
  call-Fits :
      (f : Func) (d : Daemon S) (m text : List ℕ)
      → Fits (call w retries host clock utc f d m text 512)
  unfolding call systohc_cmd deviceshutdown_cmd shutdowndaemon_cmd quit_cmd done_ok
  call-Fits simple d m text = simple_cmd-Fits w retries host d m
  call-Fits simple2 d m text = simple_cmd2-Fits w retries host d m
  call-Fits deviceshutdown d m text = simple_cmd-Fits w retries host d _
  call-Fits shutdowndaemon d m text = omega arith
  call-Fits setfan d m text = setfan_cmd-Fits w retries host d m
  call-Fits setpowerled d m text = setpowerled_cmd-Fits w retries host d m
  call-Fits readrtc d m text = readrtc_cmd-Fits w retries host clock d m
  call-Fits read_alarm d m text = read_alarm_cmd-Fits w retries host clock d
  call-Fits write_alarm d m text = write_alarm_cmd-Fits w retries host clock d text
  call-Fits systohc d m text = simple_cmd-Fits w retries host d _
  call-Fits hctosys d m text = hctosys_cmd-Fits w retries host clock d
  call-Fits gettemperature d m text = gettemperature_cmd-Fits w retries host d m
  call-Fits help d m text = help_text-short
  call-Fits quit d m text = omega arith

  -- An answer to a command whose name has at most 489 bytes fits the buffer, closing 0 included.
  pub HandleCommand-Fits :
      (d : Daemon S) (line text : List ℕ)
      → length (split_name line).0 ≤ 489
      → Fits (HandleCommand w retries host clock utc d line text 512)
  unfolding HandleCommand dispatch unknown
  HandleCommand-Fits d line text h = answer (find cmds (split_name line).0) (split_name line).0 _ h
    where
      answer :
          (found : Option Cmd) (name opts : List ℕ)
          → length name ≤ 489
          → Fits (dispatch w retries host clock utc found name d opts 512)
      answer none name opts short = omega (arith, length-append name (codes "\""))
      answer (some c) name opts short = call-Fits c.func d c.mcmd opts

same_name-length : (a b : List ℕ) → same_name a b ≡ true → length a ≡ length b
unfolding same_name
same_name-length a b h =
    sym (length-map a to_lower)
    ∙ ap length (bytes_eq_sound (map to_lower a) (map to_lower b) h)
    ∙ length-map b to_lower

-- A name is only found under a row with a name as long.
AllBelow : ℕ → List Cmd → Type 0
AllBelow n [] = Unit
AllBelow n (c ∷ cs) = (length c.ucmd < n) × AllBelow n cs

find_long :
    (n : ℕ) (rows : List Cmd) (name : List ℕ)
    → AllBelow n rows
    → n ≤ length name
    → find rows name ≡ none
unfolding AllBelow find
find_long n [] name all h = refl
find_long n (c ∷ cs) name all h = elim (Bool-cases (same_name c.ucmd name)) [
  | inl same ↦ absurd (omega (arith, same_name-length c.ucmd name same, all.0))
  | inr other ↦ rw other (find_long n cs name all.1 h)
]

-- No command has a name of 22 bytes or more.
pub find-cmds_long : (name : List ℕ) → 22 ≤ length name → find cmds name ≡ none
unfolding AllBelow
find-cmds_long name h = find_long 22 cmds name (omega arith) h

-- The answer to a command whose name no row of the table has.
pub length-unknown :
    {S : Type 0} (w : Wire S) (retries : ℕ) (host : Host) (clock : Clock) (utc : Tm) (d : Daemon S)
    (line text : List ℕ)
    → find cmds (split_name line).0 ≡ none
    → length (HandleCommand w retries host clock utc d line text 512).message
      ≡ length (split_name line).0 + 22
unfolding HandleCommand dispatch unknown
length-unknown w retries host clock utc d line text e =
    rw e (omega (arith, length-append (split_name line).0 (codes "\"")))

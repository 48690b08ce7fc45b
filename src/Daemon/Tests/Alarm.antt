-- ===== src/Daemon/Tests/Alarm.antt =====
-- A controller that keeps the alarm's registers, and the alarm commands run on it.
use alt_f.Prelude.{
  ℕ, ◌≡◌, ◌≢◌, refl, sym, ap, ap₂, ◌∙◌, append-nil, append_assoc, subst, Bool, true, false, Option,
  none, some, List, [], ◌∷◌, ◌++◌, replicate, set, get_or, ne→==, ◌==◌, if◌then◌else◌, arith,
}
use alt_f.Prelude.Int.{pos, ◌-ℤ◌}
use alt_f.Prelude.Text.{codes}
use alt_f.Daemon.Commands.{stop_magic, ack_from_serial}
use alt_f.Daemon.Serial.{success, Wire, SendCommand, _SendCommand, ClearSerialPort}
use alt_f.Daemon.Serial.Laws.{
  IsBody, over, Takes, Gives, _SendCommand_acknowledged, _SendCommand_answered,
}
use alt_f.Daemon.Serial.Retry.{Fails, SendCommand_retried}
use alt_f.Daemon.State.{Daemon}
use alt_f.Daemon.Actions.{snprintf}
use alt_f.Daemon.Alarm.{readalarm, writealarm, unread}
use alt_f.Daemon.Alarm.Stored.{
  Register, month_reg, date_reg, hour_reg, minute_reg, stored, read_packet, write_packet,
  KeepsAlarm, readalarm-writealarm,
}
use alt_f.Daemon.Alarm.Write.{write_alarm_cmd}
use alt_f.Daemon.Alarm.Write.Laws.{write_alarm_cmd-disabled}
use alt_f.Daemon.Tests.{host, clock, no_files}
use alt_f.Daemon.Loop.{first_daemon}

record Mcu : Type 0 where
  regs : Register → ℕ
  inbox : List ℕ
  outbox : List ℕ

abbrev idle : (Register → ℕ) → Mcu
idle regs = record { regs = regs; inbox = []; outbox = [] }

-- The third byte of a packet.
abbrev register_at : ℕ → Option Register
register_at n =
    if n == 0x0a
    then some month_reg
    else if n == 0x0b
    then some date_reg
    else if n == 0x0c
    then some hour_reg
    else if n == 0x0d
    then some minute_reg
    else none

abbrev answer_of : (Register → ℕ) → Option Register → ℕ → ℕ → ℕ → Mcu
answer_of regs none n way v = idle regs
answer_of regs (some f) n way v =
    if way == 1
    then record {
      regs = regs;
      inbox = [];
      outbox = (0xfa ∷ 0x01 ∷ n ∷ 0x01 ∷ 0x01 ∷ regs f ∷ stop_magic ∷ []) ++ ack_from_serial;
    }
    else record { regs = stored f v regs; inbox = []; outbox = ack_from_serial }

-- A whole packet has come in, but for its stop.
abbrev react : (Register → ℕ) → List ℕ → Mcu
react regs (_ ∷ _ ∷ n ∷ way ∷ _ ∷ v ∷ []) = answer_of regs (register_at n) n way v
react regs _ = idle regs

abbrev mcu : Wire Mcu
mcu = record {
  pending = λ _. 0;
  discard = λ s _. s;
  put = λ s b. (
    true,
    if b == stop_magic then react s.regs s.inbox else record s { inbox = s.inbox ++ (b ∷ []) },
  );
  get = λ s. elim s.outbox [ [] ↦ (none, s) | b ∷ bs ↦ (some b, record s { outbox = bs }) ];
  stale = λ _. replicate 16 0;
}

mcu-Takes :
    (body : List ℕ) (s : Mcu)
    → IsBody body
    → Takes mcu s (body ++ stop_magic ∷ []) (react s.regs (s.inbox ++ body))
unfolding Takes IsBody
mcu-Takes [] s h = (react s.regs s.inbox, refl, ap (react s.regs) (sym (append-nil s.inbox)))
mcu-Takes (b ∷ body) s (h, hs) =
    let s' : Mcu = record s { inbox = s.inbox ++ (b ∷ []) } in
    (
      s',
      rw (ne→== b stop_magic h) refl,
      subst (λ l. Takes mcu s' (body ++ stop_magic ∷ []) (react s.regs l))
          (append_assoc s.inbox (b ∷ []) body) (mcu-Takes body s' hs),
    )

mcu-Gives :
    (regs : Register → ℕ) (bs rest : List ℕ)
    → Gives mcu
        (record { regs = regs; inbox = []; outbox = bs ++ rest })
        bs
        (record { regs = regs; inbox = []; outbox = rest })
unfolding Gives
mcu-Gives regs [] rest = refl
mcu-Gives regs (b ∷ bs) rest =
    (record { regs = regs; inbox = []; outbox = bs ++ rest }, refl, mcu-Gives regs bs rest)

abbrev code_of : Register → ℕ
code_of month_reg = 0x0a
code_of date_reg = 0x0b
code_of hour_reg = 0x0c
code_of minute_reg = 0x0d

-- A packet for a register, but for its stop.
abbrev packet : Register → ℕ → ℕ → List ℕ
packet f way v = 0xfa ∷ 0x01 ∷ code_of f ∷ way ∷ 0x01 ∷ v ∷ []

packet-IsBody :
    (f : Register) (way v : ℕ) → way ≢ stop_magic → v ≢ stop_magic → IsBody (packet f way v)
unfolding IsBody
packet-IsBody f way v a b = (
  (λ e. omega (arith, e)),
  ((λ e. omega (arith, e)), (code_ne f, (a, ((λ e. omega (arith, e)), (b, tt))))),
)
  where
    code_ne : (g : Register) → code_of g ≢ stop_magic
    code_ne month_reg e = omega (arith, e)
    code_ne date_reg e = omega (arith, e)
    code_ne hour_reg e = omega (arith, e)
    code_ne minute_reg e = omega (arith, e)

-- With no failure in front, `SendCommand` is `_SendCommand`.
at_once :
    (s : Mcu) (cmd : List ℕ) (wanted : Bool)
    → (_SendCommand mcu s cmd wanted []).status ≡ success
    → SendCommand mcu 2 s cmd wanted [] ≡ _SendCommand mcu s cmd wanted []
unfolding Fails
at_once s cmd wanted e =
    SendCommand_retried mcu cmd wanted 0 2 s s [] [] (omega arith) (refl, refl) e

stores_idle :
    (regs : Register → ℕ) (f : Register) (b : ℕ)
    → b ≢ stop_magic
    → SendCommand mcu 2 (idle regs) (packet f 2 b ++ stop_magic ∷ []) false []
      ≡ record { status = success; line = idle (stored f b regs); buf = [] }
unfolding ClearSerialPort
stores_idle regs f b n =
    let sent =
      _SendCommand_acknowledged mcu (packet f 2 b) (idle regs)
        (record { regs = stored f b regs; inbox = []; outbox = ack_from_serial })
        (idle (stored f b regs)) [] refl (packet-IsBody f 2 b (λ e. omega (arith, e)) n) (reacts f)
        (mcu-Gives (stored f b regs) ack_from_serial []) in
    at_once (idle regs) (packet f 2 b ++ stop_magic ∷ []) false (ap (λ r. r.status) sent) ∙ sent
  where
    reacts :
        (g : Register)
        → Takes mcu
            (idle regs)
            (packet g 2 b ++ stop_magic ∷ [])
            (record { regs = stored g b regs; inbox = []; outbox = ack_from_serial })
    reacts month_reg =
        mcu-Takes (packet month_reg 2 b) (idle regs)
          (packet-IsBody month_reg 2 b (λ e. omega (arith, e)) n)
    reacts date_reg =
        mcu-Takes (packet date_reg 2 b) (idle regs)
          (packet-IsBody date_reg 2 b (λ e. omega (arith, e)) n)
    reacts hour_reg =
        mcu-Takes (packet hour_reg 2 b) (idle regs)
          (packet-IsBody hour_reg 2 b (λ e. omega (arith, e)) n)
    reacts minute_reg =
        mcu-Takes (packet minute_reg 2 b) (idle regs)
          (packet-IsBody minute_reg 2 b (λ e. omega (arith, e)) n)

tells_idle :
    (regs : Register → ℕ) (f : Register)
    → regs f ≢ stop_magic
    → SendCommand mcu 2 (idle regs) (packet f 1 0 ++ stop_magic ∷ []) true [] ≡ record {
      status = success;
      line = idle regs;
      buf = over (packet f 1 (regs f) ++ stop_magic ∷ []) (replicate 16 0);
    }
unfolding ClearSerialPort
tells_idle regs f n =
    let told : List ℕ = packet f 1 (regs f) ++ stop_magic ∷ [] in
    let sent =
      _SendCommand_answered mcu (packet f 1 0) (packet f 1 (regs f)) (idle regs)
        (record { regs = regs; inbox = []; outbox = told ++ ack_from_serial })
        (record { regs = regs; inbox = []; outbox = ack_from_serial }) (idle regs) [] refl
        (packet-IsBody f 1 0 (λ e. omega (arith, e)) (λ e. omega (arith, e)))
        (packet-IsBody f 1 (regs f) (λ e. omega (arith, e)) n) (omega arith) (omega arith) refl
        (reacts f) (mcu-Gives regs told ack_from_serial) (mcu-Gives regs ack_from_serial []) in
    at_once (idle regs) (packet f 1 0 ++ stop_magic ∷ []) true (ap (λ r. r.status) sent) ∙ sent
  where
    asked : (g : Register) → IsBody (packet g 1 0)
    asked g = packet-IsBody g 1 0 (λ e. omega (arith, e)) (λ e. omega (arith, e))

    reacts :
        (g : Register)
        → Takes mcu (idle regs) (packet g 1 0 ++ stop_magic ∷ []) (record {
          regs = regs;
          inbox = [];
          outbox = (packet g 1 (regs g) ++ stop_magic ∷ []) ++ ack_from_serial;
        })
    reacts month_reg = mcu-Takes (packet month_reg 1 0) (idle regs) (asked month_reg)
    reacts date_reg = mcu-Takes (packet date_reg 1 0) (idle regs) (asked date_reg)
    reacts hour_reg = mcu-Takes (packet hour_reg 1 0) (idle regs) (asked hour_reg)
    reacts minute_reg = mcu-Takes (packet minute_reg 1 0) (idle regs) (asked minute_reg)

write_packet-set :
    (f : Register) (b : ℕ) → set (write_packet f) 5 b ≡ packet f 2 b ++ stop_magic ∷ []
write_packet-set month_reg b = refl
write_packet-set date_reg b = refl
write_packet-set hour_reg b = refl
write_packet-set minute_reg b = refl

read_packet_lem : (f : Register) → read_packet f ≡ packet f 1 0 ++ stop_magic ∷ []
read_packet_lem month_reg = refl
read_packet_lem date_reg = refl
read_packet_lem hour_reg = refl
read_packet_lem minute_reg = refl

-- It is the controller that the alarm commands need.
mcu-KeepsAlarm : KeepsAlarm mcu 2
unfolding over
mcu-KeepsAlarm = record {
  Ready = λ s. s ≡ idle s.regs;
  holds = λ s. s.regs;
  stores = λ s f b ready n.
      let sent =
        ap₂ (λ t c. SendCommand mcu 2 t c false []) ready (write_packet-set f b)
        ∙ stores_idle s.regs f b n in
      (
        ap (λ r. r.status) sent,
        subst (λ t. t ≡ idle t.regs) (sym (ap (λ r. r.line) sent)) refl,
        λ g. ap (λ r. r.line.regs g) sent,
      );
  tells = λ s f ready n.
      let sent =
        ap₂ (λ t c. SendCommand mcu 2 t c true []) ready (read_packet_lem f)
        ∙ tells_idle s.regs f n in
      (
        ap (λ r. r.status) sent,
        ap (λ r. get_or r.buf 5 0) sent,
        subst (λ t. t ≡ idle t.regs) (sym (ap (λ r. r.line) sent)) refl,
        λ g. ap (λ r. r.line.regs g) sent,
      );
}

abbrev alarm_daemon : Daemon Mcu
alarm_daemon = first_daemon (idle (λ _. 0)) no_files

readalarm-writealarm_example :
    let r = writealarm mcu 2 host alarm_daemon (pos 12 -ℤ pos 1) (pos 31) (pos 23) (pos 59) in
    (r.0 ≡ true)
    × (s : Mcu) × (readalarm mcu 2 host (unread mcu 2 host r.1) ≡ record {
      ok = true;
      month = pos 12;
      day = pos 31;
      hour = pos 23;
      minute = pos 59;
      daemon = record r.1 { line = s };
    })
unfolding mcu-KeepsAlarm
readalarm-writealarm_example =
    readalarm-writealarm mcu 2 host mcu-KeepsAlarm alarm_daemon 12 31 23 59 (omega arith)
      (omega arith) (omega arith) (omega arith) refl

write_alarm_cmd-disabled_example :
    ((write_alarm_cmd mcu 2 host clock alarm_daemon (codes "disable" ++ codes " it") 512).code
      ≡ pos 3)
    × ((write_alarm_cmd mcu 2 host clock alarm_daemon (codes "disable" ++ codes " it") 512).message
        ≡ snprintf (codes "Wakeup alarm disabled") 512)
unfolding mcu-KeepsAlarm
write_alarm_cmd-disabled_example =
    write_alarm_cmd-disabled mcu 2 host clock mcu-KeepsAlarm alarm_daemon (codes " it") 512 refl

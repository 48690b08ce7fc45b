-- ===== src/Daemon/Serial/Sound.antt =====
-- What a success of `_SendCommand` and `SendCommand` tells, whatever the controller sends:
-- package/alt-f-utils/alt-f-utils-0.1.11/dns320l-daemon.c.
use alt_f.Prelude.{ℕ, zero, suc, ◌≡◌, inl, inr, true, List, take, arith, Bool-cases}
use alt_f.Prelude.Text.{bytes_eq, bytes_eq_sound}
use alt_f.Daemon.Serial.{
  Status, success, wrong_answer, write_error, failed, Wire, Reply, CheckResponse, send_pkt,
  receive_pkt, expect, finish, answer, _SendCommand, SendCommand, ClearSerialPort, judge,
  after_response, after_send,
}

CheckResponse_sound :
    (cmd resp : List ℕ) → CheckResponse cmd resp ≡ success → take 5 resp ≡ take 5 cmd
unfolding CheckResponse
CheckResponse_sound cmd resp h = elim (Bool-cases (bytes_eq (take 5 resp) (take 5 cmd))) [
  | inl e ↦ bytes_eq_sound (take 5 resp) (take 5 cmd) e
  | inr e ↦ ground (arith, e)
]

judge_sound :
    {S : Type 0} (cmd : List ℕ) (r : Reply S)
    → (judge cmd r).status ≡ success
    → take 5 (judge cmd r).buf ≡ take 5 cmd
unfolding judge
judge_sound cmd r h = ground (arith, CheckResponse_sound cmd r.buf)

module _ {S : Type 0} (w : Wire S) where
  after_response_sound :
      (cmd out : List ℕ) (r : Reply S)
      → (r.status ≡ success → take 5 r.buf ≡ take 5 cmd)
      → (after_response w out r).status ≡ success
      → take 5 (after_response w out r).buf ≡ take 5 cmd
  unfolding after_response finish
  after_response_sound cmd out r f h = ground (arith, f)

  answer_sound :
      (s : S) (cmd stale out : List ℕ)
      → (answer w true s cmd stale out).status ≡ success
      → take 5 (answer w true s cmd stale out).buf ≡ take 5 cmd
  unfolding answer expect
  answer_sound s cmd stale out =
      after_response_sound cmd out (expect w s stale cmd) (judge_sound cmd (receive_pkt w s stale))

  after_send_sound :
      (cmd stale out : List ℕ) (t : Status) (s : S)
      → (after_send w true cmd stale out (t, s)).status ≡ success
      → take 5 (after_send w true cmd stale out (t, s)).buf ≡ take 5 cmd
  unfolding after_send
  after_send_sound cmd stale out success s h = answer_sound s cmd stale out h
  after_send_sound cmd stale out wrong_answer s h = ground arith
  after_send_sound cmd stale out write_error s h = ground arith
  after_send_sound cmd stale out failed s h = ground arith

  _SendCommand_sound :
      (s : S) (cmd out : List ℕ)
      → (_SendCommand w s cmd true out).status ≡ success
      → take 5 (_SendCommand w s cmd true out).buf ≡ take 5 cmd
  unfolding _SendCommand
  _SendCommand_sound s cmd out =
      let (t, s') = send_pkt w (ClearSerialPort w s) cmd in
      after_send_sound cmd (w.stale s) out t s'

  -- When `SendCommand` is asked for a response and returns SUCCESS, the first five bytes of what it
  -- copied out are those of the command, whatever the line did before.
  pub SendCommand_sound :
      (retries : ℕ) (s : S) (cmd out : List ℕ)
      → (SendCommand w retries s cmd true out).status ≡ success
      → take 5 (SendCommand w retries s cmd true out).buf ≡ take 5 cmd
  unfolding SendCommand
  SendCommand_sound zero s cmd out h = _SendCommand_sound s cmd out h
  SendCommand_sound (suc retries) s cmd out h =
      let r = _SendCommand w s cmd true out in
      ground (arith, _SendCommand_sound s cmd out, SendCommand_sound retries r.line cmd r.buf)

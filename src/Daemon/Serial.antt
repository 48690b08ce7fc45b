-- ===== src/Daemon/Serial.antt =====
-- The serial line to the microcontroller: `ClearSerialPort`, `send_pkt`, `receive_pkt`,
-- `CheckResponse`, `_SendCommand` and `SendCommand` of
-- package/alt-f-utils/alt-f-utils-0.1.11/dns320l-daemon.c.
pub mod Laws
pub mod Sound
pub mod Retry
use alt_f.Prelude.{
  ℕ, zero, suc, ◌+◌, ◌/◌, ◌≡◌, Bool, true, false, ◌&&◌, Option, none, some, List, [], ◌∷◌, take,
  min, ◌==◌, if◌then◌else◌,
}
use alt_f.Prelude.Text.{bytes_eq}
use alt_f.Daemon.Commands.{stop_magic, ack_from_serial}

-- SUCCESS, ERR_WRONG_ANSWER, ERR_WRITE_ERROR, and the plain 1 of `_SendCommand`.
pub data Status : Type 0 where
  success wrong_answer write_error failed : Status

-- The line and the controller behind it, which are not part of the program.
pub record Wire (S : Type 0) : Type 0 where
  -- how many bytes could be read at once, and a `read` of that many of them
  pub pending : S → ℕ
  pub discard : S → ℕ → S
  -- `write` of one byte, and whether it returned 1
  pub put : S → ℕ → Bool × S
  -- `read` of one byte within the time limit; `none` is a result other than 1
  pub get : S → Option ℕ × S
  -- what stands in the 16 bytes of `buf`, which `_SendCommand` does not initialise
  pub stale : S → List ℕ

-- A status, the line, and the buffer that was read into.
pub record Reply (S : Type 0) : Type 0 where
  pub status : Status
  pub line : S
  pub buf : List ℕ

-- `for(i = 0; i < 5; i++) if(resp[i] != cmd[i]) failure = 1;`
unfoldable pub CheckResponse : List ℕ → List ℕ → Status
CheckResponse cmd resp = if bytes_eq (take 5 resp) (take 5 cmd) then success else wrong_answer

keep_first : {S : Type 0} → ℕ → Reply S → Reply S
keep_first b r = record r { buf = b ∷ r.buf }

judge : {S : Type 0} → List ℕ → Reply S → Reply S
judge cmd r = elim r.status [
  | success ↦ elim (CheckResponse cmd r.buf) [
    | success ↦ r
    | _ ↦ record r { status = wrong_answer }
  ]
  | _ ↦ record r { status = wrong_answer }
]

module _ {S : Type 0} (w : Wire S) where
  -- `do n = read(fd, buf, 64) while (n == 64)`, on fuel.
  pub clear_loop : ℕ → S → S
  clear_loop zero s = s
  clear_loop (suc fuel) s =
      let n = min 64 (w.pending s) in
      let rest = clear_loop fuel (w.discard s n) in if n == 64 then rest else w.discard s n

  unfoldable pub ClearSerialPort : S → S
  ClearSerialPort s = if w.pending s == 0 then s else clear_loop (w.pending s / 64 + 1) s

  -- Byte by byte up to the stop. A command without one would be read past its end; none is.
  unfoldable pub send_pkt : S → List ℕ → Status × S
  send_pkt s [] = (success, s)
  send_pkt s (b ∷ cmd) =
      let (sent, s') = w.put s b in
      elim sent [
        | false ↦ (write_error, s')
        | true ↦ elim (b == stop_magic) [ true ↦ (success, s') | false ↦ send_pkt s' cmd ]
      ]

  -- `buf` is what the buffer holds from the current place on, so that its end is `bufsize`. After a
  -- failed `read` the old byte is tested.
  unfoldable pub receive_pkt : S → List ℕ → Reply S
  unfolding keep_first
  receive_pkt s [] = record { status = wrong_answer; line = s; buf = [] }
  receive_pkt s (old ∷ buf) =
      let (got, s') = w.get s in
      elim got [
        | none ↦ elim (old == stop_magic) [
          | true ↦ record { status = success; line = s'; buf = old ∷ buf }
          | false ↦ record { status = wrong_answer; line = s'; buf = old ∷ buf }
        ]
        | some b ↦ elim (b == stop_magic) [
          | true ↦ record { status = success; line = s'; buf = b ∷ buf }
          | false ↦ keep_first b (receive_pkt s' buf)
        ]
      ]

  -- A packet received and compared with the one expected.
  unfoldable pub expect : S → List ℕ → List ℕ → Reply S
  unfolding judge
  expect s buf cmd = judge cmd (receive_pkt s buf)

  -- The packet that acknowledges, received into the same buffer; `out` is what `outArray` holds.
  unfoldable pub finish : S → List ℕ → List ℕ → Reply S
  finish s buf out = record (expect s buf ack_from_serial) { buf = out }

  after_response : List ℕ → Reply S → Reply S
  after_response out r = elim r.status [
    | success ↦ finish r.line r.buf r.buf
    | _ ↦ record r { buf = out }
  ]

  -- The response, where one is wanted, and then the acknowledgement.
  unfoldable pub answer : Bool → S → List ℕ → List ℕ → List ℕ → Reply S
  unfolding after_response
  answer false s cmd stale out = finish s stale out
  answer true s cmd stale out = after_response out (expect s stale cmd)

  after_send : Bool → List ℕ → List ℕ → List ℕ → Status × S → Reply S
  after_send wanted cmd stale out (success, s) = answer wanted s cmd stale out
  after_send wanted cmd stale out (_, s) = record { status = failed; line = s; buf = out }

  -- `wanted` is `outArray != NULL`, and `out` what it points to.
  unfoldable pub _SendCommand : S → List ℕ → Bool → List ℕ → Reply S
  unfolding after_send
  _SendCommand s cmd wanted out =
      after_send wanted cmd (w.stale s) out (send_pkt (ClearSerialPort s) cmd)

  -- `do ... while (ret != SUCCESS && nRetries <= stDaemonConfig.nRetries)`: `retries` more attempts.
  unfoldable pub SendCommand : ℕ → S → List ℕ → Bool → List ℕ → Reply S
  SendCommand zero s cmd wanted out = _SendCommand s cmd wanted out
  SendCommand (suc retries) s cmd wanted out =
      let r = _SendCommand s cmd wanted out in
      elim r.status [ success ↦ r | _ ↦ SendCommand retries r.line cmd wanted r.buf ]

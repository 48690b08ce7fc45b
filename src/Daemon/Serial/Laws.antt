-- ===== src/Daemon/Serial/Laws.antt =====
-- What a well-behaved controller gets and gives, for `send_pkt`, `receive_pkt` and `_SendCommand`
-- of package/alt-f-utils/alt-f-utils-0.1.11/dns320l-daemon.c.
use alt_f.Prelude.{
  ℕ, zero, suc, ◌≡◌, ◌≢◌, refl, ap, ◌∙◌, ◌<◌, true, false, some, List, [], ◌∷◌, ◌++◌, length, take,
  length-append, ◌≤◌, ne→==, arith,
}
use alt_f.Prelude.Text.{bytes_eq_refl}
use alt_f.Daemon.Commands.{stop_magic, ack_from_serial}
use alt_f.Daemon.Serial.{
  success, Wire, Reply, CheckResponse, send_pkt, receive_pkt, expect, finish, answer, _SendCommand,
  ClearSerialPort, keep_first, judge, after_response, after_send,
}

-- The bytes in front of the stop.
unfoldable pub IsBody : List ℕ → Type 0
IsBody [] = Unit {0}
IsBody (b ∷ bs) = (b ≢ stop_magic) × IsBody bs

-- What `receive_pkt` leaves in the buffer: the packet, and the rest as it was.
unfoldable pub over : List ℕ → List ℕ → List ℕ
over [] old = old
over (b ∷ bs) [] = []
over (b ∷ bs) (o ∷ old) = b ∷ over bs old

take-over :
    (n : ℕ) (bs old : List ℕ)
    → n ≤ length bs
    → length bs ≤ length old
    → take n (over bs old) ≡ take n bs
unfolding over
take-over zero bs old l k = refl
take-over (suc n) [] old l k = absurd (omega arith)
take-over (suc n) (b ∷ bs) [] l k = absurd (omega arith)
take-over (suc n) (b ∷ bs) (o ∷ old) l k =
    ap (λ x. b ∷ x) (take-over n bs old (omega arith) (omega arith))

take-append : (n : ℕ) (xs ys : List ℕ) → n ≤ length xs → take n (xs ++ ys) ≡ take n xs
take-append zero xs ys l = refl
take-append (suc n) [] ys l = absurd (omega arith)
take-append (suc n) (x ∷ xs) ys l = ap (λ t. x ∷ t) (take-append n xs ys (omega arith))

length-over : (bs old : List ℕ) → length (over bs old) ≡ length old
unfolding over
length-over [] old = refl
length-over (b ∷ bs) [] = refl
length-over (b ∷ bs) (o ∷ old) = ap suc (length-over bs old)

-- A response agrees with a command when the first five bytes do.
CheckResponse_same :
    (cmd resp : List ℕ) → take 5 resp ≡ take 5 cmd → CheckResponse cmd resp ≡ success
unfolding CheckResponse
CheckResponse_same cmd resp h = rw (h, bytes_eq_refl (take 5 cmd)) refl

head_of_packet :
    (body buf cmd : List ℕ)
    → 4 < length body
    → length body < length buf
    → take 5 body ≡ take 5 cmd
    → take 5 (over (body ++ stop_magic ∷ []) buf) ≡ take 5 cmd
head_of_packet body buf cmd k l h =
    take-over 5 (body ++ stop_magic ∷ []) buf (omega (arith, length-append body (stop_magic ∷ [])))
      (omega (arith, length-append body (stop_magic ∷ [])))
    ∙ take-append 5 body (stop_magic ∷ []) (omega arith)
    ∙ h

ack-IsBody : IsBody (0xfa ∷ 0x30 ∷ 0 ∷ 0 ∷ 0 ∷ 0 ∷ [])
unfolding IsBody
ack-IsBody = (
  (λ e. omega arith),
  (
    (λ e. omega arith),
    ((λ e. omega arith), ((λ e. omega arith), ((λ e. omega arith), ((λ e. omega arith), tt)))),
  ),
)

module _ {S : Type 0} (w : Wire S) where
  -- The controller gives these bytes, one for each `read`, and is then in the last state.
  unfoldable pub Gives : S → List ℕ → S → Type 0
  Gives s [] s' = s ≡ s'
  Gives s (b ∷ bs) s' = (t : S) × (w.get s ≡ (some b, t)) × Gives t bs s'

  -- The controller takes these bytes, one for each `write`.
  unfoldable pub Takes : S → List ℕ → S → Type 0
  Takes s [] s' = s ≡ s'
  Takes s (b ∷ bs) s' = (t : S) × (w.put s b ≡ (true, t)) × Takes t bs s'

  send_pkt_taken :
      (body : List ℕ) (s s' : S)
      → IsBody body
      → Takes s (body ++ stop_magic ∷ []) s'
      → send_pkt w s (body ++ stop_magic ∷ []) ≡ (success, s')
  unfolding send_pkt IsBody Takes
  send_pkt_taken [] s s' n (t, p, e) = rw p (ap (λ x. (success, x)) (ap (λ x. x.1) p ∙ e))
  send_pkt_taken (b ∷ body) s s' (n, ns) (t, p, ts) =
      rw (p, ne→== b stop_magic n)
        (ap (λ x. send_pkt w x (body ++ stop_magic ∷ [])) (ap (λ x. x.1) p)
          ∙ send_pkt_taken body t s' ns ts)

  receive_pkt_given :
      (body : List ℕ) (s s' : S) (buf : List ℕ)
      → IsBody body
      → length body < length buf
      → Gives s (body ++ stop_magic ∷ []) s'
      → receive_pkt w s buf
        ≡ record { status = success; line = s'; buf = over (body ++ stop_magic ∷ []) buf }
  unfolding receive_pkt IsBody Gives over keep_first
  receive_pkt_given body s s' [] n l g = absurd (omega arith)
  receive_pkt_given [] s s' (o ∷ buf) n l (t, p, e) =
      rw (p, receive_pkt)
        (ap (λ x. record { status = success; line = x; buf = stop_magic ∷ buf })
          (ap (λ x. x.1) p ∙ e))
  receive_pkt_given (b ∷ body) s s' (o ∷ buf) (n, ns) l (t, p, ts) =
      rw (p, ne→== b stop_magic n, receive_pkt)
        (ap (λ x. keep_first b (receive_pkt w x buf)) (ap (λ x. x.1) p)
          ∙ ap (keep_first b) (receive_pkt_given body t s' buf ns (omega arith) ts))

  expect_given :
      (body : List ℕ) (s s' : S) (buf cmd : List ℕ)
      → IsBody body
      → 4 < length body
      → length body < length buf
      → take 5 body ≡ take 5 cmd
      → Gives s (body ++ stop_magic ∷ []) s'
      → expect w s buf cmd
        ≡ record { status = success; line = s'; buf = over (body ++ stop_magic ∷ []) buf }
  unfolding expect judge
  expect_given body s s' buf cmd n k l h g =
      ap (judge cmd) (receive_pkt_given body s s' buf n l g)
      ∙ rw
          (
            CheckResponse_same cmd (over (body ++ stop_magic ∷ []) buf)
                (head_of_packet body buf cmd k l h),
            judge,
          )
          refl

  finish_given :
      (s s' : S) (buf out : List ℕ)
      → length buf ≡ 16
      → Gives s ack_from_serial s'
      → finish w s buf out ≡ record { status = success; line = s'; buf = out }
  unfolding finish IsBody
  finish_given s s' buf out l g =
      ap {A = Reply S} (λ r. record r { buf = out })
        (expect_given (0xfa ∷ 0x30 ∷ 0 ∷ 0 ∷ 0 ∷ 0 ∷ []) s s' buf ack_from_serial ack-IsBody
          (omega arith) (omega (arith, l)) refl g)

  -- A command that the controller takes and only acknowledges succeeds and reads nothing else.
  pub _SendCommand_acknowledged :
      (body : List ℕ) (s s₁ s₂ : S) (out : List ℕ)
      → length (w.stale s) ≡ 16
      → IsBody body
      → Takes (ClearSerialPort w s) (body ++ stop_magic ∷ []) s₁
      → Gives s₁ ack_from_serial s₂
      → _SendCommand w s (body ++ stop_magic ∷ []) false out
        ≡ record { status = success; line = s₂; buf = out }
  unfolding _SendCommand after_send answer
  _SendCommand_acknowledged body s s₁ s₂ out l n t g =
      ap (after_send w false (body ++ stop_magic ∷ []) (w.stale s) out)
        (send_pkt_taken body (ClearSerialPort w s) s₁ n t)
      ∙ (finish_given s₁ s₂ (w.stale s) out l g)

  -- A command that the controller takes, answers with a packet of 6 to 16 bytes that begins with
  -- the first five bytes of the command, and acknowledges, succeeds with that packet as the result.
  pub _SendCommand_answered :
      (body resp : List ℕ) (s s₁ s₂ s₃ : S) (out : List ℕ)
      → length (w.stale s) ≡ 16
      → IsBody body
      → IsBody resp
      → 4 < length resp
      → length resp < 16
      → take 5 resp ≡ take 5 (body ++ stop_magic ∷ [])
      → Takes (ClearSerialPort w s) (body ++ stop_magic ∷ []) s₁
      → Gives s₁ (resp ++ stop_magic ∷ []) s₂
      → Gives s₂ ack_from_serial s₃
      → _SendCommand w s (body ++ stop_magic ∷ []) true out
        ≡ record { status = success; line = s₃; buf = over (resp ++ stop_magic ∷ []) (w.stale s) }
  unfolding _SendCommand after_send answer after_response
  _SendCommand_answered body resp s s₁ s₂ s₃ out l n m k r h t g a =
      ap (after_send w true (body ++ stop_magic ∷ []) (w.stale s) out)
        (send_pkt_taken body (ClearSerialPort w s) s₁ n t)
      ∙ ap (after_response w out)
          (expect_given resp s₁ s₂ (w.stale s) (body ++ stop_magic ∷ []) m k (omega (arith, l)) h g)
      ∙ finish_given s₂ s₃ (over (resp ++ stop_magic ∷ []) (w.stale s))
          (over (resp ++ stop_magic ∷ []) (w.stale s))
          (length-over (resp ++ stop_magic ∷ []) (w.stale s) ∙ l) a

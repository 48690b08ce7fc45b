-- ===== src/Daemon/Serial/Retry.antt =====
-- The retries of `SendCommand`, package/alt-f-utils/alt-f-utils-0.1.11/dns320l-daemon.c.
use alt_f.Prelude.{ℕ, zero, suc, ◌≤◌, ◌≡◌, ◌≢◌, refl, ap₂, subst, sym, ◌∙◌, Bool, List, arith}
use alt_f.Daemon.Serial.{success, Wire, _SendCommand, SendCommand}

module _ {S : Type 0} (w : Wire S) (cmd : List ℕ) (wanted : Bool) where
  -- So many attempts fail one after the other, from one state of the line and of the caller's
  -- buffer to the other.
  unfoldable pub Fails : ℕ → S → List ℕ → S → List ℕ → Type 0
  Fails zero s out s' out' = (s ≡ s') × (out ≡ out')
  Fails (suc n) s out s' out' =
      ((_SendCommand w s cmd wanted out).status ≢ success)
      × Fails n (_SendCommand w s cmd wanted out).line (_SendCommand w s cmd wanted out).buf s' out'

  first_try :
      (retries : ℕ) (s : S) (out : List ℕ)
      → (_SendCommand w s cmd wanted out).status ≡ success
      → SendCommand w retries s cmd wanted out ≡ _SendCommand w s cmd wanted out
  unfolding SendCommand
  first_try zero s out h = refl
  first_try (suc retries) s out h = ground (arith, h)

  next_try :
      (retries : ℕ) (s : S) (out : List ℕ)
      → (_SendCommand w s cmd wanted out).status ≢ success
      → SendCommand w (suc retries) s cmd wanted out
        ≡ SendCommand w retries
            (_SendCommand w s cmd wanted out).line
            cmd
            wanted
            (_SendCommand w s cmd wanted out).buf
  unfolding SendCommand
  next_try retries s out h = ground (arith, h)

  -- A success that comes after no more failures than there are retries is the result of
  -- `SendCommand`.
  pub SendCommand_retried :
      (n retries : ℕ) (s s' : S) (out out' : List ℕ)
      → n ≤ retries
      → Fails n s out s' out'
      → (_SendCommand w s' cmd wanted out').status ≡ success
      → SendCommand w retries s cmd wanted out ≡ _SendCommand w s' cmd wanted out'
  unfolding Fails
  SendCommand_retried zero retries s s' out out' l (p, q) h =
      let e = ap₂ (λ t b. _SendCommand w t cmd wanted b) p q in
      first_try retries s out (subst (λ r. r.status ≡ success) (sym e) h) ∙ e
  SendCommand_retried (suc n) zero s s' out out' l (b, f) h = absurd (omega arith)
  SendCommand_retried (suc n) (suc retries) s s' out out' l (b, f) h =
      next_try retries s out b ∙ SendCommand_retried n retries _ s' _ out' (omega arith) f h

  failed_first :
      (retries : ℕ) (s : S) (out : List ℕ)
      → (SendCommand w (suc retries) s cmd wanted out).status ≢ success
      → (_SendCommand w s cmd wanted out).status ≢ success
  failed_first retries s out h e =
      h (subst (λ t. t.status ≡ success) (sym (first_try (suc retries) s out e)) e)

  -- When `SendCommand` fails, one attempt more than there are retries was made, and all failed.
  pub SendCommand_exhausted :
      (retries : ℕ) (s : S) (out : List ℕ)
      → (SendCommand w retries s cmd wanted out).status ≢ success
      → Fails
          (suc retries)
          s
          out
          (SendCommand w retries s cmd wanted out).line
          (SendCommand w retries s cmd wanted out).buf
  unfolding Fails SendCommand
  SendCommand_exhausted zero s out h = (h, (refl, refl))
  SendCommand_exhausted (suc retries) s out h =
      let b = failed_first retries s out h in
      let r = _SendCommand w s cmd wanted out in
      subst (λ t. Fails (suc (suc retries)) s out t.line t.buf) (sym (next_try retries s out b))
        (
          b,
          SendCommand_exhausted retries r.line r.buf
              (λ e. h (subst (λ t. t.status ≡ success) (sym (next_try retries s out b)) e)),
        )

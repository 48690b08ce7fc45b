-- ===== src/Daemon/Poll/Overflow.antt =====
-- Which messages of a client are answered beyond the end of `response`: the `sprintf` of
-- `HandleCommand` in package/alt-f-utils/alt-f-utils-0.1.11/dns320l-daemon.c.
use alt_f.Prelude.{
  ℕ, ◌≤◌, ◌≡◌, ◌≢◌, ◌↔◌, Bool, true, false, some, List, [], ◌∷◌, length, leb, gt→leb, le_or_lt, inl,
  inr, arith, if◌then◌else◌,
}
use alt_f.Prelude.Int.{negsuc, equal_ℤ}
use alt_f.Daemon.Serial.{Wire}
use alt_f.Daemon.State.{Host}
use alt_f.Daemon.Actions.{Done}
use alt_f.Daemon.Alarm.{Tm, Clock}
use alt_f.Daemon.Handle.{HandleCommand, split_name}
use alt_f.Daemon.Handle.Answers.{Fits, HandleCommand-Fits, find-cmds_long, length-unknown}
use alt_f.Daemon.Poll.{Net, Server, Outcome, exits, fault, buf_size, line_of, reply, serve}

leb-true : (a b : ℕ) → a ≤ b → leb a b ≡ true
leb-true a b h = ground arith

either-ne-fault :
    {N S : Type 0} (b : Bool) (x y : Outcome N S)
    → x ≢ fault
    → y ≢ fault
    → (if b then x else y) ≢ fault
either-ne-fault true x y hx hy = hx
either-ne-fault false x y hx hy = hy

module _ {N S : Type 0} (n : Net N) (w : Wire S) (retries : ℕ) (host : Host) (clock : Clock)
    (utc : Tm) where
  reply-fault :
      (srv : Server N S) (f : ℕ) (r : Done S)
      → buf_size ≤ length r.message
      → reply n w retries host clock utc srv f r ≡ fault
  unfolding reply
  reply-fault srv f r h = rw (leb-true buf_size (length r.message) h)

  reply-ne-fault :
      (srv : Server N S) (f : ℕ) (r : Done S)
      → Fits r
      → reply n w retries host clock utc srv f r ≢ fault
  unfolding reply
  reply-ne-fault srv f r h =
      rw (gt→leb buf_size (length r.message) h)
        (either-ne-fault (equal_ℤ r.code (negsuc 1)) (exits 0) _ (λ e. cc) (λ e. cc))

  -- A message makes the daemon write beyond its buffer for the answer exactly when the name in front
  -- of its first blank has 490 bytes or more.
  pub serve_fault_iff :
      (srv : Server N S) (i f b : ℕ) (bytes : List ℕ)
      → (serve n w retries host clock utc srv i f (some (b ∷ bytes)) ≡ fault)
        ↔ (490 ≤ length (split_name (line_of (b ∷ bytes))).0)
  unfolding serve
  serve_fault_iff srv i f b bytes =
      let line = line_of (b ∷ bytes) in
      let answer = HandleCommand w retries host clock utc srv.daemon line [] buf_size in
      (
        λ e. elim (le_or_lt 490 (length (split_name line).0)) [
          | inl long ↦ long
          | inr short ↦ absurd (
              reply-ne-fault srv f answer
                (HandleCommand-Fits w retries host clock utc srv.daemon line [] (omega arith)) e)
        ],
        λ long. reply-fault srv f answer (
            omega (
              arith,
              length-unknown w retries host clock utc srv.daemon line []
                  (find-cmds_long (split_name line).0 (omega arith)),
            )),
      )

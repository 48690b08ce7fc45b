-- ===== src/Daemon/Client/Laws.antt =====
-- With or without a server the same command is carried out:
-- package/alt-f-utils/alt-f-utils-0.1.11/dns320l-daemon.c.
use alt_f.Prelude.{
  ℕ, ◌-◌, ◌≡◌, refl, ap, ◌∙◌, Option, none, some, List, [], ◌∷◌, ◌++◌, length, length-append, ne→==,
  arith,
}
use alt_f.Prelude.Slices.{take-append}
use alt_f.Daemon.Serial.{Wire}
use alt_f.Daemon.State.{Daemon, Host, c_string}
use alt_f.Daemon.Alarm.{Tm, Clock}
use alt_f.Daemon.Handle.{HandleCommand}
use alt_f.Daemon.Handle.Names.{Lacks, split_name-none, split_name-some}
use alt_f.Daemon.Poll.{line_of}
use alt_f.Daemon.Client.{request, options}

c_string_whole : (cs : List ℕ) → Lacks 0 cs → c_string cs ≡ cs
c_string_whole [] h = refl
c_string_whole (c ∷ cs) h = rw (ne→== c 0 h.0) (ap (λ t. c ∷ t) (c_string_whole cs h.1))

Lacks-append : (x : ℕ) (a b : List ℕ) → Lacks x a → Lacks x b → Lacks x (a ++ b)
Lacks-append x [] b ha hb = hb
Lacks-append x (c ∷ cs) b ha hb = (ha.0, Lacks-append x cs b ha.1 hb)

-- What the server makes of the bytes of a request.
line_of-append : (line : List ℕ) → Lacks 0 line → line_of (line ++ 10 ∷ []) ≡ line
unfolding line_of
line_of-append line h =
    ap c_string (
      take-append (length (line ++ 10 ∷ []) - 1) line (10 ∷ [])
        (omega (arith, length-append line (10 ∷ []))))
    ∙ c_string_whole line h

no_zero :
    (xcmd : List ℕ) (opt : Option (List ℕ))
    → Lacks 0 xcmd
    → Lacks 0 (options opt)
    → Lacks 0 (request xcmd opt)
unfolding request options
no_zero xcmd none hx ho = hx
no_zero xcmd (some opt) hx ho = Lacks-append 0 xcmd (32 ∷ opt) hx ((λ e. omega arith), ho)

module _ {S : Type 0} (w : Wire S) (retries : ℕ) (host : Host) (clock : Clock) (utc : Tm) where
  request_handled :
      (d : Daemon S) (xcmd : List ℕ) (opt : Option (List ℕ)) (size : ℕ)
      → Lacks 32 xcmd
      → HandleCommand w retries host clock utc d (request xcmd opt) [] size
        ≡ HandleCommand w retries host clock utc d xcmd (options opt) size
  unfolding HandleCommand request options
  request_handled d xcmd none size h = refl
  request_handled d xcmd (some opt) size h = rw (split_name-some xcmd opt h, split_name-none xcmd h)

  -- What a server does with the bytes that a client sends is what the client does itself when no
  -- server listens: for a command name with no blank, and texts that are C strings.
  pub line_of-request :
      (d : Daemon S) (xcmd : List ℕ) (opt : Option (List ℕ)) (size : ℕ)
      → Lacks 32 xcmd
      → Lacks 0 xcmd
      → Lacks 0 (options opt)
      → HandleCommand w retries host clock utc d (line_of (request xcmd opt ++ 10 ∷ [])) [] size
        ≡ HandleCommand w retries host clock utc d xcmd (options opt) size
  line_of-request d xcmd opt size h hx ho =
      ap (λ line. HandleCommand w retries host clock utc d line [] size)
        (line_of-append (request xcmd opt) (no_zero xcmd opt hx ho))
      ∙ request_handled d xcmd opt size h

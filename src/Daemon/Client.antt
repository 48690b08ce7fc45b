-- ===== src/Daemon/Client.antt =====
-- The client side, `dns320l-daemon -x`: `client_cmd` of
-- package/alt-f-utils/alt-f-utils-0.1.11/dns320l-daemon.c.
pub mod Laws
use alt_f.Prelude.{
  ℕ, ◌+◌, Bool, true, false, Option, none, some, List, [], ◌∷◌, ◌++◌, take, if◌then◌else◌,
}
use alt_f.Prelude.Int.{ℤ, pos}
use alt_f.Prelude.Text.{codes, bytes_eq}
use alt_f.Daemon.Serial.{Wire}
use alt_f.Daemon.State.{Daemon, Host}
use alt_f.Daemon.Actions.{Done}
use alt_f.Daemon.Alarm.{Tm, Clock}
use alt_f.Daemon.Handle.{HandleCommand}

-- The socket of a running server, which is the system's.
pub record Peer (L : Type 0) : Type 0 where
  -- whether `connect` finds a server
  pub listening : L → Bool
  -- whether `write` returns 0 or more
  pub write : L → List ℕ → Bool × L
  -- `read`; `none` is -1
  pub read : L → Option (List ℕ) × L

-- The exit status, and what is printed.
pub record Report : Type 0 where
  pub status : ℤ
  pub printed : List ℕ

-- `strncmp(text, msg, n) == 0` for a text of `n` bytes.
abbrev pub starts_with : ℕ → List ℕ → List ℕ → Bool
starts_with n text msg = bytes_eq text (take n msg)

-- `opt`, where there is one.
unfoldable pub options : Option (List ℕ) → List ℕ
options none = []
options (some opt) = opt

-- The line that goes to the server, without its closing newline.
pub request : List ℕ → Option (List ℕ) → List ℕ
request xcmd none = xcmd
request xcmd (some opt) = xcmd ++ 32 ∷ opt

-- The status of what was done without a server.
direct_status : ℤ → List ℕ → ℤ
direct_status code msg = if starts_with 3 (codes "ERR") msg then pos 1 else code

-- The status read off the answer of a server.
remote_status : List ℕ → ℤ
remote_status msg =
    if starts_with 2 (codes "OK") msg
    then pos 0
    else if starts_with 3 (codes "ERR") msg
    then pos 1
    else pos 0

-- After a read that failed the request is still in `msg`.
received : List ℕ → Option (List ℕ) → List ℕ
received sent none = sent
received sent (some msg) = msg

module _ {S L : Type 0} (w : Wire S) (retries : ℕ) (host : Host) (clock : Clock) (utc : Tm)
    (p : Peer L) where
  -- `d` is the client's own view of the controller, used when no server listens.
  client_cmd : Daemon S → L → List ℕ → Option (List ℕ) → Report
  client_cmd d l xcmd opt =
      let r = HandleCommand w retries host clock utc d xcmd (options opt) 512 in
      let sent = request xcmd opt ++ 10 ∷ [] in
      let (went, l') = p.write l sent in
      let msg = received sent (p.read l').0 in
      if p.listening l
      then (if went
          then record { status = remote_status msg; printed = msg }
          else record { status = pos 1; printed = [] })
      else record { status = direct_status r.code r.message; printed = r.message }

-- ===== src/Daemon/Poll.antt =====
-- The table of connections and the events of a round of `poll`: `poll_setup` and `poll_wait` of
-- package/alt-f-utils/alt-f-utils-0.1.11/dns320l-daemon.c.
pub mod Table
pub mod Invariant
pub mod Overflow
use alt_f.Prelude.{
  ℕ, zero, suc, ◌+◌, ◌-◌, Bool, true, false, not, ◌&&◌, ◌||◌, Option, none, some, List, [], ◌∷◌,
  length, get_elem?, set, replicate, take, drop, leb, ◌==◌, if◌then◌else◌,
}
use alt_f.Prelude.Int.{negsuc, equal_ℤ}
use alt_f.Daemon.Serial.{Wire}
use alt_f.Daemon.State.{Daemon, Host, c_string}
use alt_f.Daemon.Actions.{Done}
use alt_f.Daemon.Alarm.{Tm, Clock}
use alt_f.Daemon.Handle.{HandleCommand}

abbrev pub max_fds : ℕ
max_fds = 10

-- The size of `message` and of `response`.
abbrev pub buf_size : ℕ
buf_size = 512

-- The bits of `revents`.
pub record Revents : Type 0 where
  pub pollin : Bool
  pub pollhup : Bool
  pub pollerr : Bool
  pub pollnval : Bool

abbrev pub no_events : Revents
no_events = record { pollin = false; pollhup = false; pollerr = false; pollnval = false }

-- `revents == 0`
abbrev pub is_quiet : Revents → Bool
is_quiet r = not (r.pollin || r.pollhup || r.pollerr || r.pollnval)

-- A `struct pollfd`; the descriptor -1 is `none`. `events` is POLLIN throughout.
pub record Slot : Type 0 where
  pub fd : Option ℕ
  pub revents : Revents

-- The sockets, which are the system's.
pub record Net (N : Type 0) : Type 0 where
  -- `none` is -1
  pub accept : N → Option ℕ × N
  -- at most 512 bytes; `none` is -1, and no bytes is 0
  pub recv : N → ℕ → Option (List ℕ) × N
  -- whether the result is not negative
  pub send : N → ℕ → List ℕ → Bool × N
  -- `cleanup(1, fd, SHUT_RDWR)`
  pub cleanup : N → ℕ → N

-- What `poll` returns: 0, -1 with EINTR or with another error, or the number of slots that have
-- events, and the events.
pub data Polled : Type 0 where
  timed_out interrupted poll_error : Polled
  events : ℕ → List Revents → Polled

-- `fds`, `nfds`, the sockets behind them, and the rest of the daemon.
pub record Server (N S : Type 0) : Type 0 where
  pub fds : List Slot
  pub nfds : ℕ
  pub net : N
  pub daemon : Daemon S

-- A call goes on, leaves the process with a status, or writes beyond `fds` or `response`.
pub data Outcome (N S : Type 0) : Type 0 where
  running : Server N S → Outcome N S
  exits : ℕ → Outcome N S
  fault : Outcome N S

-- `for (j = 1; j < MAXFDS; j++) if (fds[j].fd == -1) break;` from the slot `j` on.
pub free_from : List Slot → ℕ → ℕ
free_from [] j = j
free_from (s ∷ ss) j = elim s.fd [ none ↦ j | some _ ↦ free_from ss (j + 1) ]

pub put_fd : List Slot → ℕ → Option ℕ → List Slot
put_fd [] i f = []
put_fd (s ∷ ss) zero f = record s { fd = f } ∷ ss
put_fd (s ∷ ss) (suc i) f = s ∷ put_fd ss i f

-- What `poll` stores.
pub with_revents : List Slot → List Revents → List Slot
with_revents [] rs = []
with_revents (s ∷ ss) [] = record s { revents = no_events } ∷ with_revents ss []
with_revents (s ∷ ss) (r ∷ rs) = record s { revents = r } ∷ with_revents ss rs

-- `poll_setup`, with the listening socket.
unfoldable pub poll_setup : ℕ → List Slot × ℕ
poll_setup ls = (
  record { fd = some ls; revents = no_events }
      ∷ replicate 9 (record { fd = none; revents = no_events }),
  1,
)

-- The last byte received gives way to the 0.
unfoldable pub line_of : List ℕ → List ℕ
line_of bytes = c_string (take (length bytes - 1) bytes)

-- `fds[i].fd == -1 || fds[i].revents == 0`, or the descriptor and its events.
pub busy : List Slot → ℕ → Option (ℕ × Revents)
busy fds i = elim (get_elem? fds i) [
  | none ↦ none
  | some s ↦ elim s.fd [
    | none ↦ none
    | some f ↦ if is_quiet s.revents then none else some (f, s.revents)
  ]
]

module _ {N S : Type 0} where
  -- The slot is given back.
  pub close_slot : Server N S → ℕ → Server N S
  close_slot srv i = record srv { fds = put_fd srv.fds i none; nfds = srv.nfds - 1 }

  -- A new connection takes the first free slot behind the listening socket.
  pub seat : Server N S → ℕ → Option ℕ → Outcome N S
  seat srv j none = running (record srv { fds = put_fd srv.fds j none })
  seat srv j (some f) = running (record srv {
    fds = set srv.fds j (record { fd = some f; revents = no_events });
    nfds = srv.nfds + 1;
  })

module _ {N S : Type 0} (n : Net N) (w : Wire S) (retries : ℕ) (host : Host) (clock : Clock)
    (utc : Tm) where
  pub accept_client : Server N S → Outcome N S
  unfolding seat
  accept_client srv =
      let j = free_from (drop 1 srv.fds) 1 in
      let (got, net') = n.accept srv.net in
      if srv.nfds == max_fds
      then running srv
      else if leb max_fds j
      then fault
      else seat (record srv { net = net' }) j got

  -- What follows a command: the answer, the end of the connection, or that of the daemon. An answer
  -- of 512 bytes or more has been written beyond `response`.
  pub reply : Server N S → ℕ → Done S → Outcome N S
  reply srv f r =
      let (sent, net') = n.send srv.net f (c_string r.message) in
      let ended = not sent || equal_ℤ r.code (negsuc 0) in
      if leb buf_size (length r.message)
      then fault
      else if equal_ℤ r.code (negsuc 1)
      then exits 0
      else running
          (record srv { net = if ended then n.cleanup net' f else net'; daemon = r.daemon })

  pub serve : Server N S → ℕ → ℕ → Option (List ℕ) → Outcome N S
  unfolding close_slot reply line_of
  serve srv i f none = running (close_slot (record srv { net = n.cleanup srv.net f }) i)
  serve srv i f (some []) = running (close_slot (record srv { net = n.cleanup srv.net f }) i)
  serve srv i f (some (b ∷ bytes)) =
      reply srv f
        (HandleCommand w retries host clock utc srv.daemon (line_of (b ∷ bytes)) [] buf_size)

  pub hang_up : Server N S → ℕ → ℕ → Revents → Outcome N S
  unfolding close_slot
  hang_up srv i f r =
      if r.pollhup || r.pollerr
      then running (close_slot (record srv { net = n.cleanup srv.net f }) i)
      else if r.pollnval
      then running (close_slot srv i)
      else running srv

  -- The body of the loop over the slots, for a slot with events.
  pub on_events : Server N S → ℕ → ℕ → Revents → Outcome N S
  on_events srv i f r =
      let (got, net') = n.recv srv.net f in
      if r.pollin && i == 0
      then accept_client srv
      else if r.pollin
      then serve (record srv { net = net' }) i f got
      else hang_up srv i f r

  -- `for (i = 0; i < MAXFDS && nev != 0; i++)`, with `left` slots to go.
  pub scan : ℕ → ℕ → ℕ → Server N S → Outcome N S
  scan zero i nev srv = running srv
  scan (suc left) i nev srv = elim (nev == 0) [
    | true ↦ running srv
    | false ↦ elim (busy srv.fds i) [
      | none ↦ scan left (i + 1) nev srv
      | some p ↦ elim (on_events srv i p.0 p.1) [
        | running srv' ↦ scan left (i + 1) (nev - 1) srv'
        | exits status ↦ exits status
        | fault ↦ fault
      ]
    ]
  ]

  pub poll_wait : Server N S → Polled → Outcome N S
  poll_wait srv timed_out = running srv
  poll_wait srv interrupted = running srv
  poll_wait srv poll_error = exits 1
  poll_wait srv (events nev rs) = scan max_fds 0 nev (record srv { fds = with_revents srv.fds rs })

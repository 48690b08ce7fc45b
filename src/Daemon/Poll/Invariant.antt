-- ===== src/Daemon/Poll/Invariant.antt =====
-- The number of connections is right, and no slot beyond the table is taken, whatever the clients
-- and the system do: `poll_wait` of package/alt-f-utils/alt-f-utils-0.1.11/dns320l-daemon.c.
use alt_f.Prelude.{
  ℕ, zero, suc, ◌+◌, ◌-◌, ◌≤◌, ◌<◌, ◌≡◌, refl, sym, subst, ◌∙◌, Bool, true, false, Option, none,
  some, List, [], ◌∷◌, length, length-set, length-take, take, get_elem?, drop, arith, ◌==◌,
  if◌then◌else◌, Bool-cases, ne→==, Option-cases, inl, inr, ◌≢◌, gt→leb, ◌||◌, ◌&&◌,
}
use alt_f.Prelude.Int.{negsuc, equal_ℤ}
use alt_f.Daemon.Serial.{Wire}
use alt_f.Daemon.State.{Host, c_string}
use alt_f.Daemon.Actions.{Done}
use alt_f.Daemon.Alarm.{Tm, Clock}
use alt_f.Daemon.Handle.{HandleCommand}
use alt_f.Daemon.Handle.Answers.{Fits, split_name-le, HandleCommand-Fits}
use alt_f.Daemon.Poll.{
  Slot, Revents, Net, Polled, timed_out, interrupted, poll_error, events, Server, Outcome, running,
  exits, fault, max_fds, buf_size, free_from, with_revents, busy, close_slot, seat, accept_client,
  reply, serve, hang_up, on_events, scan, poll_wait, line_of,
}
use alt_f.Daemon.Poll.Table.{
  open_count, open_count-le, one_if_open, IsFree, length-put_fd, length-with_revents,
  open_count-with_revents, open_count-put_none, open_count-put_free, open_count-set,
  free_from-IsFree,
}

-- `fds` has MAXFDS slots, and `nfds` counts those that are open.
pub record IsCounted {N S : Type 0} (srv : Server N S) : Type 0 where
  pub table : length srv.fds ≡ max_fds
  pub counted : srv.nfds ≡ open_count srv.fds

-- Neither `fds` nor the buffer for the answer is overrun, and the count is right where the daemon
-- goes on.
pub data IsSafe {N S : Type 0} : Outcome N S → Type 0 where
  safe_running : {srv : Server N S} → IsCounted srv → IsSafe (running srv)
  safe_exits : {status : ℕ} → IsSafe (exits status)

-- A descriptor at a slot.
abbrev Holds : List Slot → ℕ → ℕ → Type 0
Holds fds i f = (s : Slot) × (get_elem? fds i ≡ some s) × (s.fd ≡ some f)

c_string-le : (cs : List ℕ) → length (c_string cs) ≤ length cs
c_string-le [] = omega arith
c_string-le (c ∷ cs) = ground (arith, c_string-le cs)

length-line_of : (bytes : List ℕ) → length (line_of bytes) ≤ length bytes - 1
unfolding line_of
length-line_of bytes =
    omega (arith, c_string-le (take (length bytes - 1) bytes), length-take (length bytes - 1) bytes)

either_IsSafe :
    {N S : Type 0} (b : Bool) {x y : Outcome N S}
    → IsSafe x
    → IsSafe y
    → IsSafe (if b then x else y)
either_IsSafe true hx hy = hx
either_IsSafe false hx hy = hy

-- The listening socket is open, and so a free slot is behind it.
IsFree-behind :
    (fds : List Slot) (f : ℕ)
    → Holds fds 0 f
    → length fds ≡ max_fds
    → open_count fds < max_fds
    → (free_from (drop 1 fds) 1 < max_fds) × IsFree fds (free_from (drop 1 fds) 1)
IsFree-behind [] f h l o = absurd (omega arith)
IsFree-behind (s ∷ ss) f (s', e, h) l o =
    let s_open : one_if_open s.fd ≡ 1 = ground arith in
    let (i, found, inside, free) = free_from-IsFree ss 1 (omega arith) in
    (omega arith, subst (IsFree (s ∷ ss)) {x = suc i} {y = free_from ss 1} (omega arith) free)

not_accepting :
    {N S : Type 0} (b c : Bool) (x : Outcome N S) {y : Outcome N S}
    → c ≡ false
    → IsSafe y
    → IsSafe (if b && c then x else y)
not_accepting true true x e h = cc
not_accepting true false x e h = h
not_accepting false c x e h = h

busy-Holds : (fds : List Slot) (i : ℕ) (p : ℕ × Revents) → busy fds i ≡ some p → Holds fds i p.0
unfolding busy
busy-Holds fds i p h = at_slot (get_elem? fds i) refl
  where
    at_slot : (o : Option Slot) → get_elem? fds i ≡ o → Holds fds i p.0
    at_slot none e = ground arith
    at_slot (some s) e = (s, e, ground arith)

module _ {N S : Type 0} where
  close_slot-IsCounted :
      (srv : Server N S) (i f : ℕ)
      → IsCounted srv
      → Holds srv.fds i f
      → IsCounted (close_slot srv i)
  unfolding close_slot
  close_slot-IsCounted srv i f c (s, e, h) = record {
    table = length-put_fd srv.fds i none ∙ c.table;
    counted = omega (arith, c.counted, open_count-put_none srv.fds i f s e h);
  }

  seat-IsSafe :
      (srv : Server N S) (j : ℕ) (got : Option ℕ)
      → IsCounted srv
      → IsFree srv.fds j
      → IsSafe (seat srv j got)
  unfolding seat
  seat-IsSafe srv j none c free = safe_running (record {
    table = length-put_fd srv.fds j none ∙ c.table;
    counted = omega (arith, c.counted, open_count-put_free srv.fds j free);
  })
  seat-IsSafe srv j (some f) c free = safe_running (record {
    table = length-set srv.fds j _ ∙ c.table;
    counted = omega (arith, c.counted, open_count-set srv.fds j f _ free);
  })

module _ {N S : Type 0} (n : Net N) (w : Wire S) (retries : ℕ) (host : Host) (clock : Clock)
    (utc : Tm) where
  accept_client-IsSafe :
      (srv : Server N S) (f : ℕ)
      → IsCounted srv
      → Holds srv.fds 0 f
      → IsSafe (accept_client n w retries host clock utc srv)
  unfolding accept_client
  accept_client-IsSafe srv f c h = elim (Bool-cases (srv.nfds == max_fds)) [
    | inl full ↦ rw full (safe_running c)
    | inr room ↦
        let o : open_count srv.fds < max_fds = omega (arith, ne_of_room, open_count-le srv.fds) in
        let (inside, free) = IsFree-behind srv.fds f h c.table o in
        rw (room, gt→leb max_fds (free_from (drop 1 srv.fds) 1) inside)
          (seat-IsSafe _ _ (n.accept srv.net).0 (record { table = c.table; counted = c.counted })
            free)
  ]
    where
      ne_of_room : (srv.nfds == max_fds) ≡ false → srv.nfds ≢ max_fds
      ne_of_room e = ground arith

  reply-IsSafe :
      (srv : Server N S) (f : ℕ) (r : Done S)
      → IsCounted srv
      → Fits r
      → IsSafe (reply n w retries host clock utc srv f r)
  unfolding reply
  reply-IsSafe srv f r c short = rw (gt→leb buf_size (length r.message) short) (
      either_IsSafe (equal_ℤ r.code (negsuc 1)) safe_exits
        (safe_running (record { table = c.table; counted = c.counted })))

  hang_up-IsSafe :
      (srv : Server N S) (i f : ℕ) (r : Revents)
      → IsCounted srv
      → Holds srv.fds i f
      → IsSafe (hang_up n w retries host clock utc srv i f r)
  unfolding hang_up
  hang_up-IsSafe srv i f r c h =
      either_IsSafe (r.pollhup || r.pollerr)
        (safe_running (
          close_slot-IsCounted (record srv { net = n.cleanup srv.net f }) i f
            (record { table = c.table; counted = c.counted }) h))
        (either_IsSafe r.pollnval (safe_running (close_slot-IsCounted srv i f c h))
          (safe_running c))

  -- No client sends more than 490 bytes at once.
  module _
      (brief : (s : N) (f b : ℕ) (bytes : List ℕ)
        → (n.recv s f).0 ≡ some (b ∷ bytes)
        → length (b ∷ bytes) ≤ 490) where
    serve-IsSafe :
        (srv : Server N S) (i f : ℕ) (got : Option (List ℕ))
        → IsCounted srv
        → Holds srv.fds i f
        → ((b : ℕ) (bytes : List ℕ) → got ≡ some (b ∷ bytes) → length (b ∷ bytes) ≤ 490)
        → IsSafe (serve n w retries host clock utc srv i f got)
    unfolding serve
    serve-IsSafe srv i f none c h short = safe_running (
        close_slot-IsCounted (record srv { net = n.cleanup srv.net f }) i f
          (record { table = c.table; counted = c.counted }) h)
    serve-IsSafe srv i f (some []) c h short = safe_running (
        close_slot-IsCounted (record srv { net = n.cleanup srv.net f }) i f
          (record { table = c.table; counted = c.counted }) h)
    serve-IsSafe srv i f (some (b ∷ bytes)) c h short =
        reply-IsSafe srv f
          (HandleCommand w retries host clock utc srv.daemon (line_of (b ∷ bytes)) [] buf_size) c
          (HandleCommand-Fits w retries host clock utc srv.daemon (line_of (b ∷ bytes)) [] (
            omega (
              arith,
              length-line_of (b ∷ bytes),
              split_name-le (line_of (b ∷ bytes)),
              short b bytes refl,
            )))

    -- A slot that is not asked to accept.
    served-IsSafe :
        (srv : Server N S) (i f : ℕ) (r : Revents)
        → IsCounted srv
        → Holds srv.fds i f
        → IsSafe (
            if r.pollin
            then serve n w retries host clock utc
                (record srv { net = (n.recv srv.net f).1 })
                i
                f
                (n.recv srv.net f).0
            else hang_up n w retries host clock utc srv i f r)
    served-IsSafe srv i f r c h =
        either_IsSafe r.pollin
          (serve-IsSafe (record srv { net = (n.recv srv.net f).1 }) i f (n.recv srv.net f).0
            (record { table = c.table; counted = c.counted }) h (brief srv.net f))
          (hang_up-IsSafe srv i f r c h)

    on_events-IsSafe :
        (srv : Server N S) (i f : ℕ) (r : Revents)
        → IsCounted srv
        → Holds srv.fds i f
        → IsSafe (on_events n w retries host clock utc srv i f r)
    unfolding on_events
    on_events-IsSafe srv zero f r c h =
        either_IsSafe (r.pollin && true) (accept_client-IsSafe srv f c h)
          (served-IsSafe srv zero f r c h)
    on_events-IsSafe srv (suc i) f r c h =
        not_accepting r.pollin (suc i == 0) (accept_client n w retries host clock utc srv)
          (ne→== (suc i) 0 (omega arith)) (served-IsSafe srv (suc i) f r c h)

    scan-IsSafe :
        (left i nev : ℕ) (srv : Server N S)
        → IsCounted srv
        → IsSafe (scan n w retries host clock utc left i nev srv)
    unfolding scan
    scan-IsSafe zero i nev srv c = safe_running c
    scan-IsSafe (suc left) i nev srv c = elim (Bool-cases (nev == 0)) [
      | inl none_left ↦ rw (none_left, scan) (safe_running c)
      | inr more ↦ elim (Option-cases (busy srv.fds i)) [
        | inl idle ↦ rw (more, idle, scan) (scan-IsSafe left (i + 1) nev srv c)
        | inr (p, e) ↦
            rw (more, e, scan)
              (go (on_events n w retries host clock utc srv i p.0 p.1)
                (on_events-IsSafe srv i p.0 p.1 c (busy-Holds srv.fds i p e))
                (λ srv' c'. scan-IsSafe left (i + 1) (nev - 1) srv' c'))
      ]
    ]
      where
        go :
            (o : Outcome N S)
            → IsSafe o
            → ((srv' : Server N S)
                → IsCounted srv'
                → IsSafe (scan n w retries host clock utc left (i + 1) (nev - 1) srv'))
            → IsSafe (elim o [
              | running srv' ↦ scan n w retries host clock utc left (i + 1) (nev - 1) srv'
              | exits status ↦ exits status
              | fault ↦ fault
            ])
        go (running srv') (safe_running c') next = next srv' c'
        go (exits status) s next = safe_exits
        go fault s next = elim s [ ]

    -- With all slots of the table counted, and clients that send at most 490 bytes at once, a round
    -- of `poll` writes neither beyond `fds` nor beyond the buffer for the answer, and counts all
    -- slots where it goes on.
    pub poll_wait-IsSafe :
        (srv : Server N S) (ev : Polled)
        → IsCounted srv
        → IsSafe (poll_wait n w retries host clock utc srv ev)
    unfolding poll_wait
    poll_wait-IsSafe srv timed_out c = safe_running c
    poll_wait-IsSafe srv interrupted c = safe_running c
    poll_wait-IsSafe srv poll_error c = safe_exits
    poll_wait-IsSafe srv (events nev rs) c =
        scan-IsSafe max_fds 0 nev (record srv { fds = with_revents srv.fds rs })
          (record {
            table = length-with_revents srv.fds rs ∙ c.table;
            counted = c.counted ∙ sym (open_count-with_revents srv.fds rs);
          })

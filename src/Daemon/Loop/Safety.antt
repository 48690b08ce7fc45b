-- ===== src/Daemon/Loop/Safety.antt =====
-- The whole life of a server, from the start of the loop of
-- package/alt-f-utils/alt-f-utils-0.1.11/dns320l-daemon.c on.
use alt_f.Prelude.{ℕ, ◌+◌, ◌≤◌, ◌≡◌, refl, some, List, [], ◌∷◌, length}
use alt_f.Daemon.Serial.{Wire}
use alt_f.Daemon.State.{Daemon, Host}
use alt_f.Daemon.Alarm.{Tm, Clock}
use alt_f.Daemon.Poll.{Net, Polled, Server, Outcome, running, exits, fault, poll_setup}
use alt_f.Daemon.Poll.Invariant.{IsCounted, IsSafe, safe_running, safe_exits, poll_wait-IsSafe}
use alt_f.Daemon.Loop.{control, tick, startup, main_loop}

module _ {N S : Type 0} (n : Net N) (w : Wire S) (retries : ℕ) (host : Host) (clock : Clock)
    (utc : Tm) where
  startup-IsCounted :
      (d : Daemon S) (net : N) (ls : ℕ) → IsCounted (startup n w retries host clock utc d net ls)
  unfolding startup poll_setup
  startup-IsCounted d net ls = record { table = refl; counted = refl }

  module _
      (brief : (s : N) (f b : ℕ) (bytes : List ℕ)
        → (n.recv s f).0 ≡ some (b ∷ bytes)
        → length (b ∷ bytes) ≤ 490) where
    tick-IsSafe :
        (count : ℕ) (srv : Server N S) (ev : Polled)
        → IsCounted srv
        → IsSafe (tick n w retries host clock utc count srv ev)
    unfolding tick
    tick-IsSafe count srv ev c =
        poll_wait-IsSafe n w retries host clock utc brief
          (record srv { daemon = control n w retries host clock utc count srv.daemon }) ev
          (record { table = c.table; counted = c.counted })

    main_loop-IsSafe :
        (count : ℕ) (srv : Server N S) (evs : List Polled)
        → IsCounted srv
        → IsSafe (main_loop n w retries host clock utc count srv evs)
    unfolding main_loop
    main_loop-IsSafe count srv [] c = safe_running c
    main_loop-IsSafe count srv (ev ∷ evs) c =
        go (tick n w retries host clock utc count srv ev) (tick-IsSafe count srv ev c)
          (λ srv' c'. main_loop-IsSafe (count + 1) srv' evs c')
      where
        go :
            (o : Outcome N S)
            → IsSafe o
            → ((srv' : Server N S)
                → IsCounted srv'
                → IsSafe (main_loop n w retries host clock utc (count + 1) srv' evs))
            → IsSafe (elim o [
              | running srv' ↦ main_loop n w retries host clock utc (count + 1) srv' evs
              | exits status ↦ exits status
              | fault ↦ fault
            ])
        go (running srv') (safe_running c') next = next srv' c'
        go (exits status) s next = safe_exits
        go fault s next = elim s [ ]

    -- From its start on, whatever `poll` returns, and as long as no client sends more than 490
    -- bytes at once, the server writes neither beyond `fds` nor beyond the buffer for the answer,
    -- and `nfds` is the number of open slots whenever it waits.
    pub main_loop-startup :
        (d : Daemon S) (net : N) (ls : ℕ) (evs : List Polled)
        → IsSafe (
            main_loop n w retries host clock utc 0
              (startup n w retries host clock utc d net ls)
              evs)
    main_loop-startup d net ls evs =
        main_loop-IsSafe 0 (startup n w retries host clock utc d net ls) evs
          (startup-IsCounted d net ls)

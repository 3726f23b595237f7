-- ===== src/Term/Retach/Server/Starting.antt =====
-- crates/octty-term/src/retach.rs: waiting for a server that was started.
use package.octty.Base.{ℕ, zero, suc, ◌<◌, inl, inr, Text, ◌≡◌, refl, arith}
use octty.Term.Retach.{Result, ok, err}
use octty.Term.Retach.Command.{retach_binary}
use octty.Term.Retach.Server.{
  Outside, Reply, after, server_poll_interval_ms, server_timed_out, retach_socket_path,
  retach_socket_dir, poll_server, poll_round, ensure_retach_server_running,
}

module _ (o : Outside) where
  -- The world that an attempt to connect leaves.
  abbrev pub tried : Reply o.World o.Stream → o.World
  tried (inl (e, w)) = w
  tried (inr (s, w)) = w

  -- One attempt, after a pause.
  abbrev pub try_once : o.World → Reply o.World o.Stream
  try_once w = o.connect (retach_socket_path o.environment) (o.sleep_ms server_poll_interval_ms w)

  -- The attempt after `k` others.
  abbrev pub attempt : ℕ → o.World → Reply o.World o.Stream
  attempt zero w = try_once w
  attempt (suc k) w = attempt k (tried (try_once w))

  abbrev pub IsAccepted : Reply o.World o.Stream → Type 0
  IsAccepted (inl (e, w)) = ⊥
  IsAccepted (inr (s, w)) = Unit {0}

  accepted_now :
      (next : o.World → Result (Unit {0}) × o.World) (r : Reply o.World o.Stream)
      → IsAccepted r
      → (poll_round o next r).0 ≡ ok tt
  accepted_now next (inl (e, w)) up = elim up [ ]
  accepted_now next (inr (s, w)) up = refl

  accepted_later :
      (next : o.World → Result (Unit {0}) × o.World) (k : ℕ) (r : Reply o.World o.Stream)
      → ((w : o.World) → IsAccepted (attempt k w) → (next w).0 ≡ ok tt)
      → IsAccepted (attempt k (tried r))
      → (poll_round o next r).0 ≡ ok tt
  accepted_later next k (inl (e, w)) rest up = rest w up
  accepted_later next k (inr (s, w)) rest up = refl

  poll_accepted :
      (rounds k : ℕ) (w : o.World)
      → k < rounds
      → IsAccepted (attempt k w)
      → (poll_server o rounds w).0 ≡ ok tt
  unfolding poll_server
  poll_accepted zero k w h up = absurd (omega arith)
  poll_accepted (suc rounds) zero w h up = accepted_now (poll_server o rounds) (try_once w) up
  poll_accepted (suc rounds) (suc k) w h up =
      accepted_later (poll_server o rounds) k (try_once w)
        (λ v. poll_accepted rounds k v (omega arith)) up

  refused_now :
      (next : o.World → Result (Unit {0}) × o.World) (r : Reply o.World o.Stream)
      → ¬ IsAccepted r
      → (next (tried r)).0 ≡ err server_timed_out
      → (poll_round o next r).0 ≡ err server_timed_out
  refused_now next (inl (e, w)) down rest = rest
  refused_now next (inr (s, w)) down rest = absurd (down tt)

  poll_refused :
      (rounds : ℕ) (w : o.World)
      → ((k : ℕ) → k < rounds → ¬ IsAccepted (attempt k w))
      → (poll_server o rounds w).0 ≡ err server_timed_out
  unfolding poll_server
  poll_refused zero w never = refl
  poll_refused (suc rounds) w never =
      refused_now (poll_server o rounds) (try_once w) (never zero (omega arith))
        (poll_refused rounds (tried (try_once w)) λ k h. never (suc k) (omega arith))

  -- A server that does not answer at first and could be started is waited for: if it accepts one of
  -- the next fifty attempts, each after a pause, the call succeeds; and if it accepts none of them,
  -- the call gives up with the error of a timeout, and does not wait for longer.
  pub ensure_retach_server_running-waits :
      (w w1 w2 w3 : o.World) (e : Text)
      → o.connect (retach_socket_path o.environment) w ≡ inl (e, w1)
      → o.create_dir_all (retach_socket_dir o.environment) w1 ≡ inr (tt, w2)
      → o.spawn_server (retach_binary o.environment) w2 ≡ inr (tt, w3)
      → ((k : ℕ)
          → k < 50
          → IsAccepted (attempt k w3)
          → (ensure_retach_server_running o w).0 ≡ ok tt)
        × (((k : ℕ) → k < 50 → ¬ IsAccepted (attempt k w3))
            → (ensure_retach_server_running o w).0 ≡ err server_timed_out)
  unfolding ensure_retach_server_running after
  ensure_retach_server_running-waits w w1 w2 w3 e first made spawned =
      rw first (rw made (rw spawned (λ k h up. poll_accepted 50 k w3 h up, poll_refused 50 w3)))

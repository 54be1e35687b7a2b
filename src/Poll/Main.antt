-- ===== src/Poll/Main.antt =====
-- `main` of io-multiplexing/poll/main.c, from the listening socket on.
use c_examples.Base.{
  ℕ, zero, suc, ◌+◌, Bool, false, Option, none, some, List, [], ◌∷◌, ◌++◌, ltb, if◌then◌else◌,
  get_or, set, leb, length,
}
use c_examples.Base.Run.{Run, returns, exits, failure, ◌>>=◌, ◌>>◌, require, in_bounds}
use c_examples.Io.Stream.{Event}
use c_examples.Poll.State.{Fd, PollFd, blank, Server, Allocator}
use c_examples.Poll.Clients.{Stale, initialize_pollfds, handle_new_connection}
use c_examples.Poll.Service.{handle_client_data}

-- What the kernel does in one round of the loop: whether `poll` fails, which entries it finds
-- readable, and what `accept` returns if it is called.
pub record Round : Type 0 where
  pub poll_fails : Bool
  pub readable : ℕ → Bool
  pub accepted : Option ℕ

-- `poll(fds, n, -1)` stores `revents` of the first `n` entries.
unfoldable pub poll : ℕ → (ℕ → Bool) → List PollFd → List PollFd
poll n readable [] = []
poll zero readable (e ∷ l) = e ∷ l
poll (suc n) readable (e ∷ l) = record e { revents = readable 0 } ∷ poll n (λ i. readable (suc i)) l

-- `fds[0].revents = 0`.
unfoldable pub listener_cleared : Server → Server
listener_cleared s = record s {
  fds = set s.fds 0 (record (get_or s.fds 0 blank) { revents = false });
}

unfoldable pub clear_listener : Server → Run Server
unfolding listener_cleared
clear_listener s = in_bounds (ltb 0 (length s.fds)) >> returns (listener_cleared s)

unfoldable pub serve_clients : Server → Run Server
serve_clients s = if ltb 0 s.client_count then handle_client_data s else returns s

-- `socket_close` ends the process if `close` fails.
unfoldable pub socket_close : (ℕ → Bool) → ℕ → Server → Run Server
socket_close closes fd s =
    require (closes fd) >> returns (record s { closed = s.closed ++ some fd ∷ [] })

-- "Cleanup and close all active client sockets", for `n` slots from `i` on: those with
-- `client_sockets[i] > 0`.
unfoldable pub close_slot : (ℕ → Bool) → Fd → Server → Run Server
close_slot closes none s = returns s
close_slot closes (some zero) s = returns s
close_slot closes (some (suc fd)) s = socket_close closes (suc fd) s

unfoldable pub close_clients : (ℕ → Bool) → ℕ → ℕ → Server → Run Server
unfolding close_slot
close_clients closes zero i s = returns s
close_clients closes (suc n) i s =
    in_bounds (ltb i (length s.client_sockets))
    >> (close_slot closes (get_or s.client_sockets i none) s >>= close_clients closes n (i + 1))

module _ (a : Allocator) (stale : Stale) where
  -- A round of the loop, after `poll` has returned without an error.
  unfoldable pub after_poll : Round → Server → Run Server
  unfolding poll clear_listener serve_clients
  after_poll r s =
      in_bounds (leb (s.client_count + 1) (length s.fds))
      >> (handle_new_connection a stale r.accepted
            (record s { fds = poll (s.client_count + 1) r.readable s.fds })
          >>= serve_clients
          >>= clear_listener)

  unfoldable pub iteration : Round → Server → Run Server
  unfolding after_poll
  iteration r s = if r.poll_fails then exits failure else after_poll r s

  -- The loop: the rounds that start before the signal handler sets `exit_flag`.
  unfoldable pub main_loop : List Round → Server → Run Server
  unfolding iteration
  main_loop [] s = returns s
  main_loop (r ∷ rs) s = iteration r s >>= main_loop rs

  -- From `initialize_pollfds` to the end; `closes` says for which descriptors `close` succeeds.
  unfoldable pub main : (ℕ → Bool) → ℕ → (ℕ → List Event) → List Round → Run Server
  unfolding main_loop close_clients socket_close
  main closes sockfd streams rounds =
      initialize_pollfds a stale sockfd streams
      >>= main_loop rounds
      >>= (λ s. close_clients closes s.client_count 0 s)
      >>= socket_close closes sockfd

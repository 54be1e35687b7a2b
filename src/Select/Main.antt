-- ===== src/Select/Main.antt =====
-- `main` of io-multiplexing/select/main.c from the test of the listening socket on.
use c_examples.Base.{
  ℕ, zero, suc, ◌+◌, Bool, none, some, List, [], ◌∷◌, ◌++◌, leb, get_or, if◌then◌else◌, ltb, length,
}
use c_examples.Base.Run.{Run, returns, exits, failure, ◌>>=◌, ◌>>◌, require, in_bounds}
use c_examples.Io.Stream.{Event}
use c_examples.Poll.State.{Fd, Allocator}
use c_examples.Select.Server.{Server, fd_setsize, Select, main_loop}

-- `socket_close` ends the process if `close` fails.
unfoldable pub socket_close : (ℕ → Bool) → ℕ → Server → Run Server
socket_close closes fd s =
    require (closes fd) >> returns (record s { closed = s.closed ++ fd ∷ [] })

-- "Cleanup", for `n` slots from `i` on.
unfoldable pub close_slot : (ℕ → Bool) → Fd → Server → Run Server
unfolding socket_close
close_slot closes none s = returns s
close_slot closes (some fd) s = socket_close closes fd s

unfoldable pub close_clients : (ℕ → Bool) → ℕ → ℕ → Server → Run Server
unfolding close_slot
close_clients closes zero i s = returns s
close_clients closes (suc n) i s =
    in_bounds (ltb i (length s.client_sockets))
    >> (close_slot closes (get_or s.client_sockets i none) s >>= close_clients closes n (i + 1))

abbrev pub first_server : (ℕ → List Event) → Server
first_server streams = record {
  client_sockets = [];
  client_count = 0;
  client_capacity = 0;
  streams = streams;
  closed = [];
  printed = [];
}

module _ (a : Allocator) (stale : ℕ → Fd) where
  -- `closes` says for which descriptors `close` succeeds.
  unfoldable pub main : (ℕ → Bool) → ℕ → (ℕ → List Event) → List Select → Run Server
  unfolding main_loop close_clients socket_close
  main closes sockfd streams rounds =
      if leb fd_setsize sockfd
      then (socket_close closes sockfd (first_server streams) >>= λ s. exits failure)
      else (main_loop a stale sockfd rounds (first_server streams)
          >>= (λ s. close_clients closes s.client_count 0 s)
          >>= socket_close closes sockfd)

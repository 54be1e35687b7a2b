-- ===== src/Poll/Clients.antt =====
-- The client table: `initialize_pollfds`, `handle_new_connection` and `handle_client_disconnection`
-- of io-multiplexing/poll/main.c.
use c_examples.Base.{
  ℕ, zero, suc, ◌+◌, ◌-◌, ◌*◌, ◌%◌, ◌^◌, Bool, true, false, Option, none, some, List, [], ◌∷◌, ◌++◌,
  if◌then◌else◌, ◌==◌, set, get_or, ltb, length, ◌&&◌, leb,
}
use c_examples.Base.Run.{Run, returns, exits, failure, ◌>>=◌, ◌>>◌, require, in_bounds}
use c_examples.Io.Stream.{Event}
use c_examples.Poll.State.{Fd, PollFd, blank, Server, Allocator}

-- `sizeof(int)` and `sizeof(struct pollfd)`.
abbrev pub int_size : ℕ
int_size = 4

abbrev pub pollfd_size : ℕ
pollfd_size = 8

-- A product of two `size_t`.
abbrev pub mul_size : ℕ → ℕ → ℕ
mul_size a b = a * b % 2 ^ 64

-- `n` uninitialised elements.
abbrev pub uninitialised {ℓ} : {A : Type ℓ} → ℕ → (ℕ → A) → List A
uninitialised zero stale = []
uninitialised (suc n) stale = stale n ∷ uninitialised n stale

-- `for` from `i` on, `n` rounds: store `v`. In the source one loop does this for both arrays.
unfoldable pub clear {ℓ} : {A : Type ℓ} → A → ℕ → ℕ → List A → List A
clear v zero i xs = xs
clear v (suc n) i xs = clear v n (i + 1) (set xs i v)

-- What a call of `malloc` or `realloc` leaves in memory that it does not initialise.
pub record Stale : Type 0 where
  pub socket : ℕ → Fd
  pub pollfd : ℕ → PollFd

-- The bytes of the two requests hold all slots that "Initialize the new slots" stores.
abbrev pub clears_in_bounds : ℕ → Bool
clears_in_bounds new_cap =
    leb (new_cap * int_size) (mul_size new_cap int_size)
    && leb ((new_cap + 1) * pollfd_size) (mul_size (new_cap + 1) pollfd_size)

unfoldable pub enlarge : Stale → ℕ → Server → Server
enlarge stale new_cap s =
    let cap = s.client_capacity in
    record s {
      client_sockets =
          clear none (new_cap - cap) cap
            (s.client_sockets ++ uninitialised (new_cap - cap) stale.socket);
      fds =
          clear blank (new_cap - cap) (cap + 1)
            (s.fds ++ uninitialised (new_cap - cap) stale.pollfd);
      client_capacity = new_cap;
    }

-- What the stores of "Append the new client at index client_count" make.
unfoldable pub appended : ℕ → Server → Server
appended new_socket s = record s {
  client_sockets = set s.client_sockets s.client_count (some new_socket);
  fds =
      set s.fds (s.client_count + 1)
        (record { fd = some new_socket; events = true; revents = false });
  client_count = s.client_count + 1;
}

-- The stores are within the two arrays.
abbrev pub append_in_bounds : Server → Bool
append_in_bounds s =
    ltb s.client_count (length s.client_sockets) && ltb (s.client_count + 1) (length s.fds)

unfoldable pub append_client : ℕ → Server → Run Server
unfolding appended
append_client new_socket s = in_bounds (append_in_bounds s) >> returns (appended new_socket s)

-- The table that `initialize_pollfds` makes, from the empty one of `main`.
unfoldable pub first_table : Stale → ℕ → (ℕ → List Event) → Server
first_table stale sockfd streams = record {
  client_sockets = clear none 4 0 (uninitialised 4 stale.socket);
  client_count = 0;
  client_capacity = 4;
  fds = clear blank 4 1 (
      set (uninitialised 5 stale.pollfd) 0
        (record { fd = some sockfd; events = true; revents = false }));
  streams = streams;
  closed = [];
  printed = [];
}

module _ (a : Allocator) (stale : Stale) where
  unfoldable pub initialize_pollfds : ℕ → (ℕ → List Event) → Run Server
  initialize_pollfds sockfd streams =
      require (a.grants (mul_size 4 int_size))
      >> require (a.grants (mul_size (4 + 1) pollfd_size))
      >> returns (first_table stale sockfd streams)

  -- "Grow arrays if needed" in `handle_new_connection`: the requests, then the arrays.
  unfoldable pub grow : Server → Run Server
  grow s =
      let new_cap : ℕ = if s.client_capacity == 0 then 4 else mul_size s.client_capacity 2 in
      require (a.grants (mul_size new_cap int_size))
      >> require (a.grants (mul_size (new_cap + 1) pollfd_size))
      >> in_bounds (clears_in_bounds new_cap)
      >> returns (enlarge stale new_cap s)

  -- `handle_new_connection`, where `accept` returns `accepted`.
  unfoldable pub handle_new_connection : Option ℕ → Server → Run Server
  unfolding grow append_client
  handle_new_connection accepted s =
      in_bounds (ltb 0 (length s.fds))
      >> (if (get_or s.fds 0 blank).revents
          then elim accepted [
            | none ↦ exits failure
            | some new_socket ↦
                (if s.client_count == s.client_capacity then grow s else returns s)
                >>= append_client new_socket
          ]
          else returns s)

-- `handle_client_disconnection`, in one of its two arrays: the last element moves into slot `i`,
-- unless it is that slot, and its own slot is cleared.
unfoldable pub remove_slot {ℓ} : {A : Type ℓ} → A → Bool → ℕ → ℕ → List A → List A
remove_slot v is_last i last xs = set (if is_last then xs else set xs i (get_or xs last v)) last v

-- The accesses of `handle_client_disconnection` to the last slots are within the two arrays.
abbrev pub last_in_bounds : Server → Bool
last_in_bounds s =
    let last : ℕ = s.client_count - 1 in
    ltb last (length s.client_sockets) && ltb (last + 1) (length s.fds)

-- `handle_client_disconnection`, where `last_in_bounds`.
unfoldable pub handle_client_disconnection : ℕ → Server → Server
handle_client_disconnection client_index s =
    let last : ℕ = s.client_count - 1 in
    record s {
      client_sockets = remove_slot none (client_index == last) client_index last s.client_sockets;
      fds = remove_slot blank (client_index == last) (client_index + 1) (last + 1) s.fds;
      client_count = last;
      closed = s.closed ++ get_or s.client_sockets client_index none ∷ [];
    }

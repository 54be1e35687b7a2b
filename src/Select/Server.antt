-- ===== src/Select/Server.antt =====
-- io-multiplexing/select/main.c: the client table, the two loops over it, and the rounds of `main`.
use c_examples.Base.{
  ℕ, zero, suc, ◌+◌, ◌-◌, Bool, true, false, ◌&&◌, ◌||◌, Option, none, some, List, [], ◌∷◌, ◌++◌,
  if◌then◌else◌, ◌==◌, ltb, leb, set, get_or, length,
}
use c_examples.Base.Run.{Run, returns, exits, failure, unfinished, ◌>>=◌, ◌>>◌, require, in_bounds}
use c_examples.Io.Stream.{Event}
use c_examples.Poll.State.{Fd, Allocator}
use c_examples.Poll.Clients.{mul_size, uninitialised}
use c_examples.Poll.Receive.{Received, disconnected, oversize, word, receive}

abbrev pub fd_setsize : ℕ
fd_setsize = 1024

-- The variables of `main`, and what has been done to the world.
pub record Server : Type 0 where
  pub client_sockets : List Fd
  pub client_count : ℕ
  pub client_capacity : ℕ
  pub streams : ℕ → List Event
  pub closed : List ℕ
  pub printed : List (ℕ × List ℕ)

abbrev pub fd_in_select_range : Fd → Bool
fd_in_select_range none = false
fd_in_select_range (some fd) = ltb fd fd_setsize

-- Without the `close` that stands before each call.
unfoldable pub remove_client : ℕ → Server → Server
remove_client idx s =
    let last : ℕ = s.client_count - 1 in
    record s {
      client_sockets =
          if idx == last
          then s.client_sockets
          else set s.client_sockets idx (get_or s.client_sockets last none);
      client_count = last;
    }

-- The access of `remove_client` to the last slot is within the array.
abbrev pub last_in_bounds : Server → Bool
last_in_bounds s = ltb (s.client_count - 1) (length s.client_sockets)

-- `close(sd)`, then `remove_client`, where `last_in_bounds`.
unfoldable pub drop_client : ℕ → ℕ → Server → Server
unfolding remove_client
drop_client sd idx s = remove_client idx (record s { closed = s.closed ++ sd ∷ [] })

-- `readfds` as a list, and `max_fd`.
pub record Watch : Type 0 where
  pub readfds : List ℕ
  pub max_fd : ℕ

abbrev pub isset : ℕ → List ℕ → Bool
isset fd [] = false
isset fd (x ∷ l) = (fd == x) || isset fd l

unfoldable pub fd_set_safe : ℕ → Watch → Watch
fd_set_safe sd w = if ltb sd fd_setsize then record w { readfds = sd ∷ w.readfds } else w

-- `fd_set_safe(sd, &readfds)` and the new `max_fd`.
unfoldable pub watch : ℕ → Watch → Watch
unfolding fd_set_safe
watch sd w =
    let v : Watch = fd_set_safe sd w in if ltb w.max_fd sd then record v { max_fd = sd } else v

-- The first `for` of a round, from `i` on. A round goes to the next slot or drops a client and stays
-- (`i--`, then `i++`), so as many as there are clients, and one to leave, are enough.
unfoldable pub watch_from : ℕ → ℕ → Watch → Server → Run (Watch × Server)
unfolding watch drop_client
watch_from zero i w s = unfinished
watch_from (suc f) i w s = elim (ltb i s.client_count) [
  | true ↦ in_bounds (ltb i (length s.client_sockets)) >> elim (get_or s.client_sockets i none) [
    | none ↦ watch_from f (i + 1) w s
    | some sd ↦ elim (leb fd_setsize sd) [
      | true ↦ in_bounds (last_in_bounds s) >> watch_from f i w (drop_client sd i s)
      | false ↦ watch_from f (i + 1) (watch sd w) s
    ]
  ]
  | false ↦ returns (w, s)
]

-- What becomes of the client in slot `i` after its service, and the next slot.
unfoldable pub after_receive : ℕ → ℕ → Received → Server → ℕ × Server
unfolding drop_client
after_receive i sd disconnected s = (i, drop_client sd i s)
after_receive i sd (oversize n) s = (i, drop_client sd i s)
after_receive i sd (word w) s = (i + 1, record s { printed = s.printed ++ (sd, w) ∷ [] })

-- The loop has read the slot of the client; one that is dropped has the last slot accessed.
abbrev pub accesses : Received → Server → Run (Unit {0})
accesses (word w) s = returns tt
accesses r s = in_bounds (last_in_bounds s)

abbrev pub update {ℓ} : {A : Type ℓ} → (ℕ → A) → ℕ → A → ℕ → A
update f i v j = if j == i then v else f j

unfoldable pub serve : ℕ → ℕ → Server → Run (ℕ × Server)
unfolding after_receive
serve i sd s = receive (s.streams sd) >>= λ r.
    accesses r.0 s
    >> returns (after_receive i sd r.0 (record s { streams = update s.streams sd r.1 }))

-- The body of the second `for`; `ready` is what `select` left in `readfds`.
unfoldable pub client_io : List ℕ → ℕ → Fd → Server → Run (ℕ × Server)
unfolding serve
client_io ready i none s = returns (i + 1, s)
client_io ready i (some sd) s =
    if ltb sd fd_setsize && isset sd ready then serve i sd s else returns (i + 1, s)

unfoldable pub client_io_from : ℕ → List ℕ → ℕ → Server → Run Server
unfolding client_io
client_io_from zero ready i s = unfinished
client_io_from (suc f) ready i s = elim (ltb i s.client_count) [
  | true ↦
      in_bounds (ltb i (length s.client_sockets))
      >> (client_io ready i (get_or s.client_sockets i none) s >>= λ (j, t).
          client_io_from f ready j t)
  | false ↦ returns s
]

-- What `client_sockets[client_count] = new_socket; client_count++` makes.
unfoldable pub appended : ℕ → Server → Server
appended new_socket s = record s {
  client_sockets = set s.client_sockets s.client_count (some new_socket);
  client_count = s.client_count + 1;
}

-- The store must be within the array.
unfoldable pub append_client : ℕ → Server → Run Server
unfolding appended
append_client new_socket s =
    in_bounds (ltb s.client_count (length s.client_sockets)) >> returns (appended new_socket s)

-- What the world answers in a round: `select` fails, but for EINTR, or is interrupted, or leaves
-- `ready` of the descriptors; and `accept` returns a descriptor or -1.
pub data Select : Type 0 where
  select_fails : Select
  select_interrupted : Select
  select_ready : (ℕ → Bool) → Option ℕ → Select

abbrev pub filter : (ℕ → Bool) → List ℕ → List ℕ
filter p [] = []
filter p (x ∷ l) = let rest = filter p l in if p x then x ∷ rest else rest

-- The array that `realloc` makes, where it leaves `stale` in what it adds.
unfoldable pub enlarge : (ℕ → Fd) → ℕ → Server → Server
enlarge stale new_cap s = record s {
  client_sockets = s.client_sockets ++ uninitialised (new_cap - s.client_capacity) stale;
  client_capacity = new_cap;
}

module _ (a : Allocator) (stale : ℕ → Fd) where
  unfoldable pub grow_clients : Server → Run Server
  grow_clients s =
      let new_cap : ℕ = if s.client_capacity == 0 then 4 else mul_size s.client_capacity 2 in
      require (a.grants (mul_size new_cap 4)) >> returns (enlarge stale new_cap s)

  -- "New incoming connection".
  unfoldable pub accept_client : Option ℕ → Server → Run Server
  unfolding grow_clients append_client
  accept_client none s = exits failure
  accept_client (some new_socket) s =
      if leb fd_setsize new_socket
      then returns (record s { closed = s.closed ++ new_socket ∷ [] })
      else ((if s.client_count == s.client_capacity then grow_clients s else returns s)
          >>= append_client new_socket)

  -- A round, from its `select` on.
  unfoldable pub after_select : ℕ → Select → Watch × Server → Run Server
  unfolding accept_client client_io_from
  after_select sockfd select_fails (w, s) = exits failure
  after_select sockfd select_interrupted (w, s) = returns s
  after_select sockfd (select_ready readable accepted) (w, s) =
      let ready = filter readable w.readfds in
      (if ltb sockfd fd_setsize && isset sockfd ready then accept_client accepted s else returns s)
      >>= λ t. client_io_from (suc t.client_count) ready 0 t

  unfoldable pub iteration : ℕ → Select → Server → Run Server
  unfolding after_select watch_from fd_set_safe
  iteration sockfd r s =
      watch_from (suc s.client_count) 0
        (fd_set_safe sockfd (record { readfds = []; max_fd = sockfd })) s
      >>= after_select sockfd r

  unfoldable pub main_loop : ℕ → List Select → Server → Run Server
  unfolding iteration
  main_loop sockfd [] s = returns s
  main_loop sockfd (r ∷ rs) s = iteration sockfd r s >>= main_loop sockfd rs

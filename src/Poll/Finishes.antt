-- ===== src/Poll/Finishes.antt =====
-- The server io-multiplexing/poll/main.c comes to an end, whatever its environment does.
use c_examples.Base.{
  ℕ, zero, suc, ◌+◌, Bool, true, false, Option, none, some, List, [], ◌∷◌, ◌++◌, if◌then◌else◌,
  ◌==◌, ltb, inl, inr, Bool-cases, get_or, ◌≤◌, ◌≡◌, refl, ap, arith, length, lt→ltb, ◌*◌,
}
use c_examples.Base.Run.{
  Run, returns, ◌>>=◌, ◌>>◌, require, Finishes, Finishes-then, in_bounds, require-Finishes,
  in_bounds-Finishes, >>=-eq-returns,
}
use c_examples.Io.Stream.{Event}
use c_examples.Poll.State.{Fd, blank, Server, Allocator}
use c_examples.Poll.Clients.{
  Stale, mul_size, int_size, pollfd_size, first_table, enlarge, clears_in_bounds, appended,
  append_client, grow, initialize_pollfds, handle_new_connection,
}
use c_examples.Poll.Invariant.{IsValid, make_room, handle_new_connection-IsValid}
use c_examples.Poll.Served.{handle_client_data-Served}
use c_examples.Poll.Main.{
  Round, poll, listener_cleared, clear_listener, socket_close, close_slot, close_clients,
  serve_clients, after_poll, iteration, main_loop, main,
}
use c_examples.Poll.Balance.{
  poll-IsValid, serve_clients-Served, iteration-balance, main_loop-balance,
}
use c_examples.Poll.NoLeak.{initialize_pollfds-Fresh, close_slot-closed}

both_granted : {A : Type 0} (b c : Bool) (x : A) → Finishes (require b >> require c >> returns x)
both_granted true c x = require-Finishes c (returns x) tt
both_granted false c x = tt

both_granted_within :
    {A : Type 0} (b c within : Bool) (x : A)
    → within ≡ true
    → Finishes (require b >> require c >> in_bounds within >> returns x)
both_granted_within true true true x e = tt
both_granted_within true true false x e = absurd (cc e)
both_granted_within true false within x e = tt
both_granted_within false c within x e = tt

-- Neither request of a growth wraps around.
no_wrap :
    {sockfd : ℕ} (s : Server)
    → IsValid sockfd s
    → clears_in_bounds (if s.client_capacity == 0 then 4 else mul_size s.client_capacity 2) ≡ true
no_wrap s v =
    let large : (s.client_capacity == 0) ≡ false = ground (arith, v.some_room) in
    let doubled : mul_size s.client_capacity 2 ≡ s.client_capacity * 2 = omega (arith, v.sized) in
    rw (large, doubled) (ground (arith, v.sized))

module _ (a : Allocator) (stale : Stale) where
  initialize_pollfds-Finishes :
      (sockfd : ℕ) (streams : ℕ → List Event) → Finishes (initialize_pollfds a stale sockfd streams)
  unfolding initialize_pollfds
  initialize_pollfds-Finishes sockfd streams =
      both_granted (a.grants (mul_size 4 int_size)) (a.grants (mul_size (4 + 1) pollfd_size))
        (first_table stale sockfd streams)

  grow-Finishes : {sockfd : ℕ} (s : Server) → IsValid sockfd s → Finishes (grow a stale s)
  unfolding grow
  grow-Finishes s v =
      let new_cap : ℕ = if s.client_capacity == 0 then 4 else mul_size s.client_capacity 2 in
      both_granted_within (a.grants (mul_size new_cap int_size))
        (a.grants (mul_size (new_cap + 1) pollfd_size)) (clears_in_bounds new_cap)
        (enlarge stale new_cap s) (no_wrap s v)

  room :
      {sockfd : ℕ} (full : Bool) (s : Server)
      → IsValid sockfd s
      → Finishes (if full then grow a stale s else returns s)
  room true s v = grow-Finishes s v
  room false s v = tt

  listener_read : {sockfd : ℕ} {s : Server} → IsValid sockfd s → ltb 0 (length s.fds) ≡ true
  listener_read {s = s} v = lt→ltb 0 (length s.fds) (omega (arith, v.fds_length))

  -- The growth leaves room for the stores of the append.
  append_client-Finishes :
      (fd : ℕ) {sockfd : ℕ} {s t : Server}
      → IsValid sockfd s
      → (if s.client_count == s.client_capacity then grow a stale s else returns s) ≡ returns t
      → Finishes (append_client fd t)
  unfolding append_client
  append_client-Finishes fd {t = t} v e =
      let r = make_room a stale v e in
      in_bounds-Finishes _ (returns (appended fd t))
        (rw
          (
            lt→ltb t.client_count (length t.client_sockets)
                (omega (arith, r.room, r.valid.sockets_length)),
            lt→ltb (t.client_count + 1) (length t.fds) (omega (arith, r.room, r.valid.fds_length)),
          )
          refl)
        tt

  handle_new_connection-Finishes :
      (accepted : Option ℕ) {sockfd : ℕ} {s : Server}
      → IsValid sockfd s
      → Finishes (handle_new_connection a stale accepted s)
  unfolding handle_new_connection
  handle_new_connection-Finishes none {s = s} v =
      in_bounds-Finishes _ _ (listener_read v) (elim (Bool-cases (get_or s.fds 0 blank).revents) [
        | inl ready ↦ rw ready tt
        | inr idle ↦ rw idle tt
      ])
  handle_new_connection-Finishes (some fd) {s = s} v =
      in_bounds-Finishes _ _ (listener_read v) (elim (Bool-cases (get_or s.fds 0 blank).revents) [
        | inl ready ↦ rw ready (
            Finishes-then
              (if s.client_count == s.client_capacity then grow a stale s else returns s)
              (append_client fd) (room (s.client_count == s.client_capacity) s v)
              (λ t e. append_client-Finishes fd v e))
        | inr idle ↦ rw idle tt
      ])

  serve_clients-Finishes : {sockfd : ℕ} (s : Server) → IsValid sockfd s → Finishes (serve_clients s)
  unfolding serve_clients
  serve_clients-Finishes s v = elim (Bool-cases (ltb 0 s.client_count)) [
    | inl some_clients ↦ let (t, q, r) = handle_client_data-Served v in rw (some_clients, q) tt
    | inr no_clients ↦ rw no_clients tt
  ]

  after_poll-Finishes :
      (r : Round) {sockfd : ℕ} {s : Server} → IsValid sockfd s → Finishes (after_poll a stale r s)
  unfolding after_poll clear_listener
  after_poll-Finishes r {s = s} v =
      let polled : Server = record s { fds = poll (s.client_count + 1) r.readable s.fds } in
      let connect = handle_new_connection a stale r.accepted polled in
      let w = poll-IsValid r.readable v in
      in_bounds-Finishes _ (connect >>= serve_clients >>= clear_listener)
        (ground (arith, v.fds_length, v.fits))
        (Finishes-then (connect >>= serve_clients) clear_listener
          (Finishes-then connect serve_clients (handle_new_connection-Finishes r.accepted w) (λ t e.
            serve_clients-Finishes t (handle_new_connection-IsValid a stale r.accepted w e)))
          (λ t e.
            let (u, connected, served) = >>=-eq-returns connect serve_clients e in
            let g =
              serve_clients-Served (handle_new_connection-IsValid a stale r.accepted w connected)
                served in
            in_bounds-Finishes _ (returns (listener_cleared t)) (listener_read g.valid) tt))

  iteration-Finishes :
      (r : Round) {sockfd : ℕ} {s : Server} → IsValid sockfd s → Finishes (iteration a stale r s)
  unfolding iteration
  iteration-Finishes r v = elim (Bool-cases r.poll_fails) [
    | inl bad ↦ rw bad tt
    | inr fine ↦ rw fine (after_poll-Finishes r v)
  ]

  main_loop-Finishes :
      (rounds : List Round) {sockfd : ℕ} {s : Server}
      → IsValid sockfd s
      → Finishes (main_loop a stale rounds s)
  unfolding main_loop
  main_loop-Finishes [] v = tt
  main_loop-Finishes (r ∷ rs) {s = s} v =
      Finishes-then (iteration a stale r s) (main_loop a stale rs) (iteration-Finishes r v)
        (λ t e. main_loop-Finishes rs (iteration-balance a stale r 0 v e).0)

socket_close-Finishes :
    (closes : ℕ → Bool) (fd : ℕ) (s : Server) → Finishes (socket_close closes fd s)
unfolding socket_close
socket_close-Finishes closes fd s =
    require-Finishes (closes fd) (returns (record s { closed = s.closed ++ some fd ∷ [] })) tt

close_slot-Finishes : (closes : ℕ → Bool) (x : Fd) (s : Server) → Finishes (close_slot closes x s)
unfolding close_slot
close_slot-Finishes closes none s = tt
close_slot-Finishes closes (some zero) s = tt
close_slot-Finishes closes (some (suc fd)) s = socket_close-Finishes closes (suc fd) s

close_clients-Finishes :
    (closes : ℕ → Bool) (n i : ℕ) (s : Server)
    → n + i ≤ length s.client_sockets
    → Finishes (close_clients closes n i s)
unfolding close_clients
close_clients-Finishes closes zero i s h = tt
close_clients-Finishes closes (suc n) i s h =
    in_bounds-Finishes _ _ (lt→ltb i (length s.client_sockets) (omega arith)) (
      Finishes-then (close_slot closes (get_or s.client_sockets i none) s)
        (close_clients closes n (i + 1))
        (close_slot-Finishes closes (get_or s.client_sockets i none) s)
        (λ t e.
          let same = (close_slot-closed closes 0 (get_or s.client_sockets i none) s e).1 in
          close_clients-Finishes closes n (i + 1) t (omega (arith, ap length same))))

-- `main` returns or exits, whatever its environment does.
pub main-Finishes :
    (a : Allocator) (stale : Stale) (closes : ℕ → Bool) (sockfd : ℕ) (streams : ℕ → List Event)
    (rounds : List Round)
    → Finishes (main a stale closes sockfd streams rounds)
unfolding main
main-Finishes a stale closes sockfd streams rounds =
    let made = initialize_pollfds a stale sockfd streams in
    let looped = made >>= main_loop a stale rounds in
    let close_all : Server → Run Server = λ s. close_clients closes s.client_count 0 s in
    Finishes-then (looped >>= close_all) (socket_close closes sockfd)
      (Finishes-then looped close_all
        (Finishes-then made (main_loop a stale rounds)
          (initialize_pollfds-Finishes a stale sockfd streams)
          (λ s e.
            main_loop-Finishes a stale rounds
              (initialize_pollfds-Fresh a stale sockfd streams e).valid))
        (λ s e.
          let (x, started, rounds_done) = >>=-eq-returns made (main_loop a stale rounds) e in
          let f = initialize_pollfds-Fresh a stale sockfd streams started in
          let v = (main_loop-balance a stale rounds 0 f.valid rounds_done).0 in
          close_clients-Finishes closes s.client_count 0 s
            (omega (arith, v.sockets_length, v.fits))))
      (λ s e. socket_close-Finishes closes sockfd s)

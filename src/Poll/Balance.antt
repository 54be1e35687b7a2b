-- ===== src/Poll/Balance.antt =====
-- Counting, over the loop of io-multiplexing/poll/main.c, the descriptors accepted, held and closed.
use c_examples.Base.{
  ℕ, zero, suc, ◌+◌, ◌≡◌, refl, ap, sym, ◌∙◌, Bool, Option, List, [], ◌∷◌, arith, ltb,
  if◌then◌else◌, get_or, length, inl, inr, Bool-cases, ◌&&◌, leb,
}
use c_examples.Base.Run.{returns, ◌>>=◌, >>=-eq-returns, returns-injective, in_bounds-eq-returns}
use c_examples.Poll.State.{PollFd, blank, Server, Allocator}
use c_examples.Poll.Clients.{Stale, handle_new_connection, appended}
use c_examples.Poll.Invariant.{
  IsValid, entry, handle_new_connection_inv, handle_new_connection-IsValid,
}
use c_examples.Poll.Held.{is, held, held_below, times, held_below-ext, held-appended}
use c_examples.Poll.Served.{
  Served, Served-refl, refresh-IsValid, set_revents-IsValid, handle_client_data-Served,
}
use c_examples.Poll.Main.{
  Round, poll, listener_cleared, clear_listener, serve_clients, after_poll, iteration, main_loop,
}

-- How often `fd` is among the descriptors accepted in the rounds.
abbrev pub accepts : ℕ → List Round → ℕ
accepts fd [] = 0
accepts fd (r ∷ rs) = (if r.readable 0 then is fd r.accepted else 0) + accepts fd rs

length-poll :
    (n : ℕ) (readable : ℕ → Bool) (l : List PollFd) → length (poll n readable l) ≡ length l
unfolding poll
length-poll n readable [] = refl
length-poll zero readable (e ∷ l) = refl
length-poll (suc n) readable (e ∷ l) = ap suc (length-poll n (λ i. readable (suc i)) l)

get_or-poll :
    (n : ℕ) (readable : ℕ → Bool) (l : List PollFd) (j : ℕ)
    → get_or (poll n readable l) j blank ≡ (
        if ltb j n && ltb j (length l)
        then record (get_or l j blank) { revents = readable j }
        else get_or l j blank)
unfolding poll
get_or-poll n readable [] j = ground arith
get_or-poll zero readable (e ∷ l) j = ground arith
get_or-poll (suc n) readable (e ∷ l) zero = ground arith
get_or-poll (suc n) readable (e ∷ l) (suc j) =
    ground (arith, get_or-poll n (λ i. readable (suc i)) l j)

pub poll-IsValid :
    (readable : ℕ → Bool) {sockfd : ℕ} {s : Server}
    → IsValid sockfd s
    → IsValid sockfd (record s { fds = poll (s.client_count + 1) readable s.fds })
poll-IsValid readable {s = s} v =
    refresh-IsValid _ s.streams s.printed v (length-poll (s.client_count + 1) readable s.fds)
      (λ j. ground (arith, get_or-poll (s.client_count + 1) readable s.fds j))
      (λ j q. ground (arith, get_or-poll (s.client_count + 1) readable s.fds j))

abbrev pub balance : ℕ → Server → ℕ
balance fd s = held fd s + times fd s.closed

closed-appended :
    (fd new_socket : ℕ) (u : Server) → times fd (appended new_socket u).closed ≡ times fd u.closed
unfolding appended
closed-appended fd new_socket u = refl

balance-handle_new_connection :
    (a : Allocator) (stale : Stale) (accepted : Option ℕ) (fd : ℕ) {sockfd : ℕ} {s t : Server}
    → IsValid sockfd s
    → handle_new_connection a stale accepted s ≡ returns t
    → balance fd t ≡ balance fd s + (if (entry s 0).revents then is fd accepted else 0)
balance-handle_new_connection a stale accepted fd {s = s} {t} v e =
    elim (handle_new_connection_inv a stale v accepted e) [
      | inl (idle, same) ↦ rw (idle, same) (omega arith)
      | inr (ready, (new_socket, given, (u, r, done))) ↦
          rw (ready, done, given)
            (omega (
              arith,
              held-appended fd new_socket r.valid r.room,
              held_below-ext fd s.client_count u.client_sockets s.client_sockets r.same_sockets,
              ap (λ n. held_below fd n u.client_sockets) r.same_count,
              ap (times fd) r.same_closed,
              closed-appended fd new_socket u,
            ))
    ]

pub serve_clients-Served :
    {sockfd : ℕ} {s t : Server} → IsValid sockfd s → serve_clients s ≡ returns t → Served sockfd s t
unfolding serve_clients
serve_clients-Served {s = s} v e = elim (Bool-cases (ltb 0 s.client_count)) [
  | inl some_clients ↦
      let (t, q, r) = handle_client_data-Served v in
      rw (returns-injective (sym q ∙ rw some_clients at e)) r
  | inr no_clients ↦ rw (returns-injective (rw no_clients at e)) (Served-refl v)
]

listener_cleared-IsValid :
    {sockfd : ℕ} {s : Server} → IsValid sockfd s → IsValid sockfd (listener_cleared s)
unfolding listener_cleared
listener_cleared-IsValid {s = s} v = set_revents-IsValid 0 s.streams s.printed v (omega arith)

balance-listener_cleared : (fd : ℕ) (s : Server) → balance fd (listener_cleared s) ≡ balance fd s
unfolding listener_cleared
balance-listener_cleared fd s = refl

listener_polled :
    (readable : ℕ → Bool) {sockfd : ℕ} {s : Server}
    → IsValid sockfd s
    → (get_or (poll (s.client_count + 1) readable s.fds) 0 blank).revents ≡ readable 0
listener_polled readable {s = s} v =
    ground (arith, get_or-poll (s.client_count + 1) readable s.fds 0, v.fds_length)

-- One round: the table stays well formed, and the balance grows by the client accepted.
after_poll-balance :
    (a : Allocator) (stale : Stale) (r : Round) (fd : ℕ) {sockfd : ℕ} {s t : Server}
    → IsValid sockfd s
    → after_poll a stale r s ≡ returns t
    → IsValid sockfd t
      × (balance fd t ≡ balance fd s + (if r.readable 0 then is fd r.accepted else 0))
unfolding after_poll clear_listener
after_poll-balance a stale r fd {s = s} {t} v e =
    let polled : Server = record s { fds = poll (s.client_count + 1) r.readable s.fds } in
    let connect = handle_new_connection a stale r.accepted polled in
    let (y, served, cleared) =
      >>=-eq-returns (connect >>= serve_clients) clear_listener
        (in_bounds-eq-returns (leb (s.client_count + 1) (length s.fds)) _ e) in
    let (x, connected, q) = >>=-eq-returns connect serve_clients served in
    let w = poll-IsValid r.readable v in
    let g = serve_clients-Served (handle_new_connection-IsValid a stale r.accepted w connected) q in
    rw (returns-injective (in_bounds-eq-returns (ltb 0 (length y.fds)) _ cleared)) (
      listener_cleared-IsValid g.valid,
      balance-listener_cleared fd y
          ∙ (g.conserved fd
              ∙ (balance-handle_new_connection a stale r.accepted fd w connected
                  ∙ ap (λ b. balance fd s + (if b then is fd r.accepted else 0))
                      (listener_polled r.readable v))),
    )

pub iteration-balance :
    (a : Allocator) (stale : Stale) (r : Round) (fd : ℕ) {sockfd : ℕ} {s t : Server}
    → IsValid sockfd s
    → iteration a stale r s ≡ returns t
    → IsValid sockfd t
      × (balance fd t ≡ balance fd s + (if r.readable 0 then is fd r.accepted else 0))
unfolding iteration
iteration-balance a stale r fd {s = s} v e = elim (Bool-cases r.poll_fails) [
  | inl bad ↦ cc (rw bad at e)
  | inr fine ↦ after_poll-balance a stale r fd v (rw fine at e)
]

-- The rounds keep the table well formed, and the descriptors in it, with those closed, grow by
-- exactly those that were accepted.
pub main_loop-balance :
    (a : Allocator) (stale : Stale) (rs : List Round) (fd : ℕ) {sockfd : ℕ} {s t : Server}
    → IsValid sockfd s
    → main_loop a stale rs s ≡ returns t
    → IsValid sockfd t × (balance fd t ≡ balance fd s + accepts fd rs)
unfolding main_loop
main_loop-balance a stale [] fd v e = rw (returns-injective e) (v, omega arith)
main_loop-balance a stale (r ∷ rs) fd {s = s} v e =
    let (x, one, rest) = >>=-eq-returns (iteration a stale r s) (main_loop a stale rs) e in
    let (w, b) = iteration-balance a stale r fd v one in
    let (z, c) = main_loop-balance a stale rs fd w rest in (z, omega arith)

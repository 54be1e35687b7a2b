-- ===== src/Select/NoLeak.antt =====
-- What io-multiplexing/select/main.c has closed by its end.
use c_examples.Base.{
  ℕ, suc, ◌+◌, ◌≡◌, refl, sym, ap, ◌∙◌, Bool, true, ◌&&◌, some, List, [], ◌∷◌, arith, if◌then◌else◌,
  ltb, leb, inl, inr, Bool-cases,
}
use c_examples.Base.Run.{
  Run, returns, exits, failure, ◌>>=◌, >>=-eq-returns, returns-injective, Finishes, Finishes-then,
}
use c_examples.Io.Stream.{Event}
use c_examples.Poll.State.{Fd, Allocator}
use c_examples.Poll.Held.{is, held_below}
use c_examples.Select.Server.{
  Server, Watch, fd_setsize, isset, filter, fd_set_safe, Select, select_fails, select_interrupted,
  select_ready, accept_client, client_io_from, after_select, iteration, main_loop,
}
use c_examples.Select.Held.{closings, closings-append, balance}
use c_examples.Select.Invariant.{IsValid, client_io_lem}
use c_examples.Select.Arrivals.{accept_client-IsValid, balance-accept_client}
use c_examples.Select.Watching.{watch_from_lem}
use c_examples.Select.Loop.{first-Bounded, iteration-IsValid, main_loop-Finishes, main_loop-IsValid}
use c_examples.Select.Cleanup.{
  socket_close-closed, close_clients-closed, socket_close-Finishes, close_clients-Finishes,
}
use c_examples.Select.Main.{socket_close, close_clients, first_server, main}

-- How often `fd` is among the descriptors accepted in the rounds.
abbrev pub arriving : ℕ → ℕ → Select → ℕ
arriving sockfd fd select_fails = 0
arriving sockfd fd select_interrupted = 0
arriving sockfd fd (select_ready readable accepted) = if readable sockfd then is fd accepted else 0

abbrev pub arrivals : ℕ → ℕ → List Select → ℕ
arrivals sockfd fd [] = 0
arrivals sockfd fd (r ∷ rs) = arriving sockfd fd r + arrivals sockfd fd rs

isset-filter : (p : ℕ → Bool) (fd : ℕ) (l : List ℕ) → isset fd (filter p l) ≡ (isset fd l && p fd)
isset-filter p fd [] = refl
isset-filter p fd (x ∷ l) = ground (arith, isset-filter p fd l)

module _ (a : Allocator) (stale : ℕ → Fd) (sockfd : ℕ) (small : ltb sockfd fd_setsize ≡ true) where
  balance-after_select :
      (r : Select) (w : Watch) (s : Server) {t : Server} (fd : ℕ)
      → IsValid s
      → isset sockfd w.readfds ≡ true
      → after_select a stale sockfd r (w, s) ≡ returns t
      → balance fd t ≡ balance fd s + arriving sockfd fd r
  unfolding after_select
  balance-after_select select_fails w s fd v m e = cc e
  balance-after_select select_interrupted w s fd v m e = rw (returns-injective e) (omega arith)
  balance-after_select (select_ready readable accepted) w s {t} fd v m e =
      let ready = filter readable w.readfds in
      let listening : (ltb sockfd fd_setsize && isset sockfd ready) ≡ readable sockfd =
        rw (small, isset-filter readable sockfd w.readfds, m) refl in
      let (u, made, served) =
        >>=-eq-returns (if readable sockfd then accept_client a stale accepted s else returns s)
          (λ t. client_io_from (suc t.client_count) ready 0 t) (rw listening at e) in
      after ready u made served
    where
      after :
          (ready : List ℕ) (u : Server)
          → (if readable sockfd then accept_client a stale accepted s else returns s) ≡ returns u
          → client_io_from (suc u.client_count) ready 0 u ≡ returns t
          → balance fd t ≡ balance fd s + arriving sockfd fd (select_ready readable accepted)
      after ready u made served = elim (Bool-cases (readable sockfd)) [
        | inl arrival ↦
            let made : accept_client a stale accepted s ≡ returns u = rw arrival at made in
            let (t, q, valid, fewer, same) =
              client_io_lem ready u (accept_client-IsValid a stale accepted s v made) in
            rw (arrival, returns-injective (sym q ∙ served))
              (same fd ∙ balance-accept_client a stale accepted s v made fd)
        | inr quiet ↦
            let same_server = returns-injective (rw quiet at made) in
            let (t, q, valid, fewer, same) = client_io_lem ready u (rw same_server v) in
            rw (quiet, returns-injective (sym q ∙ served)) (same fd ∙ rw same_server (omega arith))
      ]

  listening :
      isset sockfd (fd_set_safe sockfd (record { readfds = []; max_fd = sockfd })).readfds ≡ true
  unfolding fd_set_safe
  listening = rw small (ground arith)

  balance-iteration :
      (r : Select) (s : Server) {t : Server} (fd : ℕ)
      → IsValid s
      → iteration a stale sockfd r s ≡ returns t
      → balance fd t ≡ balance fd s + arriving sockfd fd r
  unfolding iteration
  balance-iteration r s fd v e =
      let (w, q, g) = watch_from_lem _ s v (first-Bounded a stale sockfd) in
      balance-after_select r w s fd v (g.kept sockfd listening) (rw q at e)

  balance-main_loop :
      (rounds : List Select) (s : Server) {t : Server} (fd : ℕ)
      → IsValid s
      → main_loop a stale sockfd rounds s ≡ returns t
      → balance fd t ≡ balance fd s + arrivals sockfd fd rounds
  unfolding main_loop
  balance-main_loop [] s fd v e = rw (returns-injective e) (omega arith)
  balance-main_loop (r ∷ rs) s fd v e =
      let (u, first, rest) =
        >>=-eq-returns (iteration a stale sockfd r s) (main_loop a stale sockfd rs) e in
      omega (
        arith,
        balance-iteration r s fd v first,
        balance-main_loop rs u fd (iteration-IsValid a stale sockfd r s v first) rest,
      )

first_server-IsValid : (streams : ℕ → List Event) → IsValid (first_server streams)
first_server-IsValid streams = record {
  sized = omega arith;
  sockets_length = refl;
  fits = omega arith;
  in_range = λ i h. absurd (omega arith);
}

held_below-none : (k : ℕ) (l : List Fd) → held_below k 0 l ≡ 0
unfolding held_below
held_below-none k l = refl

-- When the server of io-multiplexing/select ends normally, each descriptor has been closed
-- exactly as often as `accept` gave it, and the listening one once more: none is leaked and none
-- is closed twice.
pub select_main-closes :
    (a : Allocator) (stale : ℕ → Fd) (closes : ℕ → Bool) (sockfd : ℕ) (streams : ℕ → List Event)
    (rounds : List Select) {t : Server}
    → main a stale closes sockfd streams rounds ≡ returns t
    → (k : ℕ) → closings k t.closed ≡ arrivals sockfd k rounds + is k (some sockfd)
unfolding main
select_main-closes a stale closes sockfd streams rounds {t} e k =
    elim (Bool-cases (leb fd_setsize sockfd)) [
      | inl beyond ↦
          let (u, stopped, ended) =
            >>=-eq-returns (socket_close closes sockfd (first_server streams)) (λ s. exits failure)
              (rw beyond at e) in
          cc ended
      | inr below ↦
          let close_all : Server → Run Server = λ s. close_clients closes s.client_count 0 s in
          let looped = main_loop a stale sockfd rounds (first_server streams) in
          let (z, cleaned, last) =
            >>=-eq-returns (looped >>= close_all) (socket_close closes sockfd) (rw below at e) in
          let (y, served, closing) = >>=-eq-returns looped close_all cleaned in
          omega (
            arith,
            balance-main_loop a stale sockfd (ground arith) rounds (first_server streams) k
                (first_server-IsValid streams) served,
            close_clients-closed closes k y.client_count 0 y.client_count y closing (omega arith),
            ap (closings k) (socket_close-closed closes sockfd z last).0,
            closings-append k z.closed (sockfd ∷ []),
            held_below-none k [],
            held_below-none k y.client_sockets,
          )
    ]

-- `main` returns or exits, whatever its environment does.
pub select_main-Finishes :
    (a : Allocator) (stale : ℕ → Fd) (closes : ℕ → Bool) (sockfd : ℕ) (streams : ℕ → List Event)
    (rounds : List Select)
    → Finishes (main a stale closes sockfd streams rounds)
unfolding main
select_main-Finishes a stale closes sockfd streams rounds =
    elim (Bool-cases (leb fd_setsize sockfd)) [
      | inl beyond ↦ rw beyond (
          Finishes-then (socket_close closes sockfd (first_server streams)) (λ s. exits failure)
            (socket_close-Finishes closes sockfd (first_server streams)) (λ s e. tt))
      | inr below ↦
          let close_all : Server → Run Server = λ s. close_clients closes s.client_count 0 s in
          let looped = main_loop a stale sockfd rounds (first_server streams) in
          rw below (
            Finishes-then (looped >>= close_all) (socket_close closes sockfd)
              (Finishes-then looped close_all
                (main_loop-Finishes a stale sockfd rounds (first_server streams)
                  (first_server-IsValid streams))
                (λ s e.
                  let v =
                    main_loop-IsValid a stale sockfd rounds (first_server streams)
                      (first_server-IsValid streams) e in
                  close_clients-Finishes closes s.client_count 0 s
                    (omega (arith, v.sockets_length, v.fits))))
              (λ s e. socket_close-Finishes closes sockfd s))
    ]

-- ===== src/Select/Loop.antt =====
-- The rounds of io-multiplexing/select/main.c, one after the other.
use c_examples.Base.{
  ℕ, suc, ◌≡◌, refl, sym, ◌∙◌, inl, inr, Bool, true, false, ◌&&◌, Option, none, some, List, [], ◌∷◌,
  if◌then◌else◌, ◌==◌, ltb, leb, arith, Bool-cases, length, lt→ltb,
}
use c_examples.Base.Run.{
  Run, returns, exits, >>=-eq-returns, returns-injective, Finishes, Finishes-then, require-Finishes,
  in_bounds-Finishes,
}
use c_examples.Poll.State.{Fd, Allocator}
use c_examples.Poll.Clients.{mul_size}
use c_examples.Select.Server.{
  Server, fd_setsize, Watch, isset, fd_set_safe, client_io_from, append_client, appended,
  accept_client, grow_clients, Select, select_fails, select_interrupted, select_ready, filter,
  after_select, iteration, main_loop,
}
use c_examples.Select.Invariant.{IsValid, client_io-IsValid}
use c_examples.Select.Arrivals.{make_room, accept_client-IsValid}
use c_examples.Select.Watching.{Bounded, watch_from_lem}

abbrev pub Ends : Run Server → Type 0
Ends (returns t) = IsValid t
Ends (exits c) = Unit
Ends _ = ⊥

both : (m : Run Server) → Finishes m → ((t : Server) → m ≡ returns t → IsValid t) → Ends m
both (returns t) h k = k t refl
both (exits c) h k = tt
both m h k = absurd h

module _ (a : Allocator) (stale : ℕ → Fd) (sockfd : ℕ) where
  after_select-IsValid :
      (r : Select) (w : Watch) (s : Server) {t : Server}
      → IsValid s
      → after_select a stale sockfd r (w, s) ≡ returns t
      → IsValid t
  unfolding after_select
  after_select-IsValid select_fails w s v e = cc
  after_select-IsValid select_interrupted w s v e = rw (returns-injective e) v
  after_select-IsValid (select_ready readable accepted) w s v e =
      let ready = filter readable w.readfds in
      let (u, made, served) =
        >>=-eq-returns (arrivals ready) (λ t. client_io_from (suc t.client_count) ready 0 t) e in
      let (t, q, valid, fewer) = client_io-IsValid ready u (accepting ready u made) in
      rw (returns-injective (sym q ∙ served)) valid
    where
      arrivals : List ℕ → Run Server
      arrivals ready =
          if ltb sockfd fd_setsize && isset sockfd ready
          then accept_client a stale accepted s
          else returns s

      accepting : (ready : List ℕ) (u : Server) → arrivals ready ≡ returns u → IsValid u
      accepting ready u made = elim (Bool-cases (ltb sockfd fd_setsize && isset sockfd ready)) [
        | inl arrival ↦ accept_client-IsValid a stale accepted s v (rw arrival at made)
        | inr quiet ↦ rw (returns-injective (rw quiet at made)) v
      ]

  pub first-Bounded : Bounded (fd_set_safe sockfd (record { readfds = []; max_fd = sockfd }))
  unfolding fd_set_safe
  first-Bounded fd m = ground arith

  pub iteration-IsValid :
      (r : Select) (s : Server) {t : Server}
      → IsValid s
      → iteration a stale sockfd r s ≡ returns t
      → IsValid t
  unfolding iteration
  iteration-IsValid r s v e =
      let (w, q, g) = watch_from_lem _ s v first-Bounded in after_select-IsValid r w s v (rw q at e)

  grow_clients-Finishes : (s : Server) → Finishes (grow_clients a stale s)
  unfolding grow_clients
  grow_clients-Finishes s =
      require-Finishes
        (a.grants (mul_size (if s.client_capacity == 0 then 4 else mul_size s.client_capacity 2) 4))
        _ tt

  room : (full : Bool) (s : Server) → Finishes (if full then grow_clients a stale s else returns s)
  room true s = grow_clients-Finishes s
  room false s = tt

  -- The growth leaves room for the store of the append.
  append_client-Finishes :
      (fd : ℕ) (s : Server) {t : Server}
      → IsValid s
      → (if s.client_count == s.client_capacity then grow_clients a stale s else returns s)
        ≡ returns t
      → Finishes (append_client fd t)
  unfolding append_client
  append_client-Finishes fd s {t} v e =
      let (w, free, same) = make_room a stale s v e in
      in_bounds-Finishes _ (returns (appended fd t))
        (lt→ltb t.client_count (length t.client_sockets) (omega (arith, w.sockets_length))) tt

  accept_client-Finishes :
      (accepted : Option ℕ) (s : Server) → IsValid s → Finishes (accept_client a stale accepted s)
  unfolding accept_client
  accept_client-Finishes none s v = tt
  accept_client-Finishes (some fd) s v = elim (Bool-cases (leb fd_setsize fd)) [
    | inl beyond ↦ rw beyond tt
    | inr below ↦ rw below (
        Finishes-then
          (if s.client_count == s.client_capacity then grow_clients a stale s else returns s)
          (append_client fd) (room (s.client_count == s.client_capacity) s)
          (λ t e. append_client-Finishes fd s v e))
  ]

  after_select-Finishes :
      (r : Select) (w : Watch) (s : Server)
      → IsValid s
      → Finishes (after_select a stale sockfd r (w, s))
  unfolding after_select
  after_select-Finishes select_fails w s v = tt
  after_select-Finishes select_interrupted w s v = tt
  after_select-Finishes (select_ready readable accepted) w s v =
      let ready = filter readable w.readfds in
      elim (Bool-cases (ltb sockfd fd_setsize && isset sockfd ready)) [
        | inl arrival ↦ rw arrival (
            Finishes-then (accept_client a stale accepted s) _ (accept_client-Finishes accepted s v)
              (λ t e. served ready t (accept_client-IsValid a stale accepted s v e)))
        | inr quiet ↦ rw quiet (served ready s v)
      ]
    where
      served :
          (ready : List ℕ) (t : Server)
          → IsValid t
          → Finishes (client_io_from (suc t.client_count) ready 0 t)
      served ready t v = let (u, q, valid, fewer) = client_io-IsValid ready t v in rw q tt

  iteration-Finishes :
      (r : Select) (s : Server) → IsValid s → Finishes (iteration a stale sockfd r s)
  unfolding iteration
  iteration-Finishes r s v =
      let (w, q, g) = watch_from_lem _ s v first-Bounded in rw q (after_select-Finishes r w s v)

  pub main_loop-Finishes :
      (rounds : List Select) (s : Server) → IsValid s → Finishes (main_loop a stale sockfd rounds s)
  unfolding main_loop
  main_loop-Finishes [] s v = tt
  main_loop-Finishes (r ∷ rs) s v =
      Finishes-then (iteration a stale sockfd r s) (main_loop a stale sockfd rs)
        (iteration-Finishes r s v) (λ t e. main_loop-Finishes rs t (iteration-IsValid r s v e))

  pub main_loop-IsValid :
      (rounds : List Select) (s : Server) {t : Server}
      → IsValid s
      → main_loop a stale sockfd rounds s ≡ returns t
      → IsValid t
  unfolding main_loop
  main_loop-IsValid [] s v e = rw (returns-injective e) v
  main_loop-IsValid (r ∷ rs) s v e =
      let (u, first, rest) =
        >>=-eq-returns (iteration a stale sockfd r s) (main_loop a stale sockfd rs) e in
      main_loop-IsValid rs u (iteration-IsValid r s v first) rest

  -- Whatever the clients send, `select` reports and `accept` returns: each round of io-
  -- multiplexing/select ends, and from a well-formed table the rounds lead to a well-formed one, or
  -- the process exits.
  pub select_loop-Ends :
      (rounds : List Select) (s : Server) → IsValid s → Ends (main_loop a stale sockfd rounds s)
  select_loop-Ends rounds s v =
      both (main_loop a stale sockfd rounds s) (main_loop-Finishes rounds s v)
        (λ t e. main_loop-IsValid rounds s v e)

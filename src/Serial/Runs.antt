-- ===== src/Serial/Runs.antt =====
-- Whole runs of the servers of one client at a time.
use c_examples.Base.{
  ℕ, ◌+◌, ◌≡◌, refl, ◌∙◌, ap, Bool, ◌&&◌, true, false, List, [], ◌∷◌, ◌++◌, map, append_assoc,
  append-nil,
}
use c_examples.Base.Run.{returns, ◌>>=◌, ◌>>◌, require}
use c_examples.Io.Stream.{Event}
use c_examples.Serial.Effects.{
  Effect, closed, shut_rd, shut_rdwr, written, World, Log, socket_close, shutdown_socket,
}
use c_examples.Serial.Words.{Whole, prints, handle_connection-Whole}
use c_examples.Serial.Loop.{
  Accept, refused, stopped, client, effects, AllClients, accept_loop_lem, all_clients, when_ok,
  require-when_ok, accept_loop-when_ok,
}
use c_examples.Serial.Servers.{
  domain_serve, domain_main, shutdown_serve, shutdown_main, handle_connection_from, listen_serve,
  listen_main, setsockopt_loop, setsockopt_main,
}

AllClients-map :
    {P Q : ℕ → List Event → Type 0}
    → ((fd : ℕ) (es : List Event) → P fd es → Q fd es)
    → (rs : List Accept) → AllClients P rs
    → AllClients Q rs
AllClients-map f [] h = tt
AllClients-map f (refused ∷ rs) h = AllClients-map f rs h
AllClients-map f (stopped ∷ rs) h = tt
AllClients-map f (client fd es ∷ rs) (h, g) = (f fd es h, AllClients-map f rs g)

-- Whether the bytes of a message from `i` on can be written.
abbrev pub writes_all : World → ℕ → ℕ → List ℕ → Bool
writes_all v i fd [] = true
writes_all v i fd (c ∷ message) = v.writes fd i && writes_all v (i + 1) fd message

handle_connection_from-when_ok :
    (v : World) (i fd : ℕ) (message : List ℕ) (log : Log)
    → handle_connection_from v i fd message log
      ≡ when_ok (writes_all v i fd message) (log ++ map (written fd) message)
unfolding handle_connection_from
handle_connection_from-when_ok v i fd [] log = rw append-nil refl
handle_connection_from-when_ok v i fd (c ∷ message) log =
    require-when_ok (v.writes fd i) (writes_all v (i + 1) fd message) _ _ (
      handle_connection_from-when_ok v (i + 1) fd message (log ++ written fd c ∷ [])
      ∙ ap (when_ok (writes_all v (i + 1) fd message))
          (append_assoc log (written fd c ∷ []) (map (written fd) message)))

-- Every `accept` gave a client.
abbrev pub all_accepted : List Accept → Bool
all_accepted [] = true
all_accepted (refused ∷ rs) = false
all_accepted (stopped ∷ rs) = false
all_accepted (client fd es ∷ rs) = all_accepted rs

module _ (v : World) (closing : (fd : ℕ) → v.closes fd ≡ true) where
  closes_it : (fd : ℕ) (log : Log) → socket_close v fd log ≡ returns (log ++ closed fd ∷ [])
  unfolding socket_close
  closes_it fd log = rw (closing fd)

  served_words :
      (ws : List (List ℕ)) (fd : ℕ) (es : List Event)
      → Whole es ws
      → (log : Log) → domain_serve v fd es log ≡ returns (log ++ (prints ws ++ closed fd ∷ []))
  unfolding domain_serve
  served_words ws fd es h log =
      rw (handle_connection-Whole log h) (
        closes_it fd (log ++ prints ws)
        ∙ ap returns (append_assoc log (prints ws) (closed fd ∷ [])))

  -- Where `close` succeeds and the words of each client come whole, however many to a chunk: the
  -- servers domain-socket/read-write and send-recv print the words of each client, in order, and
  -- close it before they serve the next; refused connections are passed over, a stop ends the loop,
  -- and the listening socket is closed last.
  pub domain_main_lem :
      (sockfd : ℕ) (words : ℕ → List Event → List (List ℕ)) (rounds : List Accept)
      → AllClients (λ fd es. Whole es (words fd es)) rounds
      → domain_main v sockfd rounds
        ≡ returns
            (effects (λ fd es. prints (words fd es) ++ closed fd ∷ []) rounds ++ closed sockfd ∷ [])
  unfolding domain_main
  domain_main_lem sockfd words rounds h =
      let served =
        accept_loop_lem (domain_serve v) (λ fd es. prints (words fd es) ++ closed fd ∷ []) rounds []
          (AllClients-map (λ fd es. served_words (words fd es) fd es) rounds h) in
      rw served (closes_it sockfd _)

  setsockopt_loop-when_ok :
      (sockfd : ℕ) (rs : List Accept) (log : Log)
      → setsockopt_loop v sockfd rs log
        ≡ when_ok (all_accepted rs) (log ++ effects (λ fd es. closed fd ∷ []) rs)
  unfolding setsockopt_loop
  setsockopt_loop-when_ok sockfd [] log = rw append-nil refl
  setsockopt_loop-when_ok sockfd (refused ∷ rs) log = refl
  setsockopt_loop-when_ok sockfd (stopped ∷ rs) log = refl
  setsockopt_loop-when_ok sockfd (client fd es ∷ rs) log = rw (closes_it fd log) (
      setsockopt_loop-when_ok sockfd rs (log ++ closed fd ∷ [])
      ∙ ap (when_ok (all_accepted rs))
          (append_assoc log (closed fd ∷ []) (effects (λ fd es. closed fd ∷ []) rs)))

  then_closes :
      (b : Bool) (sockfd : ℕ) (log : Log)
      → (when_ok b log >>= socket_close v sockfd) ≡ when_ok b (log ++ closed sockfd ∷ [])
  then_closes true sockfd log = closes_it sockfd log
  then_closes false sockfd log = refl

  -- Where `close` succeeds: the server sockets/setsockopt closes each client, in order, and then
  -- its own socket, if every `accept` gives a client; and exits with failure if one does not, be it
  -- that SIGINT has stopped it.
  pub setsockopt_main-when_ok :
      (sockfd : ℕ) (rounds : List Accept)
      → setsockopt_main v sockfd rounds
        ≡ when_ok
            (all_accepted rounds)
            (effects (λ fd es. closed fd ∷ []) rounds ++ closed sockfd ∷ [])
  unfolding setsockopt_main
  setsockopt_main-when_ok sockfd rounds =
      rw (setsockopt_loop-when_ok sockfd rounds []) (then_closes (all_accepted rounds) sockfd _)

  listened :
      (message : List ℕ) (fd : ℕ) (es : List Event) (log : Log)
      → listen_serve v message fd es log
        ≡ when_ok (writes_all v 0 fd message) (log ++ (map (written fd) message ++ closed fd ∷ []))
  unfolding listen_serve
  listened message fd es log = rw (handle_connection_from-when_ok v 0 fd message log) (
      then_closes (writes_all v 0 fd message) fd _
      ∙ ap (when_ok (writes_all v 0 fd message))
          (append_assoc log (map (written fd) message) (closed fd ∷ [])))

  -- Where `close` succeeds: the server networking-functions/listen-accept writes the whole message
  -- to each client, byte by byte, closes it, and closes its own socket in the end, if every `write`
  -- succeeds; and exits with failure if one does not.
  pub listen_main-when_ok :
      (message : List ℕ) (sockfd : ℕ) (rounds : List Accept)
      → listen_main v message sockfd rounds
        ≡ when_ok (all_clients (λ fd es. writes_all v 0 fd message) rounds) (
            effects (λ fd es. map (written fd) message ++ closed fd ∷ []) rounds
            ++ closed sockfd ∷ [])
  unfolding listen_main
  listen_main-when_ok message sockfd rounds =
      rw
        (accept_loop-when_ok (listen_serve v message)
          (λ fd es. map (written fd) message ++ closed fd ∷ []) (λ fd es. writes_all v 0 fd message)
          (listened message) rounds [])
        (then_closes (all_clients (λ fd es. writes_all v 0 fd message) rounds) sockfd _)

  shut :
      (how : ℕ → Effect) (fd : ℕ) (b : Bool) (log : Log)
      → (when_ok b log >>= shutdown_socket v how fd >>= socket_close v fd)
        ≡ when_ok (b && v.shuts fd) (log ++ how fd ∷ closed fd ∷ [])
  unfolding shutdown_socket
  shut how fd false log = refl
  shut how fd true log = go (v.shuts fd)
    where
      go :
          (b : Bool)
          → (require b >> returns (log ++ how fd ∷ []) >>= socket_close v fd)
            ≡ when_ok b (log ++ how fd ∷ closed fd ∷ [])
      go true =
          closes_it fd (log ++ how fd ∷ [])
          ∙ ap returns (append_assoc log (how fd ∷ []) (closed fd ∷ []))
      go false = refl

  -- Where `close` succeeds: the server tcp/shutdown shuts and closes each client, in order, and
  -- then its own socket, if every `shutdown` succeeds; and exits with failure if one does not, be
  -- it that of a client that has gone.
  pub shutdown_main-when_ok :
      (sockfd : ℕ) (rounds : List Accept)
      → shutdown_main v sockfd rounds
        ≡ when_ok (all_clients (λ fd es. v.shuts fd) rounds && v.shuts sockfd) (
            effects (λ fd es. shut_rd fd ∷ closed fd ∷ []) rounds
            ++ shut_rdwr sockfd ∷ closed sockfd ∷ [])
  unfolding shutdown_main shutdown_serve
  shutdown_main-when_ok sockfd rounds =
      rw
        (accept_loop-when_ok (shutdown_serve v) (λ fd es. shut_rd fd ∷ closed fd ∷ [])
          (λ fd es. v.shuts fd) (λ fd es log. shut shut_rd fd true log) rounds [])
        (shut shut_rdwr sockfd (all_clients (λ fd es. v.shuts fd) rounds) _)

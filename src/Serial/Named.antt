-- ===== src/Serial/Named.antt =====
-- Whole runs of the servers of domain-socket.
use c_examples.Base.{
  ℕ, ◌≡◌, refl, ap, ◌∙◌, true, false, Bool-cases, inl, inr, some, List, [], ◌∷◌, ◌++◌, arith,
}
use c_examples.Base.Run.{returns, ◌>>=◌}
use c_examples.Io.Stream.{Event}
use c_examples.Cli.Strto.{Str}
use c_examples.Cli.Socket.{strings_equal}
use c_examples.Serial.Effects.{World, closed}
use c_examples.Serial.Words.{Whole, prints}
use c_examples.Serial.Loop.{Accept, effects, AllClients}
use c_examples.Serial.Servers.{domain_main}
use c_examples.Serial.Runs.{domain_main_lem}
use c_examples.Serial.Domain.{
  socket_path, Files, exists, unlink, Kernel, socket_create, socket_bind, start_listening,
  setup_signal_handler, server_main,
}

strings_equal_self : (s : Str) → strings_equal s s ≡ true
strings_equal_self [] = refl
strings_equal_self (c ∷ s) = ground (arith, strings_equal_self s)

-- What is unlinked is not there.
exists-unlink : (path : Str) (files : Files) → exists path (unlink path files) ≡ false
unfolding unlink
exists-unlink path [] = refl
exists-unlink path (f ∷ files) = elim (Bool-cases (strings_equal path f)) [
  | inl h ↦ rw h (exists-unlink path files)
  | inr h ↦ rw (h, h) (exists-unlink path files)
]

pub unlink-unlink :
    (path : Str) (files : Files) → unlink path (unlink path files) ≡ unlink path files
unfolding unlink
unlink-unlink path [] = refl
unlink-unlink path (f ∷ files) = elim (Bool-cases (strings_equal path f)) [
  | inl h ↦ rw h (unlink-unlink path files)
  | inr h ↦ rw (h, h) (ap (◌∷◌ f) (unlink-unlink path files))
]

-- Every call for a socket succeeds, with this descriptor.
pub record Granted (k : Kernel) (fd : ℕ) : Type 0 where
  pub creates : k.socket ≡ some fd
  pub binding : (name : Str) → k.binds fd name ≡ true
  pub listening : k.listens fd ≡ true
  pub handling : k.handles ≡ true

unlink-bound :
    (files : Files)
    → unlink socket_path (socket_path ∷ unlink socket_path files) ≡ unlink socket_path files
unfolding unlink
unlink-bound files = unlink-unlink socket_path files

module _ (k : Kernel) (v : World) (fd : ℕ) (granted : Granted k fd) (files : Files)
    (rounds : List Accept) where
  reaches_loop :
      server_main k v files rounds
      ≡ (domain_main v fd rounds >>= λ log. returns (unlink socket_path files, log))
  unfolding server_main socket_create socket_bind start_listening setup_signal_handler
  reaches_loop =
      rw
        (
          granted.creates,
          exists-unlink socket_path files,
          granted.binding socket_path,
          granted.listening,
          granted.handling,
          unlink-bound files,
        )
        refl

  -- Where each call that sets up the socket and each `close` succeeds, and the words of each client
  -- come whole, however many to a chunk: the servers domain-socket/read-write and send-recv are not
  -- stopped by a name that a former run has left, print the words of each client, in order, each up
  -- to its first NUL, close it before they serve the next, pass over refused connections, end at a
  -- stop, close the listening socket last, and leave the files without its name.
  pub server_main_lem :
      (words : ℕ → List Event → List (List ℕ))
      → ((fd : ℕ) → v.closes fd ≡ true)
      → AllClients (λ fd es. Whole es (words fd es)) rounds
      → server_main k v files rounds
        ≡ returns (
          unlink socket_path files,
          effects (λ fd es. prints (words fd es) ++ closed fd ∷ []) rounds ++ closed fd ∷ [],
        )
  server_main_lem words closing whole =
      reaches_loop ∙ rw (domain_main_lem v closing fd words rounds whole) refl

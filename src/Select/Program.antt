-- ===== src/Select/Program.antt =====
-- io-multiplexing/select/main.c from the beginning of `main` to its end.
use c_examples.Base.{
  ℕ, ◌+◌, ◌≡◌, ap, sym, ◌∙◌, Bool, not, ◌&&◌, if◌then◌else◌, true, false, Option, none, some, List,
  ◌∷◌, c_string,
}
use c_examples.Base.Run.{
  Run, returns, ◌>>=◌, ◌>>◌, require, or_exit, >>=-eq-returns, require-eq-returns,
  or_exit-eq-returns, returns-injective, Finishes, Finishes-then, require-Finishes,
  or_exit-Finishes,
}
use mathlib.Core.Path.{subst}
use c_examples.Io.Stream.{Event}
use c_examples.Cli.Strto.{Str}
use c_examples.Serial.Domain.{socket_path, Files, exists, unlink, Kernel, sun_path}
use c_examples.Serial.Named.{unlink-unlink}
use c_examples.Poll.State.{Fd, Allocator}
use c_examples.Poll.Held.{is}
use c_examples.Select.Server.{Server, Select}
use c_examples.Select.Held.{closings}
use c_examples.Select.Main
use c_examples.Select.NoLeak.{arrivals, select_main-closes, select_main-Finishes}

unfoldable pub socket_create : Kernel → Option ℕ
socket_create k = k.socket

-- `none` is -1.
unfoldable pub socket_bind : Kernel → ℕ → Str → Files → Option Files
socket_bind k sockfd path files =
    let name = c_string (sun_path path) in
    if not (exists name files) && k.binds sockfd name then some (name ∷ files) else none

module _ (k : Kernel) (a : Allocator) (stale : ℕ → Fd) (closes : ℕ → Bool) where
  -- With the files before, and those after. Where a call of the set-up fails, the socket is closed, the name removed and the process ends.
  unfoldable pub program : Files → (ℕ → List Event) → List Select → Run (Files × Server)
  program files streams rounds = or_exit (socket_create k) >>= λ sockfd.
      or_exit (socket_bind k sockfd socket_path (unlink socket_path files)) >>= λ files.
      require (k.listens sockfd)
      >> (Main.main a stale closes sockfd streams rounds >>= λ s.
          returns (unlink socket_path files, s))

  -- Where each `read` is answered, and `select` as often as the rounds that are given: whatever the
  -- clients, the calls of the set-up, `select`, `accept`, `close` and the allocator do, the server
  -- of io-multiplexing/select returns or exits: every loop over the table and every `read_full`
  -- ends, and no access to `client_sockets` or `word` is out of bounds.
  pub select_program-Finishes :
      (files : Files) (streams : ℕ → List Event) (rounds : List Select)
      → Finishes (program files streams rounds)
  unfolding program
  select_program-Finishes files streams rounds =
      Finishes-then (or_exit (socket_create k)) _ (or_exit-Finishes (socket_create k)) (λ sockfd _.
        Finishes-then (or_exit (socket_bind k sockfd socket_path (unlink socket_path files))) _
          (or_exit-Finishes (socket_bind k sockfd socket_path (unlink socket_path files)))
          (λ files _. require-Finishes (k.listens sockfd) _ (
            Finishes-then (Main.main a stale closes sockfd streams rounds) _
              (select_main-Finishes a stale closes sockfd streams rounds) (λ s _. tt))))

  bound_files :
      (sockfd : ℕ) (files bound : Files)
      → socket_bind k sockfd socket_path files ≡ some bound
      → bound ≡ socket_path ∷ files
  unfolding socket_bind
  bound_files sockfd files bound e =
      by_test (not (exists socket_path files) && k.binds sockfd socket_path) e
    where
      by_test :
          (b : Bool)
          → (if b then some (socket_path ∷ files) else none) ≡ some bound
          → bound ≡ socket_path ∷ files
      by_test true e = cc e
      by_test false e = absurd (cc e)

  -- When the server of io-multiplexing/select, from the beginning of its `main`, ends normally,
  -- each descriptor has been closed exactly as often as `accept` gave it, and the listening one
  -- once more: none is leaked and none is closed twice; and the files are those of before without
  -- the name of the socket.
  pub select_program-closes :
      (files left : Files) (streams : ℕ → List Event) (rounds : List Select) {t : Server}
      → program files streams rounds ≡ returns (left, t)
      → (sockfd : ℕ) × (k.socket ≡ some sockfd)
        × (left ≡ unlink socket_path files)
        × ((fd : ℕ) → closings fd t.closed ≡ arrivals sockfd fd rounds + is fd (some sockfd))
  unfolding program socket_create unlink
  select_program-closes files left streams rounds {t} e =
      let (sockfd, created, e) = >>=-eq-returns (or_exit (socket_create k)) _ e in
      let (bound, binding, e) =
        >>=-eq-returns (or_exit (socket_bind k sockfd socket_path (unlink socket_path files))) _
          e in
      let (listens, e) = require-eq-returns (k.listens sockfd) _ e in
      let (s, served, e) = >>=-eq-returns (Main.main a stale closes sockfd streams rounds) _ e in
      let pair = returns-injective e in
      let bound_is =
        bound_files sockfd (unlink socket_path files) bound (or_exit-eq-returns _ binding) in
      (
        sockfd,
        or_exit-eq-returns (socket_create k) created,
        ap (λ r. r.0) pair ∙ ap (unlink socket_path) bound_is ∙ unlink-unlink socket_path files,
        λ fd.
            subst (λ t. closings fd t.closed ≡ arrivals sockfd fd rounds + is fd (some sockfd))
              (sym (ap (λ r. r.1) pair))
              (select_main-closes a stale closes sockfd streams rounds served fd),
      )

-- ===== src/Serial/Domain.antt =====
-- The set-up of the servers domain-socket/read-write/server.c and domain-socket/send-recv/server.c, and
-- their `main`.
use c_examples.Base.{
  ℕ, zero, suc, Bool, false, not, ◌||◌, if◌then◌else◌, Option, List, [], ◌∷◌, ◌++◌, c_string,
}
use c_examples.Base.Run.{Run, returns, ◌>>=◌, ◌>>◌, require, or_exit}
use c_examples.Cli.Strto.{Str}
use c_examples.Cli.Socket.{strings_equal}
use c_examples.Serial.Effects.{World, Log}
use c_examples.Serial.Loop.{Accept}
use c_examples.Serial.Servers.{domain_main}

-- "/tmp/example_socket".
abbrev pub socket_path : Str
socket_path =
    47 ∷ 116 ∷ 109 ∷ 112 ∷ 47 ∷ 101 ∷ 120 ∷ 97 ∷ 109 ∷ 112 ∷ 108 ∷ 101 ∷ 95 ∷ 115 ∷ 111 ∷ 99 ∷ 107
    ∷ 101 ∷ 116 ∷ []

-- The names in the file system, in a list.
abbrev pub Files : Type 0
Files = List Str

abbrev pub exists : Str → Files → Bool
exists path [] = false
exists path (f ∷ files) = strings_equal path f || exists path files

unfoldable pub unlink : Str → Files → Files
unlink path [] = []
unlink path (f ∷ files) =
    let rest = unlink path files in if strings_equal path f then rest else f ∷ rest

-- Which calls succeed: `socket` with a descriptor, and `bind` where the name is new.
pub record Kernel : Type 0 where
  pub socket : Option ℕ
  pub binds : ℕ → Str → Bool
  pub listens : ℕ → Bool
  pub handles : Bool

-- `strncpy`, the bytes it writes: as many as it is told.
abbrev pub strncpy : ℕ → Str → List ℕ
strncpy zero s = []
strncpy (suc n) [] = 0 ∷ strncpy n []
strncpy (suc n) (zero ∷ s) = 0 ∷ strncpy n []
strncpy (suc n) (suc c ∷ s) = suc c ∷ strncpy n s

-- `sun_path`, of 108 bytes.
abbrev pub sun_path : Str → List ℕ
sun_path path = strncpy 107 path ++ 0 ∷ []

module _ (k : Kernel) where
  unfoldable pub socket_create : Run ℕ
  socket_create = or_exit k.socket

  unfoldable pub socket_bind : ℕ → Str → Files → Run Files
  socket_bind sockfd path files =
      let name = c_string (sun_path path) in
      require (not (exists name files)) >> require (k.binds sockfd name) >> returns (name ∷ files)

  unfoldable pub start_listening : ℕ → Run (Unit {0})
  start_listening server_fd = require (k.listens server_fd)

  unfoldable pub setup_signal_handler : Run (Unit {0})
  setup_signal_handler = require k.handles

  -- With the files before, and those after.
  unfoldable pub server_main : World → Files → List Accept → Run (Files × Log)
  server_main v files rounds =
      let cleared = unlink socket_path files in
      socket_create >>= λ sockfd. socket_bind sockfd socket_path cleared >>= λ files.
      start_listening sockfd
      >> setup_signal_handler
      >> (domain_main v sockfd rounds >>= λ log. returns (unlink socket_path files, log))

-- ===== src/Serial/Effects.antt =====
-- What the servers of one client at a time do to the world, in order, and what they ask of it.
use c_examples.Base.{ℕ, Bool, List, [], ◌∷◌, ◌++◌}
use c_examples.Base.Run.{Run, returns, ◌>>◌, require}

pub data Effect : Type 0 where
  closed : ℕ → Effect
  -- SHUT_RD, SHUT_WR and SHUT_RDWR.
  shut_rd shut_wr shut_rdwr : ℕ → Effect
  printed : List ℕ → Effect
  -- A byte to a descriptor.
  written : ℕ → ℕ → Effect

-- Which calls succeed.
pub record World : Type 0 where
  pub closes : ℕ → Bool
  pub shuts : ℕ → Bool
  -- The `write` of byte `i` to a client.
  pub writes : ℕ → ℕ → Bool

abbrev pub Log : Type 0
Log = List Effect

module _ (v : World) where
  unfoldable pub socket_close : ℕ → Log → Run Log
  socket_close sockfd log = require (v.closes sockfd) >> returns (log ++ closed sockfd ∷ [])

  -- `shutdown_socket` of tcp/shutdown/server.c, with what it is told to shut.
  unfoldable pub shutdown_socket : (ℕ → Effect) → ℕ → Log → Run Log
  shutdown_socket how sockfd log = require (v.shuts sockfd) >> returns (log ++ how sockfd ∷ [])

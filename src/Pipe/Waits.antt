-- ===== src/Pipe/Waits.antt =====
-- When a `read` of the parent of pipe/synchronized finds what it asks for.
use c_examples.Base.{ℕ, ◌≡◌, List, ◌++◌, length}
use c_examples.Pipe.Processes.{frame}
use c_examples.Pipe.Simple
use c_examples.Pipe.Synchronized.{Synchronized, ParentPc, reading_length, reading_word}

-- The pipe begins with all that the `read` at this place, and the one behind it, ask for.
abbrev pub Holds : List ℕ → ParentPc → Type 0
Holds pipe reading_length = (w rest : List ℕ) × (pipe ≡ frame w ++ rest)
Holds pipe (reading_word n) = (w rest : List ℕ) × (pipe ≡ w ++ rest) × (length w ≡ n)
Holds pipe _ = Unit

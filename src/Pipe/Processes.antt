-- ===== src/Pipe/Processes.antt =====
-- `send_word`, `write_fully`, `parent_process` and `read_fully` of pipe/reliable/main.c: the two
-- processes, that interleave. A call that moves n bytes is n steps here, so that a call may move any
-- part of what it is asked to; a read from an empty pipe waits.
use c_examples.Base.{ℕ, zero, suc, ◌+◌, ◌-◌, ◌≤◌, ◌<◌, ◌≡◌, List, [], ◌∷◌, ◌++◌, length, c_string}
use c_examples.Pipe.Splitter.{Feed, send, finish, fails, overruns, max_word_length, child_process}

-- The two semaphores, the pipe, and the words as the parent has printed them.
pub record Shared : Type 0 where
  pub sem_parent : ℕ
  pub sem_child : ℕ
  pub pipe : List ℕ
  pub printed : List (List ℕ)

pub data ChildPc : Type 0 where
  -- In `write_fully`, with the bytes to write; with none, at `sem_post(sem_parent)`.
  writing : List ℕ → Feed → ChildPc
  -- At `sem_wait(sem_child)`.
  awaiting_parent : Feed → ChildPc
  child_done : ChildPc
  -- `error_exit` at a word that is too long.
  child_failed : ChildPc
  -- Behind a write out of bounds.
  child_lost : ChildPc

-- What `write_fully` writes of a word: the length, then its characters.
abbrev pub frame : List ℕ → List ℕ
frame word = length word ∷ word

-- To the next call of `send_word`.
abbrev pub go_on : Feed → ChildPc
go_on (send word rest) = writing (frame word) rest
go_on finish = child_done
go_on fails = child_failed
go_on overruns = child_lost

pub data ParentPc : Type 0 where
  -- At `sem_wait(sem_parent)`.
  awaiting_word : ParentPc
  -- In the first `read_fully`.
  reading_length : ParentPc
  -- In the second, with the bytes to come and those read; with none to come, behind it.
  reading : ℕ → List ℕ → ParentPc
  -- At `sem_post(sem_child)`.
  posting : ParentPc
  parent_done : ParentPc
  parent_lost : ParentPc

pub data ChildStep (m : Shared) : ChildPc → Shared → ChildPc → Type 0 where
  write :
      {b : ℕ} {bs : List ℕ} {rest : Feed}
      → ChildStep m (writing (b ∷ bs) rest) (record m { pipe = m.pipe ++ b ∷ [] }) (writing bs rest)
  post_parent :
      {rest : Feed}
      → ChildStep m
          (writing [] rest)
          (record m { sem_parent = m.sem_parent + 1 })
          (awaiting_parent rest)
  wait_child :
      {rest : Feed}
      → 0 < m.sem_child
      → ChildStep m (awaiting_parent rest) (record m { sem_child = m.sem_child - 1 }) (go_on rest)

pub data ParentStep (m : Shared) : ParentPc → Shared → ParentPc → Type 0 where
  wait_parent :
      0 < m.sem_parent
      → ParentStep m awaiting_word (record m { sem_parent = m.sem_parent - 1 }) reading_length
  -- `break` at the length 0.
  read_end :
      {rest : List ℕ}
      → m.pipe ≡ 0 ∷ rest
      → ParentStep m reading_length (record m { pipe = rest }) parent_done
  read_length :
      {n : ℕ} {rest : List ℕ}
      → m.pipe ≡ suc n ∷ rest
      → ParentStep m reading_length (record m { pipe = rest }) (reading (suc n) [])
  read :
      {n b : ℕ} {buf rest : List ℕ}
      → m.pipe ≡ b ∷ rest
      → ParentStep m (reading (suc n) buf) (record m { pipe = rest }) (reading n (buf ++ b ∷ []))
  -- `word[length] = '\0'`, and the `printf`, whose `%s` ends at the first NUL.
  print :
      {buf : List ℕ}
      → length buf < max_word_length
      → ParentStep m
          (reading zero buf)
          (record m { printed = m.printed ++ c_string buf ∷ [] })
          posting
  overrun :
      {buf : List ℕ} → max_word_length ≤ length buf → ParentStep m (reading zero buf) m parent_lost
  post_child : ParentStep m posting (record m { sem_child = m.sem_child + 1 }) awaiting_word

pub data Step : Shared × ChildPc × ParentPc → Shared × ChildPc × ParentPc → Type 0 where
  child :
      {m m' : Shared} {p p' : ChildPc} {q : ParentPc}
      → ChildStep m p m' p'
      → Step (m, p, q) (m', p', q)
  parent :
      {m m' : Shared} {p : ChildPc} {q q' : ParentPc}
      → ParentStep m q m' q'
      → Step (m, p, q) (m', p, q')

-- `sem_open` gives the parent's semaphore 0 and the child's 1.
abbrev pub first_shared : Shared
first_shared = record { sem_parent = 0; sem_child = 1; pipe = []; printed = [] }

-- From `fork` on, where the child has the file.
pub data Reach (file : List ℕ) : Shared × ChildPc × ParentPc → Type 0 where
  start : Reach file (first_shared, go_on (child_process file), awaiting_word)
  later : {s t : Shared × ChildPc × ParentPc} → Reach file s → Step s t → Reach file t

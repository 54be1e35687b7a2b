-- ===== src/Pipe/Simple.antt =====
-- pipe/simple/main.c: parent and child over a pipe alone. The child splits the file as that of
-- pipe/reliable does; a word is at most 255 bytes, and a `write` of so few puts them into a pipe at once.
use c_examples.Base.{ℕ, suc, ◌≤◌, ◌<◌, ◌≡◌, List, [], ◌∷◌, ◌++◌, length, take, drop, c_string}
use c_examples.Pipe.Splitter.{Feed, send, finish, fails, overruns, max_word_length, child_process}

-- The pipe, and the words as the parent has printed them.
pub record Shared : Type 0 where
  pub pipe : List ℕ
  pub printed : List (List ℕ)

pub data ChildPc : Type 0 where
  -- At the `write` of a length.
  writing_length : List ℕ → Feed → ChildPc
  -- At the `write` of a word, which is not empty.
  writing_word : ℕ → List ℕ → Feed → ChildPc
  child_done : ChildPc
  child_failed : ChildPc
  child_lost : ChildPc

-- To the next call of `send_word`.
abbrev pub go_on : Feed → ChildPc
go_on (send word rest) = writing_length word rest
go_on finish = child_done
go_on fails = child_failed
go_on overruns = child_lost

-- Behind the `write` of the length: `if(length > 0)`.
abbrev pub after_length : List ℕ → Feed → ChildPc
after_length [] rest = go_on rest
after_length (b ∷ word) rest = writing_word b word rest

pub data ParentPc : Type 0 where
  reading_length : ParentPc
  reading_word : ℕ → ParentPc
  parent_done : ParentPc
  -- Behind a `read` that took less than the word, or a write behind the end of `word`.
  parent_lost : ParentPc

pub data ChildStep (m : Shared) : ChildPc → Shared → ChildPc → Type 0 where
  write_length :
      {word : List ℕ} {rest : Feed}
      → ChildStep m
          (writing_length word rest)
          (record m { pipe = m.pipe ++ length word ∷ [] })
          (after_length word rest)
  write_word :
      {b : ℕ} {word : List ℕ} {rest : Feed}
      → ChildStep m (writing_word b word rest) (record m { pipe = m.pipe ++ b ∷ word }) (go_on rest)

-- A `read` waits while the pipe is empty, and then takes what it can.
pub data ParentStep (m : Shared) : ParentPc → Shared → ParentPc → Type 0 where
  read_end :
      {rest : List ℕ}
      → m.pipe ≡ 0 ∷ rest
      → ParentStep m reading_length (record m { pipe = rest }) parent_done
  read_length :
      {n : ℕ} {rest : List ℕ}
      → m.pipe ≡ suc n ∷ rest
      → ParentStep m reading_length (record m { pipe = rest }) (reading_word (suc n))
  read_word :
      -- The `%s` of the `printf` ends at the first NUL.
      {n : ℕ}
      → n ≤ length m.pipe
      → n < max_word_length
      → ParentStep m
          (reading_word n)
          (record m { pipe = drop n m.pipe; printed = m.printed ++ c_string (take n m.pipe) ∷ [] })
          reading_length
  read_short :
      {n : ℕ} → 0 < length m.pipe → length m.pipe < n → ParentStep m (reading_word n) m parent_lost
  overrun :
      {n : ℕ}
      → 0 < length m.pipe
      → max_word_length ≤ n
      → ParentStep m (reading_word n) m parent_lost

pub data Step : Shared × ChildPc × ParentPc → Shared × ChildPc × ParentPc → Type 0 where
  child :
      {m m' : Shared} {p p' : ChildPc} {q : ParentPc}
      → ChildStep m p m' p'
      → Step (m, p, q) (m', p', q)
  parent :
      {m m' : Shared} {p : ChildPc} {q q' : ParentPc}
      → ParentStep m q m' q'
      → Step (m, p, q) (m', p, q')

abbrev pub first_shared : Shared
first_shared = record { pipe = []; printed = [] }

pub data Reach (file : List ℕ) : Shared × ChildPc × ParentPc → Type 0 where
  start : Reach file (first_shared, go_on (child_process file), reading_length)
  later : {s t : Shared × ChildPc × ParentPc} → Reach file s → Step s t → Reach file t

-- ===== src/Pipe/Synchronized.antt =====
-- pipe/synchronized/main.c: the processes of pipe/simple with two semaphores, whose initial values are
-- parameters. The child splits the file as that of pipe/reliable does.
use c_examples.Base.{ℕ, suc, ◌≤◌, ◌<◌, ◌≡◌, List, [], ◌∷◌, ◌++◌, length, take, drop, c_string}
use c_examples.Pipe.Splitter.{Feed, send, finish, fails, overruns, max_word_length, child_process}
use c_examples.Pipe.Simple.{Shared, first_shared}

-- The pipe with what has been printed, and the values of the semaphores.
pub record Synchronized : Type 0 where
  pub shared : Shared
  pub sem_parent : ℕ
  pub sem_child : ℕ

pub data ChildPc : Type 0 where
  -- In `send_word`, at the `write` of a length, or of a word, which is not empty.
  writing_length : List ℕ → Feed → ChildPc
  writing_word : ℕ → List ℕ → Feed → ChildPc
  -- At `sem_post(sem_parent)`.
  posting : Feed → ChildPc
  -- At `sem_wait(sem_child)`.
  waiting : Feed → ChildPc
  child_done : ChildPc
  child_failed : ChildPc
  child_lost : ChildPc

-- To the next call of `send_word`.
abbrev pub go_on : Feed → ChildPc
go_on (send word rest) = writing_length word rest
go_on finish = child_done
go_on fails = child_failed
go_on overruns = child_lost

-- Behind the `write` of the length: `if(length > 0)`.
abbrev pub after_length : List ℕ → Feed → ChildPc
after_length [] rest = posting rest
after_length (b ∷ word) rest = writing_word b word rest

pub data ParentPc : Type 0 where
  -- At `sem_wait(sem_parent)`.
  waiting_word : ParentPc
  reading_length : ParentPc
  reading_word : ℕ → ParentPc
  -- At `sem_post(sem_child)`.
  posting_child : ParentPc
  parent_done : ParentPc
  -- Behind a `read` that took less than the word, or a write behind the end of `word`.
  parent_lost : ParentPc

abbrev pub put : Synchronized → List ℕ → Synchronized
put m bytes = record m { shared = record m.shared { pipe = m.shared.pipe ++ bytes } }

pub data ChildStep (m : Synchronized) : ChildPc → Synchronized → ChildPc → Type 0 where
  write_length :
      {word : List ℕ} {rest : Feed}
      → ChildStep m (writing_length word rest) (put m (length word ∷ [])) (after_length word rest)
  write_word :
      {b : ℕ} {word : List ℕ} {rest : Feed}
      → ChildStep m (writing_word b word rest) (put m (b ∷ word)) (posting rest)
  post :
      {rest : Feed}
      → ChildStep m (posting rest) (record m { sem_parent = suc m.sem_parent }) (waiting rest)
  wait :
      {rest : Feed} {n : ℕ}
      → m.sem_child ≡ suc n
      → ChildStep m (waiting rest) (record m { sem_child = n }) (go_on rest)

abbrev pub left_in_pipe : Synchronized → List ℕ → Synchronized
left_in_pipe m rest = record m { shared = record m.shared { pipe = rest } }

-- A `read` waits while the pipe is empty, and then takes what it can.
pub data ParentStep (m : Synchronized) : ParentPc → Synchronized → ParentPc → Type 0 where
  wait :
      {n : ℕ}
      → m.sem_parent ≡ suc n
      → ParentStep m waiting_word (record m { sem_parent = n }) reading_length
  read_end :
      {rest : List ℕ}
      → m.shared.pipe ≡ 0 ∷ rest
      → ParentStep m reading_length (left_in_pipe m rest) parent_done
  read_length :
      {n : ℕ} {rest : List ℕ}
      → m.shared.pipe ≡ suc n ∷ rest
      → ParentStep m reading_length (left_in_pipe m rest) (reading_word (suc n))
  read_word :
      {n : ℕ}
      → n ≤ length m.shared.pipe
      → n < max_word_length
      → ParentStep m
          (reading_word n)
          (record m {
            shared = record {
              pipe = drop n m.shared.pipe;
              printed = m.shared.printed ++ c_string (take n m.shared.pipe) ∷ [];
            };
          })
          posting_child
  read_short :
      {n : ℕ}
      → 0 < length m.shared.pipe
      → length m.shared.pipe < n
      → ParentStep m (reading_word n) m parent_lost
  overrun :
      {n : ℕ}
      → 0 < length m.shared.pipe
      → max_word_length ≤ n
      → ParentStep m (reading_word n) m parent_lost
  post : ParentStep m posting_child (record m { sem_child = suc m.sem_child }) waiting_word

abbrev pub State : Type 0
State = Synchronized × ChildPc × ParentPc

pub data Step : State → State → Type 0 where
  child :
      {m m' : Synchronized} {p p' : ChildPc} {q : ParentPc}
      → ChildStep m p m' p'
      → Step (m, p, q) (m', p', q)
  parent :
      {m m' : Synchronized} {p : ChildPc} {q q' : ParentPc}
      → ParentStep m q m' q'
      → Step (m, p, q) (m', p, q')

-- O_CREAT and O_CREAT are the flags and the mode that `sem_open` gets; S_IRUSR | S_IWUSR | S_IRGRP |
-- S_IROTH is the initial value of both semaphores.
abbrev pub initial_value : ℕ
initial_value = 420

-- With the initial values of `sem_parent` and `sem_child`.
pub data Reach (a b : ℕ) (file : List ℕ) : State → Type 0 where
  start : Reach a b file (
    record { shared = first_shared; sem_parent = a; sem_child = b },
    go_on (child_process file),
    waiting_word,
  )
  later : {s t : State} → Reach a b file s → Step s t → Reach a b file t

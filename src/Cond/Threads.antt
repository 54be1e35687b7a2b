-- ===== src/Cond/Threads.antt =====
-- pthread-condition/pthread_cond_wait-pthread_cond_signal/main.c as two threads that interleave, with
-- the mutex, the condition variable and the words that `strdup` allocates.
use c_examples.Base.{
  ℕ, ◌≡◌, Bool, true, false, Option, none, some, List, [], ◌∷◌, ◌++◌, map, length, get_or, ◌==◌,
  ◌||◌,
}

pub data Mutex : Type 0 where
  unlocked held_by_child held_by_parent : Mutex

-- `struct shared_data`, with who waits for `cond_var`; the heap, where `shared_word` points (`none` is
-- NULL), with the blocks that have been freed; and what the parent has printed.
pub record Shared : Type 0 where
  pub mutex : Mutex
  pub child_waits : Bool
  pub parent_waits : Bool
  pub word_ready : Bool
  pub shared_word : Option ℕ
  pub blocks : List (List ℕ)
  pub freed : List ℕ
  pub printed : List (List ℕ)

-- `child_process` in a call of `send_word`, with the word (`none` is NULL) and those of the calls to come.
pub data ChildPc : Type 0 where
  -- At `pthread_mutex_lock`.
  locking : Option (List ℕ) → List (Option (List ℕ)) → ChildPc
  -- At `while(data->word_ready)`.
  testing : Option (List ℕ) → List (Option (List ℕ)) → ChildPc
  -- In `pthread_cond_wait`.
  waiting : Option (List ℕ) → List (Option (List ℕ)) → ChildPc
  -- At `if(data->shared_word != NULL)`.
  freeing : Option (List ℕ) → List (Option (List ℕ)) → ChildPc
  -- At `if(word == NULL)`.
  storing : Option (List ℕ) → List (Option (List ℕ)) → ChildPc
  -- At `pthread_cond_signal`.
  signalling : List (Option (List ℕ)) → ChildPc
  -- At `pthread_mutex_unlock`.
  unlocking : List (Option (List ℕ)) → ChildPc
  finished : ChildPc

pub data ParentPc : Type 0 where
  p_locking : ParentPc
  p_testing : ParentPc
  p_waiting : ParentPc
  -- At `data->word_ready = 0`.
  taking : ParentPc
  p_signalling : ParentPc
  p_unlocking : ParentPc
  -- At `word = data->shared_word`, behind `pthread_mutex_unlock`.
  reading : ParentPc
  -- At the `printf` of a word.
  printing : ℕ → ParentPc
  p_finished : ParentPc
  -- Behind a read of freed memory.
  p_lost : ParentPc

-- To the next call of `send_word`.
abbrev pub next_word : List (Option (List ℕ)) → ChildPc
next_word [] = finished
next_word (w ∷ ws) = locking w ws

abbrev pub free_word : Option ℕ → List ℕ → List ℕ
free_word none freed = freed
free_word (some b) freed = b ∷ freed

-- `shared_word = NULL`, or `strdup(word)`, and `word_ready = 1`.
abbrev pub store_word : Option (List ℕ) → Shared → Shared
store_word none m = record m { shared_word = none; word_ready = true }
store_word (some w) m = record m {
  shared_word = some (length m.blocks);
  blocks = m.blocks ++ w ∷ [];
  word_ready = true;
}

pub data ChildStep (m : Shared) : ChildPc → Shared → ChildPc → Type 0 where
  lock :
      {w : Option (List ℕ)} {ws : List (Option (List ℕ))}
      → m.mutex ≡ unlocked
      → ChildStep m (locking w ws) (record m { mutex = held_by_child }) (testing w ws)
  wait :
      {w : Option (List ℕ)} {ws : List (Option (List ℕ))}
      → m.word_ready ≡ true
      → ChildStep m
          (testing w ws)
          (record m { mutex = unlocked; child_waits = true })
          (waiting w ws)
  -- A wakeup without a signal.
  stir :
      {w : Option (List ℕ)} {ws : List (Option (List ℕ))}
      → ChildStep m (waiting w ws) (record m { child_waits = false }) (waiting w ws)
  wake :
      {w : Option (List ℕ)} {ws : List (Option (List ℕ))}
      → m.child_waits ≡ false
      → m.mutex ≡ unlocked
      → ChildStep m (waiting w ws) (record m { mutex = held_by_child }) (testing w ws)
  proceed :
      {w : Option (List ℕ)} {ws : List (Option (List ℕ))}
      → m.word_ready ≡ false
      → ChildStep m (testing w ws) m (freeing w ws)
  free :
      {w : Option (List ℕ)} {ws : List (Option (List ℕ))}
      → ChildStep m
          (freeing w ws)
          (record m { freed = free_word m.shared_word m.freed })
          (storing w ws)
  store :
      {w : Option (List ℕ)} {ws : List (Option (List ℕ))}
      → ChildStep m (storing w ws) (store_word w m) (signalling ws)
  signal :
      {ws : List (Option (List ℕ))}
      → ChildStep m (signalling ws) (record m { parent_waits = false }) (unlocking ws)
  unlock :
      {ws : List (Option (List ℕ))}
      → ChildStep m (unlocking ws) (record m { mutex = unlocked }) (next_word ws)

abbrev pub member : ℕ → List ℕ → Bool
member b [] = false
member b (x ∷ l) = (b == x) || member b l

pub data ParentStep (m : Shared) : ParentPc → Shared → ParentPc → Type 0 where
  p_lock :
      m.mutex ≡ unlocked → ParentStep m p_locking (record m { mutex = held_by_parent }) p_testing
  p_wait :
      m.word_ready ≡ false
      → ParentStep m p_testing (record m { mutex = unlocked; parent_waits = true }) p_waiting
  p_stir : ParentStep m p_waiting (record m { parent_waits = false }) p_waiting
  p_wake :
      m.parent_waits ≡ false
      → m.mutex ≡ unlocked
      → ParentStep m p_waiting (record m { mutex = held_by_parent }) p_testing
  p_proceed : m.word_ready ≡ true → ParentStep m p_testing m taking
  take : ParentStep m taking (record m { word_ready = false }) p_signalling
  p_signal : ParentStep m p_signalling (record m { child_waits = false }) p_unlocking
  p_unlock : ParentStep m p_unlocking (record m { mutex = unlocked }) reading
  read_null : m.shared_word ≡ none → ParentStep m reading m p_finished
  read_word : {b : ℕ} → m.shared_word ≡ some b → ParentStep m reading m (printing b)
  print :
      {b : ℕ}
      → member b m.freed ≡ false
      → ParentStep m
          (printing b)
          (record m { printed = m.printed ++ get_or m.blocks b [] ∷ [] })
          p_locking
  print_freed : {b : ℕ} → member b m.freed ≡ true → ParentStep m (printing b) m p_lost

pub data Step : Shared × ChildPc × ParentPc → Shared × ChildPc × ParentPc → Type 0 where
  child :
      {m m' : Shared} {p p' : ChildPc} {q : ParentPc}
      → ChildStep m p m' p'
      → Step (m, p, q) (m', p', q)
  parent :
      {m m' : Shared} {p : ChildPc} {q q' : ParentPc}
      → ParentStep m q m' q'
      → Step (m, p, q) (m', p, q')

abbrev pub first_shared : Shared
first_shared = record {
  mutex = unlocked;
  child_waits = false;
  parent_waits = false;
  word_ready = false;
  shared_word = none;
  blocks = [];
  freed = [];
  printed = [];
}

-- The tokens that `strtok_r` gives, then NULL.
abbrev pub calls : List (List ℕ) → List (Option (List ℕ))
calls words = map some words ++ none ∷ []

pub data Reach (words : List (List ℕ)) : Shared × ChildPc × ParentPc → Type 0 where
  start : Reach words (first_shared, next_word (calls words), p_locking)
  later : {s t : Shared × ChildPc × ParentPc} → Reach words s → Step s t → Reach words t

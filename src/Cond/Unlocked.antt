-- ===== src/Cond/Unlocked.antt =====
-- What the parent of pthread-condition/pthread_cond_wait-pthread_cond_signal/main.c meets where it reads
-- `shared_word` behind `pthread_mutex_unlock`.
use c_examples.Base.{ℕ, ◌≡◌, refl, Option, some, List, [], ◌∷◌, false}
use c_examples.Cond.Threads.{
  Shared, unlocked, ChildPc, finished, locking, p_finished, p_lost, reading, lock, proceed, free,
  store, signal, unlock, p_lock, p_proceed, take, p_signal, p_unlock, read_null, read_word,
  print_freed, child, parent, calls, next_word, Reach, start, later,
}

-- The child sends the first word, and the parent takes it up to its `pthread_mutex_unlock`.
taken_first :
    (w : List ℕ) (words : List (List ℕ))
    → (m : Shared) × Reach (w ∷ words) (m, next_word (calls words), reading)
      × (m.mutex ≡ unlocked)
      × (m.word_ready ≡ false)
      × (m.shared_word ≡ some 0)
      × (m.printed ≡ [])
taken_first w words =
    let tested = later (later start (child (lock refl))) (child (proceed refl)) in
    let stored = later (later tested (child free)) (child store) in
    let sent = later (later stored (child signal)) (child unlock) in
    let ready = later (later sent (parent (p_lock refl))) (parent (p_proceed refl)) in
    let taken = later (later (later ready (parent take)) (parent p_signal)) (parent p_unlock) in
    (_, taken, refl, refl, refl, refl)

-- For every word, a file of that word alone has a run in which both threads finish and the parent
-- has printed nothing: the child stores NULL between the parent's `pthread_mutex_unlock` and its
-- read.
pub word_lost :
    (w : List ℕ) → (m : Shared) × Reach (w ∷ []) (m, finished, p_finished) × (m.printed ≡ [])
word_lost w =
    let (m, taken, free_mutex, idle, at, none_printed) = taken_first w [] in
    let tested = later (later taken (child (lock free_mutex))) (child (proceed idle)) in
    let stored = later (later tested (child free)) (child store) in
    let sent = later (later stored (child signal)) (child unlock) in
    (_, later sent (parent (read_null refl)), none_printed)

-- Where the parent has read the pointer before the child frees the word.
reads_freed :
    {sent : List (List ℕ)} {v : Option (List ℕ)} {vs : List (Option (List ℕ))}
    → (m : Shared) × Reach sent (m, locking v vs, reading)
      × (m.mutex ≡ unlocked)
      × (m.word_ready ≡ false)
      × (m.shared_word ≡ some 0)
      × (m.printed ≡ [])
    → (m : Shared) × (p : ChildPc) × Reach sent (m, p, p_lost)
reads_freed (m, taken, free_mutex, idle, at, none_printed) =
    let pointed = later taken (parent (read_word at)) in
    let tested = later (later pointed (child (lock free_mutex))) (child (proceed idle)) in
    (_, _, later (later tested (child free)) (parent (print_freed (rw at refl))))

-- For every word and all that follow it, there is a run in which the parent prints from memory
-- that the child has freed.
pub word_freed :
    (w : List ℕ) (words : List (List ℕ))
    → (m : Shared) × (p : ChildPc) × Reach (w ∷ words) (m, p, p_lost)
word_freed w [] = reads_freed (taken_first w [])
word_freed w (v ∷ words) = reads_freed (taken_first w (v ∷ words))

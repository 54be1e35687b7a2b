-- ===== src/Counter/Threads.antt =====
-- pthread-mutex/pthread_mutex_lock-pthread_mutex_unlock/main.c: `thread_function` in any number of
-- threads that interleave, where `++` is a load and a store.
use c_examples.Base.{ℕ, zero, suc, ◌+◌, ◌≡◌, Bool, true, false, List, [], ◌∷◌, ◌++◌}

-- The mutex, `sharedVariable`, and the values printed.
pub record Shared : Type 0 where
  pub locked : Bool
  pub shared_variable : ℕ
  pub printed : List ℕ

pub data Pc : Type 0 where
  -- At the test of `use_mutex` before the section.
  entering : Pc
  -- At the load, and at the store, of `++`.
  loading : Pc
  storing : ℕ → Pc
  -- At the `printf`.
  printing : Pc
  -- At the test of `use_mutex` behind the section.
  leaving : Pc
  ended : Pc

pub data ThreadStep (use_mutex : Bool) (m : Shared) : Pc → Shared → Pc → Type 0 where
  lock :
      use_mutex ≡ true
      → m.locked ≡ false
      → ThreadStep use_mutex m entering (record m { locked = true }) loading
  enter : use_mutex ≡ false → ThreadStep use_mutex m entering m loading
  load : ThreadStep use_mutex m loading m (storing m.shared_variable)
  store :
      {k : ℕ} → ThreadStep use_mutex m (storing k) (record m { shared_variable = k + 1 }) printing
  print :
      ThreadStep use_mutex m printing
        (record m { printed = m.printed ++ m.shared_variable ∷ [] })
        leaving
  unlock : use_mutex ≡ true → ThreadStep use_mutex m leaving (record m { locked = false }) ended
  leave : use_mutex ≡ false → ThreadStep use_mutex m leaving m ended

-- One of the threads goes on.
pub data Step (use_mutex : Bool) : Shared × List Pc → Shared × List Pc → Type 0 where
  thread :
      {m m' : Shared} (us vs : List Pc) {p p' : Pc}
      → ThreadStep use_mutex m p m' p'
      → Step use_mutex (m, us ++ p ∷ vs) (m', us ++ p' ∷ vs)

abbrev pub first_shared : Shared
first_shared = record { locked = false; shared_variable = 0; printed = [] }

-- The threads that `main` creates; NUM_THREADS is 10.
abbrev pub create : ℕ → List Pc
create zero = []
create (suc n) = entering ∷ create n

pub data Reach (use_mutex : Bool) (n : ℕ) : Shared × List Pc → Type 0 where
  start : Reach use_mutex n (first_shared, create n)
  later : {s t : Shared × List Pc} → Reach use_mutex n s → Step use_mutex s t → Reach use_mutex n t

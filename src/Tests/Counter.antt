-- ===== src/Tests/Counter.antt =====
-- Two threads of pthread_mutex_lock-pthread_mutex_unlock, with the mutex and without.
use c_examples.Base.{◌≤◌, ◌≡◌, ◌⊎◌, refl, true, false, List, [], ◌∷◌}
use c_examples.Counter.Threads.{
  Shared, first_shared, Pc, entering, loading, storing, printing, lock, enter, load, store, Step,
  thread, Reach, start, later,
}
use c_examples.Counter.Counted.{count_up}
use c_examples.Counter.Ending.{AllEnded, steps, all_counted}

-- The first thread has the mutex and has loaded the variable.
abbrev loaded : Reach true 2 (record first_shared { locked = true }, storing 0 ∷ entering ∷ [])
loaded =
    later (later start (thread [] (entering ∷ []) (lock refl refl)))
      (thread [] (entering ∷ []) load)

all_counted_example :
    (steps loaded ≤ 10)
    × ((AllEnded (storing 0 ∷ entering ∷ [])
          × (first_shared.shared_variable ≡ 2)
          × (first_shared.printed ≡ count_up 2))
        ⊎ ((t : Shared × List Pc) × Step true
              (record first_shared { locked = true }, storing 0 ∷ entering ∷ [])
              t))
all_counted_example = all_counted 2 loaded

-- Without it both threads can load 0, and a count is lost.
lost : (m : Shared) × Reach false 2 (m, printing ∷ printing ∷ []) × (m.shared_variable ≡ 1)
lost =
    let first = later start (thread [] (entering ∷ []) (enter refl)) in
    let both = later first (thread (loading ∷ []) [] (enter refl)) in
    let first_loaded = later both (thread [] (loading ∷ []) load) in
    let both_loaded = later first_loaded (thread (storing 0 ∷ []) [] load) in
    let first_stored = later both_loaded (thread [] (storing 0 ∷ []) store) in
    (_, later first_stored (thread (printing ∷ []) [] store), refl)

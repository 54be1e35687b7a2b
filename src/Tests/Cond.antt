-- ===== src/Tests/Cond.antt =====
-- Runs of pthread-condition/pthread_cond_wait-pthread_cond_signal/main.c.
use c_examples.Base.{ℕ, ◌≡◌, refl, none, some, List, [], ◌∷◌, false}
use c_examples.Cond.Threads.{
  Shared, first_shared, held_by_child, finished, testing, p_locking, p_finished, lock, child, Reach,
  start, later,
}
use c_examples.Cond.Progress.{Progress, goes_on, one_inside}
use c_examples.Cond.Safe.{parent_inside}
use c_examples.Cond.Unlocked.{word_lost}

abbrev two_words : List (List ℕ)
two_words = (104 ∷ 105 ∷ []) ∷ (111 ∷ []) ∷ []

abbrev first_lock : Reach two_words (
  record first_shared { mutex = held_by_child },
  testing (some (104 ∷ 105 ∷ [])) (some (111 ∷ []) ∷ none ∷ []),
  p_locking,
)
first_lock = later start (child (lock refl))

goes_on_example :
    Progress
      (record first_shared { mutex = held_by_child })
      (testing (some (104 ∷ 105 ∷ [])) (some (111 ∷ []) ∷ none ∷ []))
      p_locking
goes_on_example = goes_on two_words first_lock

one_inside_example : parent_inside p_locking ≡ false
one_inside_example = one_inside two_words first_lock refl

word_lost_example :
    (m : Shared) × Reach ((104 ∷ 105 ∷ []) ∷ []) (m, finished, p_finished) × (m.printed ≡ [])
word_lost_example = word_lost (104 ∷ 105 ∷ [])

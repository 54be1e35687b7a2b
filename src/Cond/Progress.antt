-- ===== src/Cond/Progress.antt =====
-- The two threads of pthread-condition/pthread_cond_wait-pthread_cond_signal/main.c do not block each
-- other for good.
use c_examples.Base.{
  ℕ, ◌≡◌, ◌≢◌, refl, true, false, List, [], ◌∷◌, arith, Bool-cases, Option-cases, inl, inr,
}
use c_examples.Cond.Threads.{
  unlocked, Shared, ChildPc, locking, testing, waiting, freeing, storing, signalling, unlocking,
  finished, ParentPc, p_locking, p_testing, p_waiting, taking, p_signalling, p_unlocking, reading,
  printing, p_finished, p_lost, ChildStep, lock, wait, wake, proceed, free, store, signal, unlock,
  member, ParentStep, p_lock, p_wait, p_wake, p_proceed, take, p_signal, p_unlock, read_null,
  read_word, print, print_freed, Reach,
}
use c_examples.Cond.Safe.{Safe, child_inside, parent_inside, Reach-Safe}

-- A thread goes on to another place, which a wakeup without a signal does not; or both have finished;
-- or the parent has read freed memory.
pub data Progress (m : Shared) (p : ChildPc) (q : ParentPc) : Type 0 where
  child_moves : {m' : Shared} {p' : ChildPc} → ChildStep m p m' p' → p ≢ p' → Progress m p q
  parent_moves : {m' : Shared} {q' : ParentPc} → ParentStep m q m' q' → q ≢ q' → Progress m p q
  both_finished : p ≡ finished → q ≡ p_finished → Progress m p q
  read_freed : q ≡ p_lost → Progress m p q

free_mutex :
    {m : Shared} {p : ChildPc} {q : ParentPc}
    → Safe m p q
    → child_inside p ≡ false
    → parent_inside q ≡ false
    → m.mutex ≡ unlocked
free_mutex {m = m} s = ground arith

child_inside-Progress :
    {m : Shared} (p : ChildPc) {q : ParentPc} → child_inside p ≡ true → Progress m p q
child_inside-Progress {m = m} (testing w ws) e = elim (Bool-cases m.word_ready) [
  | inl h ↦ child_moves (wait h) (λ e. cc e)
  | inr h ↦ child_moves (proceed h) (λ e. cc e)
]
child_inside-Progress (freeing w ws) e = child_moves free (λ e. cc e)
child_inside-Progress (storing w ws) e = child_moves store (λ e. cc e)
child_inside-Progress (signalling ws) e = child_moves signal (λ e. cc e)
child_inside-Progress (unlocking []) e = child_moves unlock (λ e. cc e)
child_inside-Progress (unlocking (w ∷ ws)) e = child_moves unlock (λ e. cc e)
child_inside-Progress (locking w ws) e = absurd (cc e)
child_inside-Progress (waiting w ws) e = absurd (cc e)
child_inside-Progress finished e = absurd (cc e)

parent_inside-Progress :
    {m : Shared} {p : ChildPc} (q : ParentPc) → parent_inside q ≡ true → Progress m p q
parent_inside-Progress {m = m} p_testing e = elim (Bool-cases m.word_ready) [
  | inl h ↦ parent_moves (p_proceed h) (λ e. cc e)
  | inr h ↦ parent_moves (p_wait h) (λ e. cc e)
]
parent_inside-Progress taking e = parent_moves take (λ e. cc e)
parent_inside-Progress p_signalling e = parent_moves p_signal (λ e. cc e)
parent_inside-Progress p_unlocking e = parent_moves p_unlock (λ e. cc e)
parent_inside-Progress p_locking e = absurd (cc e)
parent_inside-Progress p_waiting e = absurd (cc e)
parent_inside-Progress reading e = absurd (cc e)
parent_inside-Progress (printing b) e = absurd (cc e)
parent_inside-Progress p_finished e = absurd (cc e)
parent_inside-Progress p_lost e = absurd (cc e)

reading-Progress : {m : Shared} {p : ChildPc} → Progress m p reading
reading-Progress {m = m} = elim (Option-cases m.shared_word) [
  | inl h ↦ parent_moves (read_null h) (λ e. cc e)
  | inr (b, h) ↦ parent_moves (read_word h) (λ e. cc e)
]

printing-Progress : {m : Shared} {p : ChildPc} (b : ℕ) → Progress m p (printing b)
printing-Progress {m = m} b = elim (Bool-cases (member b m.freed)) [
  | inl h ↦ parent_moves (print_freed h) (λ e. cc e)
  | inr h ↦ parent_moves (print h) (λ e. cc e)
]

-- Where both threads are outside, and the mutex is free.
outside-Progress :
    {m : Shared} (p : ChildPc) (q : ParentPc)
    → Safe m p q
    → child_inside p ≡ false
    → parent_inside q ≡ false
    → Progress m p q
outside-Progress p reading s c d = reading-Progress
outside-Progress p (printing b) s c d = printing-Progress b
outside-Progress p p_lost s c d = read_freed refl
outside-Progress p p_locking s c d = parent_moves (p_lock (free_mutex s c d)) (λ e. cc e)
outside-Progress (locking w ws) p_waiting s c d = child_moves (lock (free_mutex s c d)) (λ e. cc e)
outside-Progress (locking w ws) p_finished s c d = child_moves (lock (free_mutex s c d)) (λ e. cc e)
outside-Progress {m = m} (waiting w ws) p_waiting s c d = elim (Bool-cases m.child_waits) [
  | inl h ↦ parent_moves (p_wake (ground arith) (free_mutex s c d)) (λ e. cc e)
  | inr h ↦ child_moves (wake h (free_mutex s c d)) (λ e. cc e)
]
outside-Progress (waiting w ws) p_finished s c d = absurd (ground arith)
outside-Progress finished p_waiting s c d =
    parent_moves (p_wake (ground arith) (free_mutex s c d)) (λ e. cc e)
outside-Progress finished p_finished s c d = both_finished refl refl
outside-Progress (testing w ws) p_waiting s c d = absurd (cc c)
outside-Progress (testing w ws) p_finished s c d = absurd (cc c)
outside-Progress (freeing w ws) p_waiting s c d = absurd (cc c)
outside-Progress (freeing w ws) p_finished s c d = absurd (cc c)
outside-Progress (storing w ws) p_waiting s c d = absurd (cc c)
outside-Progress (storing w ws) p_finished s c d = absurd (cc c)
outside-Progress (signalling ws) p_waiting s c d = absurd (cc c)
outside-Progress (signalling ws) p_finished s c d = absurd (cc c)
outside-Progress (unlocking ws) p_waiting s c d = absurd (cc c)
outside-Progress (unlocking ws) p_finished s c d = absurd (cc c)
outside-Progress p p_testing s c d = absurd (cc d)
outside-Progress p taking s c d = absurd (cc d)
outside-Progress p p_signalling s c d = absurd (cc d)
outside-Progress p p_unlocking s c d = absurd (cc d)

-- In every state that the two threads reach, for all words, a thread goes on to another place (a
-- wakeup without a signal does not count), or both have finished, or the parent has read freed
-- memory.
pub goes_on :
    (words : List (List ℕ)) {m : Shared} {p : ChildPc} {q : ParentPc}
    → Reach words (m, p, q)
    → Progress m p q
goes_on words {p = p} {q = q} r =
    let (s, k) = Reach-Safe words r in
    elim (Bool-cases (child_inside p)) [
      | inl c ↦ child_inside-Progress p c
      | inr c ↦ elim (Bool-cases (parent_inside q)) [
        | inl d ↦ parent_inside-Progress q d
        | inr d ↦ outside-Progress p q s c d
      ]
    ]

-- No state that the two threads reach, for any words, has both of them behind their
-- `pthread_mutex_lock` and before their `pthread_mutex_unlock`, where a thread that waits in
-- `pthread_cond_wait`, which has released the mutex, does not count.
pub one_inside :
    (words : List (List ℕ)) {m : Shared} {p : ChildPc} {q : ParentPc}
    → Reach words (m, p, q)
    → child_inside p ≡ true
    → parent_inside q ≡ false
one_inside words r e = let (s, k) = Reach-Safe words r in ground arith

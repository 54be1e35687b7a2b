-- ===== src/Cond/Safe.antt =====
-- Who holds the mutex, and what the two threads wait for.
use c_examples.Base.{ℕ, ◌≡◌, ◌⊎◌, Bool, true, false, Option, none, some, List, [], ◌∷◌, arith}
use c_examples.Cond.Threads.{
  Mutex, held_by_child, held_by_parent, Shared, ChildPc, locking, testing, waiting, freeing,
  storing, signalling, unlocking, finished, ParentPc, p_locking, p_testing, p_waiting, taking,
  p_signalling, p_unlocking, reading, p_finished, next_word, ChildStep, lock, wait, stir, wake,
  proceed, free, store, signal, unlock, ParentStep, p_lock, p_wait, p_stir, p_wake, p_proceed, take,
  p_signal, p_unlock, read_null, read_word, print, print_freed, child, parent, first_shared, calls,
  Reach, start, later,
}

abbrev pub child_inside : ChildPc → Bool
child_inside (locking w ws) = false
child_inside (waiting w ws) = false
child_inside finished = false
child_inside _ = true

abbrev pub parent_inside : ParentPc → Bool
parent_inside p_testing = true
parent_inside taking = true
parent_inside p_signalling = true
parent_inside p_unlocking = true
parent_inside _ = false

abbrev holds_child : Mutex → Bool
holds_child held_by_child = true
holds_child _ = false

abbrev holds_parent : Mutex → Bool
holds_parent held_by_parent = true
holds_parent _ = false

-- Where the parent has taken a word and not yet read the pointer.
abbrev taken : ParentPc → Bool
taken p_signalling = true
taken p_unlocking = true
taken reading = true
taken _ = false

abbrev is_waiting : ChildPc → Bool
is_waiting (waiting w ws) = true
is_waiting _ = false

abbrev is_signalling : ChildPc → Bool
is_signalling (signalling ws) = true
is_signalling _ = false

abbrev p_is_waiting : ParentPc → Bool
p_is_waiting p_waiting = true
p_is_waiting _ = false

abbrev p_is_signalling : ParentPc → Bool
p_is_signalling p_signalling = true
p_is_signalling _ = false

abbrev p_is_finished : ParentPc → Bool
p_is_finished p_finished = true
p_is_finished _ = false

-- Behind the store of NULL, which is the last.
abbrev all_stored : ChildPc → Bool
all_stored (signalling []) = true
all_stored (unlocking []) = true
all_stored finished = true
all_stored _ = false

abbrev is_storing : ChildPc → Bool
is_storing (freeing w ws) = true
is_storing (storing w ws) = true
is_storing _ = false

abbrev is_taking : ParentPc → Bool
is_taking taking = true
is_taking _ = false

-- NULL is the last word, and only that.
abbrev Ends : List (Option (List ℕ)) → Type 0
Ends [] = ⊥
Ends (none ∷ []) = Unit
Ends (none ∷ _ ∷ _) = ⊥
Ends (some w ∷ ws) = Ends ws

abbrev Script : ChildPc → Type 0
Script (locking w ws) = Ends (w ∷ ws)
Script (testing w ws) = Ends (w ∷ ws)
Script (waiting w ws) = Ends (w ∷ ws)
Script (freeing w ws) = Ends (w ∷ ws)
Script (storing w ws) = Ends (w ∷ ws)
Script (signalling []) = Unit
Script (signalling (w ∷ ws)) = Ends (w ∷ ws)
Script (unlocking []) = Unit
Script (unlocking (w ∷ ws)) = Ends (w ∷ ws)
Script finished = Unit

pub record Safe (m : Shared) (p : ChildPc) (q : ParentPc) : Type 0 where
  pub child_holds : holds_child m.mutex ≡ child_inside p
  pub parent_holds : holds_parent m.mutex ≡ parent_inside q
  pub child_waits_there : m.child_waits ≡ true → is_waiting p ≡ true
  pub parent_waits_there : m.parent_waits ≡ true → p_is_waiting q ≡ true
  pub child_waits_for : m.child_waits ≡ true → (m.word_ready ≡ true) ⊎ (p_is_signalling q ≡ true)
  pub parent_waits_for : m.parent_waits ≡ true → (m.word_ready ≡ false) ⊎ (is_signalling p ≡ true)
  pub stores_when_free : is_storing p ≡ true → m.word_ready ≡ false
  pub takes_when_ready : is_taking q ≡ true → m.word_ready ≡ true
  pub null_is_last :
      (m.word_ready ≡ true) ⊎ (taken q ≡ true) → m.shared_word ≡ none → all_stored p ≡ true
  pub null_stays : all_stored p ≡ true → m.shared_word ≡ none
  pub null_is_taken :
      all_stored p ≡ true → (m.word_ready ≡ true) ⊎ (taken q ≡ true) ⊎ (p_is_finished q ≡ true)
  pub finishes_last : p_is_finished q ≡ true → all_stored p ≡ true

ChildStep-Safe :
    (q : ParentPc) {m m' : Shared} {p p' : ChildPc}
    → ChildStep m p m' p'
    → Script p
    → Safe m p q
    → Safe m' p' q × Script p'
ChildStep-Safe q (lock h) k s = (ground arith, k)
ChildStep-Safe q (wait h) k s = (ground arith, k)
ChildStep-Safe q stir k s = (ground arith, k)
ChildStep-Safe q (wake h g) k s = (ground arith, k)
ChildStep-Safe q (proceed h) k s = (ground arith, k)
ChildStep-Safe q free k s = (ground arith, k)
ChildStep-Safe q (store {w = none} {ws = []}) k s = (ground arith, tt)
ChildStep-Safe q (store {w = none} {ws = v ∷ ws}) k s = absurd k
ChildStep-Safe q (store {w = some w} {ws = []}) k s = absurd k
ChildStep-Safe q (store {w = some w} {ws = v ∷ ws}) k s = (ground arith, k)
ChildStep-Safe q (signal {ws = []}) k s = (ground arith, tt)
ChildStep-Safe q (signal {ws = v ∷ ws}) k s = (ground arith, k)
ChildStep-Safe q (unlock {ws = []}) k s = (ground arith, tt)
ChildStep-Safe q (unlock {ws = v ∷ ws}) k s = (ground arith, k)

ParentStep-Safe :
    (p : ChildPc) {m m' : Shared} {q q' : ParentPc}
    → ParentStep m q m' q'
    → Safe m p q
    → Safe m' p q'
ParentStep-Safe p (p_lock h) s = ground arith
ParentStep-Safe p (p_wait h) s = ground arith
ParentStep-Safe p p_stir s = ground arith
ParentStep-Safe p (p_wake h g) s = ground arith
ParentStep-Safe p (p_proceed h) s = ground arith
ParentStep-Safe p take s = ground arith
ParentStep-Safe p p_signal s = ground arith
ParentStep-Safe p p_unlock s = ground arith
ParentStep-Safe p (read_null h) s = ground arith
ParentStep-Safe p (read_word h) s = ground arith
ParentStep-Safe p (print h) s = ground arith
ParentStep-Safe p (print_freed h) s = ground arith

calls-Ends : (words : List (List ℕ)) → Ends (calls words)
calls-Ends [] = tt
calls-Ends (w ∷ words) = calls-Ends words

start-Safe : (words : List (List ℕ)) → Safe first_shared (next_word (calls words)) p_locking
start-Safe [] = ground arith
start-Safe (w ∷ words) = ground arith

start-Script : (words : List (List ℕ)) → Script (next_word (calls words))
start-Script [] = tt
start-Script (w ∷ words) = calls-Ends words

pub Reach-Safe :
    (words : List (List ℕ)) {m : Shared} {p : ChildPc} {q : ParentPc}
    → Reach words (m, p, q)
    → Safe m p q × Script p
Reach-Safe words start = (start-Safe words, start-Script words)
Reach-Safe words (later r (child {q = q} c)) =
    let (s, k) = Reach-Safe words r in ChildStep-Safe q c k s
Reach-Safe words (later r (parent {p = p} c)) =
    let (s, k) = Reach-Safe words r in (ParentStep-Safe p c s, k)

-- ===== src/Pipe/Ahead.antt =====
-- The child of pipe/synchronized, ahead of its parent.
use c_examples.Base.{
  ℕ, suc, ◌+◌, ◌≤◌, ◌-◌, ◌≡◌, refl, List, [], ◌∷◌, ◌++◌, length, length-append, append_assoc,
  append-nil, arith,
}
use mathlib.Core.Path.{subst}
use c_examples.Pipe.Splitter.{words}
use c_examples.Pipe.Processes.{frame}
use c_examples.Pipe.Together.{to_feed, frames, AllShort}
use c_examples.Pipe.Preserved.{child_process-to_feed}
use c_examples.Pipe.Synchronized.{
  Synchronized, child_done, go_on, waiting_word, ChildStep, write_length, write_word, child, Reach,
  start, later, initial_value,
}

-- With nothing printed.
abbrev pub unprinted : List ℕ → ℕ → ℕ → Synchronized
unprinted pipe sem_parent sem_child = record {
  shared = record { pipe = pipe; printed = [] };
  sem_parent = sem_parent;
  sem_child = sem_child;
}

module _ (a b : ℕ) (file : List ℕ) where
  -- One call of `send_word`, which does not wait.
  send_one :
      (w : List ℕ) (l : List (List ℕ)) (pipe : List ℕ) (i n : ℕ)
      → Reach a b file (unprinted pipe i (suc n), go_on (to_feed (w ∷ l)), waiting_word)
      → Reach a b file (unprinted (pipe ++ frame w) (suc i) n, go_on (to_feed l), waiting_word)
  send_one [] l pipe i n r =
      later (later (later r (child write_length)) (child ChildStep.post))
        (child (ChildStep.wait refl))
  send_one (c ∷ w) l pipe i n r =
      let written : Reach a b file
          (unprinted (pipe ++ frame (c ∷ w)) (suc i) n, go_on (to_feed l), waiting_word) =
        subst (λ pipe. Reach a b file (unprinted pipe (suc i) n, go_on (to_feed l), waiting_word))
          (append_assoc pipe (suc (length w) ∷ []) (c ∷ w))
          (later
            (later (later (later r (child write_length)) (child write_word)) (child ChildStep.post))
            (child (ChildStep.wait refl))) in
      written

  send_all :
      (l : List (List ℕ)) (pipe : List ℕ) {i j k n : ℕ}
      → k ≡ length l + n
      → j ≡ length l + i
      → Reach a b file (unprinted pipe i k, go_on (to_feed l), waiting_word)
      → Reach a b file (unprinted (pipe ++ frames l) j n, child_done, waiting_word)
  send_all [] pipe {i} {j} {k} {n} e f r =
      let e : k ≡ n = omega (arith, e) in
      let f : j ≡ i = omega (arith, f) in rw (append-nil, f, ← e) r
  send_all (w ∷ l) pipe {i} {j} {k} {n} e f r =
      let e : k ≡ suc (length l + n) = omega (arith, e) in
      let r =
        subst (λ k. Reach a b file (unprinted pipe i k, go_on (to_feed (w ∷ l)), waiting_word)) e
          r in
      let sent =
        send_all l (pipe ++ frame w) {j = j} refl (omega (arith, f))
          (send_one w l pipe i (length l + n) r) in
      subst (λ pipe. Reach a b file (unprinted pipe j n, child_done, waiting_word))
        (append_assoc pipe (frame w) (frames l)) sent

  -- Where `sem_child` has enough for all words, and the empty one, the child does not wait.
  sends_ahead :
      AllShort (words file)
      → length (words file) + 1 ≤ b
      → Reach a b file (
        unprinted
            (frames (words file ++ [] ∷ []))
            (length (words file) + 1 + a)
            (b - (length (words file) + 1)),
        child_done,
        waiting_word,
      )
  sends_ahead short enough =
      let all = words file ++ [] ∷ [] in
      let count : length all ≡ length (words file) + 1 = length-append (words file) ([] ∷ []) in
      let begin : Reach a b file (unprinted [] a b, go_on (to_feed all), waiting_word) =
        rw (← child_process-to_feed file short) start in
      send_all all [] (omega (arith, count, enough)) (omega (arith, count)) begin

-- With the initial values that pipe/synchronized gives to `sem_open`, 420, and a file of at most
-- 419 words, all shorter than 255: the child can send them all, and end, before the parent has
-- read the first one, the semaphores having held it up nowhere, as long as the pipe takes what it
-- writes.
pub child_ends_first :
    (file : List ℕ)
    → AllShort (words file)
    → length (words file) ≤ 419
    → Reach initial_value initial_value file (
      unprinted
          (frames (words file ++ [] ∷ []))
          (length (words file) + 1 + initial_value)
          (initial_value - (length (words file) + 1)),
      child_done,
      waiting_word,
    )
child_ends_first file short enough =
    sends_ahead initial_value initial_value file short (omega (arith, enough))

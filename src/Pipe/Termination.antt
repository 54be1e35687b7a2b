-- ===== src/Pipe/Termination.antt =====
-- Counting what the two processes of pipe/reliable have still to do.
use c_examples.Base.{
  ℕ, suc, ◌+◌, ◌*◌, ◌≤◌, ◌<◌, ◌≡◌, refl, ap, ◌⊎◌, List, [], ◌∷◌, length, arith, length-append,
  c_string, map,
}
use c_examples.Pipe.Splitter.{Feed, send, finish, fails, overruns, words, child_process}
use c_examples.Pipe.Processes.{
  Shared, ChildPc, writing, awaiting_parent, child_done, child_failed, child_lost, frame, go_on,
  ParentPc, awaiting_word, reading_length, reading, posting, parent_done, parent_lost, ChildStep,
  write, post_parent, wait_child, ParentStep, wait_parent, read_end, read_length, read, print,
  overrun, post_child, Step, child, parent, Reach, start, later, first_shared,
}
use c_examples.Pipe.Together.{AllShort}
use c_examples.Pipe.Ending.{no_deadlock}

-- A byte to write is a step for each process. A semaphore that is posted is good for the parent's wait
-- and what follows it.
abbrev to_send : Feed → ℕ
to_send (send word rest) = 2 * length (frame word) + 5 + to_send rest
to_send finish = 0
to_send fails = 0
to_send overruns = 0

abbrev child_work : ChildPc → ℕ
child_work (writing bs k) = 2 * length bs + 5 + to_send k
child_work (awaiting_parent k) = 1 + to_send k
child_work child_done = 0
child_work child_failed = 0
child_work child_lost = 0

abbrev parent_work : ParentPc → ℕ
parent_work awaiting_word = 0
parent_work reading_length = 2
parent_work (reading n buf) = 2
parent_work posting = 1
parent_work parent_done = 0
parent_work parent_lost = 0

abbrev pub work : Shared × ChildPc × ParentPc → ℕ
work (m, p, q) = child_work p + length m.pipe + 3 * m.sem_parent + parent_work q

child_work-go_on : (k : Feed) → child_work (go_on k) ≡ to_send k
child_work-go_on (send word rest) = refl
child_work-go_on finish = refl
child_work-go_on fails = refl
child_work-go_on overruns = refl

ChildStep-work :
    (q : ParentPc) {m m' : Shared} {p p' : ChildPc}
    → ChildStep m p m' p'
    → work (m', p', q) < work (m, p, q)
ChildStep-work q {m} (write {b = b}) = omega (arith, length-append m.pipe (b ∷ []))
ChildStep-work q post_parent = omega arith
ChildStep-work q (wait_child {rest = rest} h) = omega (arith, child_work-go_on rest)

ParentStep-work :
    (p : ChildPc) {m m' : Shared} {q q' : ParentPc}
    → ParentStep m q m' q'
    → work (m', p, q') < work (m, p, q)
ParentStep-work p (wait_parent h) = omega arith
ParentStep-work p (read_end e) = omega (arith, ap length e)
ParentStep-work p (read_length e) = omega (arith, ap length e)
ParentStep-work p (read e) = omega (arith, ap length e)
ParentStep-work p (print h) = omega arith
ParentStep-work p (overrun h) = omega arith
ParentStep-work p post_child = omega arith

-- Every step of either process leaves less to do: no run goes on for ever.
pub Step-work : {s t : Shared × ChildPc × ParentPc} → Step s t → work t < work s
Step-work (child {q = q} st) = ChildStep-work q st
Step-work (parent {p = p} st) = ParentStep-work p st

abbrev pub first : List ℕ → Shared × ChildPc × ParentPc
first file = (first_shared, go_on (child_process file), awaiting_word)

abbrev pub steps : {file : List ℕ} {s : Shared × ChildPc × ParentPc} → Reach file s → ℕ
steps start = 0
steps (later r st) = suc (steps r)

steps-work :
    (file : List ℕ) {s : Shared × ChildPc × ParentPc} (r : Reach file s)
    → steps r + work s ≤ work (first file)
steps-work file start = omega arith
steps-work file (later r st) = omega (arith, steps-work file r, Step-work st)

-- Where all words of the file are shorter than 255: every run of the two processes is finite, of
-- a length that the file bounds, and can only stop when both have ended and all words of the file
-- are printed, in their order, each up to its first NUL.
pub all_runs_end :
    (file : List ℕ) {s : Shared × ChildPc × ParentPc}
    → AllShort (words file)
    → (r : Reach file s)
    → (steps r ≤ work (first file))
      × (((s.1 ≡ child_done) × (s.2 ≡ parent_done) × (s.0.printed ≡ map c_string (words file)))
          ⊎ ((t : Shared × ChildPc × ParentPc) × Step s t))
all_runs_end file short r = (omega (arith, steps-work file r), no_deadlock file short r)

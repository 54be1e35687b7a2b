-- ===== src/Tests/Pipe.antt =====
-- pipe/reliable on the file "a hi", up to where the parent has printed the first word.
use c_examples.Base.{ℕ, ◌≤◌, ◌≡◌, refl, ◌⊎◌, List, [], ◌∷◌, ◌++◌, arith, map, c_string}
use c_examples.Pipe.Splitter.{send, finish, child_process, words, feed, child_process-feed}
use c_examples.Pipe.Processes.{
  Shared, ChildPc, writing, child_done, ParentPc, reading, posting, parent_done, write, post_parent,
  wait_child, wait_parent, read_length, read, print, Step, child, parent, Reach, start, later,
}
use c_examples.Pipe.Together.{AllShort}
use c_examples.Pipe.Ending.{printed_first}
use c_examples.Pipe.Termination.{work, first, steps, all_runs_end}

abbrev file : List ℕ
file = 97 ∷ 32 ∷ 104 ∷ 105 ∷ 10 ∷ []

words_of_file : words file ≡ (97 ∷ []) ∷ (104 ∷ 105 ∷ []) ∷ []
unfolding words
words_of_file = refl

child_process-feed_example : child_process file ≡ feed (words file)
child_process-feed_example = child_process-feed file

file-AllShort : AllShort (words file)
unfolding words
file-AllShort = (omega arith, (omega arith, tt))

abbrev printed_state : Shared × ChildPc × ParentPc
printed_state = (
  record { sem_parent = 0; sem_child = 0; pipe = 2 ∷ []; printed = (97 ∷ []) ∷ [] },
  writing (104 ∷ 105 ∷ []) (send [] finish),
  posting,
)

-- The child is ahead by a part of the second word, and the parent holds the first.
abbrev held_state : Shared × ChildPc × ParentPc
held_state = (
  record { sem_parent = 0; sem_child = 0; pipe = 2 ∷ []; printed = [] },
  writing (104 ∷ 105 ∷ []) (send [] finish),
  reading 0 (97 ∷ []),
)

held-Reach : Reach file held_state
unfolding child_process
held-Reach =
    later
      (later
        (later
          (later
            (later (later (later (later start (child write)) (child write)) (child post_parent))
              (child (wait_child (omega arith))))
            (parent (wait_parent (omega arith))))
          (child write))
        (parent (read_length refl)))
      (parent (read refl))

printing : Step held_state printed_state
printing = parent (print (omega arith))

printed-Reach : Reach file printed_state
printed-Reach = later held-Reach printing

printed_first_example :
    (heard rest : List (List ℕ)) × (words file ≡ heard ++ rest)
    × (printed_state.0.printed ≡ map c_string heard)
printed_first_example = printed_first file {s = printed_state} file-AllShort printed-Reach

all_runs_end_example :
    (steps printed-Reach ≤ work (first file))
    × (((printed_state.1 ≡ child_done)
          × (printed_state.2 ≡ parent_done)
          × (printed_state.0.printed ≡ map c_string (words file)))
        ⊎ ((t : Shared × ChildPc × ParentPc) × Step printed_state t))
all_runs_end_example = all_runs_end file {s = printed_state} file-AllShort printed-Reach

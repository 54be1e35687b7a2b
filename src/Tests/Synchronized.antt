-- ===== src/Tests/Synchronized.antt =====
-- pipe/synchronized on the file "a b", up to where the parent has printed the first word.
use c_examples.Base.{ℕ, ◌+◌, ◌-◌, ◌≤◌, List, [], ◌∷◌, ◌++◌, length, refl, arith}
use c_examples.Pipe.Splitter.{send, finish, child_process, words}
use c_examples.Pipe.Together.{AllShort, frames}
use c_examples.Pipe.Synchronized.{
  Synchronized, waiting, child_done, waiting_word, posting_child, ChildStep, write_length,
  write_word, ParentStep, read_length, read_word, child, parent, Reach, start, later, initial_value,
}
use c_examples.Pipe.Lead.{unsent, unposted, begun, lead}
use c_examples.Pipe.Ahead.{unprinted, child_ends_first}

abbrev file : List ℕ
file = 97 ∷ 32 ∷ 98 ∷ []

file-AllShort : AllShort (words file)
unfolding words
file-AllShort = (omega arith, (omega arith, tt))

abbrev printed_state : Synchronized
printed_state = record {
  shared = record { pipe = []; printed = (97 ∷ []) ∷ [] };
  sem_parent = 0;
  sem_child = 0;
}

-- With 0 in both semaphores.
printed-Reach :
    Reach 0 0 file (printed_state, waiting (send (98 ∷ []) (send [] finish)), posting_child)
unfolding child_process
printed-Reach =
    let written = later (later start (child write_length)) (child write_word) in
    let posted = later (later written (child ChildStep.post)) (parent (ParentStep.wait refl)) in
    later (later posted (parent (read_length refl)))
      (parent (read_word (omega arith) (omega arith)))

lead_example :
    (length (words file) + 1 ≤ 1 + 0 + 1 + unsent (waiting (send (98 ∷ []) (send [] finish))))
    × (1 + begun posting_child + unposted (waiting (send (98 ∷ []) (send [] finish)))
        ≤ length (words file) + 1 + 0)
lead_example = lead 0 0 file file-AllShort printed-Reach

-- The first word is sent and posted, and the parent is about to read its length.
abbrev posted_state : Synchronized
posted_state = record {
  shared = record { pipe = 1 ∷ 97 ∷ []; printed = [] };
  sem_parent = 0;
  sem_child = 0;
}

file_enough : length (words file) ≤ 419
unfolding words
file_enough = omega arith

child_ends_first_example : Reach initial_value initial_value file (
  unprinted
      (frames (words file ++ [] ∷ []))
      (length (words file) + 1 + initial_value)
      (initial_value - (length (words file) + 1)),
  child_done,
  waiting_word,
)
child_ends_first_example = child_ends_first file file-AllShort file_enough

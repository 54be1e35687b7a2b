-- ===== src/Tests/Simple.antt =====
-- pipe/simple on the file "a b", up to where the parent has printed the first word.
use c_examples.Base.{ℕ, ◌≡◌, ◌≢◌, List, [], ◌∷◌, ◌++◌, refl, arith, map, c_string}
use c_examples.Pipe.Splitter.{send, finish, child_process, words}
use c_examples.Pipe.Together.{AllShort}
use c_examples.Pipe.Simple.{
  Shared, writing_length, reading_length, parent_lost, write_length, write_word, read_length,
  read_word, child, parent, Reach, start, later,
}
use c_examples.Pipe.Order.{printed_in_order}

abbrev file : List ℕ
file = 97 ∷ 32 ∷ 98 ∷ []

file-AllShort : AllShort (words file)
unfolding words
file-AllShort = (omega arith, (omega arith, tt))

abbrev printed_shared : Shared
printed_shared = record { pipe = []; printed = (97 ∷ []) ∷ [] }

-- The parent has read the length before the child writes the word.
printed-Reach :
    Reach file (printed_shared, writing_length (98 ∷ []) (send [] finish), reading_length)
unfolding child_process
printed-Reach =
    let asked = later (later start (child write_length)) (parent (read_length refl)) in
    later (later asked (child write_word)) (parent (read_word (omega arith) (omega arith)))

printed_in_order_example :
    (reading_length ≢ parent_lost)
    × ((heard rest : List (List ℕ)) × (words file ++ [] ∷ [] ≡ heard ++ rest)
        × (((97 ∷ []) ∷ []) ≡ map c_string heard))
printed_in_order_example = printed_in_order file {m = printed_shared} file-AllShort printed-Reach

-- ===== src/Tests/Io.antt =====
-- Reading in full, at a stream that is cut, interrupted, and ended or failed.
use c_examples.Base.{◌≡◌, refl, List, [], ◌∷◌, some}
use c_examples.Io.Stream.{Event, arrive, interrupt, failure, read}
use c_examples.Io.ReadFull.{Outcome, complete, closed, error, read_full, Read, read_full-Read}

abbrev cut_stream : List Event
cut_stream = arrive 1 [] ∷ interrupt ∷ arrive 2 (3 ∷ 4 ∷ []) ∷ []

read_three :
    read_full 3 cut_stream
    ≡ some (record { rc = complete; buf = 1 ∷ 2 ∷ 3 ∷ []; rest = arrive 4 [] ∷ [] })
unfolding read_full read
read_three = refl

read_too_many :
    read_full 5 cut_stream ≡ some (record { rc = closed; buf = 1 ∷ 2 ∷ 3 ∷ 4 ∷ []; rest = [] })
unfolding read_full read
read_too_many = refl

read_failing :
    read_full 2 (arrive 9 [] ∷ failure ∷ []) ≡ some (record { rc = error; buf = 9 ∷ []; rest = [] })
unfolding read_full read
read_failing = refl

read_full-Read_example : (o : Outcome) × (read_full 3 cut_stream ≡ some o) × Read 3 [] cut_stream o
read_full-Read_example = read_full-Read 3 cut_stream

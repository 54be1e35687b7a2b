-- ===== src/Pipe/Together.antt =====
-- Where the two processes of pipe/reliable can be together, and what the pipe holds then.
use c_examples.Base.{ℕ, ◌+◌, ◌<◌, ◌≡◌, refl, List, [], ◌∷◌, ◌++◌, length, arith, c_string, map}
use c_examples.Pipe.Splitter.{AllNonempty, Feed, send, finish, max_word_length}
use c_examples.Pipe.Processes.{
  Shared, ChildPc, writing, awaiting_parent, child_done, child_failed, child_lost, frame, ParentPc,
  awaiting_word, reading_length, reading, posting, parent_done, parent_lost,
}

-- The calls of `send_word` for these words, then the end.
abbrev pub to_feed : List (List ℕ) → Feed
to_feed [] = finish
to_feed (w ∷ ws) = send w (to_feed ws)

abbrev pub frames : List (List ℕ) → List ℕ
frames [] = []
frames (w ∷ ws) = frame w ++ frames ws

abbrev pub AllShort : List (List ℕ) → Type 0
AllShort [] = Unit
AllShort (w ∷ ws) = (length w < max_word_length) × AllShort ws

-- With `written` of the word being sent in the pipe, and the words `rest` not yet posted.
abbrev pub Child : ChildPc → List ℕ → List (List ℕ) → Type 0
Child (writing bs k) written rest =
    (f : List ℕ) × (fs : List (List ℕ)) × (rest ≡ f ∷ fs)
    × (written ++ bs ≡ frame f)
    × (k ≡ to_feed fs)
Child (awaiting_parent k) written rest = (written ≡ []) × (k ≡ to_feed rest)
Child child_done written rest = (written ≡ []) × (rest ≡ [])
Child child_failed written rest = ⊥
Child child_lost written rest = ⊥

-- With `left` of the word being received in the pipe, and the words `seen` waited for.
abbrev pub Parent : List (List ℕ) → ParentPc → List ℕ → List (List ℕ) → Type 0
Parent printed awaiting_word left seen = (left ≡ []) × (seen ≡ printed)
Parent printed reading_length left seen =
    (f : List ℕ) × (left ≡ frame f) × (seen ≡ printed ++ f ∷ [])
Parent printed (reading n buf) left seen =
    (length left ≡ n) × (seen ≡ printed ++ (buf ++ left) ∷ []) × (0 < length buf + n)
Parent printed posting left seen = (left ≡ []) × (seen ≡ printed)
Parent printed parent_done left seen = (left ≡ []) × (seen ≡ printed ++ [] ∷ [])
Parent printed parent_lost left seen = ⊥

abbrev pub waiting : ChildPc → ℕ
waiting (awaiting_parent k) = 1
waiting _ = 0

abbrev pub busy : ParentPc → ℕ
busy awaiting_word = 0
busy _ = 1

-- The words, and the empty one at the end, fall into those waited for, those posted, and the rest; those
-- heard are received whole, and printed up to their first NUL.
pub record Together (ws : List (List ℕ)) (m : Shared) (p : ChildPc) (q : ParentPc) : Type 0 where
  pub heard : List (List ℕ)
  pub seen : List (List ℕ)
  pub queue : List (List ℕ)
  pub rest : List (List ℕ)
  pub left : List ℕ
  pub written : List ℕ
  pub whole : ws ++ [] ∷ [] ≡ seen ++ (queue ++ rest)
  pub in_pipe : m.pipe ≡ left ++ (frames queue ++ written)
  pub posted : length queue ≡ m.sem_parent
  pub child_at : Child p written rest
  pub parent_at : Parent heard q left seen
  pub shown : m.printed ≡ map c_string heard
  pub spoken : AllNonempty heard
  pub balance : m.sem_parent + m.sem_child + busy q ≡ 1 + waiting p

pub AllShort-end : (ws : List (List ℕ)) → AllShort ws → AllShort (ws ++ [] ∷ [])
AllShort-end [] h = (omega arith, tt)
AllShort-end (w ∷ ws) h = (h.0, AllShort-end ws h.1)

pub AllShort-append : (l k : List (List ℕ)) → AllShort (l ++ k) → AllShort l
AllShort-append [] k h = tt
AllShort-append (w ∷ l) k h = (h.0, AllShort-append l k h.1)

pub AllShort-last :
    (l : List (List ℕ)) (w : List ℕ) → AllShort (l ++ w ∷ []) → length w < max_word_length
AllShort-last [] w h = h.0
AllShort-last (x ∷ l) w h = AllShort-last l w h.1

pub length-zero : {A : Type 0} (l : List A) → length l ≡ 0 → l ≡ []
length-zero [] h = refl
length-zero (x ∷ l) h = absurd (omega arith)

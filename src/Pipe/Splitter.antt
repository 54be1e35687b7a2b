-- ===== src/Pipe/Splitter.antt =====
-- How `child_process` of pipe/reliable/main.c cuts the file into words.
use c_examples.Base.{
  ℕ, ◌≤◌, ◌<◌, ◌≡◌, refl, ap, ◌∙◌, Bool, true, false, ◌||◌, List, [], ◌∷◌, ◌++◌, length,
  append_assoc, append-nil, length-append, ltb, leb, ◌==◌, if◌then◌else◌, arith, Bool-cases, inl,
  inr,
}

abbrev pub max_word_length : ℕ
max_word_length = 255

-- The calls of `send_word`, and how the loop ends: `finish` closes the file, `fails` is the exit at a
-- word that is too long, and `overruns` the write behind the end of `word`. The word of the last call,
-- NULL, is empty.
pub data Feed : Type 0 where
  send : List ℕ → Feed → Feed
  finish : Feed
  fails : Feed
  overruns : Feed

abbrev pub is_blank : ℕ → Bool
is_blank c = (c == 32) || (c == 10) || (c == 9)

-- `if(length > 0)`: `word[length] = '\0'`, where `word` has 255 elements, and `send_word`.
unfoldable pub end_word : List ℕ → Feed → Feed
end_word word rest =
    if ltb 0 (length word)
    then (if ltb (length word) max_word_length then send word rest else overruns)
    else rest

-- The loop and what follows it; `word` holds the characters up to `length`.
unfoldable pub child_process_from : List ℕ → List ℕ → Feed
unfolding end_word
child_process_from [] word = end_word word (send [] finish)
child_process_from (ch ∷ file) word = elim (is_blank ch) [
  | true ↦ end_word word (child_process_from file [])
  | false ↦ elim (leb max_word_length (length word)) [
    | true ↦ fails
    | false ↦ child_process_from file (word ++ ch ∷ [])
  ]
]

unfoldable pub child_process : List ℕ → Feed
unfolding child_process_from
child_process file = child_process_from file []

abbrev cons_first : ℕ → List (List ℕ) → List (List ℕ)
cons_first c [] = (c ∷ []) ∷ []
cons_first c (w ∷ ws) = (c ∷ w) ∷ ws

-- The stretches between two blanks, empty ones included.
abbrev split : List ℕ → List (List ℕ)
split [] = [] ∷ []
split (c ∷ s) = let rest = split s in if is_blank c then [] ∷ rest else cons_first c rest

abbrev nonempty : List (List ℕ) → List (List ℕ)
nonempty [] = []
nonempty ([] ∷ ws) = nonempty ws
nonempty ((c ∷ w) ∷ ws) = (c ∷ w) ∷ nonempty ws

abbrev pub AllNonempty : List (List ℕ) → Type 0
AllNonempty [] = Unit
AllNonempty (w ∷ ws) = (0 < length w) × AllNonempty ws

-- The words of a text.
unfoldable pub words : List ℕ → List (List ℕ)
words s = nonempty (split s)

-- Words one after the other, up to the first that is not shorter than 255.
abbrev pub feed : List (List ℕ) → Feed
feed [] = send [] finish
feed (w ∷ ws) =
    let rest = feed ws in
    if ltb (length w) 255 then send w rest else (if length w == 255 then overruns else fails)

abbrev prepend : List ℕ → List (List ℕ) → List (List ℕ)
prepend w [] = w ∷ []
prepend w (x ∷ l) = (w ++ x) ∷ l

prepend-cons_first :
    (w : List ℕ) (c : ℕ) (l : List (List ℕ)) → prepend (w ++ c ∷ []) l ≡ prepend w (cons_first c l)
prepend-cons_first w c [] = refl
prepend-cons_first w c (x ∷ l) = ap (λ y. y ∷ l) (append_assoc w (c ∷ []) x)

prepend-nil-cons_first : (c : ℕ) (l : List (List ℕ)) → prepend [] (cons_first c l) ≡ cons_first c l
prepend-nil-cons_first c [] = refl
prepend-nil-cons_first c (x ∷ l) = refl

prepend-split : (s : List ℕ) → prepend [] (split s) ≡ split s
prepend-split [] = refl
prepend-split (c ∷ s) = elim (Bool-cases (is_blank c)) [
  | inl blank ↦ rw blank
  | inr letter ↦ rw letter (prepend-nil-cons_first c (split s))
]

end_word_some :
    (c : ℕ) (w : List ℕ) (rest : Feed)
    → length (c ∷ w) ≤ 255
    → end_word (c ∷ w) rest ≡ (
        if ltb (length (c ∷ w)) 255
        then send (c ∷ w) rest
        else (if length (c ∷ w) == 255 then overruns else fails))
unfolding end_word
end_word_some c w rest h = ground arith

end_word-feed :
    (w : List ℕ) (ws : List (List ℕ))
    → length w ≤ 255
    → end_word w (feed (nonempty ws)) ≡ feed (nonempty ((w ++ []) ∷ ws))
unfolding end_word
end_word-feed [] ws h = refl
end_word-feed (c ∷ w) ws h = rw (append-nil w) (end_word_some c w (feed (nonempty ws)) h)

too_long :
    (w : List ℕ) (c : ℕ) (l : List (List ℕ))
    → 255 ≤ length w
    → fails ≡ feed (nonempty (prepend w (cons_first c l)))
too_long [] c l h = absurd (omega arith)
too_long (b ∷ w) c [] h = ground (arith, length-append w (c ∷ []))
too_long (b ∷ w) c (x ∷ l) h = ground (arith, length-append w (c ∷ x))

child_process_from-feed :
    (file word : List ℕ)
    → length word ≤ 255
    → child_process_from file word ≡ feed (nonempty (prepend word (split file)))
unfolding child_process_from
child_process_from-feed [] word h = end_word-feed word [] h
child_process_from-feed (ch ∷ file) word h = elim (Bool-cases (is_blank ch)) [
  | inl blank ↦
      rw (blank, child_process_from)
        (ap (end_word word) (
            child_process_from-feed file [] (omega arith)
            ∙ ap (λ l. feed (nonempty l)) (prepend-split file))
          ∙ end_word-feed word (split file) h)
  | inr letter ↦ elim (Bool-cases (leb max_word_length (length word))) [
    | inl full ↦
        rw (letter, child_process_from) (rw full (too_long word ch (split file) (ground arith)))
    | inr room ↦
        rw (letter, child_process_from)
          (rw room (
            child_process_from-feed file (word ++ ch ∷ [])
              (ground (arith, length-append word (ch ∷ [])))
            ∙ ap (λ l. feed (nonempty l)) (prepend-cons_first word ch (split file))))
  ]
]

-- `child_process` sends the words of the file, in order, and then the empty one; but at a word of
-- 255 characters or more it stops: it writes behind the end of `word` when there are exactly 255,
-- and ends the process when there are more.
pub child_process-feed : (file : List ℕ) → child_process file ≡ feed (words file)
unfolding child_process words
child_process-feed file =
    child_process_from-feed file [] (omega arith) ∙ ap (λ l. feed (nonempty l)) (prepend-split file)

nonempty-AllNonempty : (ws : List (List ℕ)) → AllNonempty (nonempty ws)
nonempty-AllNonempty [] = tt
nonempty-AllNonempty ([] ∷ ws) = nonempty-AllNonempty ws
nonempty-AllNonempty ((c ∷ w) ∷ ws) = (omega arith, nonempty-AllNonempty ws)

pub words-AllNonempty : (s : List ℕ) → AllNonempty (words s)
unfolding words
words-AllNonempty s = nonempty-AllNonempty (split s)

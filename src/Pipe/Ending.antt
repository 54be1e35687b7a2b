-- ===== src/Pipe/Ending.antt =====
-- What the parent of pipe/reliable prints, who can go on, and how the two processes end.
use c_examples.Base.{
  ℕ, zero, suc, ◌+◌, ◌-◌, ◌<◌, ◌≡◌, ◌≢◌, refl, sym, ap, ◌∙◌, ◌⊎◌, inl, inr, List, [], ◌∷◌, ◌++◌,
  length, arith, append_assoc, append-nil, length-append, c_string, map,
}
use native.Mathlib.Decide.{dec_lt}
use c_examples.Pipe.Splitter.{max_word_length, words, AllNonempty, words-AllNonempty}
use c_examples.Pipe.Processes.{
  Shared, ChildPc, writing, awaiting_parent, child_done, child_failed, child_lost, ParentPc,
  awaiting_word, reading_length, reading, posting, parent_done, parent_lost, write, post_parent,
  wait_child, wait_parent, read_end, read_length, read, print, overrun, post_child, Step, child,
  parent, Reach,
}
use c_examples.Pipe.Preserved.{Reach-Together}
use c_examples.Pipe.Together.{AllShort, frames, Parent, Together, busy, length-zero}

-- Two lists of words, each up to its empty word.
unique_end :
    (l k a b : List (List ℕ))
    → AllNonempty l
    → AllNonempty k
    → l ++ [] ∷ a ≡ k ++ [] ∷ b
    → (l ≡ k) × (a ≡ b)
unique_end [] [] a b h g e = (refl, cc)
unique_end [] ((c ∷ w) ∷ k) a b h g e = absurd (cc e)
unique_end [] ([] ∷ k) a b h g e = absurd (omega arith)
unique_end ((c ∷ w) ∷ l) [] a b h g e = absurd (cc e)
unique_end ([] ∷ l) k a b h g e = absurd (omega arith)
unique_end ((c ∷ w) ∷ l) (x ∷ k) a b h g e =
    let (same, ends) = unique_end l k a b h.1 g.1 (cc e) in
    let first : c ∷ w ≡ x = cc e in (cc (same, first), ends)

up_to_end :
    (l k b : List (List ℕ))
    → AllNonempty k
    → l ++ [] ∷ [] ≡ k ++ b
    → (rest : List (List ℕ)) × (l ≡ k ++ rest) × (b ≡ rest ++ [] ∷ [])
up_to_end l [] b g e = (l, refl, sym e)
up_to_end [] (x ∷ k) b g e = absurd (omega (arith, ap length (first_word x k b e)))
  where
    first_word : (x : List ℕ) (k b : List (List ℕ)) → [] ∷ [] ≡ x ∷ (k ++ b) → x ≡ []
    first_word x k b e = cc e
up_to_end (w ∷ l) (x ∷ k) b g e =
    let (rest, same, end) = up_to_end l k b g.1 (cc e) in
    let first : w ≡ x = cc e in (rest, cc (same, first), end)

waited_for :
    (printed : List (List ℕ)) (q : ParentPc) (left : List ℕ) (seen : List (List ℕ))
    → Parent printed q left seen
    → (more : List (List ℕ)) × (seen ≡ printed ++ more)
waited_for printed awaiting_word left seen (e, s) = ([], s ∙ sym (append-nil printed))
waited_for printed reading_length left seen (f, e, s) = (f ∷ [], s)
waited_for printed (reading n buf) left seen (e, s, pos) = ((buf ++ left) ∷ [], s)
waited_for printed posting left seen (e, s) = ([], s ∙ sym (append-nil printed))
waited_for printed parent_done left seen (e, s) = ([] ∷ [], s)
waited_for printed parent_lost left seen h = absurd h

-- Where all words of the file are shorter than 255: what the parent has printed are words that
-- the file begins with, in their order, each up to its first NUL, however the two processes
-- interleave and the pipe cuts what they write and read.
pub printed_first :
    (file : List ℕ) {s : Shared × ChildPc × ParentPc}
    → AllShort (words file)
    → Reach file s
    → (heard rest : List (List ℕ)) × (words file ≡ heard ++ rest)
      × (s.0.printed ≡ map c_string heard)
printed_first file short r =
    let t = Reach-Together file short r in
    let (more, e) = waited_for _ _ _ _ t.parent_at in
    let (rest, same, end) =
      up_to_end (words file) _ _ t.spoken
        (t.whole ∙ ap (λ l. l ++ (t.queue ++ t.rest)) e ∙ append_assoc _ more _) in
    (t.heard, rest, same, t.shown)

nothing_left :
    (ws printed queue rest : List (List ℕ)) (seen : List (List ℕ))
    → AllNonempty ws
    → AllNonempty printed
    → ws ++ [] ∷ [] ≡ seen ++ (queue ++ rest)
    → seen ≡ printed ++ [] ∷ []
    → (ws ≡ printed) × ([] ≡ queue ++ rest)
nothing_left ws printed queue rest seen h g e s =
    unique_end ws printed [] (queue ++ rest) h g
      (e ∙ ap (λ l. l ++ (queue ++ rest)) s ∙ append_assoc printed ([] ∷ []) (queue ++ rest))

-- When the parent has ended, it has printed all the words of the file.
printed_all :
    (file : List ℕ) (m : Shared) (p : ChildPc) (q : ParentPc)
    → Together (words file) m p q
    → q ≡ parent_done
    → m.printed ≡ map c_string (words file)
printed_all file m p parent_done t e =
    let (none_left, s) = t.parent_at in
    let (same, none) =
      nothing_left (words file) t.heard t.queue t.rest t.seen (words-AllNonempty file) t.spoken
        t.whole s in
    t.shown ∙ ap (map c_string) (sym same)
printed_all file m p awaiting_word t e = absurd (cc e)
printed_all file m p q t e = absurd (cc e)

abbrev Moves : Shared × ChildPc × ParentPc → Type 0
Moves s = (t : Shared × ChildPc × ParentPc) × Step s t

reading_length-Moves :
    (m : Shared) (p : ChildPc) (n : ℕ) (rest : List ℕ)
    → m.pipe ≡ n ∷ rest
    → Moves (m, p, reading_length)
reading_length-Moves m p zero rest e = (_, parent (read_end e))
reading_length-Moves m p (suc n) rest e = (_, parent (read_length e))

reading-Moves :
    (m : Shared) (p : ChildPc) (n : ℕ) (buf left behind : List ℕ)
    → m.pipe ≡ left ++ behind
    → length left ≡ suc n
    → Moves (m, p, reading (suc n) buf)
reading-Moves m p n buf [] behind e h = absurd (omega arith)
reading-Moves m p n buf (b ∷ left) behind e h = (_, parent (read e))

-- A parent that has not ended can go on, unless it waits for a word.
parent-Moves :
    (ws : List (List ℕ)) (m : Shared) (p : ChildPc) (q : ParentPc)
    → Together ws m p q
    → 0 < m.sem_parent + busy q
    → q ≢ parent_done
    → Moves (m, p, q)
parent-Moves ws m p awaiting_word t h n = (_, parent (wait_parent (omega arith)))
parent-Moves ws m p reading_length t h n =
    let (f, l, s) = t.parent_at in
    reading_length-Moves m p (length f) _
      (t.in_pipe ∙ ap (λ x. x ++ (frames t.queue ++ t.written)) l)
parent-Moves ws m p (reading zero buf) t h n = elim (dec_lt (length buf) max_word_length) [
  | yes fits ↦ (_, parent (print fits))
  | no beyond ↦ (_, parent (overrun (omega arith)))
]
parent-Moves ws m p (reading (suc k) buf) t h n =
    let (l, s, pos) = t.parent_at in reading-Moves m p k buf t.left _ t.in_pipe l
parent-Moves ws m p posting t h n = (_, parent post_child)
parent-Moves ws m p parent_done t h n = absurd (n refl)
parent-Moves ws m p parent_lost t h n = absurd t.parent_at

-- While something is still to be received, the parent has not ended.
not_ended :
    (file : List ℕ) (m : Shared) (p : ChildPc) (q : ParentPc)
    → Together (words file) m p q
    → 0 < m.sem_parent + busy q - 1
    → q ≢ parent_done
not_ended file m p awaiting_word t h e = cc e
not_ended file m p parent_done t h e =
    let (none_left, s) = t.parent_at in
    let (same, none) =
      nothing_left (words file) t.heard t.queue t.rest t.seen (words-AllNonempty file) t.spoken
        t.whole s in
    omega (arith, t.posted, ap length none, length-append t.queue t.rest)
not_ended file m p q t h e = cc e

-- A child that has ended has sent everything.
all_sent :
    (file : List ℕ) (m : Shared) (q : ParentPc)
    → Together (words file) m child_done q
    → q ≢ parent_done
    → 0 < m.sem_parent + busy q
all_sent file m awaiting_word t n = elim (dec_lt 0 m.sem_parent) [
  | yes h ↦ omega arith
  | no h ↦
      let (written, rest) = t.child_at in
      let queue = length-zero t.queue (omega (arith, t.posted)) in
      let (none_left, s) = t.parent_at in
      let (more, same, end) =
        up_to_end (words file) t.heard [] t.spoken (t.whole ∙ cc (queue, rest, s)) in
      absurd (omega (arith, ap length end, length-append more ([] ∷ [])))
]
all_sent file m parent_done t n = absurd (n refl)
all_sent file m q t n = omega arith

parent_ended : (q : ParentPc) → (q ≡ parent_done) ⊎ (q ≢ parent_done)
parent_ended awaiting_word = inr (λ e. cc e)
parent_ended parent_done = inl refl
parent_ended q = inr (λ e. cc e)

moves :
    (file : List ℕ) (m : Shared) (p : ChildPc) (q : ParentPc)
    → Together (words file) m p q
    → ((p ≡ child_done) × (q ≡ parent_done)) ⊎ Moves (m, p, q)
moves file m (writing [] k) q t = inr (_, child post_parent)
moves file m (writing (b ∷ bs) k) q t = inr (_, child write)
moves file m (awaiting_parent k) q t = elim (dec_lt 0 m.sem_child) [
  | yes h ↦ inr (_, child (wait_child h))
  | no h ↦ inr (
      parent-Moves (words file) m _ q t (omega (arith, t.balance))
        (not_ended file m _ q t (omega (arith, t.balance))))
]
moves file m child_done q t = elim (parent_ended q) [
  | inl ended ↦ inl (refl, ended)
  | inr more ↦ inr (parent-Moves (words file) m child_done q t (all_sent file m q t more) more)
]
moves file m child_failed q t = absurd t.child_at
moves file m child_lost q t = absurd t.child_at

-- Where all words of the file are shorter than 255: in every state that can be reached, one of the two
-- processes can go on, or both have ended and the words of the file are printed.
pub no_deadlock :
    (file : List ℕ) {s : Shared × ChildPc × ParentPc}
    → AllShort (words file)
    → Reach file s
    → ((s.1 ≡ child_done) × (s.2 ≡ parent_done) × (s.0.printed ≡ map c_string (words file)))
      ⊎ ((t : Shared × ChildPc × ParentPc) × Step s t)
no_deadlock file {s} short r =
    let t = Reach-Together file short r in
    elim (moves file s.0 s.1 s.2 t) [
      | inl (c, q) ↦ inl (c, q, printed_all file s.0 s.1 s.2 t q)
      | inr m ↦ inr m
    ]

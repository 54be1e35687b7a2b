-- ===== src/Pipe/Lead.antt =====
-- How far the processes of pipe/synchronized can run ahead of each other.
use c_examples.Base.{
  ℕ, suc, ◌+◌, ◌≤◌, ◌≡◌, refl, ap, ◌∙◌, List, [], ◌∷◌, ◌++◌, length, length-append, arith,
}
use c_examples.Pipe.Splitter.{Feed, send, child_process, words}
use c_examples.Pipe.Together.{to_feed, AllShort}
use c_examples.Pipe.Preserved.{child_process-to_feed}
use c_examples.Pipe.Synchronized.{
  Synchronized, ChildPc, writing_length, writing_word, posting, waiting, go_on, after_length,
  ParentPc, waiting_word, posting_child, ChildStep, write_length, write_word, ParentStep, read_end,
  read_length, read_word, read_short, overrun, child, parent, Reach, start, later,
}

-- The calls of `send_word` that a feed holds.
abbrev pub left : Feed → ℕ
left (send word rest) = suc (left rest)
left _ = 0

-- The words that are not yet sent whole, those whose `sem_post` is to come, and the waits to come.
abbrev pub unsent : ChildPc → ℕ
unsent (writing_length word rest) = suc (left rest)
unsent (writing_word b word rest) = suc (left rest)
unsent (posting rest) = left rest
unsent (waiting rest) = left rest
unsent _ = 0

abbrev pub unposted : ChildPc → ℕ
unposted (writing_length word rest) = suc (left rest)
unposted (writing_word b word rest) = suc (left rest)
unposted (posting rest) = suc (left rest)
unposted (waiting rest) = left rest
unposted _ = 0

abbrev waits : ChildPc → ℕ
waits (writing_length word rest) = suc (left rest)
waits (writing_word b word rest) = suc (left rest)
waits (posting rest) = suc (left rest)
waits (waiting rest) = suc (left rest)
waits _ = 0

-- Whether the parent has a word printed and not yet posted, and whether it has one begun.
abbrev due : ParentPc → ℕ
due posting_child = 1
due _ = 0

abbrev pub begun : ParentPc → ℕ
begun waiting_word = 0
begun posting_child = 0
begun _ = 1

unsent-waits : (p : ChildPc) → waits p ≤ suc (unsent p)
unsent-waits p = ground arith

waits-go_on : (f : Feed) → waits (go_on f) ≡ left f
waits-go_on f = ground arith

unposted-go_on : (f : Feed) → unposted (go_on f) ≡ left f
unposted-go_on f = ground arith

waits-after_length : (w : List ℕ) (f : Feed) → waits (after_length w f) ≡ suc (left f)
waits-after_length w f = ground arith

unposted-after_length : (w : List ℕ) (f : Feed) → unposted (after_length w f) ≡ suc (left f)
unposted-after_length w f = ground arith

-- What the semaphores count.
pub record Counts (a b : ℕ) (all : ℕ) (m : Synchronized) (p : ChildPc) (q : ParentPc) : Type 0 where
  pub to_parent : a + all ≡ m.sem_parent + (length m.shared.printed + begun q) + unposted p
  pub to_child : b + length m.shared.printed + waits p ≡ m.sem_child + all + due q

module _ (a b all : ℕ) where
  ChildStep-Counts :
      {m m' : Synchronized} {p p' : ChildPc} (q : ParentPc)
      → ChildStep m p m' p'
      → Counts a b all m p q
      → Counts a b all m' p' q
  ChildStep-Counts q (write_length {word = w} {rest = f}) h = record {
    to_parent = rw (unposted-after_length w f) h.to_parent;
    to_child = rw (waits-after_length w f) h.to_child;
  }
  ChildStep-Counts q write_word h = record { to_parent = h.to_parent; to_child = h.to_child }
  ChildStep-Counts q ChildStep.post h = record {
    to_parent = omega (arith, h.to_parent);
    to_child = h.to_child;
  }
  ChildStep-Counts q (ChildStep.wait {rest = f} e) h = record {
    to_parent = rw (unposted-go_on f) h.to_parent;
    to_child = rw (waits-go_on f) (omega (arith, h.to_child, e));
  }

  ParentStep-Counts :
      {m m' : Synchronized} (p : ChildPc) {q q' : ParentPc}
      → ParentStep m q m' q'
      → Counts a b all m p q
      → Counts a b all m' p q'
  ParentStep-Counts p (ParentStep.wait e) h = record {
    to_parent = omega (arith, h.to_parent, e);
    to_child = h.to_child;
  }
  ParentStep-Counts p (read_end e) h = record { to_parent = h.to_parent; to_child = h.to_child }
  ParentStep-Counts p (read_length e) h = record { to_parent = h.to_parent; to_child = h.to_child }
  ParentStep-Counts {m = m} p (read_word le lt) h = record {
    to_parent = omega (arith, h.to_parent, length-append m.shared.printed (_ ∷ []));
    to_child = omega (arith, h.to_child, length-append m.shared.printed (_ ∷ []));
  }
  ParentStep-Counts p (read_short pos lt) h = record {
    to_parent = h.to_parent;
    to_child = h.to_child;
  }
  ParentStep-Counts p (overrun pos le) h = record { to_parent = h.to_parent; to_child = h.to_child }
  ParentStep-Counts p ParentStep.post h = record {
    to_parent = h.to_parent;
    to_child = omega (arith, h.to_child);
  }

Reach-Counts :
    (a b : ℕ) (file : List ℕ) {m : Synchronized} {p : ChildPc} {q : ParentPc}
    → Reach a b file (m, p, q)
    → Counts a b (left (child_process file)) m p q
Reach-Counts a b file start = record {
  to_parent = omega (arith, unposted-go_on (child_process file));
  to_child = omega (arith, waits-go_on (child_process file));
}
Reach-Counts a b file (later r (child {q = q} st)) =
    ChildStep-Counts a b (left (child_process file)) q st (Reach-Counts a b file r)
Reach-Counts a b file (later r (parent {p = p} st)) =
    ParentStep-Counts a b (left (child_process file)) p st (Reach-Counts a b file r)

pub left-to_feed : (l : List (List ℕ)) → left (to_feed l) ≡ length l
left-to_feed [] = refl
left-to_feed (w ∷ l) = ap suc (left-to_feed l)

-- Where all words of the file are shorter than 255, and sem_parent and sem_child of
-- pipe/synchronized begin at a and b: the child has never sent more than b + 1 words, the empty
-- one among them, that are not printed, and the parent has never begun to read more than a words
-- that the child has not posted.
pub lead :
    (a b : ℕ) (file : List ℕ) {m : Synchronized} {p : ChildPc} {q : ParentPc}
    → AllShort (words file)
    → Reach a b file (m, p, q)
    → (length (words file) + 1 ≤ length m.shared.printed + b + 1 + unsent p)
      × (length m.shared.printed + begun q + unposted p ≤ length (words file) + 1 + a)
lead a b file {m} {p} {q} short r =
    let h = Reach-Counts a b file r in
    let all : left (child_process file) ≡ length (words file) + 1 =
      ap left (child_process-to_feed file short)
      ∙ left-to_feed (words file ++ [] ∷ [])
      ∙ length-append (words file) ([] ∷ []) in
    (omega (arith, h.to_child, all, unsent-waits p), omega (arith, h.to_parent, all))

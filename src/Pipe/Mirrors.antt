-- ===== src/Pipe/Mirrors.antt =====
-- The processes of pipe/synchronized do what those of pipe/simple can do.
use c_examples.Base.{ℕ, ◌≡◌, ◌≢◌, refl, List, [], ◌∷◌, ◌++◌, map, c_string}
use c_examples.Pipe.Splitter.{Feed, send, finish, fails, overruns, child_process, words}
use c_examples.Pipe.Together.{AllShort}
use c_examples.Pipe.Simple
use c_examples.Pipe.Order.{printed_in_order}
use c_examples.Pipe.Synchronized.{
  Synchronized, ChildPc, writing_length, writing_word, posting, waiting, child_done, child_failed,
  child_lost, go_on, after_length, ParentPc, waiting_word, reading_length, reading_word,
  posting_child, parent_done, parent_lost, ChildStep, ParentStep, Step, child, parent, Reach, start,
  later,
}
use c_examples.Pipe.Synchronized

-- The places without the semaphores.
abbrev pub plain_child : ChildPc → Simple.ChildPc
plain_child (writing_length word rest) = Simple.writing_length word rest
plain_child (writing_word b word rest) = Simple.writing_word b word rest
plain_child (posting rest) = Simple.go_on rest
plain_child (waiting rest) = Simple.go_on rest
plain_child child_done = Simple.child_done
plain_child child_failed = Simple.child_failed
plain_child child_lost = Simple.child_lost

abbrev pub plain_parent : ParentPc → Simple.ParentPc
plain_parent waiting_word = Simple.reading_length
plain_parent reading_length = Simple.reading_length
plain_parent (reading_word n) = Simple.reading_word n
plain_parent posting_child = Simple.reading_length
plain_parent parent_done = Simple.parent_done
plain_parent parent_lost = Simple.parent_lost

plain_child-go_on : (f : Feed) → plain_child (go_on f) ≡ Simple.go_on f
plain_child-go_on (send word rest) = refl
plain_child-go_on finish = refl
plain_child-go_on fails = refl
plain_child-go_on overruns = refl

plain_child-after_length :
    (word : List ℕ) (f : Feed) → plain_child (after_length word f) ≡ Simple.after_length word f
plain_child-after_length [] f = refl
plain_child-after_length (b ∷ word) f = refl

module _ (file : List ℕ) where
  -- A state, seen without the semaphores, can be reached without them.
  abbrev Plain : Synchronized × ChildPc × ParentPc → Type 0
  Plain (m, p, q) = Simple.Reach file (m.shared, plain_child p, plain_parent q)

  ChildStep-Plain :
      {m m' : Synchronized} {p p' : ChildPc} (q : ParentPc)
      → ChildStep m p m' p'
      → Plain (m, p, q)
      → Plain (m', p', q)
  ChildStep-Plain q (Synchronized.write_length {word = w} {rest = f}) h =
      rw (plain_child-after_length w f) (Simple.later h (Simple.child Simple.write_length))
  ChildStep-Plain q Synchronized.write_word h = Simple.later h (Simple.child Simple.write_word)
  ChildStep-Plain q ChildStep.post h = h
  ChildStep-Plain q (ChildStep.wait {rest = f} e) h = rw (plain_child-go_on f) h

  ParentStep-Plain :
      {m m' : Synchronized} (p : ChildPc) {q q' : ParentPc}
      → ParentStep m q m' q'
      → Plain (m, p, q)
      → Plain (m', p, q')
  ParentStep-Plain p (ParentStep.wait e) h = h
  ParentStep-Plain p (Synchronized.read_end e) h =
      Simple.later h (Simple.parent (Simple.read_end e))
  ParentStep-Plain p (Synchronized.read_length e) h =
      Simple.later h (Simple.parent (Simple.read_length e))
  ParentStep-Plain p (Synchronized.read_word le lt) h =
      Simple.later h (Simple.parent (Simple.read_word le lt))
  ParentStep-Plain p (Synchronized.read_short pos lt) h =
      Simple.later h (Simple.parent (Simple.read_short pos lt))
  ParentStep-Plain p (Synchronized.overrun pos le) h =
      Simple.later h (Simple.parent (Simple.overrun pos le))
  ParentStep-Plain p ParentStep.post h = h

  pub Reach-Plain :
      (a b : ℕ) {m : Synchronized} {p : ChildPc} {q : ParentPc}
      → Reach a b file (m, p, q)
      → Plain (m, p, q)
  Reach-Plain a b start = rw (plain_child-go_on (child_process file)) Simple.start
  Reach-Plain a b (later r (child {q = q} st)) = ChildStep-Plain q st (Reach-Plain a b r)
  Reach-Plain a b (later r (parent {p = p} st)) = ParentStep-Plain p st (Reach-Plain a b r)

plain_parent-lost : (q : ParentPc) → plain_parent q ≢ Simple.parent_lost → q ≢ parent_lost
plain_parent-lost q h e = h (rw e refl)

-- Whatever the initial values of the semaphores: where all words of the file are shorter than
-- 255, and a `write` of one is not cut, a state that pipe/synchronized can reach is, seen without
-- its semaphores, one that pipe/simple can reach; the parent never prints bytes that it has not
-- read, and what it has printed is what the words, and the empty one that ends them, begin with.
pub synchronized_in_order :
    (a b : ℕ) (file : List ℕ) {m : Synchronized} {p : ChildPc} {q : ParentPc}
    → AllShort (words file)
    → Reach a b file (m, p, q)
    → Simple.Reach file (m.shared, plain_child p, plain_parent q)
      × (q ≢ parent_lost)
      × ((heard rest : List (List ℕ)) × (words file ++ [] ∷ [] ≡ heard ++ rest)
          × (m.shared.printed ≡ map c_string heard))
synchronized_in_order a b file {q = q} short r =
    let plain = Reach-Plain file a b r in
    let (safe, printed) = printed_in_order file short plain in
    (plain, plain_parent-lost q safe, printed)

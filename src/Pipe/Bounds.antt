-- ===== src/Pipe/Bounds.antt =====
-- How much the pipe of pipe/reliable can hold.
use c_examples.Base.{ℕ, ◌+◌, ◌*◌, ◌≤◌, ap, List, [], ◌∷◌, ◌++◌, length, arith, length-append}
use mathlib.Core.Path.{subst}
use c_examples.Pipe.Splitter.{words}
use c_examples.Pipe.Processes.{
  Shared, ChildPc, writing, awaiting_parent, child_done, child_failed, child_lost, frame, ParentPc,
  awaiting_word, reading_length, reading, posting, parent_done, parent_lost, Reach,
}
use c_examples.Pipe.Preserved.{Reach-Together}
use c_examples.Pipe.Together.{
  AllShort, AllShort-append, AllShort-end, AllShort-last, frames, Child, Parent, busy, waiting,
}

AllShort-behind : (l k : List (List ℕ)) → AllShort (l ++ k) → AllShort k
AllShort-behind [] k h = h
AllShort-behind (w ∷ l) k h = AllShort-behind l k h.1

length-frames : (l : List (List ℕ)) → AllShort l → length (frames l) ≤ 255 * length l
length-frames [] h = omega arith
length-frames (w ∷ l) h = omega (arith, length-append (frame w) (frames l), length-frames l h.1)

pipe-Child :
    (p : ChildPc) (written : List ℕ) (rest : List (List ℕ))
    → AllShort rest
    → Child p written rest
    → length written + 255 * waiting p ≤ 255
pipe-Child (writing bs k) written rest short (f, fs, r, w, e) =
    let s = subst AllShort r short in omega (arith, ap length w, length-append written bs)
pipe-Child (awaiting_parent k) written rest short (none, e) = omega (arith, ap length none)
pipe-Child child_done written rest short (none, e) = omega (arith, ap length none)
pipe-Child child_failed written rest short h = absurd h
pipe-Child child_lost written rest short h = absurd h

pipe-Parent :
    (printed : List (List ℕ)) (q : ParentPc) (left : List ℕ) (seen : List (List ℕ))
    → AllShort seen
    → Parent printed q left seen
    → length left ≤ 255 * busy q
pipe-Parent printed awaiting_word left seen short (none, s) = omega (arith, ap length none)
pipe-Parent printed reading_length left seen short (f, l, s) =
    omega (arith, ap length l, AllShort-last printed f (subst AllShort s short))
pipe-Parent printed (reading n buf) left seen short (l, s, pos) =
    omega
      (arith, length-append buf left, AllShort-last printed (buf ++ left) (subst AllShort s short))
pipe-Parent printed posting left seen short (none, s) = omega (arith, ap length none)
pipe-Parent printed parent_done left seen short (none, s) = omega (arith, ap length none)
pipe-Parent printed parent_lost left seen short h = absurd h

-- Where all words of the file are shorter than 255, the pipe never holds more than 510 bytes,
-- which every pipe has room for.
pub length-pipe :
    (file : List ℕ) {s : Shared × ChildPc × ParentPc}
    → AllShort (words file)
    → Reach file s
    → length s.0.pipe ≤ 510
length-pipe file {s} short r =
    let t = Reach-Together file short r in
    let all = subst AllShort t.whole (AllShort-end (words file) short) in
    let behind = AllShort-behind t.seen (t.queue ++ t.rest) all in
    omega (
      arith,
      ap length t.in_pipe,
      length-append t.left (frames t.queue ++ t.written),
      length-append (frames t.queue) t.written,
      length-frames t.queue (AllShort-append t.queue t.rest behind),
      pipe-Child s.1 t.written t.rest (AllShort-behind t.queue t.rest behind) t.child_at,
      pipe-Parent t.heard s.2 t.left t.seen (AllShort-append t.seen _ all) t.parent_at,
      t.posted,
      t.balance,
    )

-- ===== src/Pipe/Order.antt =====
-- How the parent of pipe/simple/main.c keeps up with its child: it never reads a part of a word.
use c_examples.Base.{
  ℕ, suc, ◌<◌, ◌≡◌, ◌≢◌, refl, sym, ap, ◌∙◌, inl, inr, List, [], ◌∷◌, ◌++◌, length, take, arith,
  append_assoc, length-append, take-length-append, drop-length-append, c_string, map, map-append,
}
use c_examples.Pipe.Splitter.{words, max_word_length}
use c_examples.Pipe.Together.{frames, AllShort, AllShort-end}
use c_examples.Pipe.Preserved.{child_process-to_feed}
use c_examples.Pipe.Simple.{
  Shared, ChildPc, writing_length, writing_word, child_done, child_failed, child_lost, ParentPc,
  reading_length, reading_word, parent_done, parent_lost, ParentStep, read_end, read_length,
  read_word, read_short, overrun, child, parent, Reach, start, later,
}
use c_examples.Pipe.Following.{Sends, Reads, Follows, go_on-Sends, ChildStep-Follows}

-- The part of a word in the pipe is its length.
part-length :
    (p : ChildPc) (part : List ℕ) (pending : List (List ℕ)) (n : ℕ) (l : List ℕ)
    → Sends p part pending
    → part ≡ n ∷ l
    → (0 < n) × (l ≡ [])
part-length (writing_length w k) part pending n l (fs, none, same, rest) e = absurd (cc (none, e))
part-length (writing_word b w k) part pending n l (fs, one, same, rest) e =
    let h : suc (length w) ≡ n = cc (one, e) in (omega (arith, h), cc (one, e))
part-length child_done part pending n l (none, rest) e = absurd (cc (none, e))
part-length child_failed part pending n l s e = absurd s
part-length child_lost part pending n l s e = absurd s

short-of :
    (l : List (List ℕ)) (w : List ℕ) (k : List (List ℕ))
    → AllShort (l ++ w ∷ k)
    → length w < max_word_length
short-of [] w k h = h.0
short-of (x ∷ l) w k h = short-of l w k h.1

end-Reads :
    (all : List (List ℕ)) (m : Shared) (p : ChildPc) (part rest : List ℕ)
    (pending queue : List (List ℕ))
    → Sends p part pending
    → frames queue ++ part ≡ 0 ∷ rest
    → all ≡ m.printed ++ (queue ++ pending)
    → Reads all (record m { pipe = rest }) part pending parent_done
end-Reads all m p part rest pending [] s e k =
    absurd (omega (arith, part-length p part pending 0 rest s e))
end-Reads all m p part rest pending ([] ∷ queue) s e k = (queue ++ pending, k)
end-Reads all m p part rest pending ((b ∷ w) ∷ queue) s e k = absurd (cc e)

length-Reads :
    (all : List (List ℕ)) (m : Shared) (p : ChildPc) (n : ℕ) (part rest : List ℕ)
    (pending queue : List (List ℕ))
    → Sends p part pending
    → frames queue ++ part ≡ suc n ∷ rest
    → all ≡ m.printed ++ (queue ++ pending)
    → Reads all (record m { pipe = rest }) part pending (reading_word (suc n))
length-Reads all m p n part rest pending [] s e k =
    let (pos, none) = part-length p part pending (suc n) rest s e in
    inr (none, e ∙ ap (λ l. suc n ∷ l) none, k)
length-Reads all m p n part rest pending (w ∷ queue) s e k =
    let len : length w ≡ suc n = cc e in
    let left : w ++ frames queue ++ part ≡ rest = cc e in
    inl (w, queue, sym left ∙ append_assoc w (frames queue) part, len, k)

ParentStep-Follows :
    (all : List (List ℕ)) (p : ChildPc) {m m' : Shared} {q q' : ParentPc}
    → AllShort all
    → ParentStep m q m' q'
    → Follows all m p q
    → Follows all m' p q'
ParentStep-Follows all p {m} short (read_end {rest = rest} e) t =
    let (queue, h, k) = t.reads in
    record {
      part = t.part;
      pending = t.pending;
      heard = t.heard;
      shown = t.shown;
      sends = t.sends;
      reads =
          end-Reads all (record m { printed = t.heard }) p t.part rest t.pending queue t.sends
            (sym h ∙ e) k;
    }
ParentStep-Follows all p {m} short (read_length {n = n} {rest = rest} e) t =
    let (queue, h, k) = t.reads in
    record {
      part = t.part;
      pending = t.pending;
      heard = t.heard;
      shown = t.shown;
      sends = t.sends;
      reads =
          length-Reads all (record m { printed = t.heard }) p n t.part rest t.pending queue t.sends
            (sym h ∙ e) k;
    }
ParentStep-Follows all p {m} short (read_word {n = n} le lt) t = record {
  part = t.part;
  pending = t.pending;
  heard = t.heard ++ take n m.pipe ∷ [];
  shown =
      ap (λ l. l ++ c_string (take n m.pipe) ∷ []) t.shown
      ∙ sym (map-append c_string t.heard (take n m.pipe ∷ []));
  sends = t.sends;
  reads = elim t.reads [
    | inl (w, queue, h, i, k) ↦
        let taken : take n m.pipe ≡ w =
          rw (h, ← i) (take-length-append w (frames queue ++ t.part)) in
        (
          queue,
          rw (h, ← i) (drop-length-append w (frames queue ++ t.part)),
          rw taken (k ∙ sym (append_assoc t.heard (w ∷ []) (queue ++ t.pending))),
        )
    | inr (h, i, k) ↦
        absurd (omega (arith, ap length h, part-length p t.part t.pending n [] t.sends i))
  ];
}
ParentStep-Follows all p {m} short (read_short {n = n} pos lt) t = absurd (elim t.reads [
  | inl (w, queue, h, i, k) ↦
      omega (arith, ap length h, i, length-append w (frames queue ++ t.part))
  | inr (h, i, k) ↦ omega (arith, ap length h)
])
ParentStep-Follows all p {m} short (overrun {n = n} pos le) t = absurd (elim t.reads [
  | inl (w, queue, h, i, k) ↦
      omega (arith, i, short-of t.heard w (queue ++ t.pending) (rw (← k) short))
  | inr (h, i, k) ↦ omega (arith, ap length h)
])

pub Reach-Follows :
    (file : List ℕ) {m : Shared} {p : ChildPc} {q : ParentPc}
    → AllShort (words file)
    → Reach file (m, p, q)
    → Follows (words file ++ [] ∷ []) m p q
Reach-Follows file short start = rw (child_process-to_feed file short) (record {
  part = [];
  pending = words file ++ [] ∷ [];
  heard = [];
  shown = refl;
  sends = go_on-Sends (words file ++ [] ∷ []);
  reads = ([], refl, refl);
})
Reach-Follows file short (later r (child {q = q} st)) =
    ChildStep-Follows (words file ++ [] ∷ []) q st (Reach-Follows file short r)
Reach-Follows file short (later r (parent {p = p} st)) =
    ParentStep-Follows (words file ++ [] ∷ []) p (AllShort-end (words file) short) st
      (Reach-Follows file short r)

printed_of :
    (all : List (List ℕ)) (m : Shared) (part : List ℕ) (pending : List (List ℕ)) (q : ParentPc)
    → Reads all m part pending q
    → (q ≢ parent_lost) × ((rest : List (List ℕ)) × (all ≡ m.printed ++ rest))
printed_of all m part pending reading_length (queue, h, k) = ((λ e. cc e), (queue ++ pending, k))
printed_of all m part pending (reading_word n) (inl (w, queue, h, i, k)) =
    ((λ e. cc e), (w ∷ (queue ++ pending), k))
printed_of all m part pending (reading_word n) (inr (h, i, k)) = ((λ e. cc e), (pending, k))
printed_of all m part pending parent_done (queue, k) = ((λ e. cc e), ([] ∷ queue, k))
printed_of all m part pending parent_lost r = absurd r

-- Where all words of the file are shorter than 255, and a `write` of one is not cut: however
-- parent and child of pipe/simple interleave, no `read` of the parent takes less than the word
-- that it waits for, none of its writes to `word` is out of bounds, and what it has printed are
-- words that the words of the file, and the empty one that ends them, begin with, each up to its
-- first NUL.
pub printed_in_order :
    (file : List ℕ) {m : Shared} {p : ChildPc} {q : ParentPc}
    → AllShort (words file)
    → Reach file (m, p, q)
    → (q ≢ parent_lost)
      × ((heard rest : List (List ℕ)) × (words file ++ [] ∷ [] ≡ heard ++ rest)
          × (m.printed ≡ map c_string heard))
printed_in_order file {m} {q = q} short r =
    let t = Reach-Follows file short r in
    let (safe, begins) =
      printed_of (words file ++ [] ∷ []) (record m { printed = t.heard }) t.part t.pending q
        t.reads in
    (safe, (t.heard, begins.0, begins.1, t.shown))

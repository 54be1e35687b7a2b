-- ===== src/Pipe/Following.antt =====
-- Where parent and child of pipe/simple/main.c can be together, and the steps of the child.
use c_examples.Base.{
  ℕ, suc, ◌≡◌, refl, sym, ap, ◌∙◌, ◌⊎◌, inl, inr, List, [], ◌∷◌, ◌++◌, length, append_assoc,
  append-nil, c_string, map,
}
use c_examples.Pipe.Processes.{frame}
use c_examples.Pipe.Together.{to_feed, frames}
use c_examples.Pipe.Simple.{
  Shared, ChildPc, writing_length, writing_word, child_done, child_failed, child_lost, go_on,
  ParentPc, reading_length, reading_word, parent_done, parent_lost, ChildStep, write_length,
  write_word,
}

-- With `part` of the word being sent in the pipe, and the words `pending` not yet sent whole.
abbrev pub Sends : ChildPc → List ℕ → List (List ℕ) → Type 0
Sends (writing_length w k) part pending =
    (fs : List (List ℕ)) × (part ≡ []) × (k ≡ to_feed fs) × (pending ≡ w ∷ fs)
Sends (writing_word b w k) part pending =
    (fs : List (List ℕ)) × (part ≡ suc (length w) ∷ [])
    × (k ≡ to_feed fs)
    × (pending ≡ (b ∷ w) ∷ fs)
Sends child_done part pending = (part ≡ []) × (pending ≡ [])
Sends child_failed part pending = ⊥
Sends child_lost part pending = ⊥

-- What the pipe holds, where all that is sent is `all`; `printed` stands for the words as received.
abbrev pub Reads : List (List ℕ) → Shared → List ℕ → List (List ℕ) → ParentPc → Type 0
Reads all m part pending reading_length =
    (queue : List (List ℕ)) × (m.pipe ≡ frames queue ++ part)
    × (all ≡ m.printed ++ (queue ++ pending))
Reads all m part pending (reading_word n) =
    ((w : List ℕ) × (queue : List (List ℕ)) × (m.pipe ≡ w ++ (frames queue ++ part))
      × (length w ≡ n)
      × (all ≡ m.printed ++ (w ∷ (queue ++ pending))))
    ⊎ ((m.pipe ≡ []) × (part ≡ n ∷ []) × (all ≡ m.printed ++ pending))
Reads all m part pending parent_done = (queue : List (List ℕ)) × (all ≡ m.printed ++ [] ∷ queue)
Reads all m part pending parent_lost = ⊥

-- The words received are `heard`; each is printed up to its first NUL.
pub record Follows (all : List (List ℕ)) (m : Shared) (p : ChildPc) (q : ParentPc) : Type 0 where
  pub part : List ℕ
  pub pending : List (List ℕ)
  pub heard : List (List ℕ)
  pub sends : Sends p part pending
  pub reads : Reads all (record m { printed = heard }) part pending q
  pub shown : m.printed ≡ map c_string heard

frames-append : (l k : List (List ℕ)) → frames (l ++ k) ≡ frames l ++ frames k
frames-append [] k = refl
frames-append (w ∷ l) k =
    ap (λ x. frame w ++ x) (frames-append l k) ∙ sym (append_assoc (frame w) (frames l) (frames k))

pub go_on-Sends : (fs : List (List ℕ)) → Sends (go_on (to_feed fs)) [] fs
go_on-Sends [] = (refl, refl)
go_on-Sends (w ∷ fs) = (fs, refl, refl, refl)

-- The child puts `d` behind what the pipe holds.
put :
    (pre d part part' : List ℕ) (queue extra : List (List ℕ))
    → part ++ d ≡ frames extra ++ part'
    → (pre ++ (frames queue ++ part)) ++ d ≡ pre ++ (frames (queue ++ extra) ++ part')
put pre d part part' queue extra e =
    append_assoc pre (frames queue ++ part) d
    ∙ ap (λ l. pre ++ l)
        (append_assoc (frames queue) part d
          ∙ ap (λ l. frames queue ++ l) e
          ∙ sym (append_assoc (frames queue) (frames extra) part')
          ∙ ap (λ l. l ++ part') (sym (frames-append queue extra)))

abbrev add : Shared → List ℕ → Shared
add m d = record m { pipe = m.pipe ++ d }

added :
    (all : List (List ℕ)) (m : Shared) (d part part' : List ℕ)
    (pending pending' extra : List (List ℕ)) (q : ParentPc)
    → part ++ d ≡ frames extra ++ part'
    → pending ≡ extra ++ pending'
    → ((n : ℕ) → part ≡ n ∷ [] → (extra ≡ d ∷ []) × (part' ≡ []) × (length d ≡ n))
    → Reads all m part pending q
    → Reads all (add m d) part' pending' q
added all m d part part' pending pending' extra reading_length e f g (queue, h, k) = (
  queue ++ extra,
  ap (λ l. l ++ d) h ∙ put [] d part part' queue extra e,
  k ∙ ap (λ l. m.printed ++ l) (ap (λ l. queue ++ l) f ∙ sym (append_assoc queue extra pending')),
)
added all m d part part' pending pending' extra (reading_word n) e f g (inl (w, queue, h, i, k)) =
    inl (
      w,
      queue ++ extra,
      ap (λ l. l ++ d) h ∙ put w d part part' queue extra e,
      i,
      k
          ∙ ap (λ l. m.printed ++ (w ∷ l))
              (ap (λ l. queue ++ l) f ∙ sym (append_assoc queue extra pending')),
    )
added all m d part part' pending pending' extra (reading_word n) e f g (inr (h, i, k)) =
    let (x, z, len) = g n i in
    inl (
      d,
      [],
      ap (λ l. l ++ d) h ∙ sym (append-nil d) ∙ ap (λ l. d ++ l) (sym z),
      len,
      k ∙ ap (λ l. m.printed ++ l) (f ∙ ap (λ l. l ++ pending') x),
    )
added all m d part part' pending pending' extra parent_done e f g r = r
added all m d part part' pending pending' extra parent_lost e f g r = r

pub ChildStep-Follows :
    (all : List (List ℕ)) (q : ParentPc) {m m' : Shared} {p p' : ChildPc}
    → ChildStep m p m' p'
    → Follows all m p q
    → Follows all m' p' q
ChildStep-Follows all q {m} (write_length {word = []} {rest = k}) t =
    let (fs, none, same, rest) = t.sends in
    record {
      part = [];
      pending = fs;
      heard = t.heard;
      shown = t.shown;
      sends = rw same (go_on-Sends fs);
      reads =
          added all (record m { printed = t.heard }) (0 ∷ []) t.part [] t.pending fs ([] ∷ []) q
            (ap (λ l. l ++ 0 ∷ []) none) rest (λ n e. absurd (cc (none, e))) t.reads;
    }
ChildStep-Follows all q {m} (write_length {word = b ∷ word} {rest = k}) t =
    let (fs, none, same, rest) = t.sends in
    record {
      part = suc (length word) ∷ [];
      pending = (b ∷ word) ∷ fs;
      heard = t.heard;
      shown = t.shown;
      sends = (fs, refl, same, refl);
      reads =
          added all (record m { printed = t.heard }) (suc (length word) ∷ []) t.part
            (suc (length word) ∷ []) t.pending ((b ∷ word) ∷ fs) [] q
            (ap (λ l. l ++ suc (length word) ∷ []) none) rest (λ n e. absurd (cc (none, e)))
            t.reads;
    }
ChildStep-Follows all q {m} (write_word {b = b} {word = word} {rest = k}) t =
    let (fs, some_part, same, rest) = t.sends in
    record {
      part = [];
      pending = fs;
      heard = t.heard;
      shown = t.shown;
      sends = rw same (go_on-Sends fs);
      reads =
          added all (record m { printed = t.heard }) (b ∷ word) t.part [] t.pending fs
            ((b ∷ word) ∷ []) q (ap (λ l. l ++ b ∷ word) some_part ∙ simp append-nil) rest
            (λ n e. (refl, refl, cc (some_part, e))) t.reads;
    }

-- ===== src/Pipe/Preserved.antt =====
-- Each step of the two processes of pipe/reliable leads to such a place.
use c_examples.Base.{
  ℕ, ◌<◌, ◌≡◌, refl, sym, ap, ◌∙◌, List, [], ◌∷◌, ◌++◌, length, arith, append_assoc, append-nil,
  length-append, lt→ltb, c_string, map-append,
}
use mathlib.Core.Path.{subst}
use c_examples.Pipe.Splitter.{AllNonempty, send, child_process, feed, words, child_process-feed}
use c_examples.Pipe.Processes.{
  Shared, ChildPc, frame, go_on, ParentPc, awaiting_word, ChildStep, write, post_parent, wait_child,
  ParentStep, wait_parent, read_end, read_length, read, print, overrun, post_child, child, parent,
  first_shared, Reach, start, later,
}
use c_examples.Pipe.Together.{
  to_feed, frames, AllShort, Child, waiting, Together, AllShort-end, AllShort-append, AllShort-last,
  length-zero,
}

frames-snoc :
    (queue : List (List ℕ)) (f : List ℕ) → frames (queue ++ f ∷ []) ≡ frames queue ++ frame f
frames-snoc [] f = append-nil (frame f)
frames-snoc (w ∷ ws) f =
    ap (λ l. frame w ++ l) (frames-snoc ws f) ∙ sym (append_assoc (frame w) (frames ws) (frame f))

resume :
    (rest : List (List ℕ))
    → Child (go_on (to_feed rest)) [] rest × (waiting (go_on (to_feed rest)) ≡ 0)
resume [] = ((refl, refl), refl)
resume (w ∷ ws) = ((w, ws, refl, refl, refl), refl)

ChildStep-Together :
    (ws : List (List ℕ)) (q : ParentPc) {m m' : Shared} {p p' : ChildPc}
    → ChildStep m p m' p'
    → Together ws m p q
    → Together ws m' p' q
ChildStep-Together ws q (write {b = b} {bs = bs}) t =
    let (f, fs, r, w, k) = t.child_at in
    record {
      heard = t.heard;
      seen = t.seen;
      queue = t.queue;
      rest = t.rest;
      left = t.left;
      written = t.written ++ b ∷ [];
      whole = t.whole;
      in_pipe = ap (λ l. l ++ b ∷ []) t.in_pipe ∙ simp append_assoc;
      posted = t.posted;
      child_at = (f, fs, r, append_assoc t.written (b ∷ []) bs ∙ w, k);
      parent_at = t.parent_at;
      shown = t.shown;
      spoken = t.spoken;
      balance = t.balance;
    }
ChildStep-Together ws q post_parent t =
    let (f, fs, r, w, k) = t.child_at in
    record {
      heard = t.heard;
      seen = t.seen;
      queue = t.queue ++ f ∷ [];
      rest = fs;
      left = t.left;
      written = [];
      whole = t.whole ∙ ap (λ l. t.seen ++ (t.queue ++ l)) r ∙ simp append_assoc;
      in_pipe =
          t.in_pipe
          ∙ ap (λ l. t.left ++ (frames t.queue ++ l)) (sym (append-nil t.written) ∙ w)
          ∙ ap (λ l. t.left ++ l) (sym (frames-snoc t.queue f) ∙ sym (append-nil _));
      posted = omega (arith, length-append t.queue (f ∷ []), t.posted);
      child_at = (refl, k);
      parent_at = t.parent_at;
      shown = t.shown;
      spoken = t.spoken;
      balance = omega (arith, t.balance);
    }
ChildStep-Together ws q (wait_child h) t =
    let (none_left, k) = t.child_at in
    let (at, passed) = resume t.rest in
    rw k (record {
      heard = t.heard;
      seen = t.seen;
      queue = t.queue;
      rest = t.rest;
      left = t.left;
      written = [];
      whole = t.whole;
      in_pipe = t.in_pipe ∙ ap (λ l. t.left ++ (frames t.queue ++ l)) none_left;
      posted = t.posted;
      child_at = at;
      parent_at = t.parent_at;
      shown = t.shown;
      spoken = t.spoken;
      balance = omega (arith, t.balance, passed);
    })

-- A word at the head of the queue, when the semaphore says that there is one.
queued :
    (queue : List (List ℕ))
    → 0 < length queue
    → (f : List ℕ) × (fs : List (List ℕ)) × (queue ≡ f ∷ fs)
queued [] h = absurd (omega arith)
queued (f ∷ fs) h = (f, fs, refl)

-- The pipe begins with what is left of the word being received.
first_byte :
    {b : ℕ} {rest : List ℕ} (pipe left behind : List ℕ)
    → pipe ≡ b ∷ rest
    → pipe ≡ left ++ behind
    → 0 < length left
    → (left' : List ℕ) × (left ≡ b ∷ left') × (rest ≡ left' ++ behind)
first_byte pipe [] behind e h pos = absurd (omega arith)
first_byte pipe (c ∷ left) behind e h pos = (left, cc, cc)

AllNonempty-snoc :
    (l : List (List ℕ)) (w : List ℕ) → AllNonempty l → 0 < length w → AllNonempty (l ++ w ∷ [])
AllNonempty-snoc [] w h pos = (pos, tt)
AllNonempty-snoc (x ∷ l) w h pos = (h.0, AllNonempty-snoc l w h.1 pos)

framed :
    {b : ℕ} {x : List ℕ} (f left : List ℕ)
    → left ≡ frame f
    → left ≡ b ∷ x
    → (length f ≡ b) × (f ≡ x)
framed f left e k = (cc, cc)

ParentStep-Together :
    (ws : List (List ℕ)) (p : ChildPc) {m m' : Shared} {q q' : ParentPc}
    → AllShort ws
    → ParentStep m q m' q'
    → Together ws m p q
    → Together ws m' p q'
ParentStep-Together ws p {m} short (wait_parent h) t =
    let (none_left, all) = t.parent_at in
    let (f, fs, e) = queued t.queue (omega (arith, t.posted)) in
    record {
      heard = t.heard;
      seen = t.seen ++ f ∷ [];
      queue = fs;
      rest = t.rest;
      left = frame f;
      written = t.written;
      whole = t.whole ∙ ap (λ l. t.seen ++ (l ++ t.rest)) e ∙ simp append_assoc;
      in_pipe =
          t.in_pipe
          ∙ ap (λ l. l ++ (frames t.queue ++ t.written)) none_left
          ∙ ap (λ l. frames l ++ t.written) e
          ∙ append_assoc (frame f) (frames fs) t.written;
      posted = omega (arith, t.posted, ap length e);
      child_at = t.child_at;
      parent_at = (f, refl, ap (λ l. l ++ f ∷ []) all);
      shown = t.shown;
      spoken = t.spoken;
      balance = omega (arith, t.balance);
    }
ParentStep-Together ws p {m} short (read_end e) t =
    let (f, l, s) = t.parent_at in
    let (x, k, r) = first_byte m.pipe t.left _ e t.in_pipe (omega (arith, ap length l)) in
    let (size, same) = framed f t.left l k in
    let none : f ≡ [] = length-zero f size in
    record {
      heard = t.heard;
      seen = t.seen;
      queue = t.queue;
      rest = t.rest;
      left = [];
      written = t.written;
      whole = t.whole;
      in_pipe = r ∙ ap (λ y. y ++ (frames t.queue ++ t.written)) (sym same ∙ none);
      posted = t.posted;
      child_at = t.child_at;
      parent_at = (refl, s ∙ ap (λ y. t.heard ++ y ∷ []) none);
      shown = t.shown;
      spoken = t.spoken;
      balance = t.balance;
    }
ParentStep-Together ws p {m} short (read_length {n = n} e) t =
    let (f, l, s) = t.parent_at in
    let (x, k, r) = first_byte m.pipe t.left _ e t.in_pipe (omega (arith, ap length l)) in
    let (size, same) = framed f t.left l k in
    record {
      heard = t.heard;
      seen = t.seen;
      queue = t.queue;
      rest = t.rest;
      left = x;
      written = t.written;
      whole = t.whole;
      in_pipe = r;
      posted = t.posted;
      child_at = t.child_at;
      parent_at = (ap length (sym same) ∙ size, s ∙ ap (λ y. t.heard ++ y ∷ []) same, omega arith);
      shown = t.shown;
      spoken = t.spoken;
      balance = t.balance;
    }
ParentStep-Together ws p {m} short (read {n = n} {b = b} {buf = buf} e) t =
    let (l, s, pos) = t.parent_at in
    let (x, k, r) = first_byte m.pipe t.left _ e t.in_pipe (omega (arith, l)) in
    record {
      heard = t.heard;
      seen = t.seen;
      queue = t.queue;
      rest = t.rest;
      left = x;
      written = t.written;
      whole = t.whole;
      in_pipe = r;
      posted = t.posted;
      child_at = t.child_at;
      parent_at = (
        omega (arith, l, ap length k),
        s
            ∙ ap (λ y. t.heard ++ (buf ++ y) ∷ []) k
            ∙ ap (λ y. t.heard ++ y ∷ []) (sym (append_assoc buf (b ∷ []) x)),
        omega (arith, length-append buf (b ∷ [])),
      );
      shown = t.shown;
      spoken = t.spoken;
      balance = t.balance;
    }
ParentStep-Together ws p {m} short (print {buf = buf} h) t =
    let (l, s, pos) = t.parent_at in
    let empty = length-zero t.left l in
    record {
      heard = t.heard ++ buf ∷ [];
      seen = t.seen;
      queue = t.queue;
      rest = t.rest;
      left = [];
      written = t.written;
      whole = t.whole;
      in_pipe = t.in_pipe ∙ ap (λ y. y ++ (frames t.queue ++ t.written)) empty;
      posted = t.posted;
      child_at = t.child_at;
      parent_at =
          (refl, s ∙ ap (λ y. t.heard ++ y ∷ []) (ap (λ y. buf ++ y) empty ∙ append-nil buf));
      shown =
          ap (λ l. l ++ c_string buf ∷ []) t.shown ∙ sym (map-append c_string t.heard (buf ∷ []));
      spoken = AllNonempty-snoc t.heard buf t.spoken (omega (arith, pos));
      balance = t.balance;
    }
ParentStep-Together ws p {m} short (overrun {buf = buf} h) t =
    let (l, s, pos) = t.parent_at in
    let short_seen = AllShort-append t.seen _ (subst AllShort t.whole (AllShort-end ws short)) in
    let fits = AllShort-last t.heard (buf ++ t.left) (subst AllShort s short_seen) in
    absurd (omega (arith, length-append buf t.left))
ParentStep-Together ws p short post_child t = record {
  heard = t.heard;
  seen = t.seen;
  queue = t.queue;
  rest = t.rest;
  left = t.left;
  written = t.written;
  whole = t.whole;
  in_pipe = t.in_pipe;
  posted = t.posted;
  child_at = t.child_at;
  parent_at = t.parent_at;
  shown = t.shown;
  spoken = t.spoken;
  balance = omega (arith, t.balance);
}

feed-to_feed : (ws : List (List ℕ)) → AllShort ws → feed ws ≡ to_feed (ws ++ [] ∷ [])
feed-to_feed [] h = refl
feed-to_feed (w ∷ ws) h = rw (lt→ltb (length w) 255 h.0) (ap (send w) (feed-to_feed ws h.1))

pub child_process-to_feed :
    (file : List ℕ) → AllShort (words file) → child_process file ≡ to_feed (words file ++ [] ∷ [])
child_process-to_feed file short = child_process-feed file ∙ feed-to_feed (words file) short

start-Together :
    (file : List ℕ)
    → AllShort (words file)
    → Together (words file) first_shared (go_on (child_process file)) awaiting_word
start-Together file short =
    let (at, idle) = resume (words file ++ [] ∷ []) in
    rw (child_process-to_feed file short) (record {
      heard = [];
      seen = [];
      queue = [];
      rest = words file ++ [] ∷ [];
      left = [];
      written = [];
      whole = refl;
      in_pipe = refl;
      posted = refl;
      child_at = at;
      parent_at = (refl, refl);
      shown = refl;
      spoken = tt;
      balance = omega (arith, idle);
    })

pub Reach-Together :
    (file : List ℕ) {s : Shared × ChildPc × ParentPc}
    → AllShort (words file)
    → Reach file s
    → Together (words file) s.0 s.1 s.2
Reach-Together file short start = start-Together file short
Reach-Together file short (later r (child {q = q} st)) =
    ChildStep-Together (words file) q st (Reach-Together file short r)
Reach-Together file short (later r (parent {p = p} st)) =
    ParentStep-Together (words file) p short st (Reach-Together file short r)

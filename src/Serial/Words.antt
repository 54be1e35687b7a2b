-- ===== src/Serial/Words.antt =====
-- `handle_connection` of domain-socket/read-write/server.c and domain-socket/send-recv/server.c: a
-- length, then a word, until a read gives nothing.
use c_examples.Base.{
  ℕ, zero, suc, ◌≤◌, ◌<◌, ◌≡◌, refl, ap, ◌∙◌, false, List, [], ◌∷◌, ◌++◌, map, arith, length, take,
  ◌==◌, if◌then◌else◌, length-take, take-length-append, drop-length-append, length-append,
  append_assoc, append-nil, c_string, NoNul, c_string-NoNul, ltb, ◌||◌,
}
use c_examples.Base.Run.{Run, returns, undefined, unfinished, ◌>>=◌}
use c_examples.Io.Stream.{
  Event, arrive, ReadResult, got, interrupted, failed, put_back, read, bytes, bytes-put_back,
}
use c_examples.Serial.Effects.{printed, Log}

-- What `read(client_sockfd, word, size)` leaves for the `printf` of `word`, whatever it returned. The
-- `%s` ends at the first NUL: that behind a word that has come whole, or one among the bytes stored;
-- without one it reads bytes that are not stored.
abbrev stored : ℕ → ReadResult × List Event → Run (List ℕ × List Event)
stored size (got word, es) =
    if (length word == size) || ltb (length (c_string word)) (length word)
    then returns (c_string word, es)
    else undefined
stored size (interrupted, es) = undefined
stored size (failed, es) = undefined

-- A read of no bytes takes none.
unfoldable pub read_word : ℕ → List Event → Run (List ℕ × List Event)
unfolding read
read_word zero es = returns ([], es)
read_word (suc size) es = stored (suc size) (read (suc size) es)

-- The body of the `while` behind the read of `size`; `loop` is the next round.
unfoldable pub after_size : (List Event → Log → Run Log) → ReadResult × List Event → Log → Run Log
unfolding read_word
after_size loop (got [], es) log = returns log
after_size loop (got (size ∷ l), es) log =
    read_word size es >>= λ r. loop r.1 (log ++ printed r.0 ∷ [])
after_size loop (interrupted, es) log = returns log
after_size loop (failed, es) log = returns log

-- A round takes a byte at least, or is the last.
unfoldable pub handle_connection_from : ℕ → List Event → Log → Run Log
unfolding after_size read
handle_connection_from zero es log = unfinished
handle_connection_from (suc f) es log = after_size (handle_connection_from f) (read 1 es) log

unfoldable pub handle_connection : List Event → Log → Run Log
unfolding handle_connection_from
handle_connection es log = handle_connection_from (suc (length (bytes es))) es log

-- Words that come whole: each with its length, in one chunk with what follows, or cut behind the length;
-- chunks may hold many words.
pub data Whole : List Event → List (List ℕ) → Type 0 where
  over : Whole [] []
  word_whole :
      (w l : List ℕ) (es : List Event) {ws : List (List ℕ)}
      → Whole (put_back l es) ws
      → Whole (arrive (length w) (w ++ l) ∷ es) (w ∷ ws)
  word_apart :
      (w l : List ℕ) (es : List Event) {ws : List (List ℕ)}
      → Whole (put_back l es) ws
      → Whole (arrive (length w) [] ∷ put_back (w ++ l) es) (w ∷ ws)

read_word-put_back :
    (w l : List ℕ) (es : List Event)
    → read_word (length w) (put_back (w ++ l) es) ≡ returns (c_string w, put_back l es)
unfolding read_word read
read_word-put_back [] l es = refl
read_word-put_back (b ∷ w) l es = rw (take-length-append w l, drop-length-append w l) (ground arith)

length-Whole : {es : List Event} {ws : List (List ℕ)} → Whole es ws → length ws ≤ length (bytes es)
length-Whole over = omega arith
length-Whole (word_whole w l es h) = omega (
  arith,
  length-Whole h,
  length-append (w ++ l) (bytes es),
  length-append w l,
  ap length (bytes-put_back l es),
  length-append l (bytes es),
)
length-Whole (word_apart w l es h) = omega (
  arith,
  length-Whole h,
  ap length (bytes-put_back (w ++ l) es),
  length-append (w ++ l) (bytes es),
  length-append w l,
  ap length (bytes-put_back l es),
  length-append l (bytes es),
)

-- Each word up to its first NUL.
abbrev pub prints : List (List ℕ) → Log
prints ws = map (λ w. printed (c_string w)) ws

handle_connection_from-Whole :
    (f : ℕ) {es : List Event} {ws : List (List ℕ)} (log : Log)
    → Whole es ws
    → length ws < f
    → handle_connection_from f es log ≡ returns (log ++ prints ws)
unfolding handle_connection_from after_size read
handle_connection_from-Whole zero log h k = absurd (omega arith)
handle_connection_from-Whole (suc f) log over k = rw append-nil refl
handle_connection_from-Whole (suc f) log (word_whole w l es {ws = ws} h) k =
    rw (read_word-put_back w l es) (
      handle_connection_from-Whole f (log ++ printed (c_string w) ∷ []) h (omega arith)
      ∙ ap returns (append_assoc log (printed (c_string w) ∷ []) (prints ws)))
handle_connection_from-Whole (suc f) log (word_apart w l es {ws = ws} h) k =
    rw (read_word-put_back w l es) (
      handle_connection_from-Whole f (log ++ printed (c_string w) ∷ []) h (omega arith)
      ∙ ap returns (append_assoc log (printed (c_string w) ∷ []) (prints ws)))

-- Words that come whole are printed, in order, each up to its first NUL.
pub handle_connection-Whole :
    {es : List Event} {ws : List (List ℕ)} (log : Log)
    → Whole es ws
    → handle_connection es log ≡ returns (log ++ prints ws)
unfolding handle_connection
handle_connection-Whole {es} log h =
    handle_connection_from-Whole (suc (length (bytes es))) log h (omega (arith, length-Whole h))

take-all : (n : ℕ) (l : List ℕ) → length l ≤ n → take n l ≡ l
take-all zero [] h = refl
take-all zero (x ∷ l) h = absurd (omega arith)
take-all (suc n) [] h = refl
take-all (suc n) (x ∷ l) h = ap (◌∷◌ x) (take-all n l (omega arith))

-- A word of which a part, but not all, comes in the chunk that its length comes in is not waited
-- for: in any round of `handle_connection` of domain-socket/read-write and send-recv, whatever
-- has been printed and whatever follows, where that part holds no NUL, it goes on to print bytes
-- that it has not stored.
pub word_cut :
    (f size b : ℕ) (bs : List ℕ) (es : List Event) (log : Log)
    → suc (length bs) < size
    → NoNul (b ∷ bs)
    → handle_connection_from (suc f) (arrive size (b ∷ bs) ∷ es) log ≡ undefined
unfolding handle_connection_from after_size read_word read
word_cut f zero b bs es log h no_nul = absurd (omega arith)
word_cut f (suc size) b bs es log h no_nul =
    let cut : (suc (length (take size bs)) == suc size) ≡ false =
      ground (arith, length-take size bs) in
    let all : take size bs ≡ bs = take-all size bs (omega arith) in
    let same : c_string (b ∷ bs) ≡ b ∷ bs = c_string-NoNul (b ∷ bs) no_nul in
    let goes_on : ltb (suc (length bs)) (suc (length bs)) ≡ false = ground arith in
    rw (cut, all, same, goes_on) refl

-- ===== src/Poll/Receive.antt =====
-- The word protocol as io-multiplexing/poll/main.c receives it: a length byte, then that many bytes.
use c_examples.Base.{
  ℕ, ◌-◌, ◌≤◌, ◌<◌, ◌≡◌, refl, ap, Bool, List, [], ◌∷◌, ◌&&◌, ◌⊎◌, ltb→lt, Option, Bool-cases, inl,
  inr, none, some, arith, ltb, leb, if◌then◌else◌, length, take, drop, get_or, ◌≢◌, c_string,
  lt→ltb,
}
use mathlib.Core.Path.{subst₂}
use c_examples.Base.Run.{Run, returns, ◌>>=◌, ◌>>◌, in_bounds, with_fuel}
use c_examples.Io.Stream.{Event, bytes, fails}
use c_examples.Io.ReadFull.{Rc, complete, closed, error, Outcome, read_full, Cases, read_full-Read}

abbrev pub max_word_len : ℕ
max_word_len = 256

unfoldable pub min_size : ℕ → ℕ → ℕ
min_size a b = if ltb a b then a else b

-- What is done with a client: it is dropped, for a stream that ends or a length that is too
-- large, or its word is printed, up to the first NUL, where the `%s` of the `printf` ends.
pub data Received : Type 0 where
  disconnected : Received
  oversize : ℕ → Received
  word : List ℕ → Received

-- From the result of the second `read_full` on.
after_payload : Rc → Outcome → Received × List Event
after_payload complete o = (word (c_string o.buf), o.rest)
after_payload closed o = (disconnected, o.rest)
after_payload error o = (disconnected, o.rest)

-- From `word_length_u8` on. The last store is that of the NUL, `word[word_length]`.
unfoldable pub receive_payload : ℕ → List Event → Run (Received × List Event)
unfolding min_size after_payload
receive_payload word_length es =
    if ltb (min_size (max_word_len - 1) 255) word_length
    then returns (oversize word_length, es)
    else in_bounds (ltb word_length max_word_len)
      >> (with_fuel (read_full word_length es) >>= λ o. returns (after_payload o.rc o))

-- From the result of the first `read_full` on.
after_length : Rc → Outcome → Run (Received × List Event)
unfolding receive_payload
after_length complete o = receive_payload (get_or o.buf 0 0) o.rest
after_length closed o = returns (disconnected, o.rest)
after_length error o = returns (disconnected, o.rest)

-- The body of the loop of `handle_client_data`, on the input of the client.
unfoldable pub receive : List Event → Run (Received × List Event)
unfolding after_length
receive es = with_fuel (read_full 1 es) >>= λ o. after_length o.rc o

-- What a byte string begins with.
unfoldable pub decode_payload : ℕ → List ℕ → Option (List ℕ × List ℕ)
decode_payload n rest =
    if leb n 255 && leb n (length rest) then some (take n rest, drop n rest) else none

unfoldable pub decode : List ℕ → Option (List ℕ × List ℕ)
unfolding decode_payload
decode [] = none
decode (n ∷ rest) = decode_payload n rest

-- The outcome of one service, by the bytes that are to come: a whole frame is printed and taken
-- off the stream, and anything else drops the client.
abbrev pub Serves : Bool → Received × List Event → Option (List ℕ × List ℕ) → Type 0
Serves end (r, es') (some (w, rest)) =
    (r ≡ word (c_string w)) × (bytes es' ≡ rest) × (fails es' ≡ end)
Serves end (r, es') none = (w : List ℕ) → r ≢ word w

pub decode_payload-some :
    (n : ℕ) (l : List ℕ) → n ≤ 255 → n ≤ length l → decode_payload n l ≡ some (take n l, drop n l)
unfolding decode_payload
decode_payload-some n l h k = ground arith

decode_payload-none : (n : ℕ) (l : List ℕ) → (255 < n) ⊎ (length l < n) → decode_payload n l ≡ none
unfolding decode_payload
decode_payload-none n l h = ground arith

after_payload-Serves :
    (n : ℕ) (input : List ℕ) (end : Bool) (o : Outcome) (rc : Rc)
    → n ≤ 255
    → Cases n [] input end o rc
    → Serves end (after_payload rc o) (decode_payload n input)
unfolding after_payload
after_payload-Serves n input end o complete h (enough, stored, left, same) =
    rw (decode_payload-some n input h enough) (ap (λ w. word (c_string w)) stored, left, same)
after_payload-Serves n input end o closed h (short, same) =
    rw (decode_payload-none n input (inr short)) (λ w. cc)
after_payload-Serves n input end o error h (short, same) =
    rw (decode_payload-none n input (inr short)) (λ w. cc)

receive_payload-Serves :
    (n : ℕ) (es : List Event)
    → (r : Received × List Event) × (receive_payload n es ≡ returns r)
      × Serves (fails es) r (decode_payload n (bytes es))
unfolding receive_payload
receive_payload-Serves n es = elim (Bool-cases (ltb 255 n)) [
  | inl large ↦ (
    (oversize n, es),
    rw large,
    rw (decode_payload-none n (bytes es) (inl (ltb→lt 255 n large))) (λ w. cc),
  )
  | inr fits ↦
      let (o, q, r) = read_full-Read n es in
      (
        after_payload o.rc o,
        rw (fits, lt→ltb n 256 (ground arith), q),
        after_payload-Serves n (bytes es) (fails es) o o.rc (ground arith) r,
      )
]

after_length-Serves :
    (input : List ℕ) (end : Bool) (o : Outcome) (rc : Rc)
    → Cases 1 [] input end o rc
    → (r : Received × List Event) × (after_length rc o ≡ returns r) × Serves end r (decode input)
unfolding after_length decode
after_length-Serves [] end o complete (enough, _, _, _) = absurd (omega arith)
after_length-Serves (n ∷ rest) end o complete (enough, stored, left, same) =
    let (r, q, served) = receive_payload-Serves n o.rest in
    (r, rw stored q, subst₂ (λ e l. Serves e r (decode_payload n l)) same left served)
after_length-Serves [] end o closed c = ((disconnected, o.rest), refl, λ w. cc)
after_length-Serves (n ∷ rest) end o closed (short, c) = absurd (omega arith)
after_length-Serves [] end o error c = ((disconnected, o.rest), refl, λ w. cc)
after_length-Serves (n ∷ rest) end o error (short, c) = absurd (omega arith)

-- Where each `read` is answered, one service of a client ends, however its input is cut into
-- chunks: when a length byte of at most 255 comes, and that many bytes after it, it prints those
-- bytes up to the first NUL among them, and leaves the stream at the byte behind them; with
-- anything else to come it prints nothing and drops the client.
pub receive-decode :
    (es : List Event)
    → (r : Received × List Event) × (receive es ≡ returns r)
      × Serves (fails es) r (decode (bytes es))
unfolding receive
receive-decode es =
    let (o, q, c) = read_full-Read 1 es in
    let (r, e, served) = after_length-Serves (bytes es) (fails es) o o.rc c in (r, rw q e, served)

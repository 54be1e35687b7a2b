-- ===== src/Poll/Frames.antt =====
-- What io-multiplexing/client.c sends against what io-multiplexing/poll/main.c receives.
use mathlib.Core.Path.{subst}
use c_examples.Base.{
  ℕ, suc, ◌≤◌, ◌≡◌, ap, ◌∙◌, List, [], ◌∷◌, ◌++◌, some, arith, ltb, lt→ltb, length, if◌then◌else◌,
  take-length-append, drop-length-append, length-append, NoNul, c_string-NoNul,
}
use c_examples.Base.Run.{Run, returns, exits, failure, ◌>>=◌}
use c_examples.Io.Stream.{Event, bytes, fails}
use c_examples.Poll.Receive.{
  Received, word, receive, decode, decode_payload-some, Serves, receive-decode,
}

-- `send_word(sockfd, word, length)`: the bytes that go out, where both calls of `send` take all
-- that they are given. The caller has found `strlen(word)` to be at most UINT8_MAX.
unfoldable pub send_word : List ℕ → ℕ → List ℕ
send_word w size = if ltb 0 size then size ∷ w else size ∷ []

-- The inner loop of `main`, over the words of a line: what has been sent when it ends, or the exit
-- at a word that is too long.
unfoldable pub send_words : List (List ℕ) → Run (List ℕ)
unfolding send_word
send_words [] = returns []
send_words (w ∷ ws) =
    if ltb 255 (length w)
    then exits failure
    else send_words ws >>= λ sent. returns (send_word w (length w) ++ sent)

decode-send_word :
    (w rest : List ℕ) → length w ≤ 255 → decode (send_word w (length w) ++ rest) ≡ some (w, rest)
unfolding send_word decode
decode-send_word [] rest h = decode_payload-some 0 rest h (omega arith)
decode-send_word (b ∷ w) rest h = rw (lt→ltb 0 (suc (length w)) (omega arith)) (
    decode_payload-some (suc (length w)) ((b ∷ w) ++ rest) h (omega (arith, length-append w rest))
    ∙ (λ i. some (take-length-append (b ∷ w) rest i, drop-length-append (b ∷ w) rest i)))

-- What the client sends is what the server prints: one word, a C string of at most 255 bytes,
-- then anything, is served as that word, and the rest stays to be read.
pub receive-send_word :
    (w rest : List ℕ) (es : List Event)
    → length w ≤ 255
    → NoNul w
    → bytes es ≡ send_word w (length w) ++ rest
    → (es' : List Event) × (receive es ≡ returns (word w, es'))
      × (bytes es' ≡ rest)
      × (fails es' ≡ fails es)
receive-send_word w rest es h no_nul e = go (receive-decode es)
  where
    go :
        (r : Received × List Event) × (receive es ≡ returns r)
          × Serves (fails es) r (decode (bytes es))
        → (es' : List Event) × (receive es ≡ returns (word w, es'))
          × (bytes es' ≡ rest)
          × (fails es' ≡ fails es)
    go ((r, es'), q, served) =
        let (same, left, end) =
          subst (Serves (fails es) (r, es')) (ap decode e ∙ decode-send_word w rest h) served in
        (es', rw (← (same ∙ ap word (c_string-NoNul w no_nul))) q, left, end)

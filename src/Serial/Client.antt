-- ===== src/Serial/Client.antt =====
-- The loop of domain-socket/read-write/client.c and domain-socket/send-recv/client.c over the words of a
-- line, against the server that reads them.
use c_examples.Base.{
  ℕ, ◌≤◌, ◌≡◌, refl, false, List, [], ◌∷◌, ◌++◌, length, ltb, if◌then◌else◌, arith, append-nil,
  NoNul, c_string-NoNul, map, ap, ◌∙◌,
}
use c_examples.Base.Run.{Run, returns, exits, failure, ◌>>=◌}
use mathlib.Core.Path.{subst}
use c_examples.Io.Stream.{Event, arrive, put_back}
use c_examples.Serial.Effects.{printed, Log}
use c_examples.Serial.Words.{
  Whole, over, word_apart, handle_connection, prints, handle_connection-Whole,
}

-- The length, then the word, each in a chunk of its own; a word of more than UINT8_MAX characters ends
-- the process.
unfoldable pub send_words : List (List ℕ) → Run (List Event)
send_words [] = returns []
send_words (word ∷ words) =
    let rest = send_words words in
    if ltb 255 (length word)
    then exits failure
    else rest >>= λ es. returns (arrive (length word) [] ∷ put_back word es)

-- C strings, of at most UINT8_MAX characters.
abbrev pub Short : List (List ℕ) → Type 0
Short [] = Unit
Short (w ∷ ws) = (length w ≤ 255) × NoNul w × Short ws

apart :
    (w : List ℕ) {es : List Event} {ws : List (List ℕ)}
    → Whole es ws
    → Whole (arrive (length w) [] ∷ put_back w es) (w ∷ ws)
apart w {es} {ws} h =
    subst (λ l. Whole (arrive (length w) [] ∷ put_back l es) (w ∷ ws)) (append-nil w)
      (word_apart w [] es h)

send_words-Whole :
    (ws : List (List ℕ)) → Short ws → (es : List Event) × (send_words ws ≡ returns es) × Whole es ws
unfolding send_words
send_words-Whole [] h = ([], refl, over)
send_words-Whole (w ∷ ws) (h, _, k) =
    let (es, sent, whole) = send_words-Whole ws k in
    let fits : ltb 255 (length w) ≡ false = ground arith in
    (arrive (length w) [] ∷ put_back w es, rw (fits, sent) refl, apart w whole)

prints-Short : (ws : List (List ℕ)) → Short ws → prints ws ≡ map printed ws
prints-Short [] h = refl
prints-Short (w ∷ ws) (_, no_nul, k) =
    λ i. printed (c_string-NoNul w no_nul i) ∷ prints-Short ws k i

-- The client of domain-socket/read-write and send-recv sends every list of words, C strings of at
-- most 255 characters; and the server, to which each call of it brings one chunk, prints these
-- words, in order.
pub handle_connection-send_words :
    (ws : List (List ℕ)) (log : Log)
    → Short ws
    → (es : List Event) × (send_words ws ≡ returns es)
      × (handle_connection es log ≡ returns (log ++ map printed ws))
handle_connection-send_words ws log h =
    let (es, sent, whole) = send_words-Whole ws h in
    (es, sent, handle_connection-Whole log whole ∙ ap (λ l. returns (log ++ l)) (prints-Short ws h))

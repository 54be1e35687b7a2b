-- ===== src/Tests/Serial.antt =====
-- Runs of the servers of one client at a time.
use c_examples.Base.{some, ℕ, ◌≡◌, refl, true, List, [], ◌∷◌, ◌++◌, ◌==◌, not, arith, ◌&&◌, map}
use c_examples.Base.Run.{returns, undefined}
use c_examples.Io.Stream.{Event, arrive}
use c_examples.Serial.Effects.{World, closed, shut_rd, shut_rdwr, printed}
use c_examples.Serial.Words.{
  Whole, over, word_whole, word_apart, handle_connection, handle_connection_from, prints, word_cut,
}
use c_examples.Serial.Domain.{socket_path, Files, unlink, Kernel, server_main}
use c_examples.Serial.Named.{Granted, server_main_lem}
use c_examples.Serial.Client.{send_words, handle_connection-send_words}
use c_examples.Serial.Loop.{Accept, refused, stopped, client, effects, all_clients, when_ok}
use c_examples.Serial.Servers.{shutdown_main}
use c_examples.Serial.Runs.{shutdown_main-when_ok}

-- Where descriptor 6 is no longer connected, and takes no byte.
abbrev world : World
world = record { closes = λ fd. true; shuts = λ fd. not (fd == 6); writes = λ fd i. not (fd == 6) }

-- "hi" and "o" in one chunk, and "a" in two.
abbrev stream : List Event
stream = arrive 2 (104 ∷ 105 ∷ 1 ∷ 111 ∷ []) ∷ arrive 1 [] ∷ arrive 97 [] ∷ []

abbrev words : List (List ℕ)
words = (104 ∷ 105 ∷ []) ∷ (111 ∷ []) ∷ (97 ∷ []) ∷ []

stream-Whole : Whole stream words
stream-Whole =
    word_whole (104 ∷ 105 ∷ []) (1 ∷ 111 ∷ []) (arrive 1 [] ∷ arrive 97 [] ∷ [])
      (word_whole (111 ∷ []) [] (arrive 1 [] ∷ arrive 97 [] ∷ []) (word_apart (97 ∷ []) [] [] over))

abbrev rounds : List Accept
rounds = refused ∷ client 5 stream ∷ stopped ∷ []

abbrev kernel : Kernel
kernel = record { socket = some 3; binds = λ fd name. true; listens = λ fd. true; handles = true }

granted : Granted kernel 3
granted = record { creates = refl; binding = λ name. refl; listening = refl; handling = refl }

-- A run that was cut off has left the name of the socket, beside "a".
abbrev files : Files
files = socket_path ∷ (97 ∷ []) ∷ []

server_main_lem_example :
    server_main kernel world files rounds
    ≡ returns (
      unlink socket_path files,
      effects (λ fd es. prints words ++ closed fd ∷ []) rounds ++ closed 3 ∷ [],
    )
server_main_lem_example =
    server_main_lem kernel world 3 granted files rounds (λ fd es. words) (λ fd. refl)
      (stream-Whole, tt)

files_left : unlink socket_path files ≡ (97 ∷ []) ∷ []
unfolding unlink
files_left = refl

domain_effects :
    effects (λ fd es. prints words ++ closed fd ∷ []) rounds ++ closed 3 ∷ []
    ≡ printed (104 ∷ 105 ∷ []) ∷ printed (111 ∷ []) ∷ printed (97 ∷ []) ∷ closed 5 ∷ closed 3 ∷ []
domain_effects = refl

word_cut_example :
    handle_connection_from 5 (arrive 2 (104 ∷ []) ∷ arrive 105 [] ∷ []) [] ≡ undefined
word_cut_example = word_cut 4 2 104 [] (arrive 105 [] ∷ []) [] (omega arith) (omega arith, tt)

abbrev clients : List Accept
clients = client 5 [] ∷ client 6 [] ∷ []

shutdown_main-when_ok_example :
    shutdown_main world 3 clients
    ≡ when_ok
        (all_clients (λ fd es. world.shuts fd) clients && world.shuts 3)
        (effects (λ fd es. shut_rd fd ∷ closed fd ∷ []) clients ++ shut_rdwr 3 ∷ closed 3 ∷ [])
shutdown_main-when_ok_example = shutdown_main-when_ok world (λ fd. refl) 3 clients

handle_connection-send_words_example :
    (es : List Event) × (send_words words ≡ returns es)
    × (handle_connection es [] ≡ returns ([] ++ map printed words))
handle_connection-send_words_example = handle_connection-send_words words [] (
  omega arith,
  (omega arith, (omega arith, tt)),
  (omega arith, (omega arith, tt), (omega arith, (omega arith, tt), tt)),
)

-- ===== src/Tests/Poll.antt =====
-- The `poll` server at concrete inputs.
use c_examples.Base.{
  ℕ, suc, ◌+◌, ◌<◌, ◌^◌, ◌≡◌, refl, Bool, true, false, none, some, List, [], ◌∷◌, ltb, ltb→lt,
  arith, ◌==◌,
}
use c_examples.Base.Run.{Run, returns, Finishes}
use c_examples.Io.Stream.{Event, arrive, read, bytes, fails}
use c_examples.Io.ReadFull.{read_full}
use c_examples.Poll.State.{Fd, Server, Allocator}
use c_examples.Poll.Clients.{
  Stale, clear, initialize_pollfds, first_table, appended, handle_new_connection,
  handle_client_disconnection, remove_slot,
}
use c_examples.Poll.Receive.{Received, word, receive, decode, Serves, receive-decode}
use c_examples.Poll.Frames.{send_word, receive-send_word}
use c_examples.Poll.Service.{handle_client_data, after_receive}
use c_examples.Poll.Invariant.{IsValid, appended-IsValid, handle_new_connection-IsValid}
use c_examples.Poll.Held.{is, times, held, held-handle_client_disconnection}
use c_examples.Poll.Served.{Served, handle_client_data-Served}
use c_examples.Poll.Main.{Round, main, poll}
use c_examples.Poll.Balance.{accepts, poll-IsValid}
use c_examples.Poll.NoLeak.{first_table-Fresh}
use c_examples.Poll.Program as Program
use c_examples.Poll.Program.{program, poll_program-Finishes, poll_program-closes}
use c_examples.Serial.Domain.{socket_path, Files, unlink, Kernel}

limit : (size : ℕ) → ltb size (2 ^ 63) ≡ true → size < 2 ^ 63
limit size h = ltb→lt size (2 ^ 63) h

abbrev allocator : Allocator
allocator = record { grants = λ size. ltb size (2 ^ 63); limit = limit }

-- Memory full of old descriptors.
abbrev stale : Stale
stale = record {
  socket = λ i. some 99;
  pollfd = λ i. record { fd = some 99; events = true; revents = true };
}

-- Descriptor 5 sends "hi", and the peer closes.
abbrev streams : ℕ → List Event
streams fd = arrive 2 (b'h' ∷ []) ∷ arrive b'i' [] ∷ []

abbrev connect : Round
connect = record { poll_fails = false; readable = λ i. i == 0; accepted = some 5 }

abbrev input : Round
input = record { poll_fails = false; readable = λ i. i == 1; accepted = none }

abbrev always : ℕ → Bool
always fd = true

abbrev session : Run Server
session = main allocator stale always 3 streams (connect ∷ input ∷ input ∷ [])

abbrev ended : Run Server → List Fd × List (Fd × List ℕ)
ended (returns s) = (s.closed, s.printed)
ended r = ([], [])

session_ends : ended session ≡ (some 5 ∷ some 3 ∷ [], (some 5, b'h' ∷ b'i' ∷ []) ∷ [])
unfolding main initialize_pollfds first_table clear handle_new_connection handle_client_data
    after_receive receive read_full read handle_client_disconnection remove_slot
session_ends = refl

abbrev server_of : Run Server → Server
server_of (returns s) = s
server_of r = first_table stale 3 streams

session_returns : session ≡ returns (server_of session)
unfolding main initialize_pollfds first_table clear handle_new_connection handle_client_data
    after_receive receive read_full read handle_client_disconnection remove_slot
session_returns = refl

abbrev kernel : Kernel
kernel = record { socket = some 3; binds = λ fd name. true; listens = λ fd. true; handles = true }

abbrev files : Files
files = socket_path ∷ (97 ∷ []) ∷ []

abbrev poll_rounds : List Round
poll_rounds = connect ∷ input ∷ input ∷ []

program_returns :
    program kernel allocator stale always files streams poll_rounds
    ≡ returns ((97 ∷ []) ∷ [], server_of session)
unfolding program main initialize_pollfds first_table clear handle_new_connection handle_client_data
    after_receive receive read_full read handle_client_disconnection remove_slot
    Program.socket_create Program.socket_bind unlink
program_returns = refl

poll_program-closes_example :
    (sockfd : ℕ) × (kernel.socket ≡ some sockfd)
    × ((97 ∷ []) ∷ [] ≡ unlink socket_path files)
    × ((fd : ℕ)
        → times (suc fd) (server_of session).closed
          ≡ accepts (suc fd) poll_rounds + is (suc fd) (some sockfd))
poll_program-closes_example =
    poll_program-closes kernel allocator stale always files ((97 ∷ []) ∷ []) streams poll_rounds
      program_returns

poll_program-Finishes_example :
    Finishes (program kernel allocator stale always files streams poll_rounds)
poll_program-Finishes_example =
    poll_program-Finishes kernel allocator stale always files streams poll_rounds

receive-decode_example :
    (r : Received × List Event) × (receive (streams 5) ≡ returns r)
    × Serves (fails (streams 5)) r (decode (bytes (streams 5)))
receive-decode_example = receive-decode (streams 5)

receive-send_word_example :
    (es : List Event) × (receive (streams 5) ≡ returns (word (b'h' ∷ b'i' ∷ []), es))
    × (bytes es ≡ [])
    × (fails es ≡ false)
unfolding send_word
receive-send_word_example =
    receive-send_word (b'h' ∷ b'i' ∷ []) [] (streams 5) (omega arith)
      (omega arith, (omega arith, tt)) refl

-- Two clients, 5 and 6.
abbrev two_clients : Server
two_clients = appended 6 (appended 5 (first_table stale 3 streams))

two_clients-IsValid : IsValid 3 two_clients
unfolding appended first_table
two_clients-IsValid =
    appended-IsValid 6 (appended-IsValid 5 (first_table-Fresh stale 3 streams).valid (omega arith))
      (omega arith)

-- A round in which the listener is readable, and `accept` returns 7.
abbrev asked : Server
asked = record two_clients { fds = poll 3 (λ i. i == 0) two_clients.fds }

asked-IsValid : IsValid 3 asked
unfolding appended first_table
asked-IsValid = poll-IsValid (λ i. i == 0) two_clients-IsValid

handle_new_connection-IsValid_example : IsValid 3 (appended 7 asked)
unfolding handle_new_connection appended first_table clear poll
handle_new_connection-IsValid_example =
    handle_new_connection-IsValid allocator stale (some 7) asked-IsValid refl

handle_client_data-Served_example :
    (t : Server) × (handle_client_data two_clients ≡ returns t) × Served 3 two_clients t
handle_client_data-Served_example = handle_client_data-Served two_clients-IsValid

held-handle_client_disconnection_example :
    let t = handle_client_disconnection 0 two_clients in
    (held 5 t + is 5 (some 5) ≡ held 5 two_clients)
    × (times 5 t.closed ≡ times 5 two_clients.closed + is 5 (some 5))
unfolding appended first_table clear
held-handle_client_disconnection_example =
    held-handle_client_disconnection 5 0 two_clients-IsValid (omega arith)

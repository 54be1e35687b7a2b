-- ===== src/Tests/Select.antt =====
-- The server io-multiplexing/select with one client, on descriptor 5, and with a second that comes.
use c_examples.Base.{
  ℕ, zero, suc, ◌+◌, ◌≤◌, ◌<◌, ◌≡◌, refl, arith, ltb, if◌then◌else◌, ◌==◌, true, none, some, List,
  [], ◌∷◌,
}
use c_examples.Base.Run.{Run, returns, Finishes}
use c_examples.Io.Stream.{arrive}
use c_examples.Io.Stream.{read}
use c_examples.Io.ReadFull.{read_full}
use c_examples.Poll.State.{Fd, Allocator}
use c_examples.Poll.Receive.{receive}
use c_examples.Select.Server.{
  Server, Watch, watch_from, client_io_from, select_ready, select_interrupted, Select, enlarge,
  main_loop,
}
use c_examples.Select.Invariant.{InRange, socket, IsValid, client_io-IsValid}
use c_examples.Select.Watching.{Bounded, Watches, watch_from_lem}
use c_examples.Poll.Held.{is}
use c_examples.Select.Held.{closings}
use c_examples.Select.Main.{main}
use c_examples.Select.NoLeak.{arrivals}
use c_examples.Select.Program as Program
use c_examples.Select.Program.{program, select_program-Finishes, select_program-closes}
use c_examples.Serial.Domain.{socket_path, Files, unlink, Kernel}
use c_examples.Select.Loop.{Ends, select_loop-Ends}

abbrev allocator : Allocator
allocator = record { grants = λ n. ltb n 1000; limit = λ n e. ground (arith, e) }

abbrev stale : ℕ → Fd
stale i = none

-- Client 5 has sent the word "hi".
abbrev one_client : Server
one_client = record {
  client_sockets = some 5 ∷ none ∷ none ∷ none ∷ [];
  client_count = 1;
  client_capacity = 4;
  streams = λ i. arrive 2 (104 ∷ 105 ∷ []) ∷ [];
  closed = [];
  printed = [];
}

one_client-InRange : (i : ℕ) → i < 1 → InRange (socket one_client i)
one_client-InRange zero h = omega arith
one_client-InRange (suc i) h = absurd (omega arith)

one_client-IsValid : IsValid one_client
one_client-IsValid = record {
  sized = omega arith;
  sockets_length = refl;
  fits = omega arith;
  in_range = one_client-InRange;
}

abbrev listener : Watch
listener = record { readfds = 3 ∷ []; max_fd = 3 }

listener-Bounded : Bounded listener
listener-Bounded fd m = ground arith

watch_from_lem_example :
    (w' : Watch) × (watch_from (suc one_client.client_count) 0 listener one_client
      ≡ returns (w', one_client))
    × Watches 0 one_client listener w'
watch_from_lem_example = watch_from_lem listener one_client one_client-IsValid listener-Bounded

client_io-IsValid_example :
    (t : Server) × (client_io_from (suc one_client.client_count) (5 ∷ []) 0 one_client ≡ returns t)
    × IsValid t
    × (t.client_count ≤ one_client.client_count)
client_io-IsValid_example = client_io-IsValid (5 ∷ []) one_client one_client-IsValid

-- The word is printed and the stream ends: the second service drops the client.
service :
    client_io_from 2 (5 ∷ []) 0 one_client
    ≡ returns (record one_client {
      streams = λ i. if i == 5 then [] else one_client.streams i;
      printed = (5, 104 ∷ 105 ∷ []) ∷ [];
    })
unfolding client_io_from receive read_full read
service = refl

select_loop-Ends_example :
    Ends (main_loop allocator stale 3 (select_ready (λ i. true) (some 7) ∷ []) one_client)
select_loop-Ends_example =
    select_loop-Ends allocator stale 3 (select_ready (λ i. true) (some 7) ∷ []) one_client
      one_client-IsValid

-- Client 7 comes, sends "hi", and its stream ends; client 8 comes.
abbrev rounds : List Select
rounds =
    select_ready (λ i. true) (some 7)
    ∷ select_interrupted
    ∷ select_ready (λ i. i == 7) none
    ∷ select_ready (λ i. true) (some 8)
    ∷ []

abbrev session : Run Server
session = main allocator stale (λ fd. true) 3 one_client.streams rounds

abbrev server_of : Run Server → Server
server_of (returns t) = t
server_of _ = one_client

session_returns : session ≡ returns (server_of session)
unfolding main receive read_full read enlarge
session_returns = refl

abbrev kernel : Kernel
kernel = record { socket = some 3; binds = λ fd name. true; listens = λ fd. true; handles = true }

abbrev files : Files
files = socket_path ∷ (97 ∷ []) ∷ []

program_returns :
    program kernel allocator stale (λ fd. true) files one_client.streams rounds
    ≡ returns ((97 ∷ []) ∷ [], server_of session)
unfolding program main receive read_full read enlarge Program.socket_create Program.socket_bind
    unlink
program_returns = refl

select_program-closes_example :
    (sockfd : ℕ) × (kernel.socket ≡ some sockfd)
    × ((97 ∷ []) ∷ [] ≡ unlink socket_path files)
    × ((fd : ℕ)
        → closings fd (server_of session).closed ≡ arrivals sockfd fd rounds + is fd (some sockfd))
select_program-closes_example =
    select_program-closes kernel allocator stale (λ fd. true) files ((97 ∷ []) ∷ [])
      one_client.streams rounds program_returns

select_program-Finishes_example :
    Finishes (program kernel allocator stale (λ fd. true) files one_client.streams rounds)
select_program-Finishes_example =
    select_program-Finishes kernel allocator stale (λ fd. true) files one_client.streams rounds

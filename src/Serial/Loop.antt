-- ===== src/Serial/Loop.antt =====
-- The loop over `accept` that domain-socket/read-write/server.c, domain-socket/send-recv/server.c,
-- tcp/shutdown/server.c and networking-functions/listen-accept/main.c share.
use c_examples.Base.{
  Bool, true, false, if◌then◌else◌, ◌&&◌, ℕ, ◌≡◌, refl, ◌∙◌, ap, List, [], ◌∷◌, ◌++◌, append_assoc,
  append-nil,
}
use c_examples.Base.Run.{Run, returns, exits, failure, ◌>>=◌, ◌>>◌, require}
use c_examples.Io.Stream.{Event}
use c_examples.Serial.Effects.{Log}

-- What `accept` returns: -1, where no signal has come or SIGINT has; or a client, with its stream.
pub data Accept : Type 0 where
  refused : Accept
  stopped : Accept
  client : ℕ → List Event → Accept

-- `serve` is the body of the loop behind the test of `client_sockfd`. The list ends where the test of
-- `exit_flag` at the top of the loop ends it.
unfoldable pub accept_loop : (ℕ → List Event → Log → Run Log) → List Accept → Log → Run Log
accept_loop serve [] log = returns log
accept_loop serve (refused ∷ rs) log = accept_loop serve rs log
accept_loop serve (stopped ∷ rs) log = returns log
accept_loop serve (client fd es ∷ rs) log = serve fd es log >>= accept_loop serve rs

-- Each client accepted before the stop is served with the effects `of`, in order.
abbrev pub effects : (ℕ → List Event → Log) → List Accept → Log
effects of [] = []
effects of (refused ∷ rs) = effects of rs
effects of (stopped ∷ rs) = []
effects of (client fd es ∷ rs) = of fd es ++ effects of rs

-- Of every client up to the stop.
abbrev pub AllClients : (ℕ → List Event → Type 0) → List Accept → Type 0
AllClients P [] = Unit
AllClients P (refused ∷ rs) = AllClients P rs
AllClients P (stopped ∷ rs) = Unit
AllClients P (client fd es ∷ rs) = P fd es × AllClients P rs

pub accept_loop_lem :
    (serve : ℕ → List Event → Log → Run Log) (of : ℕ → List Event → Log) (rs : List Accept)
    (log : Log)
    → AllClients (λ fd es. (log : Log) → serve fd es log ≡ returns (log ++ of fd es)) rs
    → accept_loop serve rs log ≡ returns (log ++ effects of rs)
unfolding accept_loop
accept_loop_lem serve of [] log h = rw append-nil refl
accept_loop_lem serve of (refused ∷ rs) log h = accept_loop_lem serve of rs log h
accept_loop_lem serve of (stopped ∷ rs) log h = rw append-nil refl
accept_loop_lem serve of (client fd es ∷ rs) log (h, g) = rw (h log) (
    accept_loop_lem serve of rs (log ++ of fd es) g
    ∙ ap returns (append_assoc log (of fd es) (effects of rs)))

-- Whether every client up to the stop passes a test.
abbrev pub all_clients : (ℕ → List Event → Bool) → List Accept → Bool
all_clients ok [] = true
all_clients ok (refused ∷ rs) = all_clients ok rs
all_clients ok (stopped ∷ rs) = true
all_clients ok (client fd es ∷ rs) = ok fd es && all_clients ok rs

-- Returns what it does to the log, or ends the process.
abbrev pub when_ok : Bool → Log → Run Log
when_ok ok log = if ok then returns log else exits failure

pub when_ok-then :
    (b c : Bool) (l m : Log) (f : Log → Run Log)
    → f l ≡ when_ok c m
    → (when_ok b l >>= f) ≡ when_ok (b && c) m
when_ok-then true c l m f h = h
when_ok-then false c l m f h = refl

pub require-when_ok :
    (b c : Bool) (m : Log) (k : Run Log) → k ≡ when_ok c m → (require b >> k) ≡ when_ok (b && c) m
require-when_ok true c m k h = h
require-when_ok false c m k h = refl

pub accept_loop-when_ok :
    (serve : ℕ → List Event → Log → Run Log) (of : ℕ → List Event → Log)
    (ok : ℕ → List Event → Bool)
    → ((fd : ℕ) (es : List Event) (log : Log)
        → serve fd es log ≡ when_ok (ok fd es) (log ++ of fd es))
    → (rs : List Accept) (log : Log)
    → accept_loop serve rs log ≡ when_ok (all_clients ok rs) (log ++ effects of rs)
unfolding accept_loop
accept_loop-when_ok serve of ok h [] log = rw append-nil refl
accept_loop-when_ok serve of ok h (refused ∷ rs) log = accept_loop-when_ok serve of ok h rs log
accept_loop-when_ok serve of ok h (stopped ∷ rs) log = rw append-nil refl
accept_loop-when_ok serve of ok h (client fd es ∷ rs) log = rw (h fd es log) (
    when_ok-then (ok fd es) (all_clients ok rs) _ _ (accept_loop serve rs) (
      accept_loop-when_ok serve of ok h rs (log ++ of fd es)
      ∙ ap (when_ok (all_clients ok rs)) (append_assoc log (of fd es) (effects of rs))))

-- ===== src/Poll/State.antt =====
-- The variables of `main` in io-multiplexing/poll/main.c, and what the kernel is assumed to do.
use c_examples.Base.{ℕ, ◌<◌, ◌^◌, ◌≡◌, Bool, true, false, List, Option, none}
use c_examples.Io.Stream.{Event}

-- An `int` that holds a descriptor; `none` is -1.
abbrev pub Fd : Type 0
Fd = Option ℕ

-- `struct pollfd`. Of `events` and `revents` only the bit POLLIN is used.
pub record PollFd : Type 0 where
  pub fd : Fd
  pub events : Bool
  pub revents : Bool

abbrev pub blank : PollFd
blank = record { fd = none; events = false; revents = false }

-- The two arrays with their sizes, and what has been done to the world: the input that each
-- descriptor still has to give, the descriptors closed, and the words printed, each in order.
pub record Server : Type 0 where
  pub client_sockets : List Fd
  pub client_count : ℕ
  pub client_capacity : ℕ
  pub fds : List PollFd
  pub streams : ℕ → List Event
  pub closed : List Fd
  pub printed : List (Fd × List ℕ)

-- The allocator: whether a request for so many bytes succeeds. No object is larger than PTRDIFF_MAX.
pub record Allocator : Type 0 where
  pub grants : ℕ → Bool
  pub limit : (size : ℕ) → grants size ≡ true → size < 2 ^ 63

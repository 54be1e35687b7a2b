-- ===== src/Poll/NoLeak.antt =====
-- What io-multiplexing/poll/main.c has closed by its end, but for descriptor 0, which its last loop
-- passes over.
use c_examples.Base.{
  ℕ, zero, suc, ◌+◌, ◌≡◌, refl, ap, Bool, none, some, List, [], ◌∷◌, ◌++◌, arith, get_or,
  get_or-replicate, ltb, length,
}
use c_examples.Base.Run.{
  Run, returns, ◌>>=◌, >>=-eq-returns, returns-injective, in_bounds-eq-returns,
}
use c_examples.Io.Stream.{Event}
use c_examples.Poll.State.{Fd, blank, Server, Allocator}
use c_examples.Poll.Clients.{Stale, clear, first_table, initialize_pollfds}
use c_examples.Poll.Invariant.{IsValid, socket}
use c_examples.Poll.Held.{is, held, held_below, times, times-append}
use c_examples.Poll.Main.{Round, socket_close, close_slot, close_clients, main_loop, main}
use c_examples.Poll.Balance.{accepts, main_loop-balance}

-- The table that `initialize_pollfds` makes.
pub record Fresh (sockfd : ℕ) (s : Server) : Type 0 where
  pub valid : IsValid sockfd s
  pub no_clients : s.client_count ≡ 0
  pub none_closed : s.closed ≡ []

pub first_table-Fresh :
    (stale : Stale) (sockfd : ℕ) (streams : ℕ → List Event)
    → Fresh sockfd (first_table stale sockfd streams)
unfolding first_table clear
first_table-Fresh stale sockfd streams = record {
  valid = record {
    sized = omega arith;
    some_room = omega arith;
    sockets_length = refl;
    fds_length = refl;
    fits = omega arith;
    listener = (refl, refl);
    watched = λ i h. absurd (omega arith);
    cleared = λ i h.
        let next : i + 1 ≡ suc i = omega arith in
        (get_or-replicate 4 i none, rw next (get_or-replicate 4 i blank));
  };
  no_clients = refl;
  none_closed = refl;
}

pub initialize_pollfds-Fresh :
    (a : Allocator) (stale : Stale) (sockfd : ℕ) (streams : ℕ → List Event) {s : Server}
    → initialize_pollfds a stale sockfd streams ≡ returns s
    → Fresh sockfd s
unfolding initialize_pollfds
initialize_pollfds-Fresh a stale sockfd streams {s} e =
    let made : s ≡ first_table stale sockfd streams = ground arith in
    rw made (first_table-Fresh stale sockfd streams)

socket_close-closed :
    (closes : ℕ → Bool) (fd : ℕ) (s : Server) {t : Server}
    → socket_close closes fd s ≡ returns t
    → (t.closed ≡ s.closed ++ some fd ∷ []) × (t.client_sockets ≡ s.client_sockets)
unfolding socket_close
socket_close-closed closes fd s e = ground arith

pub close_slot-closed :
    (closes : ℕ → Bool) (k : ℕ) (x : Fd) (s : Server) {t : Server}
    → close_slot closes x s ≡ returns t
    → (times (suc k) t.closed ≡ times (suc k) s.closed + is (suc k) x)
      × (t.client_sockets ≡ s.client_sockets)
unfolding close_slot
close_slot-closed closes k none s e = rw (returns-injective e) (omega arith, refl)
close_slot-closed closes k (some zero) s e = rw (returns-injective e) (ground arith, refl)
close_slot-closed closes k (some (suc fd)) s e =
    let (c, same) = socket_close-closed closes (suc fd) s e in
    (omega (arith, ap (times (suc k)) c, times-append (suc k) s.closed (some (suc fd) ∷ [])), same)

held_below-next :
    (fd i : ℕ) (l : List Fd) → held_below fd (i + 1) l ≡ held_below fd i l + is fd (get_or l i none)
unfolding held_below
held_below-next fd i l = let next : i + 1 ≡ suc i = omega arith in rw next

close_clients-closed :
    (closes : ℕ → Bool) (k n i m : ℕ) (s : Server) {t : Server}
    → close_clients closes n i s ≡ returns t
    → m ≡ n + i
    → times (suc k) t.closed + held_below (suc k) i s.client_sockets
      ≡ times (suc k) s.closed + held_below (suc k) m s.client_sockets
unfolding close_clients
close_clients-closed closes k zero i m s e q =
    let same : m ≡ i = omega arith in rw (returns-injective e, same)
close_clients-closed closes k (suc n) i m s e q =
    let (x, one, rest) =
      >>=-eq-returns (close_slot closes (socket s i) s) (close_clients closes n (i + 1))
        (in_bounds-eq-returns (ltb i (length s.client_sockets)) _ e) in
    let (c, same) = close_slot-closed closes k (socket s i) s one in
    let later = close_clients-closed closes k n (i + 1) m x rest (omega arith) in
    omega (
      arith,
      c,
      later,
      ap (held_below (suc k) (i + 1)) same,
      ap (held_below (suc k) m) same,
      held_below-next (suc k) i s.client_sockets,
    )

held-none : (fd : ℕ) (s : Server) → s.client_count ≡ 0 → held fd s ≡ 0
unfolding held_below
held-none fd s e = rw e

-- When the server of io-multiplexing/poll ends normally, each descriptor but 0 has been closed
-- exactly as often as `accept` gave it, and the listening one once more: none is leaked and none
-- is closed twice.
pub main-closes :
    (a : Allocator) (stale : Stale) (closes : ℕ → Bool) (sockfd : ℕ) (streams : ℕ → List Event)
    (rounds : List Round) {t : Server}
    → main a stale closes sockfd streams rounds ≡ returns t
    → (k : ℕ) → times (suc k) t.closed ≡ accepts (suc k) rounds + is (suc k) (some sockfd)
unfolding main held_below
main-closes a stale closes sockfd streams rounds {t} e k =
    let made = initialize_pollfds a stale sockfd streams in
    let close_all : Server → Run Server = λ s. close_clients closes s.client_count 0 s in
    let (z, cleaned, last) =
      >>=-eq-returns (made >>= main_loop a stale rounds >>= close_all) (socket_close closes sockfd)
        e in
    let (y, served, closing) =
      >>=-eq-returns (made >>= main_loop a stale rounds) close_all cleaned in
    let (x, started, looped) = >>=-eq-returns made (main_loop a stale rounds) served in
    let f = initialize_pollfds-Fresh a stale sockfd streams started in
    let (v, balanced) = main_loop-balance a stale rounds (suc k) f.valid looped in
    omega (
      arith,
      balanced,
      close_clients-closed closes k y.client_count 0 y.client_count y closing (omega arith),
      ap (times (suc k)) (socket_close-closed closes sockfd z last).0,
      times-append (suc k) z.closed (some sockfd ∷ []),
      ap (times (suc k)) f.none_closed,
      held-none (suc k) x f.no_clients,
    )

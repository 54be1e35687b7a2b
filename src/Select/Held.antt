-- ===== src/Select/Held.antt =====
-- How often a descriptor is in the client table of io-multiplexing/select/main.c, and how often it has
-- been closed.
use c_examples.Base.{
  ℕ, suc, ◌+◌, ◌-◌, ◌<◌, ◌≤◌, ◌≡◌, ap, none, some, List, [], ◌∷◌, ◌++◌, if◌then◌else◌, ◌==◌, arith,
  get_or, set, length, get_or-set,
}
use c_examples.Poll.State.{Fd}
use c_examples.Poll.Held.{is, held_below, held_below-set, held_below-set_beyond}
use c_examples.Select.Server.{Server, remove_client, drop_client, appended}

abbrev pub closings : ℕ → List ℕ → ℕ
closings fd [] = 0
closings fd (x ∷ l) = is fd (some x) + closings fd l

pub closings-append : (fd : ℕ) (l m : List ℕ) → closings fd (l ++ m) ≡ closings fd l + closings fd m
closings-append fd [] m = omega arith
closings-append fd (x ∷ l) m = omega (arith, closings-append fd l m)

abbrev pub held : ℕ → Server → ℕ
held fd s = held_below fd s.client_count s.client_sockets

-- The descriptors held, with those closed.
abbrev pub balance : ℕ → Server → ℕ
balance fd s = held fd s + closings fd s.closed

held_below-moved :
    (fd i last : ℕ) (xs : List Fd)
    → i ≤ last
    → last < length xs
    → held_below fd last (if i == last then xs else set xs i (get_or xs last none))
        + is fd (get_or xs i none)
      ≡ held_below fd (suc last) xs
unfolding held_below
held_below-moved fd i last xs h k =
    ground (arith, held_below-set fd last i xs (get_or xs last none))

-- `close` and `remove_client` move one descriptor from the table to those closed.
pub balance-drop_client :
    (fd sd i : ℕ) (s : Server)
    → i < s.client_count
    → s.client_count ≤ length s.client_sockets
    → get_or s.client_sockets i none ≡ some sd
    → balance fd (drop_client sd i s) ≡ balance fd s
unfolding drop_client remove_client
balance-drop_client fd sd i s h k here =
    let back : suc (s.client_count - 1) ≡ s.client_count = omega arith in
    omega (
      arith,
      held_below-moved fd i (s.client_count - 1) s.client_sockets (omega arith) (omega arith),
      ap (λ n. held_below fd n s.client_sockets) back,
      ap (is fd) here,
      closings-append fd s.closed (sd ∷ []),
    )

pub held-appended :
    (fd new_socket : ℕ) (s : Server)
    → s.client_count < length s.client_sockets
    → held fd (appended new_socket s) ≡ held fd s + is fd (some new_socket)
unfolding appended held_below
held-appended fd new_socket s room =
    let next : s.client_count + 1 ≡ suc s.client_count = omega arith in
    rw next (
      ground (
        arith,
        held_below-set_beyond fd s.client_count s.client_count s.client_sockets (some new_socket),
        get_or-set s.client_sockets s.client_count s.client_count (some new_socket) none,
      ))

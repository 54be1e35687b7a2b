-- ===== src/Poll/Held.antt =====
-- The client table as a multiset of descriptors: how often each is among the first slots, and how
-- often it has been closed.
use c_examples.Base.{
  ℕ, zero, suc, ◌+◌, ◌-◌, ◌≤◌, ◌<◌, ◌≡◌, refl, ap, ◌∙◌, Bool, true, false, some, none, List, [],
  ◌∷◌, ◌++◌, arith, length, get_or, set, if◌then◌else◌, ◌==◌, get_or-set, length-set,
}
use native.Mathlib.Decide.{dec_lt}
use c_examples.Poll.State.{Fd, Server}
use c_examples.Poll.Clients.{appended, handle_client_disconnection, remove_slot}
use c_examples.Poll.Invariant.{IsValid, socket}

abbrev pub is : ℕ → Fd → ℕ
is fd none = 0
is fd (some k) = if fd == k then 1 else 0

-- Among the first `n` slots.
unfoldable pub held_below : ℕ → ℕ → List Fd → ℕ
held_below fd zero l = 0
held_below fd (suc n) l = held_below fd n l + is fd (get_or l n none)

abbrev pub held : ℕ → Server → ℕ
held fd s = held_below fd s.client_count s.client_sockets

abbrev pub times : ℕ → List Fd → ℕ
times fd [] = 0
times fd (x ∷ l) = is fd x + times fd l

pub times-append : (fd : ℕ) (l m : List Fd) → times fd (l ++ m) ≡ times fd l + times fd m
times-append fd [] m = omega arith
times-append fd (x ∷ l) m = omega (arith, times-append fd l m)

pub held_below-set_beyond :
    (fd n i : ℕ) (l : List Fd) (v : Fd)
    → i < length l
    → n ≤ i
    → held_below fd n (set l i v) ≡ held_below fd n l
unfolding held_below
held_below-set_beyond fd zero i l v h k = refl
held_below-set_beyond fd (suc n) i l v h k =
    ground (arith, held_below-set_beyond fd n i l v, get_or-set l i n v none)

pub held_below-set :
    (fd n i : ℕ) (l : List Fd) (v : Fd)
    → i < length l
    → i < n
    → held_below fd n (set l i v) + is fd (get_or l i none) ≡ held_below fd n l + is fd v
unfolding held_below
held_below-set fd zero i l v h k = elim k [ ]
held_below-set fd (suc n) i l v h k = elim (dec_lt i n) [
  | yes below ↦ ground (arith, held_below-set fd n i l v h below, get_or-set l i n v none)
  | no last ↦ ground (arith, held_below-set_beyond fd n i l v, get_or-set l i n v none)
]

held_below-remove_slot :
    (fd : ℕ) (is_last : Bool) (i last : ℕ) (l : List Fd)
    → (is_last ≡ true → i ≡ last)
    → (is_last ≡ false → i < last)
    → last < length l
    → held_below fd last (remove_slot none is_last i last l) + is fd (get_or l i none)
      ≡ held_below fd (suc last) l
unfolding remove_slot held_below
held_below-remove_slot fd true i last l e n h =
    ground (arith, e refl, held_below-set_beyond fd last last l none)
held_below-remove_slot fd false i last l e n h = ground (
  arith,
  n refl,
  held_below-set fd last i l (get_or l last none),
  held_below-set_beyond fd last last (set l i (get_or l last none)) none,
  length-set l i (get_or l last none),
)

-- On a well-formed table, `handle_client_disconnection` takes its client out of the table and
-- closes it: as multisets, the table loses that descriptor and the closed ones gain it.
pub held-handle_client_disconnection :
    (fd i : ℕ) {sockfd : ℕ} {s : Server}
    → IsValid sockfd s
    → i < s.client_count
    → let t = handle_client_disconnection i s in
      (held fd t + is fd (socket s i) ≡ held fd s)
      × (times fd t.closed ≡ times fd s.closed + is fd (socket s i))
unfolding handle_client_disconnection
held-handle_client_disconnection fd i {s = s} v h = (
  removed ∙ ap (λ n. held_below fd n s.client_sockets) back,
  omega (arith, times-append fd s.closed (socket s i ∷ [])),
)
  where
    last : ℕ
    last = s.client_count - 1

    back : suc last ≡ s.client_count
    back = omega arith

    removed :
        held_below fd last (remove_slot none (i == last) i last s.client_sockets)
          + is fd (socket s i)
        ≡ held_below fd (suc last) s.client_sockets
    removed =
        held_below-remove_slot fd (i == last) i last s.client_sockets (λ e. ground arith)
          (λ e. ground arith) (omega (arith, v.sockets_length, v.fits))

-- Appending a client adds it once.
pub held-appended :
    (fd new_socket : ℕ) {sockfd : ℕ} {s : Server}
    → IsValid sockfd s
    → s.client_count < s.client_capacity
    → held fd (appended new_socket s) ≡ held fd s + is fd (some new_socket)
unfolding appended held_below
held-appended fd new_socket {s = s} v room =
    let next : s.client_count + 1 ≡ suc s.client_count = omega arith in
    rw next (
      ground (
        arith,
        held_below-set_beyond fd s.client_count s.client_count s.client_sockets (some new_socket),
        get_or-set s.client_sockets s.client_count s.client_count (some new_socket) none,
      ))

pub held_below-ext :
    (fd n : ℕ) (l m : List Fd)
    → ((i : ℕ) → get_or l i none ≡ get_or m i none)
    → held_below fd n l ≡ held_below fd n m
unfolding held_below
held_below-ext fd zero l m h = refl
held_below-ext fd (suc n) l m h = omega (arith, held_below-ext fd n l m h, ap (is fd) (h n))

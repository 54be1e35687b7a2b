-- ===== src/Select/Arrivals.antt =====
-- A new connection in io-multiplexing/select/main.c: the table grows, and takes the client.
use c_examples.Base.{
  ℕ, zero, suc, [], ◌∷◌, ◌++◌, ap, ◌+◌, ◌-◌, ◌*◌, ◌^◌, ◌≤◌, ◌<◌, ◌≡◌, refl, ◌∙◌, inl, inr, false,
  Option, none, some, List, if◌then◌else◌, ◌==◌, leb, length, arith, Bool-cases, length-append,
  get_or-append_left, ltb,
}
use c_examples.Base.Run.{returns, >>=-eq-returns, returns-injective, in_bounds-eq-returns}
use c_examples.Poll.State.{Fd, Allocator}
use c_examples.Poll.Clients.{uninitialised}
use c_examples.Poll.Growth.{length-uninitialised}
use c_examples.Select.Held.{balance, closings, closings-append, held-appended}
use c_examples.Poll.Held.{is, held_below}
use c_examples.Select.Invariant.{IsValid, appended-IsValid}
use c_examples.Select.Server.{
  Server, fd_setsize, append_client, appended, grow_clients, accept_client, enlarge,
}

enlarge-IsValid :
    (stale : ℕ → Fd) (n : ℕ) (s : Server)
    → IsValid s
    → s.client_capacity < n
    → n * 4 < 2 ^ 63
    → IsValid (enlarge stale n s)
unfolding enlarge
enlarge-IsValid stale n s v h small = record {
  sized = small;
  sockets_length =
      length-append s.client_sockets (uninitialised (n - s.client_capacity) stale)
      ∙ omega (arith, v.sockets_length, length-uninitialised (n - s.client_capacity) stale);
  fits = omega (arith, v.fits);
  in_range = λ i q.
      rw
        (get_or-append_left s.client_sockets (uninitialised (n - s.client_capacity) stale) i none
          (omega (arith, v.fits, v.sockets_length)))
        (v.in_range i q);
}

held_below-append :
    (fd n : ℕ) (l m : List Fd) → n ≤ length l → held_below fd n (l ++ m) ≡ held_below fd n l
unfolding held_below
held_below-append fd zero l m h = refl
held_below-append fd (suc n) l m h =
    ground (arith, held_below-append fd n l m, get_or-append_left l m n none)

balance-enlarge :
    (fd : ℕ) (stale : ℕ → Fd) (n : ℕ) (s : Server)
    → IsValid s
    → balance fd (enlarge stale n s) ≡ balance fd s
unfolding enlarge
balance-enlarge fd stale n s v = omega (
  arith,
  held_below-append fd s.client_count s.client_sockets (uninitialised (n - s.client_capacity) stale)
      (omega (arith, v.fits, v.sockets_length)),
)

closed-appended : (fd : ℕ) (s : Server) → (appended fd s).closed ≡ s.closed
unfolding appended
closed-appended fd s = refl

module _ (a : Allocator) (stale : ℕ → Fd) where
  grow_clients_inv :
      (s : Server) {t : Server}
      → IsValid s
      → grow_clients a stale s ≡ returns t
      → (n : ℕ) × (t ≡ enlarge stale n s) × (s.client_capacity < n) × (n * 4 < 2 ^ 63)
  unfolding grow_clients
  grow_clients_inv s {t} v e = elim (Bool-cases (s.client_capacity == 0)) [
    | inl empty ↦ (4, ground (arith, a.limit 16), ground arith, omega arith)
    | inr some_room ↦
        let (same, small) = doubled some_room in (s.client_capacity * 2, same, ground arith, small)
  ]
    where
      doubled :
          (s.client_capacity == 0) ≡ false
          → (t ≡ enlarge stale (s.client_capacity * 2) s) × (s.client_capacity * 2 * 4 < 2 ^ 63)
      doubled some_room = ground (arith, a.limit (s.client_capacity * 2 * 4))

  pub make_room :
      (s : Server) {t : Server}
      → IsValid s
      → (if s.client_count == s.client_capacity then grow_clients a stale s else returns s)
        ≡ returns t
      → IsValid t × (t.client_count < t.client_capacity) × ((fd : ℕ) → balance fd t ≡ balance fd s)
  unfolding enlarge
  make_room s v e = elim (Bool-cases (s.client_count == s.client_capacity)) [
    | inl full ↦
        let (n, same, more, small) = grow_clients_inv s v (rw full at e) in
        rw same (
          enlarge-IsValid stale n s v more small,
          omega (arith, v.fits),
          λ fd. balance-enlarge fd stale n s v,
        )
    | inr free ↦ rw (returns-injective (rw free at e)) (v, ground (arith, v.fits), λ fd. refl)
  ]

  closed-IsValid : (l : List ℕ) (s : Server) → IsValid s → IsValid (record s { closed = l })
  closed-IsValid l s v = record {
    sized = v.sized;
    sockets_length = v.sockets_length;
    fits = v.fits;
    in_range = v.in_range;
  }

  -- Whatever `accept` returns and the allocator leaves in memory, the table stays well formed.
  pub accept_client-IsValid :
      (accepted : Option ℕ) (s : Server) {t : Server}
      → IsValid s
      → accept_client a stale accepted s ≡ returns t
      → IsValid t
  unfolding accept_client append_client
  accept_client-IsValid none s v e = cc
  accept_client-IsValid (some fd) s v e = elim (Bool-cases (leb fd_setsize fd)) [
    | inl beyond ↦ rw (returns-injective (rw beyond at e)) (closed-IsValid _ s v)
    | inr below ↦
        let (u, made, stored) = >>=-eq-returns _ (append_client fd) (rw below at e) in
        let done = in_bounds-eq-returns (ltb u.client_count (length u.client_sockets)) _ stored in
        let (w, room, same) = make_room s v made in
        rw (returns-injective done) (appended-IsValid fd u w room (ground arith))
  ]

  -- The descriptor that `accept` returns goes to the table, or is closed.
  pub balance-accept_client :
      (accepted : Option ℕ) (s : Server) {t : Server}
      → IsValid s
      → accept_client a stale accepted s ≡ returns t
      → (fd : ℕ) → balance fd t ≡ balance fd s + is fd accepted
  unfolding accept_client append_client
  balance-accept_client none s v e fd = cc e
  balance-accept_client (some k) s v e fd = elim (Bool-cases (leb fd_setsize k)) [
    | inl beyond ↦
        rw (returns-injective (rw beyond at e))
          (omega (arith, closings-append fd s.closed (k ∷ [])))
    | inr below ↦
        let (u, made, stored) = >>=-eq-returns _ (append_client k) (rw below at e) in
        let done = in_bounds-eq-returns (ltb u.client_count (length u.client_sockets)) _ stored in
        let (w, room, same) = make_room s v made in
        rw (returns-injective done) (
          omega (
            arith,
            held-appended fd k u (omega (arith, w.sockets_length)),
            ap (closings fd) (closed-appended k u),
            same fd,
          ))
  ]

-- ===== src/Poll/Invariant.antt =====
-- Well-formed tables of io-multiplexing/poll/main.c: the arrays have the sizes that the
-- code relies on, entry 0 is the listener, the first `client_count` slots are watched clients,
-- and every later slot is cleared.
use c_examples.Base.{
  ℕ, ◌+◌, ◌-◌, ◌*◌, ◌^◌, ◌≤◌, ◌<◌, ◌≡◌, ◌≢◌, refl, ◌∙◌, true, false, if◌then◌else◌, ◌==◌,
  Bool-cases, ◌⊎◌, inl, inr, Option, none, some, arith, length, get_or, length-set, get_or-set, ltb,
}
use c_examples.Base.Run.{returns, >>=-eq-returns, returns-injective, in_bounds-eq-returns}
use c_examples.Poll.State.{Fd, PollFd, blank, Server, Allocator}
use c_examples.Poll.Clients.{
  Stale, remove_slot, enlarge, grow, append_client, append_in_bounds, appended,
  handle_new_connection, handle_client_disconnection,
}
use c_examples.Poll.Growth.{
  get_or-clear-append, length-clear-append, get_or-remove_slot, length-remove_slot,
}

abbrev pub socket : Server → ℕ → Fd
socket s i = get_or s.client_sockets i none

abbrev pub entry : Server → ℕ → PollFd
entry s i = get_or s.fds i blank

pub record IsValid (sockfd : ℕ) (s : Server) : Type 0 where
  pub sized : (s.client_capacity + 1) * 8 < 2 ^ 63
  pub some_room : 0 < s.client_capacity
  pub sockets_length : length s.client_sockets ≡ s.client_capacity
  pub fds_length : length s.fds ≡ s.client_capacity + 1
  pub fits : s.client_count ≤ s.client_capacity
  pub listener : ((entry s 0).fd ≡ some sockfd) × ((entry s 0).events ≡ true)
  pub watched :
      (i : ℕ)
      → i < s.client_count
      → ((entry s (i + 1)).fd ≡ socket s i)
        × ((entry s (i + 1)).events ≡ true)
        × (socket s i ≢ none)
  pub cleared : (i : ℕ) → s.client_count ≤ i → (socket s i ≡ none) × (entry s (i + 1) ≡ blank)

-- What a growth to twice the capacity does: nothing shows of it but the capacity.
pub record Grown (s t : Server) : Type 0 where
  pub doubled : t.client_capacity ≡ s.client_capacity * 2
  pub sockets_length : length t.client_sockets ≡ t.client_capacity
  pub fds_length : length t.fds ≡ t.client_capacity + 1
  pub same_count : t.client_count ≡ s.client_count
  pub same_sockets : (i : ℕ) → socket t i ≡ socket s i
  pub same_fds : (i : ℕ) → entry t i ≡ entry s i
  pub same_closed : t.closed ≡ s.closed

enlarge-Grown :
    (stale : Stale) {sockfd : ℕ} {s : Server}
    → IsValid sockfd s
    → Grown s (enlarge stale (s.client_capacity * 2) s)
unfolding enlarge
enlarge-Grown stale {s = s} v = record {
  doubled = refl;
  sockets_length =
      omega (arith, length-clear-append {A = Fd} none added cap s.client_sockets stale.socket);
  fds_length = omega (arith, length-clear-append blank added (cap + 1) s.fds stale.pollfd);
  same_count = refl;
  same_sockets =
      λ i. get_or-clear-append none added i cap s.client_sockets stale.socket (omega arith);
  same_fds = λ i. get_or-clear-append blank added i (cap + 1) s.fds stale.pollfd (omega arith);
  same_closed = refl;
}
  where
    cap : ℕ
    cap = s.client_capacity

    added : ℕ
    added = cap * 2 - cap

-- A growth that returns asked for no more bytes than it needs: no product wrapped.
grow_inv :
    (a : Allocator) (stale : Stale) {sockfd : ℕ} {s t : Server}
    → IsValid sockfd s
    → grow a stale s ≡ returns t
    → (t ≡ enlarge stale (s.client_capacity * 2) s) × ((s.client_capacity * 2 + 1) * 8 < 2 ^ 63)
unfolding grow
grow_inv a stale {s = s} {t} v e = ground (arith, a.limit ((s.client_capacity * 2 + 1) * 8))

pub appended-IsValid :
    {sockfd : ℕ} (fd : ℕ) {s : Server}
    → IsValid sockfd s
    → s.client_count < s.client_capacity
    → IsValid sockfd (appended fd s)
unfolding appended
appended-IsValid fd {s} v room = record {
  sized = v.sized;
  some_room = v.some_room;
  sockets_length = length-set s.client_sockets s.client_count (some fd) ∙ v.sockets_length;
  fds_length = length-set s.fds (s.client_count + 1) _ ∙ v.fds_length;
  fits = omega arith;
  listener =
      ground
        (arith, get_or-set s.fds (s.client_count + 1) 0 new_entry blank, v.fds_length, v.listener);
  watched = λ i h. ground (
    arith,
    get_or-set s.fds (s.client_count + 1) (i + 1) new_entry blank,
    get_or-set s.client_sockets s.client_count i (some fd) none,
    v.watched i,
  );
  cleared = λ i h. ground (
    arith,
    get_or-set s.fds (s.client_count + 1) (i + 1) new_entry blank,
    get_or-set s.client_sockets s.client_count i (some fd) none,
    v.cleared i,
  );
}
  where
    new_entry : PollFd
    new_entry = record { fd = some fd; events = true; revents = false }

-- A table like `s`, perhaps larger, with room for a client.
pub record HasRoom (sockfd : ℕ) (s u : Server) : Type 0 where
  pub valid : IsValid sockfd u
  pub room : u.client_count < u.client_capacity
  pub same_count : u.client_count ≡ s.client_count
  pub same_sockets : (i : ℕ) → socket u i ≡ socket s i
  pub same_closed : u.closed ≡ s.closed

enlarge-HasRoom :
    (stale : Stale) {sockfd : ℕ} {s : Server}
    → IsValid sockfd s
    → (s.client_capacity * 2 + 1) * 8 < 2 ^ 63
    → HasRoom sockfd s (enlarge stale (s.client_capacity * 2) s)
enlarge-HasRoom stale {s = s} v small =
    let g = enlarge-Grown stale v in
    record {
      valid = record {
        sized = rw g.doubled small;
        some_room = omega (arith, g.doubled);
        sockets_length = g.sockets_length;
        fds_length = g.fds_length;
        fits = omega (arith, g.doubled, g.same_count);
        listener = rw (g.same_fds 0) v.listener;
        watched =
            λ i h. rw (g.same_fds (i + 1), g.same_sockets i) (v.watched i (rw (← g.same_count) h));
        cleared =
            λ i h. rw (g.same_fds (i + 1), g.same_sockets i) (v.cleared i (rw (← g.same_count) h));
      };
      room = omega (arith, g.doubled, g.same_count);
      same_count = g.same_count;
      same_sockets = g.same_sockets;
      same_closed = g.same_closed;
    }

module _ (a : Allocator) (stale : Stale) {sockfd : ℕ} {s : Server} (v : IsValid sockfd s) where
  pub make_room :
      {u : Server}
      → (if s.client_count == s.client_capacity then grow a stale s else returns s) ≡ returns u
      → HasRoom sockfd s u
  make_room e = elim (Bool-cases (s.client_count == s.client_capacity)) [
    | inl full ↦
        let (same, small) = grow_inv a stale v (rw full at e) in
        rw same (enlarge-HasRoom stale v small)
    | inr free ↦ rw (returns-injective (rw free at e)) (record {
      valid = v;
      room = ground (arith, v.fits);
      same_count = refl;
      same_sockets = λ i. refl;
      same_closed = refl;
    })
  ]

  -- What `handle_new_connection` does when it returns: nothing without POLLIN on the listener;
  -- otherwise the client that `accept` gave is appended to a table with room.
  pub handle_new_connection_inv :
      {t : Server} (accepted : Option ℕ)
      → handle_new_connection a stale accepted s ≡ returns t
      → (((entry s 0).revents ≡ false) × (t ≡ s))
        ⊎ (((entry s 0).revents ≡ true)
            × ((fd : ℕ) × (accepted ≡ some fd)
                × ((u : Server) × HasRoom sockfd s u × (t ≡ appended fd u))))
  unfolding handle_new_connection append_client
  handle_new_connection_inv none e =
      let f = in_bounds-eq-returns (ltb 0 (length s.fds)) _ e in ground arith
  handle_new_connection_inv (some fd) e = elim (Bool-cases (entry s 0).revents) [
    | inl ready ↦
        let (u, made, stored) =
          >>=-eq-returns _ (append_client fd)
            (rw ready at (in_bounds-eq-returns (ltb 0 (length s.fds)) _ e)) in
        let done = in_bounds-eq-returns (append_in_bounds u) _ stored in
        inr (ready, (fd, refl, (u, make_room made, returns-injective done)))
    | inr idle ↦
        inl (idle, returns-injective (rw idle at (in_bounds-eq-returns (ltb 0 (length s.fds)) _ e)))
  ]

-- `handle_new_connection` keeps the table well formed, whatever the allocator grants and leaves
-- uninitialised.
pub handle_new_connection-IsValid :
    (a : Allocator) (stale : Stale) (accepted : Option ℕ) {sockfd : ℕ} {s t : Server}
    → IsValid sockfd s
    → handle_new_connection a stale accepted s ≡ returns t
    → IsValid sockfd t
handle_new_connection-IsValid a stale accepted {sockfd} v e =
    elim (handle_new_connection_inv a stale v accepted e) [
      | inl (idle, same) ↦ rw same v
      | inr (ready, (fd, given, (u, r, done))) ↦ rw done (appended-IsValid fd r.valid r.room)
    ]

-- `handle_client_disconnection` of a client keeps the table well formed.
pub handle_client_disconnection-IsValid :
    (i : ℕ) {sockfd : ℕ} {s : Server}
    → IsValid sockfd s
    → i < s.client_count
    → IsValid sockfd (handle_client_disconnection i s)
unfolding handle_client_disconnection
handle_client_disconnection-IsValid i {s = s} v h = record {
  sized = v.sized;
  some_room = v.some_room;
  sockets_length = length-remove_slot none (i == last) i last s.client_sockets ∙ v.sockets_length;
  fds_length = length-remove_slot blank (i == last) (i + 1) (last + 1) s.fds ∙ v.fds_length;
  fits = omega arith;
  listener = ground (arith, moved_fd 0, v.listener);
  watched = λ j q. ground (arith, moved j, moved_fd (j + 1), v.watched j, v.watched last);
  cleared = λ j q. ground (arith, moved j, moved_fd (j + 1), v.cleared j);
}
  where
    last : ℕ
    last = s.client_count - 1

    moved :
        (j : ℕ)
        → get_or (remove_slot none (i == last) i last s.client_sockets) j none
          ≡ (if j == last then none else if j == i then socket s last else socket s j)
    moved j =
        get_or-remove_slot none (i == last) i last j s.client_sockets (λ e. ground arith)
          (omega (arith, v.sockets_length, v.fits)) (omega (arith, v.sockets_length, v.fits))

    moved_fd :
        (j : ℕ)
        → get_or (remove_slot blank (i == last) (i + 1) (last + 1) s.fds) j blank ≡ (
            if j == (last + 1)
            then blank
            else if j == (i + 1)
            then entry s (last + 1)
            else entry s j)
    moved_fd j =
        get_or-remove_slot blank (i == last) (i + 1) (last + 1) j s.fds (λ e. ground arith)
          (omega (arith, v.fds_length, v.fits)) (omega (arith, v.fds_length, v.fits))

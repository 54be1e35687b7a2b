-- ===== src/Poll/Served.antt =====
-- One run of `handle_client_data` over a well-formed table.
use c_examples.Base.{
  ℕ, zero, suc, ◌+◌, ◌≤◌, ◌<◌, ◌≡◌, refl, ◌∙◌, inl, inr, true, false, none, some, List, arith, ltb,
  ltb→lt, Bool-cases, get_or, length, set, get_or-set, length-set, if◌then◌else◌, ◌==◌, lt→ltb, ◌-◌,
}
use c_examples.Base.Run.{returns, ◌>>◌}
use c_examples.Io.Stream.{Event}
use c_examples.Poll.State.{Fd, PollFd, blank, Server}
use c_examples.Poll.Clients.{handle_client_disconnection}
use c_examples.Poll.Receive.{Received, disconnected, oversize, word, receive-decode}
use c_examples.Poll.Invariant.{IsValid, socket, entry, handle_client_disconnection-IsValid}
use c_examples.Poll.Held.{held, times, held-handle_client_disconnection}
use c_examples.Poll.Service.{
  update, accesses, after_receive, client_body, handle_client_data_from, handle_client_data,
}

-- From `s` to `t` clients were only taken out and closed.
pub record Served (sockfd : ℕ) (s t : Server) : Type 0 where
  pub valid : IsValid sockfd t
  pub fewer : t.client_count ≤ s.client_count
  pub conserved : (fd : ℕ) → held fd t + times fd t.closed ≡ held fd s + times fd s.closed

pub Served-refl : {sockfd : ℕ} {s : Server} → IsValid sockfd s → Served sockfd s s
Served-refl v = record { valid = v; fewer = omega arith; conserved = λ fd. refl }

pub Served-trans :
    {sockfd : ℕ} {s t u : Server} → Served sockfd s t → Served sockfd t u → Served sockfd s u
Served-trans a b = record {
  valid = b.valid;
  fewer = omega (arith, a.fewer, b.fewer);
  conserved = λ fd. b.conserved fd ∙ a.conserved fd;
}

-- Only `revents` of the first entries, the input and the output change.
pub refresh-IsValid :
    (fds : List PollFd) (streams : ℕ → List Event) (printed : List (Fd × List ℕ)) {sockfd : ℕ}
    {s : Server}
    → IsValid sockfd s
    → length fds ≡ length s.fds
    → ((j : ℕ)
        → ((get_or fds j blank).fd ≡ (entry s j).fd)
          × ((get_or fds j blank).events ≡ (entry s j).events))
    → ((j : ℕ) → s.client_count < j → get_or fds j blank ≡ entry s j)
    → IsValid sockfd (record s { fds = fds; streams = streams; printed = printed })
refresh-IsValid fds streams printed {s = s} v l same rest = record {
  sized = v.sized;
  some_room = v.some_room;
  sockets_length = v.sockets_length;
  fds_length = l ∙ v.fds_length;
  fits = v.fits;
  listener = ((same 0).0 ∙ v.listener.0, (same 0).1 ∙ v.listener.1);
  watched = λ i h. let (a, b, c) = v.watched i h in ((same (i + 1)).0 ∙ a, (same (i + 1)).1 ∙ b, c);
  cleared = λ i h. ((v.cleared i h).0, rest (i + 1) (omega arith) ∙ (v.cleared i h).1);
}

pub set_revents-IsValid :
    (i : ℕ) (streams : ℕ → List Event) (printed : List (Fd × List ℕ)) {sockfd : ℕ} {s : Server}
    → IsValid sockfd s
    → i ≤ s.client_count
    → IsValid sockfd (record s {
      fds = set s.fds i (record (entry s i) { revents = false });
      streams = streams;
      printed = printed;
    })
set_revents-IsValid i streams printed {s = s} v h =
    refresh-IsValid _ streams printed v (length-set s.fds i _) (λ j. ground (arith, here j))
      (λ j q. ground (arith, here j))
  where
    here :
        (j : ℕ)
        → get_or (set s.fds i (record (entry s i) { revents = false })) j blank
          ≡ (if i == j then record (entry s i) { revents = false } else entry s j)
    here j = get_or-set s.fds i j _ blank (omega (arith, v.fds_length, v.fits))

shorter : (i : ℕ) (s : Server) → (handle_client_disconnection i s).client_count ≤ s.client_count
unfolding handle_client_disconnection
shorter i s = omega arith

disconnection-Served :
    (i : ℕ) {sockfd : ℕ} {s : Server}
    → IsValid sockfd s
    → i < s.client_count
    → Served sockfd s (handle_client_disconnection i s)
disconnection-Served i {s = s} v h = record {
  valid = handle_client_disconnection-IsValid i v h;
  fewer = shorter i s;
  conserved = λ fd. omega (arith, held-handle_client_disconnection fd i v h);
}

after_receive-Served :
    (i sd : ℕ) (r : Received) {sockfd : ℕ} {s : Server}
    → IsValid sockfd s
    → i < s.client_count
    → Served sockfd s (after_receive i sd r s)
unfolding after_receive
after_receive-Served i sd disconnected v h = disconnection-Served i v h
after_receive-Served i sd (oversize n) v h = disconnection-Served i v h
after_receive-Served i sd (word w) {s = s} v h = record {
  valid = set_revents-IsValid (i + 1) s.streams _ v (omega arith);
  fewer = omega arith;
  conserved = λ fd. refl;
}

after_input :
    (i sd : ℕ) (r : Received) (streams : ℕ → List Event) {sockfd : ℕ} {s : Server}
    → IsValid sockfd s
    → i < s.client_count
    → Served sockfd s (after_receive i sd r (record s { streams = streams }))
after_input i sd r streams {s = s} v h =
    let w = refresh-IsValid s.fds streams s.printed v refl (λ j. (refl, refl)) (λ j q. refl) in
    let g = after_receive-Served i sd r w h in
    record { valid = g.valid; fewer = g.fewer; conserved = g.conserved }

row_read :
    (i : ℕ) {sockfd : ℕ} {s : Server}
    → IsValid sockfd s
    → i < s.client_count
    → ltb (i + 1) (length s.fds) ≡ true
row_read i {s = s} v h = lt→ltb (i + 1) (length s.fds) (omega (arith, v.fds_length, v.fits))

slot_read :
    (i : ℕ) {sockfd : ℕ} {s : Server}
    → IsValid sockfd s
    → i < s.client_count
    → ltb i (length s.client_sockets) ≡ true
slot_read i {s = s} v h =
    lt→ltb i (length s.client_sockets) (omega (arith, v.sockets_length, v.fits))

accessed :
    (i : ℕ) (r : Received) (t : Server) {sockfd : ℕ} {s : Server}
    → IsValid sockfd s
    → i < s.client_count
    → (accesses r s >> returns t) ≡ returns t
accessed i (word w) t v h = refl
accessed i disconnected t {s = s} v h =
    rw
      (
        slot_read (s.client_count - 1) v (omega arith),
        row_read (s.client_count - 1) v (omega arith),
      )
      refl
accessed i (oversize n) t {s = s} v h =
    rw
      (
        slot_read (s.client_count - 1) v (omega arith),
        row_read (s.client_count - 1) v (omega arith),
      )
      refl

client_body-Served :
    (i : ℕ) (x : Fd) {sockfd : ℕ} {s : Server}
    → IsValid sockfd s
    → i < s.client_count
    → (t : Server) × (client_body i x s ≡ returns t) × Served sockfd s t
unfolding client_body
client_body-Served i none {s = s} v h = (s, refl, Served-refl v)
client_body-Served i (some sd) {s = s} v h = elim (Bool-cases (entry s (i + 1)).revents) [
  | inl ready ↦
      let (r, q, served) = receive-decode (s.streams sd) in
      (
        after_receive i sd r.0 (record s { streams = update s.streams sd r.1 }),
        rw (row_read i v h, ready, q) (accessed i r.0 _ v h),
        after_input i sd r.0 (update s.streams sd r.1) v h,
      )
  | inr quiet ↦ (s, rw (row_read i v h, quiet), Served-refl v)
]

round :
    (f i : ℕ) (s : Server) {t : Server}
    → ltb i s.client_count ≡ true
    → ltb i (length s.client_sockets) ≡ true
    → client_body i (socket s i) s ≡ returns t
    → handle_client_data_from (suc f) i s ≡ handle_client_data_from f (i + 1) t
unfolding handle_client_data_from
round f i s more within served = rw (more, handle_client_data_from) (rw (within, served))

handle_client_data_from-Served :
    (f i : ℕ) {sockfd : ℕ} {s : Server}
    → IsValid sockfd s
    → 0 < f
    → s.client_count < f + i
    → (t : Server) × (handle_client_data_from f i s ≡ returns t) × Served sockfd s t
unfolding handle_client_data_from
handle_client_data_from-Served zero i v p h = absurd (omega arith)
handle_client_data_from-Served (suc f) i {s = s} v p h = elim (Bool-cases (ltb i s.client_count)) [
  | inl more ↦
      let lt = ltb→lt i s.client_count more in
      let (t, q, r) = client_body-Served i (socket s i) v lt in
      let (u, q', r') =
        handle_client_data_from-Served f (i + 1) r.valid (omega arith) (omega (arith, r.fewer)) in
      (u, round f i s more (slot_read i v lt) q ∙ q', Served-trans r r')
  | inr done ↦ (s, rw (done, handle_client_data_from), Served-refl v)
]

-- `handle_client_data` ends on every well-formed table: the table stays well formed, and every
-- descriptor that leaves it has been closed once more.
pub handle_client_data-Served :
    {sockfd : ℕ} {s : Server}
    → IsValid sockfd s
    → (t : Server) × (handle_client_data s ≡ returns t) × Served sockfd s t
unfolding handle_client_data
handle_client_data-Served {s = s} v =
    handle_client_data_from-Served (suc s.client_count) 0 v (omega arith) (omega arith)

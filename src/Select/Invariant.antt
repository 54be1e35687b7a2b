-- ===== src/Select/Invariant.antt =====
-- Well-formed tables of io-multiplexing/select/main.c: the clients fit the array, and each is a
-- descriptor that an `fd_set` can hold.
use c_examples.Base.{
  ℕ, zero, suc, ◌+◌, ◌-◌, ◌*◌, ◌^◌, ◌≤◌, ◌<◌, ◌≡◌, refl, ◌∙◌, ◌⊎◌, inl, inr, Bool, true, false,
  ◌&&◌, none, some, List, if◌then◌else◌, ◌==◌, ltb, set, get_or, length, arith, get_or-set,
  length-set, Bool-cases, ltb→lt, lt→ltb,
}
use c_examples.Base.Run.{returns, ◌>>◌}
use c_examples.Io.Stream.{Event}
use c_examples.Poll.State.{Fd}
use c_examples.Poll.Receive.{Received, disconnected, oversize, word, receive-decode}
use c_examples.Select.Held.{balance, balance-drop_client}
use c_examples.Select.Server.{
  Server, isset, fd_setsize, remove_client, drop_client, accesses, after_receive, update, serve,
  client_io, client_io_from, appended,
}

abbrev pub InRange : Fd → Type 0
InRange none = ⊥
InRange (some fd) = fd < fd_setsize

abbrev pub socket : Server → ℕ → Fd
socket s i = get_or s.client_sockets i none

pub record IsValid (s : Server) : Type 0 where
  pub sized : s.client_capacity * 4 < 2 ^ 63
  pub sockets_length : length s.client_sockets ≡ s.client_capacity
  pub fits : s.client_count ≤ s.client_capacity
  pub in_range : (i : ℕ) → i < s.client_count → InRange (socket s i)

-- The last client takes the place of the one that is dropped.
moved :
    (xs : List Fd) (i last j : ℕ)
    → i < length xs
    → get_or (if i == last then xs else set xs i (get_or xs last none)) j none
      ≡ (if i == j then get_or xs last none else get_or xs j none)
moved xs i last j h = ground (arith, get_or-set xs i j (get_or xs last none) none h)

length-moved :
    (xs : List Fd) (i last : ℕ)
    → length (if i == last then xs else set xs i (get_or xs last none)) ≡ length xs
length-moved xs i last = ground (arith, length-set xs i (get_or xs last none))

InRange-if : (b : Bool) (x y : Fd) → InRange x → InRange y → InRange (if b then x else y)
InRange-if true x y h k = h
InRange-if false x y h k = k

pub drop_client-IsValid :
    (sd i : ℕ) (s : Server) → IsValid s → i < s.client_count → IsValid (drop_client sd i s)
unfolding drop_client remove_client
drop_client-IsValid sd i s v h = record {
  sized = v.sized;
  sockets_length = length-moved s.client_sockets i (s.client_count - 1) ∙ v.sockets_length;
  fits = omega (arith, v.fits);
  in_range = λ j q.
      rw (moved s.client_sockets i (s.client_count - 1) j (omega (arith, v.fits, v.sockets_length)))
        (InRange-if (i == j) _ _ (v.in_range (s.client_count - 1) (omega arith))
          (v.in_range j (omega arith)));
}

pub appended-IsValid :
    (fd : ℕ) (s : Server)
    → IsValid s
    → s.client_count < s.client_capacity
    → fd < fd_setsize
    → IsValid (appended fd s)
unfolding appended
appended-IsValid fd s v h r = record {
  sized = v.sized;
  sockets_length = length-set s.client_sockets s.client_count (some fd) ∙ v.sockets_length;
  fits = omega arith;
  in_range = λ j q.
      rw
        (get_or-set s.client_sockets s.client_count j (some fd) none
          (omega (arith, v.sockets_length)))
        (here j q);
}
  where
    here :
        (j : ℕ)
        → j < s.client_count + 1
        → InRange (if s.client_count == j then some fd else socket s j)
    here j q = elim (Bool-cases (s.client_count == j)) [
      | inl new ↦ rw new r
      | inr old ↦ rw old (v.in_range j (ground arith))
    ]

-- What a step of the second loop makes of the table at slot `i`: on to the next slot, or one client
-- less.
pub record Next (i : ℕ) (s : Server) (r : ℕ × Server) : Type 0 where
  pub valid : IsValid r.1
  pub progress :
      ((r.0 ≡ i + 1) × (r.1.client_count ≡ s.client_count))
      ⊎ ((r.0 ≡ i) × (r.1.client_count + 1 ≡ s.client_count))
  pub balanced : (fd : ℕ) → balance fd r.1 ≡ balance fd s

-- The table does not hang on the streams and the words.
elsewhere :
    (streams : ℕ → List Event) (printed : List (ℕ × List ℕ)) (s : Server)
    → IsValid s
    → IsValid (record s { streams = streams; printed = printed })
elsewhere streams printed s v = record {
  sized = v.sized;
  sockets_length = v.sockets_length;
  fits = v.fits;
  in_range = v.in_range;
}

dropped :
    (sd i : ℕ) (s : Server)
    → IsValid s
    → i < s.client_count
    → socket s i ≡ some sd
    → Next i s (i, drop_client sd i s)
unfolding drop_client remove_client
dropped sd i s v h here = record {
  valid = drop_client-IsValid sd i s v h;
  progress = inr (refl, omega arith);
  balanced = λ fd. balance-drop_client fd sd i s h (omega (arith, v.fits, v.sockets_length)) here;
}

after_receive-Next :
    (i sd : ℕ) (r : Received) (s : Server)
    → IsValid s
    → i < s.client_count
    → socket s i ≡ some sd
    → Next i s (after_receive i sd r s)
unfolding after_receive
after_receive-Next i sd disconnected s v h here = dropped sd i s v h here
after_receive-Next i sd (oversize n) s v h here = dropped sd i s v h here
after_receive-Next i sd (word w) s v h here = record {
  valid = elsewhere s.streams _ s v;
  progress = inl (refl, refl);
  balanced = λ fd. refl;
}

after_input :
    (i sd : ℕ) (r : Received) (streams : ℕ → List Event) (s : Server)
    → IsValid s
    → i < s.client_count
    → socket s i ≡ some sd
    → Next i s (after_receive i sd r (record s { streams = streams }))
after_input i sd r streams s v h here =
    let g = after_receive-Next i sd r _ (elsewhere streams s.printed s v) h here in
    record { valid = g.valid; progress = g.progress; balanced = g.balanced }

passed : (i : ℕ) (s : Server) → IsValid s → Next i s (i + 1, s)
passed i s v = record { valid = v; progress = inl (refl, refl); balanced = λ fd. refl }

pub slot_read :
    (i : ℕ) (s : Server) → IsValid s → i < s.client_count → ltb i (length s.client_sockets) ≡ true
slot_read i s v h = lt→ltb i (length s.client_sockets) (omega (arith, v.sockets_length, v.fits))

accessed :
    (i : ℕ) (r : Received) (t : ℕ × Server) (s : Server)
    → IsValid s
    → i < s.client_count
    → (accesses r s >> returns t) ≡ returns t
accessed i (word w) t s v h = refl
accessed i disconnected t s v h = rw (slot_read (s.client_count - 1) s v (omega arith)) refl
accessed i (oversize n) t s v h = rw (slot_read (s.client_count - 1) s v (omega arith)) refl

client_io-Next :
    (ready : List ℕ) (i : ℕ) (x : Fd) (s : Server)
    → IsValid s
    → i < s.client_count
    → socket s i ≡ x
    → (r : ℕ × Server) × (client_io ready i x s ≡ returns r) × Next i s r
unfolding client_io serve
client_io-Next ready i none s v h here = ((i + 1, s), refl, passed i s v)
client_io-Next ready i (some sd) s v h here =
    elim (Bool-cases (ltb sd fd_setsize && isset sd ready)) [
      | inl is_ready ↦
          let (r, q, served) = receive-decode (s.streams sd) in
          (
            after_receive i sd r.0 (record s { streams = update s.streams sd r.1 }),
            rw (is_ready, q) (accessed i r.0 _ s v h),
            after_input i sd r.0 (update s.streams sd r.1) s v h here,
          )
      | inr quiet ↦ ((i + 1, s), rw quiet, passed i s v)
    ]

io_round :
    (f : ℕ) (ready : List ℕ) (i : ℕ) (s : Server) {r : ℕ × Server}
    → ltb i s.client_count ≡ true
    → ltb i (length s.client_sockets) ≡ true
    → client_io ready i (socket s i) s ≡ returns r
    → client_io_from (suc f) ready i s ≡ client_io_from f ready r.0 r.1
unfolding client_io_from
io_round f ready i s more within served = rw (more, client_io_from) (rw (within, served))

client_io_from-IsValid :
    (f : ℕ) (ready : List ℕ) (i : ℕ) (s : Server)
    → IsValid s
    → 0 < f
    → s.client_count < f + i
    → (t : Server) × (client_io_from f ready i s ≡ returns t)
      × IsValid t
      × (t.client_count ≤ s.client_count)
      × ((fd : ℕ) → balance fd t ≡ balance fd s)
unfolding client_io_from
client_io_from-IsValid zero ready i s v p h = absurd (omega arith)
client_io_from-IsValid (suc f) ready i s v p h = elim (Bool-cases (ltb i s.client_count)) [
  | inl more ↦
      let lt = ltb→lt i s.client_count more in
      let (r, q, n) = client_io-Next ready i (socket s i) s v lt refl in
      let (t, q', w, le, same) =
        client_io_from-IsValid f ready r.0 r.1 n.valid (omega (arith, n.progress))
          (omega (arith, n.progress)) in
      (
        t,
        io_round f ready i s more (slot_read i s v lt) q ∙ q',
        w,
        omega (arith, n.progress),
        λ fd. same fd ∙ n.balanced fd,
      )
  | inr done ↦ (s, rw (done, client_io_from), v, omega arith, λ fd. refl)
]

pub client_io_lem :
    (ready : List ℕ) (s : Server)
    → IsValid s
    → (t : Server) × (client_io_from (suc s.client_count) ready 0 s ≡ returns t)
      × IsValid t
      × (t.client_count ≤ s.client_count)
      × ((fd : ℕ) → balance fd t ≡ balance fd s)
client_io_lem ready s v =
    client_io_from-IsValid (suc s.client_count) ready 0 s v (omega arith) (omega arith)

-- The second loop of a round ends on every well-formed table, and leaves one that is well formed
-- and no longer.
pub client_io-IsValid :
    (ready : List ℕ) (s : Server)
    → IsValid s
    → (t : Server) × (client_io_from (suc s.client_count) ready 0 s ≡ returns t)
      × IsValid t
      × (t.client_count ≤ s.client_count)
client_io-IsValid ready s v = let (t, q, w, le, same) = client_io_lem ready s v in (t, q, w, le)

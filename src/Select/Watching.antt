-- ===== src/Select/Watching.antt =====
-- What a round of io-multiplexing/select/main.c hands to `select`.
use c_examples.Base.{
  ℕ, zero, suc, ◌+◌, ◌≤◌, ◌<◌, ◌≡◌, refl, ap, sym, ◌∙◌, inl, inr, true, false, ◌||◌, none, some,
  ◌==◌, ltb, leb, arith, Bool-cases, ltb→lt, some-cancel, length,
}
use native.Mathlib.Decide.{dec_lt}
use c_examples.Base.Run.{returns}
use c_examples.Poll.State.{Fd}
use c_examples.Select.Server.{Server, fd_setsize, Watch, isset, fd_set_safe, watch, watch_from}
use c_examples.Select.Invariant.{InRange, socket, IsValid, slot_read}

-- `max_fd` is a bound of the set, as `select(max_fd + 1, ...)` wants it.
abbrev pub Bounded : Watch → Type 0
Bounded w = (fd : ℕ) → isset fd w.readfds ≡ true → fd ≤ w.max_fd

watch-isset :
    (sd fd : ℕ) (w : Watch)
    → sd < fd_setsize
    → isset fd (watch sd w).readfds ≡ ((fd == sd) || isset fd w.readfds)
unfolding watch fd_set_safe
watch-isset sd fd w h = ground arith

watch-Bounded : (sd : ℕ) (w : Watch) → sd < fd_setsize → Bounded w → Bounded (watch sd w)
unfolding watch fd_set_safe
watch-Bounded sd w h b fd m = ground (arith, b fd)

-- Clients from `i` on are in the set of `w'`, with all that is in `w`.
pub record Watches (i : ℕ) (s : Server) (w w' : Watch) : Type 0 where
  pub bounded : Bounded w'
  pub kept : (fd : ℕ) → isset fd w.readfds ≡ true → isset fd w'.readfds ≡ true
  pub clients :
      (j : ℕ) (fd : ℕ)
      → i ≤ j
      → j < s.client_count
      → socket s j ≡ some fd
      → isset fd w'.readfds ≡ true

slot : (x : Fd) → InRange x → (sd : ℕ) × (x ≡ some sd) × (sd < fd_setsize)
slot none h = absurd h
slot (some sd) h = (sd, refl, h)

watch_round :
    (f i sd : ℕ) (w : Watch) (s : Server)
    → ltb i s.client_count ≡ true
    → ltb i (length s.client_sockets) ≡ true
    → socket s i ≡ some sd
    → leb fd_setsize sd ≡ false
    → watch_from (suc f) i w s ≡ watch_from f (i + 1) (watch sd w) s
unfolding watch_from
watch_round f i sd w s more within here below =
    rw (more, watch_from) (rw within (rw here (rw below refl)))

-- The client in slot `i`, and those behind it.
Watches-watch :
    (i sd : ℕ) (w w' : Watch) (s : Server)
    → sd < fd_setsize
    → socket s i ≡ some sd
    → Watches (i + 1) s (watch sd w) w'
    → Watches i s w w'
Watches-watch i sd w w' s h here g = record {
  bounded = g.bounded;
  kept = λ fd m. g.kept fd (ground (arith, watch-isset sd fd w h));
  clients = λ j fd le lt e. elim (dec_lt i j) [
    | yes later ↦ g.clients j fd (omega arith) lt e
    | no same ↦ g.kept fd (ground (arith, watch-isset sd fd w h, this j fd (omega arith) e))
  ];
}
  where
    this : (j fd : ℕ) → i ≡ j → socket s j ≡ some fd → fd ≡ sd
    this j fd same e = some-cancel (sym e ∙ ap (socket s) (sym same) ∙ here)

watch_from-Watches :
    (f i : ℕ) (w : Watch) (s : Server)
    → IsValid s
    → Bounded w
    → 0 < f
    → s.client_count < f + i
    → (w' : Watch) × (watch_from f i w s ≡ returns (w', s)) × Watches i s w w'
unfolding watch_from
watch_from-Watches zero i w s v b p h = absurd (omega arith)
watch_from-Watches (suc f) i w s v b p h = elim (Bool-cases (ltb i s.client_count)) [
  | inl more ↦
      let (sd, here, below) = slot (socket s i) (v.in_range i (ltb→lt i s.client_count more)) in
      let lt = ltb→lt i s.client_count more in
      let (w', q, g) =
        watch_from-Watches f (i + 1) (watch sd w) s v (watch-Bounded sd w below b) (omega arith)
          (omega arith) in
      (
        w',
        watch_round f i sd w s more (slot_read i s v lt) here (ground arith) ∙ q,
        Watches-watch i sd w w' s below here g,
      )
  | inr done ↦ (
    w,
    rw (done, watch_from),
    record { bounded = b; kept = λ fd m. m; clients = λ j fd le lt e. absurd (ground arith) },
  )
]

-- On a well-formed table, with a set that `max_fd` bounds, the first loop of a round ends and
-- drops nobody: every client is in the set given to `select`, whose members are at most `max_fd`.
pub watch_from_lem :
    (w : Watch) (s : Server)
    → IsValid s
    → Bounded w
    → (w' : Watch) × (watch_from (suc s.client_count) 0 w s ≡ returns (w', s)) × Watches 0 s w w'
watch_from_lem w s v b =
    watch_from-Watches (suc s.client_count) 0 w s v b (omega arith) (omega arith)

-- ===== src/Select/Cleanup.antt =====
-- The cleanup of io-multiplexing/select/main.c closes the clients of the table, one by one.
use c_examples.Base.{
  ℕ, zero, suc, ◌+◌, ◌≡◌, refl, ap, Bool, none, some, List, [], ◌∷◌, ◌++◌, arith, get_or, ltb,
  length, lt→ltb, ◌≤◌,
}
use c_examples.Base.Run.{
  returns, >>=-eq-returns, returns-injective, Finishes, Finishes-then, require-Finishes,
  in_bounds-eq-returns, in_bounds-Finishes,
}
use c_examples.Poll.State.{Fd}
use c_examples.Poll.Held.{is, held_below}
use c_examples.Select.Server.{Server}
use c_examples.Select.Held.{closings, closings-append}
use c_examples.Select.Invariant.{socket}
use c_examples.Select.Main.{socket_close, close_slot, close_clients}

pub socket_close-closed :
    (closes : ℕ → Bool) (fd : ℕ) (s : Server) {t : Server}
    → socket_close closes fd s ≡ returns t
    → (t.closed ≡ s.closed ++ fd ∷ []) × (t.client_sockets ≡ s.client_sockets)
unfolding socket_close
socket_close-closed closes fd s e = ground arith

close_slot-closed :
    (closes : ℕ → Bool) (k : ℕ) (x : Fd) (s : Server) {t : Server}
    → close_slot closes x s ≡ returns t
    → (closings k t.closed ≡ closings k s.closed + is k x) × (t.client_sockets ≡ s.client_sockets)
unfolding close_slot
close_slot-closed closes k none s e = rw (returns-injective e) (omega arith, refl)
close_slot-closed closes k (some fd) s e =
    let (c, same) = socket_close-closed closes fd s e in
    (omega (arith, ap (closings k) c, closings-append k s.closed (fd ∷ [])), same)

held_below-next :
    (fd i : ℕ) (l : List Fd) → held_below fd (i + 1) l ≡ held_below fd i l + is fd (get_or l i none)
unfolding held_below
held_below-next fd i l = let next : i + 1 ≡ suc i = omega arith in rw next

pub close_clients-closed :
    (closes : ℕ → Bool) (k n i m : ℕ) (s : Server) {t : Server}
    → close_clients closes n i s ≡ returns t
    → m ≡ n + i
    → closings k t.closed + held_below k i s.client_sockets
      ≡ closings k s.closed + held_below k m s.client_sockets
unfolding close_clients
close_clients-closed closes k zero i m s e q =
    let same : m ≡ i = omega arith in rw (returns-injective e, same)
close_clients-closed closes k (suc n) i m s e q =
    let (x, one, rest) =
      >>=-eq-returns (close_slot closes (socket s i) s) (close_clients closes n (i + 1))
        (in_bounds-eq-returns (ltb i (length s.client_sockets)) _ e) in
    let (c, same) = close_slot-closed closes k (socket s i) s one in
    omega (
      arith,
      c,
      close_clients-closed closes k n (i + 1) m x rest (omega arith),
      ap (held_below k (i + 1)) same,
      ap (held_below k m) same,
      held_below-next k i s.client_sockets,
    )

pub socket_close-Finishes :
    (closes : ℕ → Bool) (fd : ℕ) (s : Server) → Finishes (socket_close closes fd s)
unfolding socket_close
socket_close-Finishes closes fd s =
    require-Finishes (closes fd) (returns (record s { closed = s.closed ++ fd ∷ [] })) tt

close_slot-Finishes : (closes : ℕ → Bool) (x : Fd) (s : Server) → Finishes (close_slot closes x s)
unfolding close_slot
close_slot-Finishes closes none s = tt
close_slot-Finishes closes (some fd) s = socket_close-Finishes closes fd s

pub close_clients-Finishes :
    (closes : ℕ → Bool) (n i : ℕ) (s : Server)
    → n + i ≤ length s.client_sockets
    → Finishes (close_clients closes n i s)
unfolding close_clients
close_clients-Finishes closes zero i s h = tt
close_clients-Finishes closes (suc n) i s h =
    in_bounds-Finishes _ _ (lt→ltb i (length s.client_sockets) (omega arith)) (
      Finishes-then (close_slot closes (socket s i) s) (close_clients closes n (i + 1))
        (close_slot-Finishes closes (socket s i) s)
        (λ t e.
          let same = (close_slot-closed closes 0 (socket s i) s e).1 in
          close_clients-Finishes closes n (i + 1) t (omega (arith, ap length same))))

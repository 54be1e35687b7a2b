-- ===== src/Poll/Service.antt =====
-- `handle_client_data` of io-multiplexing/poll/main.c.
use c_examples.Base.{
  ℕ, zero, suc, ◌+◌, true, false, none, some, [], ◌∷◌, ◌++◌, ltb, if◌then◌else◌, ◌==◌, get_or, set,
  length,
}
use c_examples.Base.Run.{Run, returns, unfinished, ◌>>=◌, ◌>>◌, in_bounds}
use c_examples.Poll.State.{Fd, blank, Server}
use c_examples.Poll.Clients.{last_in_bounds, handle_client_disconnection}
use c_examples.Poll.Receive.{Received, disconnected, oversize, word, receive}

abbrev pub update {ℓ} : {A : Type ℓ} → (ℕ → A) → ℕ → A → ℕ → A
update f i v j = if j == i then v else f j

-- What becomes of client `i`, on descriptor `sd`. A printed word clears its `revents`.
unfoldable pub after_receive : ℕ → ℕ → Received → Server → Server
after_receive i sd disconnected s = handle_client_disconnection i s
after_receive i sd (oversize n) s = handle_client_disconnection i s
after_receive i sd (word w) s = record s {
  printed = s.printed ++ (some sd, w) ∷ [];
  fds = set s.fds (i + 1) (record (get_or s.fds (i + 1) blank) { revents = false });
}

-- The loop has read the slot of the client; a client that is dropped has the last slots accessed.
abbrev pub accesses : Received → Server → Run (Unit {0})
accesses (word w) s = returns tt
accesses r s = in_bounds (last_in_bounds s)

unfoldable pub serve_client : ℕ → ℕ → Server → Run Server
serve_client i sd s = receive (s.streams sd) >>= λ r.
    accesses r.0 s
    >> returns (after_receive i sd r.0 (record s { streams = update s.streams sd r.1 }))

-- The body of the `for`: slot `i`, that holds `sd`.
unfoldable pub client_body : ℕ → Fd → Server → Run Server
unfolding serve_client
client_body i none s = returns s
client_body i (some sd) s =
    in_bounds (ltb (i + 1) (length s.fds))
    >> (if (get_or s.fds (i + 1) blank).revents then serve_client i sd s else returns s)

-- The `for`, from `i` on. Every round either passes over a slot or shortens the table, so as many
-- rounds as there are clients, and one to leave, are enough.
unfoldable pub handle_client_data_from : ℕ → ℕ → Server → Run Server
unfolding client_body
handle_client_data_from zero i s = unfinished
handle_client_data_from (suc f) i s = elim (ltb i s.client_count) [
  | true ↦
      in_bounds (ltb i (length s.client_sockets))
      >> (client_body i (get_or s.client_sockets i none) s >>= handle_client_data_from f (i + 1))
  | false ↦ returns s
]

unfoldable pub handle_client_data : Server → Run Server
unfolding handle_client_data_from
handle_client_data s = handle_client_data_from (suc s.client_count) 0 s

-- ===== src/Shm/Ending.antt =====
-- Who may use the buffer of shared-memory/mmap-munmap, who can go on, and how the two programs end: the
-- server posts `server_sem` once there, and both programs wait for it.
use c_examples.Base.{ℕ, ◌-◌, ◌≡◌, ◌≢◌, refl, ◌⊎◌, inl, inr, List, [], ◌∷◌, length, arith}
use native.Mathlib.Decide.{dec_lt}
use c_examples.Shm.Programs.{
  Shared, shm_size, ClientPc, next, copying, copied, await_ack, finished, await_end, client_done,
  client_failed, ServerPc, await_word, compare_word, print_word, post_ack, post_end, await_client,
  server_done, ClientStep, too_long, copy, terminate, post_word, take_ack, write_end, post_last,
  take_end, ServerStep, take_word, is_word, is_end, print, ack, end, take_client, Step, client,
  server, Reach,
}
use c_examples.Shm.Handshake.{AllWords, Sems, Together, Reach-Together}

-- Where the client writes the buffer, and where the server reads it.
abbrev pub Writes : ClientPc → Type 0
Writes (next ws) = Unit
Writes (copying w ws) = Unit
Writes _ = ⊥

abbrev pub Reads : ServerPc → Type 0
Reads compare_word = Unit
Reads print_word = Unit
Reads _ = ⊥

apart :
    (words : List (List ℕ)) (m : Shared) (p : ClientPc) (q : ServerPc)
    → Together words m p q
    → Writes p
    → ¬ Reads q
apart words m (next ws) await_word t w = λ x. x
apart words m (next ws) q t w = absurd t
apart words m (copying v ws) await_word t w = λ x. x
apart words m (copying v ws) q t w = absurd t
apart words m p q t w = absurd w

-- However the two interleave, the server never reads the buffer while the client may write it.
pub exclusive :
    {words : List (List ℕ)} {s : Shared × ClientPc × ServerPc}
    → AllWords words
    → Reach words s
    → Writes s.1
    → ¬ Reads s.2
exclusive {words} nonempty r = apart words _ _ _ (Reach-Together nonempty r)

-- Whether a process has passed its last `sem_wait`.
abbrev pub Ended : ClientPc → ServerPc → Type 0
Ended p q = (p ≡ client_done) ⊎ (q ≡ server_done)

abbrev Moves : Shared × ClientPc × ServerPc → Type 0
Moves s = (t : Shared × ClientPc × ServerPc) × Step s t

next-Moves : (m : Shared) (q : ServerPc) (ws : List (List ℕ)) → Moves (m, next ws, q)
next-Moves m q [] = (_, client write_end)
next-Moves m q (w ∷ ws) = elim (dec_lt (length w) (shm_size - 1)) [
  | yes short ↦ (_, client (copy short))
  | no long ↦ (_, client (too_long (omega arith)))
]

moves :
    (words : List (List ℕ)) (m : Shared) (p : ClientPc) (q : ServerPc)
    → Together words m p q
    → ¬ Ended p q
    → p ≢ client_failed
    → Moves (m, p, q)
moves words m (next ws) q t n f = next-Moves m q ws
moves words m (copying w ws) q t n f = (_, client terminate)
moves words m (copied ws) q t n f = (_, client post_word)
moves words m (await_ack ws) await_word (inl (sems, sending, rest)) n f =
    (_, server (take_word (omega arith)))
moves words m (await_ack ws) await_word (inr (sems, split, rest)) n f =
    (_, client (take_ack (omega arith)))
moves words m (await_ack ws) compare_word (sems, (w, full, ne, e), rest) n f =
    (_, server (is_word full ne))
moves words m (await_ack ws) print_word (sems, (w, full, ne, e), rest) n f =
    (_, server (print full))
moves words m finished q t n f = (_, client post_last)
moves words m await_end await_word (sems, ended) n f = (_, server (take_word (omega arith)))
moves words m await_end compare_word (sems, (empty, e)) n f = (_, server (is_end empty))
moves words m await_end await_client (sems, ended) n f = (_, client (take_end (omega arith)))
moves words m p post_ack t n f = (_, server ack)
moves words m p post_end t n f = (_, server end)
moves words m p server_done t n f = absurd (n (inr refl))
moves words m client_done q t n f = absurd (n (inl refl))
moves words m client_failed q t n f = absurd (f refl)
moves words m p q t n f = absurd t

-- In every state that can be reached, where neither process has passed its last `sem_wait` and
-- the client has not failed, one of them can go on: there is no deadlock before the end.
pub progress :
    {words : List (List ℕ)} {s : Shared × ClientPc × ServerPc}
    → AllWords words
    → Reach words s
    → ¬ Ended s.1 s.2
    → s.1 ≢ client_failed
    → (t : Shared × ClientPc × ServerPc) × Step s t
progress {words} nonempty r = moves words _ _ _ (Reach-Together nonempty r)

-- One process is at its last `sem_wait`, the other is done, and both semaphores are 0.
abbrev Hung : Shared → ClientPc → ServerPc → Type 0
Hung m await_end server_done = Sems m 0 0
Hung m client_done await_client = Sems m 0 0
Hung m p q = ⊥

hung :
    (words : List (List ℕ)) (m : Shared) (p : ClientPc) (q : ServerPc)
    → Together words m p q
    → Ended p q
    → Hung m p q × (m.printed ≡ words)
hung words m await_end server_done (sems, (empty, e)) h = (sems, e)
hung words m client_done await_client (sems, (empty, e)) h = (sems, e)
hung words m client_done q t h = absurd t
hung words m p server_done t h = absurd t
hung words m p q t (inl e) = absurd (cc e)
hung words m p q t (inr e) = absurd (cc e)

no_client : {m m' : Shared} {p p' : ClientPc} (q : ServerPc) → ClientStep m p m' p' → ¬ Hung m p q
no_client server_done (take_end h) sems = omega arith
no_client await_word (take_end h) t = t
no_client compare_word (take_end h) t = t
no_client print_word (take_end h) t = t
no_client post_ack (take_end h) t = t
no_client post_end (take_end h) t = t
no_client await_client (take_end h) t = t
no_client q st t = t

no_server : {m m' : Shared} (p : ClientPc) {q q' : ServerPc} → ServerStep m q m' q' → ¬ Hung m p q
no_server client_done (take_client h) sems = omega arith
no_server await_end (take_client h) t = t
no_server await_end (take_word h) t = t
no_server await_end (is_word e ne) t = t
no_server await_end (is_end e) t = t
no_server await_end (print e) t = t
no_server await_end ack t = t
no_server await_end end t = t
no_server client_done (take_word h) t = t
no_server client_done (is_word e ne) t = t
no_server client_done (is_end e) t = t
no_server client_done (print e) t = t
no_server client_done ack t = t
no_server client_done end t = t
no_server p st t = absurd t

stuck : {s t : Shared × ClientPc × ServerPc} → Step s t → ¬ Hung s.0 s.1 s.2
stuck (client {q = q} st) h = no_client q st h
stuck (server {p = p} st) h = no_server p st h

not_both :
    (m : Shared) (p : ClientPc) (q : ServerPc)
    → Hung m p q
    → ¬ ((p ≡ client_done) × (q ≡ server_done))
not_both m await_end server_done h (a, b) = cc a
not_both m client_done await_client h (a, b) = cc b
not_both m p q h e = absurd h

-- As soon as one of the two has passed its last `sem_wait`, all words are printed and the other
-- waits for a semaphore that nobody will post: there is no further step, and they have not both
-- ended.
pub one_hangs :
    {words : List (List ℕ)} {s : Shared × ClientPc × ServerPc}
    → AllWords words
    → Reach words s
    → Ended s.1 s.2
    → ((t : Shared × ClientPc × ServerPc) → ¬ Step s t)
      × ¬ ((s.1 ≡ client_done) × (s.2 ≡ server_done))
      × (s.0.printed ≡ words)
one_hangs {words} {s} nonempty r e =
    let (h, all) = hung words _ _ _ (Reach-Together nonempty r) e in
    (λ t st. stuck st h, not_both s.0 _ _ h, all)

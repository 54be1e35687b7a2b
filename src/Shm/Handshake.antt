-- ===== src/Shm/Handshake.antt =====
-- The states that the two programs of shared-memory/mmap-munmap can be in together.
use c_examples.Base.{
  ℕ, ◌≡◌, ◌≢◌, refl, sym, ◌∙◌, some, List, [], ◌∷◌, ◌++◌, ◌⊎◌, inl, inr, arith, append_assoc,
  append-nil, some-cancel,
}
use c_examples.Shm.Programs.{
  Shared, ClientPc, next, copying, copied, await_ack, finished, await_end, client_done,
  client_failed, ServerPc, await_word, compare_word, print_word, post_ack, post_end, await_client,
  server_done, ClientStep, too_long, copy, terminate, post_word, take_ack, write_end, post_last,
  take_end, ServerStep, take_word, is_word, is_end, print, ack, end, take_client, client, server,
  Reach, start, later,
}

-- Both semaphores.
abbrev pub Sems : Shared → ℕ → ℕ → Type 0
Sems m c s = (m.client_sem ≡ c) × (m.server_sem ≡ s)

-- The word in the buffer, with those printed before it and those to come.
abbrev pub Sending : List (List ℕ) → Shared → List (List ℕ) → Type 0
Sending words m ws = (w : List ℕ) × (m.shm_ptr ≡ some w) × (w ≢ []) × (words ≡ m.printed ++ w ∷ ws)

abbrev pub Ended : List (List ℕ) → Shared → Type 0
Ended words m = (m.shm_ptr ≡ some []) × (m.printed ≡ words)

-- `strtok_r` gives no empty word.
abbrev pub AllWords : List (List ℕ) → Type 0
AllWords [] = Unit
AllWords (w ∷ ws) = (w ≢ []) × AllWords ws

-- Where the two can stand together, with what is in the semaphores and the buffer there.
abbrev pub Together : List (List ℕ) → Shared → ClientPc → ServerPc → Type 0
Together words m (next ws) await_word = Sems m 0 0 × (words ≡ m.printed ++ ws) × AllWords ws
Together words m (copying w ws) await_word =
    Sems m 0 0 × (words ≡ m.printed ++ w ∷ ws) × AllWords (w ∷ ws)
Together words m (copied ws) await_word = Sems m 0 0 × Sending words m ws × AllWords ws
Together words m (await_ack ws) compare_word = Sems m 0 0 × Sending words m ws × AllWords ws
Together words m (await_ack ws) print_word = Sems m 0 0 × Sending words m ws × AllWords ws
Together words m (await_ack ws) post_ack = Sems m 0 0 × (words ≡ m.printed ++ ws) × AllWords ws
Together words m (await_ack ws) await_word =
    (Sems m 1 0 × Sending words m ws × AllWords ws)
    ⊎ (Sems m 0 1 × (words ≡ m.printed ++ ws) × AllWords ws)
Together words m finished await_word = Sems m 0 0 × Ended words m
Together words m await_end await_word = Sems m 1 0 × Ended words m
Together words m await_end compare_word = Sems m 0 0 × Ended words m
Together words m await_end post_end = Sems m 0 0 × Ended words m
Together words m await_end await_client = Sems m 0 1 × Ended words m
Together words m await_end server_done = Sems m 0 0 × Ended words m
Together words m client_done await_client = Sems m 0 0 × Ended words m
Together words m client_failed await_word =
    Sems m 0 0 × ((ws : List (List ℕ)) × (words ≡ m.printed ++ ws))
Together words m p q = ⊥

ClientStep-Together :
    (words : List (List ℕ)) {m m' : Shared} {p p' : ClientPc} (q : ServerPc)
    → ClientStep m p m' p'
    → Together words m p q
    → Together words m' p' q
ClientStep-Together words await_word (too_long long) (sems, split, rest) = (sems, (_, split))
ClientStep-Together words q (too_long long) t = absurd t
ClientStep-Together words await_word (copy h) t = t
ClientStep-Together words q (copy h) t = absurd t
ClientStep-Together words await_word (terminate {w = w}) (sems, split, nonempty) =
    (sems, (w, refl, nonempty.0, split), nonempty.1)
ClientStep-Together words q terminate t = absurd t
ClientStep-Together words await_word post_word (sems, sending, rest) =
    inl (omega arith, sending, rest)
ClientStep-Together words q post_word t = absurd t
ClientStep-Together words await_word (take_ack h) (inl t) = absurd (omega arith)
ClientStep-Together words await_word (take_ack h) (inr (sems, split, rest)) =
    (omega arith, split, rest)
ClientStep-Together words q (take_ack h) t = absurd (omega arith)
ClientStep-Together words await_word write_end (sems, split, nonempty) =
    (sems, (refl, sym (split ∙ append-nil _)))
ClientStep-Together words q write_end t = absurd t
ClientStep-Together words await_word post_last (sems, ended) = (omega arith, ended)
ClientStep-Together words q post_last t = absurd t
ClientStep-Together words await_client (take_end h) (sems, ended) = (omega arith, ended)
ClientStep-Together words q (take_end h) t = absurd (omega arith)

ServerStep-Together :
    (words : List (List ℕ)) {m m' : Shared} (p : ClientPc) {q q' : ServerPc}
    → ServerStep m q m' q'
    → Together words m p q
    → Together words m' p q'
ServerStep-Together words (await_ack ws) (take_word h) (inl (sems, sending, rest)) =
    (omega arith, sending, rest)
ServerStep-Together words (await_ack ws) (take_word h) (inr (sems, _, _)) = absurd (omega arith)
ServerStep-Together words await_end (take_word h) (sems, t) = (omega arith, t)
ServerStep-Together words p (take_word h) t = absurd (omega arith)
ServerStep-Together words (await_ack ws) (is_word e ne) t = t
ServerStep-Together words await_end (is_word e ne) (sems, (empty, printed)) =
    absurd (ne (some-cancel (sym e ∙ empty)))
ServerStep-Together words p (is_word e ne) t = absurd t
ServerStep-Together words (await_ack ws) (is_end e) (sems, (w, full, ne, split), rest) =
    absurd (ne (some-cancel (sym full ∙ e)))
ServerStep-Together words await_end (is_end e) t = t
ServerStep-Together words p (is_end e) t = absurd t
ServerStep-Together words (await_ack ws) (print e) (sems, (w, full, ne, split), rest) =
    let same = some-cancel (sym full ∙ e) in
    (sems, split ∙ (rw (← same) (sym (append_assoc _ (_ ∷ []) _))), rest)
ServerStep-Together words p (print e) t = absurd t
ServerStep-Together words (await_ack ws) ack (sems, split, rest) = inr (omega arith, split, rest)
ServerStep-Together words p ack t = absurd t
ServerStep-Together words await_end end (sems, ended) = (omega arith, ended)
ServerStep-Together words p end t = absurd t
ServerStep-Together words await_end (take_client h) (sems, ended) = (omega arith, ended)
ServerStep-Together words p (take_client h) t = absurd (omega arith)

pub Reach-Together :
    {words : List (List ℕ)} {s : Shared × ClientPc × ServerPc}
    → AllWords words
    → Reach words s
    → Together words s.0 s.1 s.2
Reach-Together nonempty start = ((refl, refl), refl, nonempty)
Reach-Together {words} nonempty (later r (client {q = q} st)) =
    ClientStep-Together words q st (Reach-Together nonempty r)
Reach-Together {words} nonempty (later r (server {p = p} st)) =
    ServerStep-Together words p st (Reach-Together nonempty r)

all_printed :
    (words : List (List ℕ)) (m : Shared)
    → Ended words m
    → (rest : List (List ℕ)) × (words ≡ m.printed ++ rest)
all_printed words m (full, e) = ([], sym e ∙ sym (append-nil _))

unprinted :
    (words : List (List ℕ)) (m : Shared) (p : ClientPc) (q : ServerPc)
    → Together words m p q
    → (rest : List (List ℕ)) × (words ≡ m.printed ++ rest)
unprinted words m (next ws) await_word (sems, e, rest) = (ws, e)
unprinted words m (copying w ws) await_word (sems, e, rest) = (w ∷ ws, e)
unprinted words m (copied ws) await_word (sems, (w, full, ne, e), rest) = (w ∷ ws, e)
unprinted words m (await_ack ws) compare_word (sems, (w, full, ne, e), rest) = (w ∷ ws, e)
unprinted words m (await_ack ws) print_word (sems, (w, full, ne, e), rest) = (w ∷ ws, e)
unprinted words m (await_ack ws) post_ack (sems, e, rest) = (ws, e)
unprinted words m (await_ack ws) await_word (inl (sems, (w, full, ne, e), rest)) = (w ∷ ws, e)
unprinted words m (await_ack ws) await_word (inr (sems, e, rest)) = (ws, e)
unprinted words m finished await_word (sems, ended) = all_printed words m ended
unprinted words m await_end await_word (sems, ended) = all_printed words m ended
unprinted words m await_end compare_word (sems, ended) = all_printed words m ended
unprinted words m await_end post_end (sems, ended) = all_printed words m ended
unprinted words m await_end await_client (sems, ended) = all_printed words m ended
unprinted words m await_end server_done (sems, ended) = all_printed words m ended
unprinted words m client_done await_client (sems, ended) = all_printed words m ended
unprinted words m client_failed await_word (sems, r) = r
unprinted words m p q t = absurd t

-- However the client and the server of mmap-munmap interleave, what the server has printed is
-- what the words of the file begin with, in their order, none lost and none twice.
pub printed_prefix :
    {words : List (List ℕ)} {s : Shared × ClientPc × ServerPc}
    → AllWords words
    → Reach words s
    → (rest : List (List ℕ)) × (words ≡ s.0.printed ++ rest)
printed_prefix {words} nonempty r = unprinted words _ _ _ (Reach-Together nonempty r)

-- ===== src/Shm/Programs.antt =====
-- client.c and server.c of shared-memory/mmap-munmap as two processes that interleave. Each works on
-- the mapping and the two semaphores; the client's copy of a word is two steps, between which the
-- buffer holds no string.
use c_examples.Base.{
  ℕ, ◌+◌, ◌-◌, ◌≤◌, ◌<◌, ◌≡◌, ◌≢◌, Option, none, some, List, [], ◌∷◌, ◌++◌, length,
}

abbrev pub shm_size : ℕ
shm_size = 1024

-- The memory that both processes map, and what the server has printed. `shm_ptr` is the string in
-- the buffer, `none` while one is being copied.
pub record Shared : Type 0 where
  pub client_sem : ℕ
  pub server_sem : ℕ
  pub shm_ptr : Option (List ℕ)
  pub printed : List (List ℕ)

-- The client, with the words that the file still holds.
pub data ClientPc : Type 0 where
  -- At `while(word != NULL)`.
  next : List (List ℕ) → ClientPc
  -- Between `strncpy` and `shm_ptr[len] = '\0'`.
  copying : List ℕ → List (List ℕ) → ClientPc
  -- At `sem_post(client_sem)`.
  copied : List (List ℕ) → ClientPc
  -- At `sem_wait(server_sem)`.
  await_ack : List (List ℕ) → ClientPc
  -- At the last `sem_post(client_sem)`, after `shm_ptr[0] = '\0'`.
  finished : ClientPc
  -- At the last `sem_wait(server_sem)`.
  await_end : ClientPc
  -- After it.
  client_done : ClientPc
  -- `exit(EXIT_FAILURE)` at a word that is too long.
  client_failed : ClientPc

pub data ServerPc : Type 0 where
  -- At `sem_wait(client_sem)`.
  await_word : ServerPc
  -- At the `strcmp`.
  compare_word : ServerPc
  -- At the `printf` of the word.
  print_word : ServerPc
  -- At the `sem_post(server_sem)` of the loop.
  post_ack : ServerPc
  -- At the `sem_post(server_sem)` before the `break`.
  post_end : ServerPc
  -- At the `sem_wait(server_sem)` behind the loop.
  await_client : ServerPc
  server_done : ServerPc

-- `sem_wait` passes when the semaphore is positive, and takes one.
pub data ClientStep (m : Shared) : ClientPc → Shared → ClientPc → Type 0 where
  too_long :
      {w : List ℕ} {ws : List (List ℕ)}
      → shm_size - 1 ≤ length w
      → ClientStep m (next (w ∷ ws)) m client_failed
  copy :
      {w : List ℕ} {ws : List (List ℕ)}
      → length w < shm_size - 1
      → ClientStep m (next (w ∷ ws)) (record m { shm_ptr = none }) (copying w ws)
  terminate :
      {w : List ℕ} {ws : List (List ℕ)}
      → ClientStep m (copying w ws) (record m { shm_ptr = some w }) (copied ws)
  post_word :
      {ws : List (List ℕ)}
      → ClientStep m (copied ws) (record m { client_sem = m.client_sem + 1 }) (await_ack ws)
  take_ack :
      {ws : List (List ℕ)}
      → 0 < m.server_sem
      → ClientStep m (await_ack ws) (record m { server_sem = m.server_sem - 1 }) (next ws)
  write_end : ClientStep m (next []) (record m { shm_ptr = some [] }) finished
  post_last : ClientStep m finished (record m { client_sem = m.client_sem + 1 }) await_end
  take_end :
      0 < m.server_sem
      → ClientStep m await_end (record m { server_sem = m.server_sem - 1 }) client_done

pub data ServerStep (m : Shared) : ServerPc → Shared → ServerPc → Type 0 where
  take_word :
      0 < m.client_sem
      → ServerStep m await_word (record m { client_sem = m.client_sem - 1 }) compare_word
  is_word : {w : List ℕ} → m.shm_ptr ≡ some w → w ≢ [] → ServerStep m compare_word m print_word
  is_end : m.shm_ptr ≡ some [] → ServerStep m compare_word m post_end
  print :
      {w : List ℕ}
      → m.shm_ptr ≡ some w
      → ServerStep m print_word (record m { printed = m.printed ++ w ∷ [] }) post_ack
  ack : ServerStep m post_ack (record m { server_sem = m.server_sem + 1 }) await_word
  end : ServerStep m post_end (record m { server_sem = m.server_sem + 1 }) await_client
  take_client :
      0 < m.server_sem
      → ServerStep m await_client (record m { server_sem = m.server_sem - 1 }) server_done

-- Both processes, in any order.
pub data Step : Shared × ClientPc × ServerPc → Shared × ClientPc × ServerPc → Type 0 where
  client :
      {m m' : Shared} {p p' : ClientPc} {q : ServerPc}
      → ClientStep m p m' p'
      → Step (m, p, q) (m', p', q)
  server :
      {m m' : Shared} {p : ClientPc} {q q' : ServerPc}
      → ServerStep m q m' q'
      → Step (m, p, q) (m', p, q')

-- Both semaphores are created with 0, and `ftruncate` fills the buffer with zeros.
abbrev pub empty_shared : Shared
empty_shared = record { client_sem = 0; server_sem = 0; shm_ptr = some []; printed = [] }

pub data Reach (words : List (List ℕ)) : Shared × ClientPc × ServerPc → Type 0 where
  start : Reach words (empty_shared, next words, await_word)
  later : {s t : Shared × ClientPc × ServerPc} → Reach words s → Step s t → Reach words t

-- ===== src/Io/Stream.antt =====
-- What the kernel answers to `read` on one descriptor: the input side of a socket or a pipe. Its
-- future is a list of events, chosen by the peer and the scheduler; the end of the list is the
-- end of the stream, at which `read` returns 0.
use c_examples.Base.{
  ℕ, suc, ◌≤◌, ◌<◌, ◌≡◌, refl, ap, ◌⊎◌, inl, inr, Bool, true, false, List, [], ◌∷◌, ◌++◌, arith,
  length, take, drop, take-append-drop, length-take, length-drop, append_assoc,
}

pub data Event : Type 0 where
  -- A chunk of bytes, at least one.
  arrive : ℕ → List ℕ → Event
  -- A signal: `read` returns -1 with `errno == EINTR`.
  interrupt : Event
  -- Any other error.
  failure : Event

-- What one call returns: the bytes that it stored (none at the end of the stream), or -1.
pub data ReadResult : Type 0 where
  got : List ℕ → ReadResult
  interrupted : ReadResult
  failed : ReadResult

-- What a call left of a chunk stays for the next.
abbrev pub put_back : List ℕ → List Event → List Event
put_back [] es = es
put_back (b ∷ bs) es = arrive b bs ∷ es

-- `read(fd, buf, k)`.
unfoldable pub read : ℕ → List Event → ReadResult × List Event
read k [] = (got [], [])
read k (interrupt ∷ es) = (interrupted, es)
read k (failure ∷ es) = (failed, es)
read k (arrive b bs ∷ es) = (got (take k (b ∷ bs)), put_back (drop k (b ∷ bs)) es)

-- The bytes that can be read before the stream ends or fails, however they are cut into chunks.
abbrev pub bytes : List Event → List ℕ
bytes [] = []
bytes (arrive b bs ∷ es) = b ∷ (bs ++ bytes es)
bytes (interrupt ∷ es) = bytes es
bytes (failure ∷ es) = []

-- Whether it fails there.
abbrev pub fails : List Event → Bool
fails [] = false
fails (arrive b bs ∷ es) = fails es
fails (interrupt ∷ es) = fails es
fails (failure ∷ es) = true

pub bytes-put_back : (bs : List ℕ) (es : List Event) → bytes (put_back bs es) ≡ bs ++ bytes es
bytes-put_back [] es = refl
bytes-put_back (b ∷ bs) es = refl

fails-put_back : (bs : List ℕ) (es : List Event) → fails (put_back bs es) ≡ fails es
fails-put_back [] es = refl
fails-put_back (b ∷ bs) es = refl

-- What a call for `k` bytes tells of the stream. It uses up an event or gives all that was asked.
abbrev pub Reads : ℕ → List Event → ReadResult × List Event → Type 0
Reads k es (got [], es') = (bytes es ≡ []) × (fails es ≡ false)
Reads k es (got (b ∷ bs), es') =
    (bytes es ≡ (b ∷ bs) ++ bytes es')
    × (fails es' ≡ fails es)
    × (length (b ∷ bs) ≤ k)
    × (0 < length es)
    × ((length es' < length es) ⊎ (length (b ∷ bs) ≡ k))
Reads k es (interrupted, es') =
    (bytes es' ≡ bytes es) × (fails es' ≡ fails es) × (length es' < length es)
Reads k es (failed, es') = (bytes es ≡ []) × (fails es ≡ true)

chunk_used :
    (k b : ℕ) (bs : List ℕ) (es : List Event)
    → (length (put_back (drop k bs) es) < suc (length es)) ⊎ (length (b ∷ take k bs) ≡ suc k)
chunk_used k b bs es = go (drop k bs) refl
  where
    go :
        (l : List ℕ)
        → drop k bs ≡ l
        → (length (put_back l es) < suc (length es)) ⊎ (length (b ∷ take k bs) ≡ suc k)
    go [] e = inl (omega arith)
    go (x ∷ l) e = inr (omega (arith, ap length e, length-drop k bs, length-take k bs))

pub read-Reads : (k : ℕ) (es : List Event) → Reads (suc k) es (read (suc k) es)
unfolding read
read-Reads k [] = (refl, refl)
read-Reads k (interrupt ∷ es) = (refl, refl, omega arith)
read-Reads k (failure ∷ es) = (refl, refl)
read-Reads k (arrive b bs ∷ es) = (
  rw (bytes-put_back, ← append_assoc, take-append-drop k bs),
  fails-put_back (drop k bs) es,
  omega (arith, length-take k bs),
  omega arith,
  chunk_used k b bs es,
)

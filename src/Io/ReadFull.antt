-- ===== src/Io/ReadFull.antt =====
-- `read_full` of io-multiplexing/poll/main.c: reads until the buffer is full.
use c_examples.Base.{
  ℕ, zero, suc, ◌+◌, ◌-◌, ◌≤◌, ◌<◌, ◌≡◌, refl, ap, sym, ◌∙◌, Bool, true, false, List, [], ◌∷◌, ◌++◌,
  ◌⊎◌, inl, inr, Option, none, some, arith, length, take, drop, ltb, ltb→lt, Bool-cases,
  append_assoc, append-nil, length-append, take-append, drop-append,
}
use mathlib.Core.Path.{subst, subst₂}
use c_examples.Io.Stream.{
  Event, ReadResult, got, interrupted, failed, read, bytes, fails, Reads, read-Reads,
}

-- The result: 1, 0 or -1.
pub data Rc : Type 0 where
  complete closed error : Rc

-- The result, the bytes stored in the buffer, and what is left of the stream.
pub record Outcome : Type 0 where
  pub rc : Rc
  pub buf : List ℕ
  pub rest : List Event

-- The body of the `while` after its `read`; `loop` is the next round.
after_read :
    (ℕ → List ℕ → List Event → Option Outcome)
    → ℕ
    → List ℕ
    → ReadResult × List Event
    → Option Outcome
after_read loop off buf (got [], es) = some (record { rc = closed; buf = buf; rest = es })
after_read loop off buf (got (b ∷ bs), es) = loop (off + length (b ∷ bs)) (buf ++ b ∷ bs) es
after_read loop off buf (interrupted, es) = loop off buf es
after_read loop off buf (failed, es) = some (record { rc = error; buf = buf; rest = es })

-- The `while`, at offset `off`; `none` means that the fuel ran out.
read_full_from : ℕ → ℕ → ℕ → List ℕ → List Event → Option Outcome
unfolding after_read
read_full_from zero n off buf es = none
read_full_from (suc f) n off buf es = elim (ltb off n) [
  | true ↦ after_read (read_full_from f n) off buf (read (n - off) es)
  | false ↦ some (record { rc = complete; buf = buf; rest = es })
]

-- `read_full(fd, buf, n)`. Each round uses up an event, or is the last but one.
unfoldable pub read_full : ℕ → List Event → Option Outcome
unfolding read_full_from
read_full n es = read_full_from (suc (length es)) n 0 [] es

-- What the result means, where `m` bytes were still to come: all of them are in the buffer, in
-- order, and the rest is untouched; or the stream ended, or failed, before them.
abbrev pub Cases : ℕ → List ℕ → List ℕ → Bool → Outcome → Rc → Type 0
Cases m buf input end o complete =
    (m ≤ length input)
    × (o.buf ≡ buf ++ take m input)
    × (bytes o.rest ≡ drop m input)
    × (fails o.rest ≡ end)
Cases m buf input end o closed = (length input < m) × (end ≡ false)
Cases m buf input end o error = (length input < m) × (end ≡ true)

abbrev pub Read : ℕ → List ℕ → List Event → Outcome → Type 0
Read m buf es o = Cases m buf (bytes es) (fails es) o o.rc

-- The bytes of one call, then those of the calls after it.
Read-got :
    (m : ℕ) (buf bs : List ℕ) (es es' : List Event) (o : Outcome)
    → bytes es ≡ bs ++ bytes es'
    → fails es' ≡ fails es
    → length bs ≤ m
    → Read (m - length bs) (buf ++ bs) es' o
    → Read m buf es o
Read-got m buf bs es es' o e f le r = go o.rc r
  where
    total : length (bytes es) ≡ length bs + length (bytes es')
    total = ap length e ∙ length-append bs (bytes es')

    go :
        (rc : Rc)
        → Cases (m - length bs) (buf ++ bs) (bytes es') (fails es') o rc
        → Cases m buf (bytes es) (fails es) o rc
    go complete (enough, stored, left, end) = (
      omega (arith, total),
      rw (e, take-append bs (bytes es') m le) (stored ∙ append_assoc buf bs _),
      rw (e, drop-append bs (bytes es') m le) left,
      end ∙ f,
    )
    go closed (short, end) = (omega (arith, total), sym f ∙ end)
    go error (short, end) = (omega (arith, total), sym f ∙ end)

-- Fuel for the rounds to come: more than the events, or one to leave the loop.
abbrev Enough : ℕ → ℕ → ℕ → List Event → Type 0
Enough f n off es = (length es < f) ⊎ ((off ≡ n) × (0 < f))

abbrev Returns : Option Outcome → ℕ → List ℕ → List Event → Type 0
Returns r m buf es = (o : Outcome) × (r ≡ some o) × Read m buf es o

after_read-Returns :
    (f n off m : ℕ) (buf : List ℕ) (es : List Event) (r : ReadResult × List Event)
    → ((off : ℕ) (buf : List ℕ) (es : List Event)
        → Enough f n off es
        → off ≤ n
        → Returns (read_full_from f n off buf es) (n - off) buf es)
    → n - off ≡ m
    → 0 < m
    → Enough (suc f) n off es
    → Reads m es r
    → Returns (after_read (read_full_from f n) off buf r) m buf es
unfolding after_read
after_read-Returns f n off m buf es (got [], es') next e pos h (none_left, end) =
    (_, refl, (omega (arith, ap length none_left), end))
after_read-Returns f n off m buf es (got (b ∷ bs), es') next e pos h
      (cut, end, le, some_left, used) =
    let (o, q, r) = next (off + length (b ∷ bs)) (buf ++ b ∷ bs) es' (omega arith) (omega arith) in
    (o, q, Read-got m buf (b ∷ bs) es es' o cut end le (rw (← rest) r))
  where
    rest : n - (off + length (b ∷ bs)) ≡ m - length (b ∷ bs)
    rest = omega arith
after_read-Returns f n off m buf es (interrupted, es') next e pos h (same, end, used) =
    let (o, q, r) = next off buf es' (omega arith) (omega arith) in
    (
      o,
      q,
      subst (λ k. Read k buf es o) e (subst₂ (λ l x. Cases (n - off) buf l x o o.rc) same end r),
    )
after_read-Returns f n off m buf es (failed, es') next e pos h (none_left, end) =
    (_, refl, (omega (arith, ap length none_left), end))

positive : {n : ℕ} → 0 < n → (k : ℕ) × (n ≡ suc k)
positive {n = zero} h = elim h [ ]
positive {n = suc k} h = (k, refl)

read_full_from-Returns :
    (f n off : ℕ) (buf : List ℕ) (es : List Event)
    → Enough f n off es
    → off ≤ n
    → Returns (read_full_from f n off buf es) (n - off) buf es
unfolding read_full_from
read_full_from-Returns zero n off buf es h le = absurd (omega arith)
read_full_from-Returns (suc f) n off buf es h le = elim (Bool-cases (ltb off n)) [
  | inl more ↦
      let pos : 0 < n - off = omega (arith, ltb→lt off n more) in
      let (k, e) = positive pos in
      let (o, q, r) =
        after_read-Returns f n off (n - off) buf es (read (n - off) es) (read_full_from-Returns f n)
          refl pos h (rw e (read-Reads k es)) in
      (o, rw (more, read_full_from) q, r)
  | inr done ↦
      let e : n - off ≡ 0 = ground arith in
      (
        record { rc = complete; buf = buf; rest = es },
        rw (done, read_full_from),
        rw e (omega arith, sym (append-nil buf), refl, refl),
      )
]

-- `read_full` ends, however the stream is cut into chunks and interrupted: with 1 exactly when
-- `n` bytes come before its end, and then the buffer holds the first `n` and the rest is unread;
-- otherwise with 0 or -1, as the stream ends or fails.
pub read_full-Read :
    (n : ℕ) (es : List Event) → (o : Outcome) × (read_full n es ≡ some o) × Read n [] es o
unfolding read_full
read_full-Read n es =
    let (o, q, r) =
      read_full_from-Returns (suc (length es)) n 0 [] es (omega arith) (omega arith) in
    (o, q, subst (λ k. Read k [] es o) all r)
  where
    all : n - 0 ≡ n
    all = omega arith

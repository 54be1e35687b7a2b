-- ===== src/Counter/Ending.antt =====
-- What the threads of pthread_mutex_lock-pthread_mutex_unlock come to, with the mutex.
use c_examples.Base.{
  ℕ, zero, suc, ◌+◌, ◌*◌, ◌≤◌, ◌≡◌, refl, sym, ap, ◌∙◌, ◌⊎◌, inl, inr, Bool, true, false, List, [],
  ◌∷◌, ◌++◌, arith, length,
}
use c_examples.Counter.Threads.{
  Shared, Pc, entering, loading, storing, printing, leaving, ended, ThreadStep, lock, load, store,
  print, unlock, enter, leave, Step, thread, create, Reach, start, later,
}
use c_examples.Counter.Counted.{
  total, total-append, inside, stored, shown, taken, count_up, Reach-Counted,
}

abbrev pub AllEnded : List Pc → Type 0
AllEnded [] = Unit
AllEnded (p ∷ l) = (p ≡ ended) × AllEnded l

total-AllEnded : (w : Pc → ℕ) (l : List Pc) → w ended ≡ 1 → AllEnded l → total w l ≡ length l
total-AllEnded w [] h e = refl
total-AllEnded w (p ∷ l) h (e, g) = omega (arith, h, ap w e, total-AllEnded w l h g)

-- A thread that has the mutex; or one that waits for it, where nobody has it; or none.
abbrev Scan : List Pc → Type 0
Scan l =
    ((us : List Pc) × (p : Pc) × (vs : List Pc) × (l ≡ us ++ p ∷ vs) × (inside p ≡ 1))
    ⊎ ((total inside l ≡ 0)
        × (((us : List Pc) × (vs : List Pc) × (l ≡ us ++ entering ∷ vs)) ⊎ AllEnded l))

scan : (l : List Pc) → Scan l
scan [] = inr (refl, inr tt)
scan (loading ∷ l) = inl ([], loading, l, refl, refl)
scan (storing k ∷ l) = inl ([], storing k, l, refl, refl)
scan (printing ∷ l) = inl ([], printing, l, refl, refl)
scan (leaving ∷ l) = inl ([], leaving, l, refl, refl)
scan (entering ∷ l) = elim (scan l) [
  | inl (us, p, vs, e, h) ↦ inl (entering ∷ us, p, vs, ap (λ l. entering ∷ l) e, h)
  | inr (none, rest) ↦ inr (omega arith, inl ([], l, refl))
]
scan (ended ∷ l) = elim (scan l) [
  | inl (us, p, vs, e, h) ↦ inl (ended ∷ us, p, vs, ap (λ l. ended ∷ l) e, h)
  | inr (none, inl (us, vs, e)) ↦ inr (omega arith, inl (ended ∷ us, vs, ap (λ l. ended ∷ l) e))
  | inr (none, inr all) ↦ inr (omega arith, inr (refl, all))
]

-- A thread that has the mutex goes on.
inside_steps :
    (m : Shared) (p : Pc) → inside p ≡ 1 → (m' : Shared) × (p' : Pc) × ThreadStep true m p m' p'
inside_steps m loading h = (_, _, load)
inside_steps m (storing k) h = (_, _, store)
inside_steps m printing h = (_, _, print)
inside_steps m leaving h = (_, _, unlock refl)
inside_steps m entering h = absurd (omega arith)
inside_steps m ended h = absurd (omega arith)

free_mutex : (b : Bool) → taken b ≡ 0 → b ≡ false
free_mutex true h = absurd (omega arith)
free_mutex false h = refl

abbrev remaining : Pc → ℕ
remaining entering = 5
remaining loading = 4
remaining (storing k) = 3
remaining printing = 2
remaining leaving = 1
remaining ended = 0

abbrev pub steps : {n : ℕ} {s : Shared × List Pc} → Reach true n s → ℕ
steps start = 0
steps (later r st) = suc (steps r)

ThreadStep-remaining :
    {m m' : Shared} {p p' : Pc} → ThreadStep true m p m' p' → suc (remaining p') ≡ remaining p
ThreadStep-remaining (lock u h) = refl
ThreadStep-remaining (enter u) = refl
ThreadStep-remaining load = refl
ThreadStep-remaining store = refl
ThreadStep-remaining print = refl
ThreadStep-remaining (unlock u) = refl
ThreadStep-remaining (leave u) = refl

remaining-create : (n : ℕ) → total remaining (create n) ≡ 5 * n
remaining-create zero = refl
remaining-create (suc n) = omega (arith, remaining-create n)

steps-remaining :
    (n : ℕ) {m : Shared} {l : List Pc} (r : Reach true n (m, l))
    → steps r + total remaining l ≡ 5 * n
steps-remaining n start = omega (arith, remaining-create n)
steps-remaining n (later r (thread us vs {p} {p'} st)) = omega (
  arith,
  steps-remaining n r,
  ThreadStep-remaining st,
  total-append remaining us p vs,
  total-append remaining us p' vs,
)

counted_or_goes_on :
    (n : ℕ) {m : Shared} {l : List Pc}
    → Reach true n (m, l)
    → (AllEnded l × (m.shared_variable ≡ n) × (m.printed ≡ count_up n))
      ⊎ ((t : Shared × List Pc) × Step true (m, l) t)
counted_or_goes_on n {m} {l} r =
    let c = Reach-Counted n r in
    elim (scan l) [
      | inl (us, p, vs, e, h) ↦
          let (m', p', st) = inside_steps m p h in inr (rw e ((m', us ++ p' ∷ vs), thread us vs st))
      | inr (none, inl (us, vs, e)) ↦
          inr (rw e (_, thread us vs (lock refl (free_mutex m.locked (sym c.one_inside ∙ none)))))
      | inr (none, inr all) ↦ inl (
        all,
        c.counts ∙ total-AllEnded stored l refl all ∙ c.all_there,
        c.shows ∙ ap count_up (total-AllEnded shown l refl all ∙ c.all_there),
      )
    ]

-- With the mutex, for every number of threads: however they interleave, there are at most five
-- steps for each thread; and always one of them can go on, or all have ended, the shared variable
-- is their number, and the values printed are 1, 2 and so on up to it, in this order.
pub all_counted :
    (n : ℕ) {m : Shared} {l : List Pc} (r : Reach true n (m, l))
    → (steps r ≤ 5 * n)
      × ((AllEnded l × (m.shared_variable ≡ n) × (m.printed ≡ count_up n))
          ⊎ ((t : Shared × List Pc) × Step true (m, l) t))
all_counted n r = (omega (arith, steps-remaining n r), counted_or_goes_on n r)

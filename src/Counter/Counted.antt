-- ===== src/Counter/Counted.antt =====
-- With the mutex, no count of pthread_mutex_lock-pthread_mutex_unlock is lost.
use c_examples.Base.{
  ℕ, zero, suc, ◌+◌, ◌≤◌, ◌≡◌, refl, sym, ap, ◌∙◌, Bool, true, false, List, [], ◌∷◌, ◌++◌, arith,
  length, if◌then◌else◌, ◌==◌,
}
use c_examples.Counter.Threads.{
  Shared, Pc, entering, loading, storing, printing, leaving, ended, ThreadStep, lock, enter, load,
  store, print, unlock, leave, thread, first_shared, create, Reach, start, later,
}

abbrev pub total : (Pc → ℕ) → List Pc → ℕ
total w [] = 0
total w (p ∷ l) = w p + total w l

pub total-append :
    (w : Pc → ℕ) (us : List Pc) (p : Pc) (vs : List Pc)
    → total w (us ++ p ∷ vs) ≡ total w us + w p + total w vs
total-append w [] p vs = omega arith
total-append w (u ∷ us) p vs = omega (arith, total-append w us p vs)

-- Between `pthread_mutex_lock` and `pthread_mutex_unlock`.
abbrev pub inside : Pc → ℕ
inside entering = 0
inside ended = 0
inside _ = 1

abbrev pub stored : Pc → ℕ
stored printing = 1
stored leaving = 1
stored ended = 1
stored _ = 0

abbrev pub shown : Pc → ℕ
shown leaving = 1
shown ended = 1
shown _ = 0

-- With a loaded value that is not that of the variable any more.
abbrev pub stale : ℕ → Pc → ℕ
stale s (storing k) = if k == s then 0 else 1
stale s _ = 0

-- 1, 2, ... n.
abbrev pub count_up : ℕ → List ℕ
count_up zero = []
count_up (suc n) = count_up n ++ suc n ∷ []

abbrev pub taken : Bool → ℕ
taken true = 1
taken false = 0

taken-le : (b : Bool) → taken b ≤ 1
taken-le true = omega arith
taken-le false = omega arith

pub record Counted (n : ℕ) (m : Shared) (l : List Pc) : Type 0 where
  pub one_inside : total inside l ≡ taken m.locked
  pub counts : m.shared_variable ≡ total stored l
  pub fresh : total (stale m.shared_variable) l ≡ 0
  pub shows : m.printed ≡ count_up (total shown l)
  pub all_there : length l ≡ n

none_stale : (s : ℕ) (l : List Pc) → total inside l ≡ 0 → total (stale s) l ≡ 0
none_stale s [] h = refl
none_stale s (entering ∷ l) h = omega (arith, none_stale s l (omega arith))
none_stale s (ended ∷ l) h = omega (arith, none_stale s l (omega arith))
none_stale s (loading ∷ l) h = absurd (omega arith)
none_stale s (storing k ∷ l) h = absurd (omega arith)
none_stale s (printing ∷ l) h = absurd (omega arith)
none_stale s (leaving ∷ l) h = absurd (omega arith)

all_shown : (l : List Pc) → total inside l ≡ 0 → total shown l ≡ total stored l
all_shown [] h = refl
all_shown (entering ∷ l) h = omega (arith, all_shown l (omega arith))
all_shown (ended ∷ l) h = omega (arith, all_shown l (omega arith))
all_shown (loading ∷ l) h = absurd (omega arith)
all_shown (storing k ∷ l) h = absurd (omega arith)
all_shown (printing ∷ l) h = absurd (omega arith)
all_shown (leaving ∷ l) h = absurd (omega arith)

length-put :
    (us : List Pc) (p p' : Pc) (vs : List Pc) → length (us ++ p ∷ vs) ≡ length (us ++ p' ∷ vs)
length-put [] p p' vs = refl
length-put (u ∷ us) p p' vs = ap suc (length-put us p p' vs)

still :
    (us vs : List Pc) (p p' : Pc) {l : List ℕ}
    → shown p' ≡ shown p
    → l ≡ count_up (total shown (us ++ p ∷ vs))
    → l ≡ count_up (total shown (us ++ p' ∷ vs))
still us vs p p' {l} h e =
    let same : total shown (us ++ p' ∷ vs) ≡ total shown (us ++ p ∷ vs) =
      omega (arith, h, total-append shown us p vs, total-append shown us p' vs) in
    rw same e

-- A thread that is inside is alone there.
alone :
    (n : ℕ) (m : Shared) (us vs : List Pc) (p : Pc)
    → Counted n m (us ++ p ∷ vs)
    → inside p ≡ 1
    → (total inside us ≡ 0) × (total inside vs ≡ 0)
alone n m us vs p c h = (
  omega (arith, c.one_inside, taken-le m.locked, total-append inside us p vs, h),
  omega (arith, c.one_inside, taken-le m.locked, total-append inside us p vs, h),
)

current : (k s : ℕ) → stale s (storing k) ≡ 0 → k ≡ s
current k s h = ground arith

-- Where one thread goes from `p` to `p'`, and no other is inside while it is.
Step-Counted :
    (n : ℕ) {m m' : Shared} (us vs : List Pc) {p p' : Pc}
    → ThreadStep true m p m' p'
    → Counted n m (us ++ p ∷ vs)
    → Counted n m' (us ++ p' ∷ vs)
Step-Counted n {m} us vs (lock u h) c = record {
  one_inside = omega (
    arith,
    c.one_inside,
    ap taken h,
    total-append inside us entering vs,
    total-append inside us loading vs,
  );
  counts =
      omega
        (arith, c.counts, total-append stored us entering vs, total-append stored us loading vs);
  fresh = omega (
    arith,
    c.fresh,
    total-append (stale m.shared_variable) us entering vs,
    total-append (stale m.shared_variable) us loading vs,
  );
  shows = still us vs entering loading refl c.shows;
  all_there = length-put us loading entering vs ∙ c.all_there;
}
Step-Counted n us vs (enter u) c = absurd (cc u)
Step-Counted n {m} us vs load c = record {
  one_inside = omega (
    arith,
    c.one_inside,
    total-append inside us loading vs,
    total-append inside us (storing m.shared_variable) vs,
  );
  counts = omega (
    arith,
    c.counts,
    total-append stored us loading vs,
    total-append stored us (storing m.shared_variable) vs,
  );
  fresh = ground (
    arith,
    c.fresh,
    total-append (stale m.shared_variable) us loading vs,
    total-append (stale m.shared_variable) us (storing m.shared_variable) vs,
  );
  shows = still us vs loading (storing m.shared_variable) refl c.shows;
  all_there = length-put us (storing m.shared_variable) loading vs ∙ c.all_there;
}
Step-Counted n {m} us vs (store {k = k}) c =
    let (before, behind) = alone n m us vs (storing k) c refl in
    let same : k ≡ m.shared_variable =
      current k m.shared_variable
        (omega (arith, c.fresh, total-append (stale m.shared_variable) us (storing k) vs)) in
    record {
      one_inside = omega (
        arith,
        c.one_inside,
        total-append inside us (storing k) vs,
        total-append inside us printing vs,
      );
      counts = omega (
        arith,
        same,
        c.counts,
        total-append stored us (storing k) vs,
        total-append stored us printing vs,
      );
      fresh = omega (
        arith,
        none_stale (k + 1) us before,
        none_stale (k + 1) vs behind,
        total-append (stale (k + 1)) us printing vs,
      );
      shows = still us vs (storing k) printing refl c.shows;
      all_there = length-put us printing (storing k) vs ∙ c.all_there;
    }
Step-Counted n {m} us vs print c =
    let (before, behind) = alone n m us vs printing c refl in
    let next : total shown (us ++ leaving ∷ vs) ≡ suc (total shown (us ++ printing ∷ vs)) =
      omega (arith, total-append shown us leaving vs, total-append shown us printing vs) in
    let current : m.shared_variable ≡ suc (total shown (us ++ printing ∷ vs)) = omega (
      arith,
      c.counts,
      all_shown us before,
      all_shown vs behind,
      total-append stored us printing vs,
      total-append shown us printing vs,
    ) in
    record {
      one_inside = omega (
        arith,
        c.one_inside,
        total-append inside us printing vs,
        total-append inside us leaving vs,
      );
      counts =
          omega (
            arith,
            c.counts,
            total-append stored us printing vs,
            total-append stored us leaving vs,
          );
      fresh = omega (
        arith,
        c.fresh,
        total-append (stale m.shared_variable) us printing vs,
        total-append (stale m.shared_variable) us leaving vs,
      );
      shows = rw (next, ← current) (ap (λ l. l ++ m.shared_variable ∷ []) c.shows);
      all_there = length-put us leaving printing vs ∙ c.all_there;
    }
Step-Counted n {m} us vs (unlock u) c =
    let (before, behind) = alone n m us vs leaving c refl in
    record {
      one_inside = omega (arith, before, behind, total-append inside us ended vs);
      counts =
          omega
            (arith, c.counts, total-append stored us leaving vs, total-append stored us ended vs);
      fresh = omega (
        arith,
        c.fresh,
        total-append (stale m.shared_variable) us leaving vs,
        total-append (stale m.shared_variable) us ended vs,
      );
      shows = still us vs leaving ended refl c.shows;
      all_there = length-put us ended leaving vs ∙ c.all_there;
    }
Step-Counted n us vs (leave u) c = absurd (cc u)

total-create : (w : Pc → ℕ) (n : ℕ) → w entering ≡ 0 → total w (create n) ≡ 0
total-create w zero h = refl
total-create w (suc n) h = omega (arith, h, total-create w n h)

length-create : (n : ℕ) → length (create n) ≡ n
length-create zero = refl
length-create (suc n) = ap suc (length-create n)

start-Counted : (n : ℕ) → Counted n first_shared (create n)
start-Counted n = record {
  one_inside = total-create inside n refl;
  counts = sym (total-create stored n refl);
  fresh = total-create (stale 0) n refl;
  shows = rw (total-create shown n refl);
  all_there = length-create n;
}

pub Reach-Counted : (n : ℕ) {m : Shared} {l : List Pc} → Reach true n (m, l) → Counted n m l
Reach-Counted n start = start-Counted n
Reach-Counted n (later r (thread us vs st)) = Step-Counted n us vs st (Reach-Counted n r)

-- ===== src/Poll/Growth.antt =====
-- One array of the client table: growing it keeps what was stored and clears what `realloc` adds,
-- and removing a slot moves the last element there.
use c_examples.Base.{
  ℕ, zero, suc, ◌+◌, ◌≤◌, ◌≡◌, refl, ap, ◌∙◌, List, ◌++◌, arith, length, get_or, set, ltb, leb,
  if◌then◌else◌, ◌&&◌, Bool, true, ◌<◌, ◌==◌, length-set, length-append, get_or-set, get_or_beyond,
  get_or-append_left,
}
use native.Mathlib.Decide.{dec_lt}
use c_examples.Poll.Clients.{clear, uninitialised, remove_slot}

module _ {ℓ} {A : Type ℓ} where
  pub length-uninitialised : (n : ℕ) (stale : ℕ → A) → length (uninitialised n stale) ≡ n
  length-uninitialised zero stale = refl
  length-uninitialised (suc n) stale = ap suc (length-uninitialised n stale)

  pub length-clear : (v : A) (n i : ℕ) (xs : List A) → length (clear v n i xs) ≡ length xs
  unfolding clear
  length-clear v zero i xs = refl
  length-clear v (suc n) i xs = length-clear v n (i + 1) (set xs i v) ∙ length-set xs i v

  pub get_or-clear :
      (v d : A) (n i j : ℕ) (xs : List A)
      → i + n ≤ length xs
      → get_or (clear v n i xs) j d ≡ (if leb i j && ltb j (i + n) then v else get_or xs j d)
  unfolding clear
  get_or-clear v d zero i j xs h = ground arith
  get_or-clear v d (suc n) i j xs h =
      ground
        (arith, get_or-clear v d n (i + 1) j (set xs i v), get_or-set xs i j v d, length-set xs i v)

  -- Both growing loops: read through the default, the array is as before.
  pub get_or-clear-append :
      (d : A) (n j k : ℕ) (xs : List A) (stale : ℕ → A)
      → k ≡ length xs
      → get_or (clear d n k (xs ++ uninitialised n stale)) j d ≡ get_or xs j d
  get_or-clear-append d n j k xs stale e = elim (dec_lt j k) [
    | yes old ↦ ground (
      arith,
      get_or-clear d d n k j grown,
      get_or-append_left xs (uninitialised n stale) j d,
      sizes,
    )
    | no new ↦ elim (dec_lt j (k + n)) [
      | yes added ↦ ground (arith, get_or-clear d d n k j grown, get_or_beyond xs j d, sizes)
      | no beyond ↦ ground (arith, get_or_beyond xs j d, get_or_beyond cleared j d, all)
    ]
  ]
    where
      grown : List A
      grown = xs ++ uninitialised n stale

      cleared : List A
      cleared = clear d n k grown

      sizes : length grown ≡ length xs + n
      sizes =
          length-append xs (uninitialised n stale)
          ∙ ap (λ m. length xs + m) (length-uninitialised n stale)

      all : length cleared ≡ length xs + n
      all = length-clear d n k grown ∙ sizes

  pub length-clear-append :
      (d : A) (n k : ℕ) (xs : List A) (stale : ℕ → A)
      → length (clear d n k (xs ++ uninitialised n stale)) ≡ length xs + n
  length-clear-append d n k xs stale = ground (
    arith,
    length-clear d n k (xs ++ uninitialised n stale),
    length-append xs (uninitialised n stale),
    length-uninitialised n stale,
  )

module _ {A : Type 0} where
  pub length-remove_slot :
      (v : A) (is_last : Bool) (i last : ℕ) (xs : List A)
      → length (remove_slot v is_last i last xs) ≡ length xs
  unfolding remove_slot
  length-remove_slot v is_last i last xs = ground (
    arith,
    length-set xs last v,
    length-set xs i (get_or xs last v),
    length-set (set xs i (get_or xs last v)) last v,
  )

  pub get_or-remove_slot :
      (v : A) (is_last : Bool) (i last j : ℕ) (xs : List A)
      → (is_last ≡ true → i ≡ last)
      → i < length xs
      → last < length xs
      → get_or (remove_slot v is_last i last xs) j v
        ≡ (if j == last then v else if j == i then get_or xs last v else get_or xs j v)
  unfolding remove_slot
  get_or-remove_slot v is_last i last j xs e hi hl = ground (
    arith,
    e,
    get_or-set xs last j v v,
    get_or-set xs i j (get_or xs last v) v,
    get_or-set (set xs i (get_or xs last v)) last j v v,
    length-set xs i (get_or xs last v),
  )

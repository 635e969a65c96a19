-- ===== src/Timeout/Order.antt =====
-- The pending timeouts are kept in the order of their deadlines.
use mathlib.Core.List.{reverse, reverse-cons}
use tas_smartnic.Prelude.{
  add32, ◌*◌, u32, ltb_false→le, inr, ltb→lt, inl, Bool-cases, ℕ, ◌+◌, ◌-◌, ◌^◌, ◌≤◌, ◌<◌, ◌≡◌,
  List, [], ◌∷◌, ◌++◌, ltb, arith, All, All-append,
}
use tas_smartnic.Timeout.Clock.{mask, middle, rel_stamp_lem}
use tas_smartnic.Timeout.Manager.{Timeout, rel_time, insert_backwards, armed}

module _ (now : ℕ) where
  -- Distances ahead of `now` that do not fall from one timeout to the next, from `lo` on.
  abbrev pub Ordered : ℕ → List Timeout → Type 0
  Ordered lo [] = Unit
  Ordered lo (x ∷ xs) =
      (lo ≤ rel_time now x) × (rel_time now x < middle) × Ordered (rel_time now x) xs

  -- The same, read backwards and up to `hi`.
  abbrev pub Back : ℕ → List Timeout → Type 0
  Back hi [] = Unit
  Back hi (x ∷ xs) = (rel_time now x ≤ hi) × Back (rel_time now x) xs

  abbrev pub AtLeast : ℕ → Timeout → Type 0
  AtLeast lo x = lo ≤ rel_time now x

  abbrev pub AtMost : ℕ → Timeout → Type 0
  AtMost hi x = rel_time now x ≤ hi

  pub Ordered-mono : (lo lo' : ℕ) (xs : List Timeout) → lo' ≤ lo → Ordered lo xs → Ordered lo' xs
  Ordered-mono lo lo' [] h o = tt
  Ordered-mono lo lo' (x ∷ xs) h o = (omega arith, o.1, o.2)

  pub All-AtLeast : (lo : ℕ) (xs : List Timeout) → Ordered lo xs → All (AtLeast lo) xs
  All-AtLeast lo [] o = tt
  All-AtLeast lo (x ∷ xs) o = (o.0, All-AtLeast lo xs (Ordered-mono (rel_time now x) lo xs o.0 o.2))

  All-AtMost : (hi : ℕ) (xs : List Timeout) → Back hi xs → All (AtMost hi) xs
  All-AtMost hi [] b = tt
  All-AtMost hi (x ∷ xs) b = (b.0, weaken xs (All-AtMost (rel_time now x) xs b.1))
    where
      weaken : (ys : List Timeout) → All (AtMost (rel_time now x)) ys → All (AtMost hi) ys
      weaken [] w = tt
      weaken (y ∷ ys) w = (omega arith, weaken ys w.1)

  All-reverse : (P : Timeout → Type 0) (xs : List Timeout) → All P xs → All P (reverse xs)
  All-reverse P [] w = tt
  All-reverse P (x ∷ xs) w =
      rw (reverse-cons x xs) (All-append P (reverse xs) (x ∷ []) (All-reverse P xs w.1) (w.0, tt))

  Back-snoc :
      (hi : ℕ) (xs : List Timeout) (x : Timeout)
      → Back hi xs
      → All (AtLeast (rel_time now x)) xs
      → rel_time now x ≤ hi
      → Back hi (xs ++ (x ∷ []))
  Back-snoc hi [] x b w h = (h, tt)
  Back-snoc hi (y ∷ ys) x b w h = (b.0, Back-snoc (rel_time now y) ys x b.1 w.1 w.0)

  Ordered-snoc :
      (lo : ℕ) (xs : List Timeout) (x : Timeout)
      → Ordered lo xs
      → All (AtMost (rel_time now x)) xs
      → lo ≤ rel_time now x
      → rel_time now x < middle
      → Ordered lo (xs ++ (x ∷ []))
  Ordered-snoc lo [] x o w h k = (h, k, tt)
  Ordered-snoc lo (y ∷ ys) x o w h k = (o.0, o.1, Ordered-snoc (rel_time now y) ys x o.2 w.1 w.0 k)

  reverse-Back : (lo : ℕ) (xs : List Timeout) → Ordered lo xs → Back (middle - 1) (reverse xs)
  reverse-Back lo [] o = tt
  reverse-Back lo (x ∷ xs) o = rw (reverse-cons x xs) (
      Back-snoc (middle - 1) (reverse xs) x (reverse-Back (rel_time now x) xs o.2)
        (All-reverse (AtLeast (rel_time now x)) xs (All-AtLeast (rel_time now x) xs o.2))
        (omega (arith, o.1)))

  reverse-Ordered : (hi : ℕ) (xs : List Timeout) → hi < middle → Back hi xs → Ordered 0 (reverse xs)
  reverse-Ordered hi [] h b = tt
  reverse-Ordered hi (x ∷ xs) h b = rw (reverse-cons x xs) (
      Ordered-snoc 0 (reverse xs) x (reverse-Ordered (rel_time now x) xs (omega arith) b.1)
        (All-reverse (AtMost (rel_time now x)) xs (All-AtMost (rel_time now x) xs b.1))
        (omega arith) (omega arith))

  insert-Back :
      (us hi : ℕ) (to : Timeout) (xs : List Timeout)
      → rel_time now to ≡ us
      → us ≤ hi
      → Back hi xs
      → Back hi (insert_backwards now us to xs)
  unfolding insert_backwards
  insert-Back us hi to [] e h b = (omega arith, tt)
  insert-Back us hi to (x ∷ xs) e h b = elim (Bool-cases (ltb us (rel_time now x))) [
    | inl later ↦
        rw later
          (b.0, insert-Back us (rel_time now x) to xs e (omega (arith, ltb→lt _ _ later)) b.1)
    | inr found ↦ rw found (omega arith, (omega (arith, ltb_false→le _ _ found), b.1))
  ]

  -- Where a newly armed timeout stands: `us` ahead of now.
  pub rel_time-armed :
      (to : Timeout) (us type : ℕ)
      → now < 2 ^ 28
      → us < middle
      → rel_time now (armed to us type now) ≡ us
  unfolding rel_time armed
  rel_time-armed to us type h k =
      let stamp : mask (u32 (type * 2 ^ 28) + mask (add32 now us)) ≡ mask (now + us) =
        omega arith in
      rw stamp (ground (arith, rel_stamp_lem now (mask (now + us))))

  pub insert-Ordered :
      (to : Timeout) (us : ℕ) (xs : List Timeout)
      → us < middle
      → rel_time now to ≡ us
      → Ordered 0 xs
      → Ordered 0 (reverse (insert_backwards now us to (reverse xs)))
  insert-Ordered to us xs h e o =
      reverse-Ordered (middle - 1) _ (omega arith)
        (insert-Back us (middle - 1) to (reverse xs) e (omega arith) (reverse-Back 0 xs o))

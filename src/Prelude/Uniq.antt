-- ===== src/Prelude/Uniq.antt =====
-- Lists of numbers in which none stands twice.
use Prim.Native.Nat.{ℕ}
use mathlib.Core.Path.{◌≡◌, refl, sym}
use mathlib.Core.Logic.{◌≢◌, ◌⊎◌, inl, inr}
use mathlib.Core.List.{List, [], ◌∷◌, ◌++◌}

unfoldable pub Apart : ℕ → List ℕ → Type 0
Apart idx [] = Unit
Apart idx (i ∷ ids) = (i ≢ idx) × Apart idx ids

unfoldable pub Distinct : List ℕ → Type 0
Distinct [] = Unit
Distinct (i ∷ ids) = Apart i ids × Distinct ids

Apart-inner : (z : ℕ) (xs : List ℕ) (x : ℕ) (ys : List ℕ) → Apart z (xs ++ x ∷ ys) → z ≢ x
unfolding Apart
Apart-inner z [] x ys (other, rest) = λ e. other (sym e)
Apart-inner z (w ∷ xs) x ys (other, rest) = Apart-inner z xs x ys rest

-- A number of such a list is not among those before it, nor behind it.
pub Distinct-Apart :
    (xs : List ℕ) (x : ℕ) (ys : List ℕ) → Distinct (xs ++ x ∷ ys) → Apart x xs × Apart x ys
unfolding Distinct Apart
Distinct-Apart [] x ys (apart, rest) = (tt, apart)
Distinct-Apart (z ∷ xs) x ys (apart, rest) =
    let (before, behind) = Distinct-Apart xs x ys rest in
    ((Apart-inner z xs x ys apart, before), behind)

-- An element of the list.
unfoldable pub Listed : ℕ → List ℕ → Type 0
Listed c [] = ⊥
Listed c (x ∷ xs) = (x ≡ c) ⊎ Listed c xs

pub Listed-append : (c : ℕ) (xs ys : List ℕ) → Listed c (xs ++ c ∷ ys)
unfolding Listed
Listed-append c [] ys = inl refl
Listed-append c (x ∷ xs) ys = inr (Listed-append c xs ys)

-- Another element stays.
pub Listed-kept : (d c : ℕ) (xs ys : List ℕ) → c ≢ d → Listed d (xs ++ c ∷ ys) → Listed d (xs ++ ys)
unfolding Listed
Listed-kept d c [] ys other (inl same) = absurd (other same)
Listed-kept d c [] ys other (inr rest) = rest
Listed-kept d c (x ∷ xs) ys other (inl same) = inl same
Listed-kept d c (x ∷ xs) ys other (inr rest) = inr (Listed-kept d c xs ys other rest)

-- A number at the end.
pub Apart-snoc : (i x : ℕ) (xs : List ℕ) → Apart i xs → x ≢ i → Apart i (xs ++ x ∷ [])
unfolding Apart
Apart-snoc i x [] a other = (other, tt)
Apart-snoc i x (j ∷ xs) (h, a) other = (h, Apart-snoc i x xs a other)

pub Distinct-snoc : (x : ℕ) (xs : List ℕ) → Distinct xs → Apart x xs → Distinct (xs ++ x ∷ [])
unfolding Distinct Apart
Distinct-snoc x [] d a = (tt, tt)
Distinct-snoc x (i ∷ xs) (ai, d) (h, a) =
    (Apart-snoc i x xs ai (λ e. h (sym e)), Distinct-snoc x xs d a)

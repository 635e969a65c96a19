-- ===== src/Prelude/Tabulate.antt =====
-- Memory as a function from offsets to bytes, read off as a list.
use Prim.Native.Nat.{ℕ, zero, suc, ◌+◌, ◌<◌}
use mathlib.Core.Path.{◌≡◌, refl, ap, ap₂}
use mathlib.Core.List.{List, [], ◌∷◌, ◌++◌}
use native.Mathlib.Omega.{arith}

module _ {ℓ} {A : Type ℓ} where
  -- `f 0`, …, `f (n - 1)`
  abbrev pub tabulate : (ℕ → A) → ℕ → List A
  tabulate f zero = []
  tabulate f (suc n) = f 0 ∷ tabulate (λ i. f (suc i)) n

  pub tabulate_congr :
      (f g : ℕ → A) (n : ℕ) → ((i : ℕ) → i < n → f i ≡ g i) → tabulate f n ≡ tabulate g n
  tabulate_congr f g zero h = refl
  tabulate_congr f g (suc n) h =
      ap₂ ◌∷◌ (h 0 (omega arith))
        (tabulate_congr (λ i. f (suc i)) (λ i. g (suc i)) n (λ i k. h (suc i) (omega arith)))

  pub tabulate-add :
      (f : ℕ → A) (m n : ℕ) → tabulate f (m + n) ≡ tabulate f m ++ tabulate (λ i. f (m + i)) n
  tabulate-add f zero n =
      let e : (i : ℕ) → i < n → f i ≡ f (0 + i) = λ i k. ap f (omega arith) in
      let z : 0 + n ≡ n = omega arith in rw z (tabulate_congr f (λ i. f (0 + i)) n e)
  tabulate-add f (suc m) n =
      let z : suc m + n ≡ suc (m + n) = omega arith in
      let e : (i : ℕ) → i < n → f (suc (m + i)) ≡ f (suc m + i) = λ i k. ap f (omega arith) in
      rw (z, tabulate-add (λ i. f (suc i)) m n)
        (ap (λ t. f 0 ∷ (tabulate (λ i. f (suc i)) m ++ t))
          (tabulate_congr (λ i. f (suc (m + i))) (λ i. f (suc m + i)) n e))

  pub tabulate_inj : (f g : ℕ → A) (n i : ℕ) → tabulate f n ≡ tabulate g n → i < n → f i ≡ g i
  tabulate_inj f g zero i e h = elim h [ ]
  tabulate_inj f g (suc n) zero e h = cc
  tabulate_inj f g (suc n) (suc i) e h =
      tabulate_inj (λ k. f (suc k)) (λ k. g (suc k)) n i (cc) (omega arith)

  pub append_cancel : (xs ys zs : List A) → xs ++ ys ≡ xs ++ zs → ys ≡ zs
  append_cancel [] ys zs e = e
  append_cancel (x ∷ xs) ys zs e = append_cancel xs ys zs (cc)

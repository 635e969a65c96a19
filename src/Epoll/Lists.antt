-- ===== src/Epoll/Lists.antt =====
-- Lists of different numbers from which one is taken out.
use tas_smartnic.Prelude.{
  ℕ, suc, ◌≡◌, ◌≢◌, ◌⊎◌, refl, sym, inl, inr, List, [], ◌∷◌, ◌++◌, arith, ◌==◌, length, Bool-cases,
  Apart, Distinct, Listed, false,
}
use tas_smartnic.Epoll.State.{remove}

pub not-Listed-Apart : (e : ℕ) (xs : List ℕ) → (Listed e xs → ⊥) → Apart e xs
unfolding Listed Apart
not-Listed-Apart e [] away = tt
not-Listed-Apart e (x ∷ xs) away = ((λ h. away (inl h)), not-Listed-Apart e xs (λ h. away (inr h)))

pub Apart-not-Listed : (e : ℕ) (xs : List ℕ) → Apart e xs → Listed e xs → ⊥
unfolding Listed Apart
Apart-not-Listed e [] apart listed = listed
Apart-not-Listed e (x ∷ xs) (other, apart) (inl same) = other same
Apart-not-Listed e (x ∷ xs) (other, apart) (inr listed) = Apart-not-Listed e xs apart listed

pub head-Listed : (e : ℕ) (xs : List ℕ) → Listed e (e ∷ xs)
unfolding Listed
head-Listed e xs = inl refl

-- What is left was there.
pub Listed-remove : (i e : ℕ) (xs : List ℕ) → Listed i (remove e xs) → Listed i xs
unfolding Listed remove
Listed-remove i e [] listed = listed
Listed-remove i e (x ∷ xs) listed = elim (Bool-cases (x == e)) [
  | inl here ↦ inr (rw here at listed)
  | inr there ↦ elim (rest listed there) [
    | inl same ↦ inl same
    | inr l ↦ inr (Listed-remove i e xs l)
  ]
]
  where
    rest : Listed i (remove e (x ∷ xs)) → (x == e) ≡ false → (x ≡ i) ⊎ Listed i (remove e xs)
    rest l there = rw there at l

-- Every other number stays.
pub remove-Listed : (i e : ℕ) (xs : List ℕ) → i ≢ e → Listed i xs → Listed i (remove e xs)
unfolding Listed remove
remove-Listed i e [] other listed = listed
remove-Listed i e (x ∷ xs) other (inl same) =
    let differs : (x == e) ≡ false = ground arith in rw differs (inl same)
remove-Listed i e (x ∷ xs) other (inr listed) = elim (Bool-cases (x == e)) [
  | inl here ↦ rw here listed
  | inr there ↦ rw there (inr (remove-Listed i e xs other listed))
]

Apart-remove : (i e : ℕ) (xs : List ℕ) → Apart i xs → Apart i (remove e xs)
Apart-remove i e xs apart =
    not-Listed-Apart i (remove e xs) (λ h. Apart-not-Listed i xs apart (Listed-remove i e xs h))

pub remove-Distinct : (e : ℕ) (xs : List ℕ) → Distinct xs → Distinct (remove e xs)
unfolding Distinct remove
remove-Distinct e [] once = tt
remove-Distinct e (x ∷ xs) (apart, once) = elim (Bool-cases (x == e)) [
  | inl here ↦ rw here once
  | inr there ↦ rw there (Apart-remove x e xs apart, remove-Distinct e xs once)
]

-- The number taken out is gone.
pub remove_gone : (e : ℕ) (xs : List ℕ) → Distinct xs → Listed e (remove e xs) → ⊥
unfolding Distinct remove Listed
remove_gone e [] once listed = listed
remove_gone e (x ∷ xs) (apart, once) listed = elim (Bool-cases (x == e)) [
  | inl here ↦
      let same : x ≡ e = ground arith in
      Apart-not-Listed x xs apart (rw (sym same) at (rw here at listed))
  | inr there ↦ elim (rest listed there) [
    | inl same ↦ absurd (ground arith)
    | inr l ↦ remove_gone e xs once l
  ]
]
  where
    rest : Listed e (remove e (x ∷ xs)) → (x == e) ≡ false → (x ≡ e) ⊎ Listed e (remove e xs)
    rest l there = rw there at l

pub length-remove : (e : ℕ) (xs : List ℕ) → Listed e xs → length xs ≡ suc (length (remove e xs))
unfolding remove Listed
length-remove e [] listed = absurd listed
length-remove e (x ∷ xs) listed = elim (Bool-cases (x == e)) [
  | inl here ↦ rw here refl
  | inr there ↦ elim listed [
    | inl same ↦ absurd (ground arith)
    | inr l ↦ rw there (omega (arith, length-remove e xs l))
  ]
]

-- A number at the end.
pub Listed-snoc : (i e : ℕ) (xs : List ℕ) → Listed i (xs ++ e ∷ []) → Listed i xs ⊎ (e ≡ i)
unfolding Listed
Listed-snoc i e [] (inl same) = inr same
Listed-snoc i e [] (inr none_left) = absurd none_left
Listed-snoc i e (x ∷ xs) (inl same) = inl (inl same)
Listed-snoc i e (x ∷ xs) (inr listed) = elim (Listed-snoc i e xs listed) [
  | inl l ↦ inl (inr l)
  | inr same ↦ inr same
]

pub snoc-Listed : (i e : ℕ) (xs : List ℕ) → Listed i xs → Listed i (xs ++ e ∷ [])
unfolding Listed
snoc-Listed i e [] listed = absurd listed
snoc-Listed i e (x ∷ xs) (inl same) = inl same
snoc-Listed i e (x ∷ xs) (inr listed) = inr (snoc-Listed i e xs listed)

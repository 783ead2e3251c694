-- ===== src/Common/Lists.antt =====
-- Lists measured and indexed by native numbers, and predicates on lists.
use Prim.Native.Nat.{◌-◌, ℕ, zero, suc, ◌+◌, ◌≤◌, ◌<◌}
use mathlib.Core.Path.{◌≡◌, refl, ap, sym, ◌∙◌}
use mathlib.Core.Logic.{◌⊎◌, ◌≢◌, inl, inr}
use mathlib.Core.Bool.{Bool, true, false}
use mathlib.Core.List.{List, [], ◌∷◌, ◌++◌}
use mathlib.Core.Option.{Option, none, some}
use native.Mathlib.Nat.{zero-add}
use native.Mathlib.Omega.{arith}
use my_database_engine.Common.Tests.{if◌then◌else◌}

module _ {ℓ} {A : Type ℓ} where
  abbrev pub length : List A → ℕ
  length [] = 0
  length (x ∷ xs) = suc (length xs)

  abbrev pub get_elem? : List A → ℕ → Option A
  get_elem? [] i = none
  get_elem? (x ∷ xs) zero = some x
  get_elem? (x ∷ xs) (suc i) = get_elem? xs i

  abbrev pub take : ℕ → List A → List A
  take zero xs = []
  take (suc n) [] = []
  take (suc n) (x ∷ xs) = x ∷ take n xs

  abbrev pub drop : ℕ → List A → List A
  drop zero xs = xs
  drop (suc n) [] = []
  drop (suc n) (x ∷ xs) = drop n xs

  -- The elements that pass a Boolean test.
  abbrev pub keep : (A → Bool) → List A → List A
  keep p [] = []
  keep p (x ∷ xs) = if p x then x ∷ keep p xs else keep p xs

  abbrev pub flat_map {κ} : {B : Type κ} → (A → List B) → List A → List B
  flat_map f [] = []
  flat_map f (x ∷ xs) = f x ++ flat_map f xs

  abbrev pub head? : List A → Option A
  head? [] = none
  head? (x ∷ xs) = some x

  abbrev pub tail : List A → List A
  tail [] = []
  tail (x ∷ xs) = xs

  abbrev pub any : (A → Bool) → List A → Bool
  any p [] = false
  any p (x ∷ xs) = if p x then true else any p xs

  pub length-append : (xs ys : List A) → length (xs ++ ys) ≡ length xs + length ys
  length-append [] ys = omega arith
  length-append (x ∷ xs) ys = omega (arith, length-append xs ys)

  -- What stands at a cursor is the head of what is left there.
  pub drop-get_elem?_end : (xs : List A) (i : ℕ) → get_elem? xs i ≡ none → drop i xs ≡ []
  drop-get_elem?_end [] zero h = refl
  drop-get_elem?_end [] (suc i) h = refl
  drop-get_elem?_end (x ∷ xs) zero h = cc
  drop-get_elem?_end (x ∷ xs) (suc i) h = drop-get_elem?_end xs i h

  pub drop-get_elem?-some :
      (xs : List A) (i : ℕ) {x : A} → get_elem? xs i ≡ some x → drop i xs ≡ x ∷ drop (i + 1) xs
  drop-get_elem?-some [] i h = cc
  drop-get_elem?-some (x ∷ xs) zero h = ground arith
  drop-get_elem?-some (x ∷ xs) (suc i) h =
      let e : suc i + 1 ≡ suc (i + 1) = omega arith in rw e (drop-get_elem?-some xs i h)

module _ {ℓ} {A : Type ℓ} where
  pub drop-suc : (xs : List A) (i : ℕ) → drop (i + 1) xs ≡ tail (drop i xs)
  drop-suc [] zero = ground arith
  drop-suc [] (suc i) = ground arith
  drop-suc (x ∷ xs) zero = ground arith
  drop-suc (x ∷ xs) (suc i) = let e : suc i + 1 ≡ suc (i + 1) = omega arith in rw e (drop-suc xs i)

  pub take-nil : (n : ℕ) → take {A = A} n [] ≡ []
  take-nil zero = refl
  take-nil (suc n) = refl

  pub List-cases : (xs : List A) → (xs ≡ []) ⊎ ((x : A) × (r : List A) × (xs ≡ x ∷ r))
  List-cases [] = inl refl
  List-cases (x ∷ xs) = inr (x, xs, refl)

pub length-tail {ℓ} :
    {A : Type ℓ} (xs ys : List A) → ys ≡ tail xs → 0 < length xs → suc (length ys) ≡ length xs
length-tail [] ys e h = absurd (omega arith)
length-tail (x ∷ xs) ys e h = rw e refl

-- A predicate that holds of each element.
abbrev pub All {ℓ κ} : {A : Type ℓ} → (A → Type κ) → List A → Type κ
All holds [] = Unit
All holds (a ∷ rest) = holds a × All holds rest

module _ {ℓ κ} {A : Type ℓ} (P : A → Type κ) where
  pub All-append : (front back : List A) → All P front → All P back → All P (front ++ back)
  All-append [] back h k = k
  All-append (a ∷ front) back h k = (h.0, All-append front back h.1 k)

  All-keep_if : {x : A} (b : Bool) (xs : List A) → P x → All P xs → All P (if b then x ∷ xs else xs)
  All-keep_if true xs h k = (h, k)
  All-keep_if false xs h k = k

  pub All-keep : (p : A → Bool) (xs : List A) → All P xs → All P (keep p xs)
  All-keep p [] h = tt
  All-keep p (x ∷ xs) h = All-keep_if (p x) (keep p xs) h.0 (All-keep p xs h.1)

module _ {ℓ} {A : Type ℓ} where
  pub length-drop : (n : ℕ) (xs : List A) → length (drop n xs) ≡ length xs - n
  length-drop zero xs = omega arith
  length-drop (suc n) [] = omega arith
  length-drop (suc n) (x ∷ xs) = omega (arith, length-drop n xs)

  pub length-take_le : (n : ℕ) (xs : List A) → length (take n xs) ≤ length xs
  length-take_le zero xs = omega arith
  length-take_le (suc n) [] = omega arith
  length-take_le (suc n) (x ∷ xs) = omega (arith, length-take_le n xs)

  -- A `take` that is too short has taken everything.
  pub length-take_short :
      (n : ℕ) (xs : List A) → length (take n xs) ≢ n → length (take n xs) ≡ length xs
  length-take_short zero xs h = absurd (h refl)
  length-take_short (suc n) [] h = refl
  length-take_short (suc n) (x ∷ xs) h = omega (arith, length-take_short n xs (λ e. h (ap suc e)))

  pub take-append : (xs ys : List A) → take (length xs) (xs ++ ys) ≡ xs
  take-append [] ys = refl
  take-append (x ∷ xs) ys = ap (λ r. x ∷ r) (take-append xs ys)

  pub drop-append : (xs ys : List A) → drop (length xs) (xs ++ ys) ≡ ys
  drop-append [] ys = refl
  drop-append (x ∷ xs) ys = drop-append xs ys

  pub drop-length : (xs : List A) → drop (length xs) xs ≡ []
  drop-length [] = refl
  drop-length (x ∷ xs) = drop-length xs

  pub drop-nil : (n : ℕ) → drop {A = A} n [] ≡ []
  drop-nil zero = refl
  drop-nil (suc n) = refl

  pub drop-drop : (m n : ℕ) (xs : List A) → drop (m + n) xs ≡ drop n (drop m xs)
  drop-drop zero n xs = rw zero-add
  drop-drop (suc m) n [] = drop-nil (suc m + n) ∙ sym (drop-nil n)
  drop-drop (suc m) n (x ∷ xs) =
      let e : suc m + n ≡ suc (m + n) = omega arith in rw e (drop-drop m n xs)

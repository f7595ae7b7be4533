-- ===== src/Base/Lists.antt =====
-- Lists measured and indexed by native numbers, under the library's names.
use Prim.Native.Nat.{ℕ, zero, suc, ◌+◌, ◌-◌, ◌≤◌, min}
use mathlib.Core.Path.{◌≡◌, refl, ap, ◌∙◌}
use mathlib.Core.List.{List, [], ◌∷◌, ◌++◌, append_assoc}
use native.Mathlib.Nat.{zero-add, add-zero, suc-add, sub-zero, zero-sub, suc-sub-suc}
use mathlib.Core.Option.{Option, none, some}
use native.Mathlib.Omega.{arith}

module _ {ℓ} {A : Type ℓ} where
  abbrev pub length : List A → ℕ
  length [] = 0
  length (x ∷ xs) = suc (length xs)

  abbrev pub get_elem? : List A → ℕ → Option A
  get_elem? [] i = none
  get_elem? (x ∷ xs) zero = some x
  get_elem? (x ∷ xs) (suc i) = get_elem? xs i

  abbrev pub take : ℕ → List A → List A
  take zero xs = []
  take (suc n) [] = []
  take (suc n) (x ∷ xs) = x ∷ take n xs

  abbrev pub drop : ℕ → List A → List A
  drop zero xs = xs
  drop (suc n) [] = []
  drop (suc n) (x ∷ xs) = drop n xs

  abbrev pub replicate : ℕ → A → List A
  replicate zero a = []
  replicate (suc n) a = a ∷ replicate n a

module _ {ℓ} {A : Type ℓ} where
  pub length-append : (xs ys : List A) → length (xs ++ ys) ≡ length xs + length ys
  length-append [] ys = omega arith
  length-append (x ∷ xs) ys = omega (arith, length-append xs ys)

  pub take-append-drop : (n : ℕ) (xs : List A) → take n xs ++ drop n xs ≡ xs
  take-append-drop zero xs = refl
  take-append-drop (suc n) [] = refl
  take-append-drop (suc n) (x ∷ xs) = ap (◌∷◌ x) (take-append-drop n xs)

  pub length-take : (n : ℕ) (xs : List A) → length (take n xs) ≡ min n (length xs)
  length-take zero xs = omega arith
  length-take (suc n) [] = omega arith
  length-take (suc n) (x ∷ xs) = omega (arith, length-take n xs)

  pub length-drop : (n : ℕ) (xs : List A) → length (drop n xs) ≡ length xs - n
  length-drop zero xs = omega arith
  length-drop (suc n) [] = omega arith
  length-drop (suc n) (x ∷ xs) = omega (arith, length-drop n xs)

  pub length-replicate : (n : ℕ) (a : A) → length (replicate n a) ≡ n
  length-replicate zero a = refl
  length-replicate (suc n) a = ap suc (length-replicate n a)

  -- A prefix of known length is taken and dropped exactly.
  pub take-append : (n : ℕ) (xs ys : List A) → n ≡ length xs → take n (xs ++ ys) ≡ xs
  take-append zero [] ys h = refl
  take-append zero (x ∷ xs) ys h = absurd (omega arith)
  take-append (suc n) [] ys h = absurd (omega arith)
  take-append (suc n) (x ∷ xs) ys h = ap (◌∷◌ x) (take-append n xs ys (omega arith))

  pub drop-append : (n : ℕ) (xs ys : List A) → n ≡ length xs → drop n (xs ++ ys) ≡ ys
  drop-append zero [] ys h = refl
  drop-append zero (x ∷ xs) ys h = absurd (omega arith)
  drop-append (suc n) [] ys h = absurd (omega arith)
  drop-append (suc n) (x ∷ xs) ys h = drop-append n xs ys (omega arith)

  pub take_all : (n : ℕ) (xs : List A) → length xs ≤ n → take n xs ≡ xs
  take_all zero [] h = refl
  take_all zero (x ∷ xs) h = absurd (omega arith)
  take_all (suc n) [] h = refl
  take_all (suc n) (x ∷ xs) h = ap (◌∷◌ x) (take_all n xs (omega arith))

  pub drop_all : (n : ℕ) (xs : List A) → length xs ≤ n → drop n xs ≡ []
  drop_all zero [] h = refl
  drop_all zero (x ∷ xs) h = absurd (omega arith)
  drop_all (suc n) [] h = refl
  drop_all (suc n) (x ∷ xs) h = drop_all n xs (omega arith)

  pub drop-drop : (m n : ℕ) (xs : List A) → drop (m + n) xs ≡ drop n (drop m xs)
  drop-drop zero n xs = rw zero-add
  drop-drop (suc m) zero [] = rw add-zero
  drop-drop (suc m) (suc n) [] = rw suc-add
  drop-drop (suc m) n (x ∷ xs) = rw suc-add (drop-drop m n xs)

  pub take-take_le : (m n : ℕ) (xs : List A) → m ≤ n → take m (take n xs) ≡ take m xs
  take-take_le zero n xs h = refl
  take-take_le (suc m) zero xs h = absurd (omega arith)
  take-take_le (suc m) (suc n) [] h = refl
  take-take_le (suc m) (suc n) (x ∷ xs) h = ap (◌∷◌ x) (take-take_le m n xs (omega arith))

  -- The elements from `first` up to `last`.
  abbrev pub slice : List A → ℕ → ℕ → List A
  slice xs first last = take (last - first) (drop first xs)

  pub take-eq-append-slice : (r w : ℕ) (xs : List A) → r ≤ w → take w xs ≡ take r xs ++ slice xs r w
  take-eq-append-slice zero w xs h = rw sub-zero
  take-eq-append-slice (suc r) zero xs h = absurd (omega arith)
  take-eq-append-slice (suc r) (suc w) [] h =
      let e = take_all (suc w - suc r) [] (omega arith) in rw e
  take-eq-append-slice (suc r) (suc w) (x ∷ xs) h =
      rw suc-sub-suc (ap (◌∷◌ x) (take-eq-append-slice r w xs (omega arith)))

  pub length-slice : (xs : List A) (r w : ℕ) → r ≤ w → w ≤ length xs → length (slice xs r w) ≡ w - r
  length-slice xs r w h k = omega (arith, length-take (w - r) (drop r xs), length-drop r xs)

  -- What is written at `w` extends the slice that ends there.
  pub slice_write :
      (s d t : List A) (r w : ℕ)
      → r ≤ w
      → w ≤ length s
      → slice (take w s ++ (d ++ t)) r (w + length d) ≡ slice s r w ++ d
  slice_write s d t r w h k =
      let a = take-eq-append-slice r w s h in
      let e = drop-append r (take r s) (slice s r w ++ (d ++ t)) (omega (arith, length-take r s)) in
      rw (a, append_assoc, e, ← append_assoc (slice s r w) d t)
        (take-append (w + length d - r) (slice s r w ++ d) t
          (omega (arith, length-append (slice s r w) d, length-slice s r w h k)))

  pub drop-append_le :
      (n : ℕ) (xs ys : List A) → n ≤ length xs → drop n (xs ++ ys) ≡ drop n xs ++ ys
  drop-append_le zero xs ys h = refl
  drop-append_le (suc n) [] ys h = absurd (omega arith)
  drop-append_le (suc n) (x ∷ xs) ys h = drop-append_le n xs ys (omega arith)

  pub take-append_le : (n : ℕ) (xs ys : List A) → n ≤ length xs → take n (xs ++ ys) ≡ take n xs
  take-append_le zero xs ys h = refl
  take-append_le (suc n) [] ys h = absurd (omega arith)
  take-append_le (suc n) (x ∷ xs) ys h = ap (◌∷◌ x) (take-append_le n xs ys (omega arith))

  pub drop-take : (n m : ℕ) (xs : List A) → drop n (take m xs) ≡ take (m - n) (drop n xs)
  drop-take zero m xs = rw sub-zero
  drop-take (suc n) zero xs = rw zero-sub
  drop-take (suc n) (suc m) [] = let e = take_all (suc m - suc n) [] (omega arith) in rw e
  drop-take (suc n) (suc m) (x ∷ xs) = rw suc-sub-suc (drop-take n m xs)

  -- A slice of the front is not changed by what stands behind.
  pub slice-append :
      (s t : List A) (r w : ℕ) → r ≤ w → w ≤ length s → slice (s ++ t) r w ≡ slice s r w
  slice-append s t r w h k =
      rw (drop-append_le r s t (omega arith))
        (take-append_le (w - r) (drop r s) t (omega (arith, length-drop r s)))

  -- Past a separator behind a prefix.
  pub drop_past : (xs ys : List A) (b : A) → drop (length xs + 1) (xs ++ b ∷ ys) ≡ ys
  drop_past xs ys b =
      drop-drop (length xs) 1 (xs ++ b ∷ ys)
      ∙ ap (drop 1) (drop-append (length xs) xs (b ∷ ys) refl)

  pub take_before : (xs ys : List A) → take (length xs) (xs ++ ys) ≡ xs
  take_before xs ys = take-append (length xs) xs ys refl

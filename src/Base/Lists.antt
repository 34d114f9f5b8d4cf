-- ===== src/Base/Lists.antt =====
-- Lists measured and indexed by native numbers, and writes into a fixed block of memory.
use Prim.Native.Nat.{ℕ, zero, suc, ◌+◌, ◌-◌, ◌≤◌, min}
use mathlib.Core.Path.{◌≡◌, refl, ap}
use mathlib.Core.List.{List, [], ◌∷◌, ◌++◌}
use mathlib.Core.Option.{Option, none, some}
use native.Mathlib.Nat.{zero-add, suc-add}
use native.Mathlib.Omega.{arith}

module _ {ℓ} {A : Type ℓ} where
  abbrev pub length : List A → ℕ
  length [] = 0
  length (x ∷ xs) = suc (length xs)

  abbrev pub get_elem? : List A → ℕ → Option A
  get_elem? [] i = none
  get_elem? (x ∷ xs) zero = some x
  get_elem? (x ∷ xs) (suc i) = get_elem? xs i

  abbrev pub get_or : List A → ℕ → A → A
  get_or [] i d = d
  get_or (x ∷ xs) zero d = x
  get_or (x ∷ xs) (suc i) d = get_or xs i d

  abbrev pub set : List A → ℕ → A → List A
  set [] i v = []
  set (x ∷ xs) zero v = v ∷ xs
  set (x ∷ xs) (suc i) v = x ∷ set xs i v

  abbrev pub take : ℕ → List A → List A
  take zero xs = []
  take (suc n) [] = []
  take (suc n) (x ∷ xs) = x ∷ take n xs

  abbrev pub drop : ℕ → List A → List A
  drop zero xs = xs
  drop (suc n) [] = []
  drop (suc n) (x ∷ xs) = drop n xs

  abbrev pub replicate : ℕ → A → List A
  replicate zero a = []
  replicate (suc n) a = a ∷ replicate n a

  abbrev pub All {κ} : (A → Type κ) → List A → Type κ
  All P [] = Unit {κ}
  All P (x ∷ xs) = P x × All P xs

  pub length-append : (xs ys : List A) → length (xs ++ ys) ≡ length xs + length ys
  length-append [] ys = omega arith
  length-append (x ∷ xs) ys = omega (arith, length-append xs ys)

  pub length-take : (n : ℕ) (xs : List A) → length (take n xs) ≡ min n (length xs)
  length-take zero xs = omega arith
  length-take (suc n) [] = omega arith
  length-take (suc n) (x ∷ xs) = omega (arith, length-take n xs)

  pub length-drop : (n : ℕ) (xs : List A) → length (drop n xs) ≡ length xs - n
  length-drop zero xs = omega arith
  length-drop (suc n) [] = omega arith
  length-drop (suc n) (x ∷ xs) = omega (arith, length-drop n xs)

  pub length-replicate : (n : ℕ) (a : A) → length (replicate n a) ≡ n
  length-replicate zero a = refl
  length-replicate (suc n) a = ap suc (length-replicate n a)

  pub take-append-drop : (n : ℕ) (xs : List A) → take n xs ++ drop n xs ≡ xs
  take-append-drop zero xs = refl
  take-append-drop (suc n) [] = refl
  take-append-drop (suc n) (x ∷ xs) = ap (◌∷◌ x) (take-append-drop n xs)

  pub take-length_append : (xs ys : List A) → take (length xs) (xs ++ ys) ≡ xs
  take-length_append [] ys = refl
  take-length_append (x ∷ xs) ys = ap (◌∷◌ x) (take-length_append xs ys)

  pub drop-length_append : (xs ys : List A) → drop (length xs) (xs ++ ys) ≡ ys
  drop-length_append [] ys = refl
  drop-length_append (x ∷ xs) ys = drop-length_append xs ys

  pub take-length : (xs : List A) → take (length xs) xs ≡ xs
  take-length [] = refl
  take-length (x ∷ xs) = ap (◌∷◌ x) (take-length xs)

-- `memcpy (block + at) bytes`: what would fall outside the block is not written.
module _ {ℓ} {A : Type ℓ} where
  abbrev pub overwrite : List A → ℕ → List A → List A
  overwrite [] at vs = []
  overwrite (x ∷ xs) (suc i) vs = x ∷ overwrite xs i vs
  overwrite (x ∷ xs) zero [] = x ∷ xs
  overwrite (x ∷ xs) zero (v ∷ vs) = v ∷ overwrite xs zero vs

  pub length-overwrite :
      (xs : List A) (i : ℕ) (vs : List A) → length (overwrite xs i vs) ≡ length xs
  length-overwrite [] i vs = refl
  length-overwrite (x ∷ xs) (suc i) vs = ap suc (length-overwrite xs i vs)
  length-overwrite (x ∷ xs) zero [] = refl
  length-overwrite (x ∷ xs) zero (v ∷ vs) = ap suc (length-overwrite xs zero vs)

  pub overwrite_front :
      (ys vs : List A) → length vs ≤ length ys → overwrite ys 0 vs ≡ vs ++ drop (length vs) ys
  overwrite_front [] [] h = refl
  overwrite_front [] (v ∷ vs) h = absurd (omega arith)
  overwrite_front (y ∷ ys) [] h = refl
  overwrite_front (y ∷ ys) (v ∷ vs) h = ap (◌∷◌ v) (overwrite_front ys vs (omega arith))

  pub overwrite-append :
      (xs ys vs : List A) → overwrite (xs ++ ys) (length xs) vs ≡ xs ++ overwrite ys 0 vs
  overwrite-append [] ys vs = refl
  overwrite-append (x ∷ xs) ys vs = ap (◌∷◌ x) (overwrite-append xs ys vs)

  pub take-overwrite_front :
      (n : ℕ) (block vs : List A)
      → n ≤ length block
      → n ≤ length vs
      → take n (overwrite block 0 (take n vs)) ≡ take n vs
  take-overwrite_front zero block vs h k = refl
  take-overwrite_front (suc n) [] vs h k = absurd (omega arith)
  take-overwrite_front (suc n) (b ∷ block) [] h k = absurd (omega arith)
  take-overwrite_front (suc n) (b ∷ block) (v ∷ vs) h k =
      ap (◌∷◌ v) (take-overwrite_front n block vs (omega arith) (omega arith))

  pub take-overwrite :
      (a n : ℕ) (block vs : List A)
      → a + n ≤ length block
      → n ≤ length vs
      → take (a + n) (overwrite block a (take n vs)) ≡ take a block ++ take n vs
  take-overwrite zero n block vs h k = rw zero-add (take-overwrite_front n block vs (omega arith) k)
  take-overwrite (suc a) n [] vs h k = absurd (omega arith)
  take-overwrite (suc a) n (b ∷ block) vs h k =
      rw suc-add (ap (◌∷◌ b) (take-overwrite a n block vs (omega arith) k))

  pub take-overwrite_before :
      (a : ℕ) (block vs : List A) → take a (overwrite block a vs) ≡ take a block
  take-overwrite_before zero block vs = refl
  take-overwrite_before (suc a) [] vs = refl
  take-overwrite_before (suc a) (b ∷ block) vs = ap (◌∷◌ b) (take-overwrite_before a block vs)

  pub drop-length : (n : ℕ) (xs : List A) → length xs ≤ n → drop n xs ≡ []
  drop-length zero [] h = refl
  drop-length zero (x ∷ xs) h = absurd (omega arith)
  drop-length (suc n) [] h = refl
  drop-length (suc n) (x ∷ xs) h = drop-length n xs (omega arith)

  pub drop-append : (n : ℕ) (xs ys : List A) → n ≤ length xs → drop n (xs ++ ys) ≡ drop n xs ++ ys
  drop-append zero xs ys h = refl
  drop-append (suc n) [] ys h = absurd (omega arith)
  drop-append (suc n) (x ∷ xs) ys h = drop-append n xs ys (omega arith)

  take-append : (xs ys : List A) (n : ℕ) → take (length xs + n) (xs ++ ys) ≡ xs ++ take n ys
  take-append [] ys n = rw zero-add refl
  take-append (x ∷ xs) ys n = rw suc-add (ap (◌∷◌ x) (take-append xs ys n))

  pub take-add_drop : (n m : ℕ) (xs : List A) → drop n (take (n + m) xs) ≡ take m (drop n xs)
  take-add_drop zero m xs = rw zero-add refl
  take-add_drop (suc n) zero [] = rw suc-add refl
  take-add_drop (suc n) (suc m) [] = rw suc-add refl
  take-add_drop (suc n) m (x ∷ xs) = rw suc-add (take-add_drop n m xs)

  -- A write in the middle, read from where it begins.
  pub take-drop-overwrite :
      (at n : ℕ) (block vs : List A)
      → at + length vs ≤ length block
      → take (length vs + n) (drop at (overwrite block at vs))
        ≡ vs ++ take n (drop (at + length vs) block)
  take-drop-overwrite zero n block vs h =
      rw (zero-add, overwrite_front block vs (omega arith))
        (take-append vs (drop (length vs) block) n)
  take-drop-overwrite (suc at) n [] vs h = absurd (omega arith)
  take-drop-overwrite (suc at) n (x ∷ xs) vs h =
      rw suc-add (take-drop-overwrite at n xs vs (omega arith))

  pub get_or-append :
      (xs ys : List A) (i : ℕ) (a : A) → get_or (xs ++ ys) (length xs + i) a ≡ get_or ys i a
  get_or-append [] ys i a = rw zero-add refl
  get_or-append (x ∷ xs) ys i a = rw suc-add (get_or-append xs ys i a)

  pub take_all : (n : ℕ) (xs : List A) → length xs ≤ n → take n xs ≡ xs
  take_all zero [] h = refl
  take_all (suc n) [] h = refl
  take_all zero (x ∷ xs) h = absurd (omega arith)
  take_all (suc n) (x ∷ xs) h = ap (◌∷◌ x) (take_all n xs (omega arith))

  pub drop_all : (n : ℕ) (xs : List A) → length xs ≤ n → drop n xs ≡ []
  drop_all zero [] h = refl
  drop_all (suc n) [] h = refl
  drop_all zero (x ∷ xs) h = absurd (omega arith)
  drop_all (suc n) (x ∷ xs) h = drop_all n xs (omega arith)

  take_nil : (n : ℕ) → take {A = A} n [] ≡ []
  take_nil zero = refl
  take_nil (suc n) = refl

  pub take_further :
      (k j : ℕ) (xs : List A) → take (length (take k xs) + j) xs ≡ take k xs ++ take j (drop k xs)
  take_further zero j xs = rw zero-add refl
  take_further (suc k) j [] = rw (take_nil (0 + j), take_nil j) refl
  take_further (suc k) j (x ∷ xs) = rw suc-add (ap (◌∷◌ x) (take_further k j xs))

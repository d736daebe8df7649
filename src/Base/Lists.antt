-- ===== src/Base/Lists.antt =====
-- Lists measured, cut and indexed by native numbers, under the library's names.
use Prim.Native.Nat.{ℕ, zero, suc, ◌+◌, ◌-◌, ◌≤◌, ◌<◌, min}
use mathlib.Core.Path.{◌≡◌, refl, sym, ap, ◌∙◌}
use mathlib.Core.Logic.{◌≢◌}
use mathlib.Core.List.{List, [], ◌∷◌, ◌++◌}
use mathlib.Core.Option.{Option, none, some}
use native.Mathlib.Omega.{arith}

module _ {ℓ} {A : Type ℓ} where
  abbrev pub length : List A → ℕ
  length [] = 0
  length (x ∷ xs) = suc (length xs)

  abbrev pub get_elem? : List A → ℕ → Option A
  get_elem? [] i = none
  get_elem? (x ∷ xs) zero = some x
  get_elem? (x ∷ xs) (suc i) = get_elem? xs i

  abbrev pub get_or : List A → ℕ → A → A
  get_or [] i d = d
  get_or (x ∷ xs) zero d = x
  get_or (x ∷ xs) (suc i) d = get_or xs i d

  abbrev pub set : List A → ℕ → A → List A
  set [] i v = []
  set (x ∷ xs) zero v = v ∷ xs
  set (x ∷ xs) (suc i) v = x ∷ set xs i v

  abbrev pub take : ℕ → List A → List A
  take zero xs = []
  take (suc n) [] = []
  take (suc n) (x ∷ xs) = x ∷ take n xs

  abbrev pub drop : ℕ → List A → List A
  drop zero xs = xs
  drop (suc n) [] = []
  drop (suc n) (x ∷ xs) = drop n xs

  abbrev pub replicate : ℕ → A → List A
  replicate zero a = []
  replicate (suc n) a = a ∷ replicate n a

  -- Every entry satisfies `P`.
  abbrev pub All {κ} : (A → Type κ) → List A → Type κ
  All P [] = Unit
  All P (x ∷ xs) = P x × All P xs

  pub get_or-append :
      (d : A) (xs ys : List A) (i : ℕ) → i < length xs → get_or (xs ++ ys) i d ≡ get_or xs i d
  get_or-append d [] ys i h = absurd (omega arith)
  get_or-append d (x ∷ xs) ys zero h = refl
  get_or-append d (x ∷ xs) ys (suc i) h = get_or-append d xs ys i (omega arith)

  -- Two lists that differ in their first entry agree behind it.
  pub behind_first :
      (d x y : A) (xs : List A) (c : ℕ) → 0 < c → get_or (x ∷ xs) c d ≡ get_or (y ∷ xs) c d
  behind_first d x y xs zero h = absurd (omega arith)
  behind_first d x y xs (suc c) h = refl

  pub length-zero : (xs : List A) → length xs ≡ 0 → xs ≡ []
  length-zero [] h = refl
  length-zero (x ∷ xs) h = absurd (omega arith)

  pub first_cut : (xs : List A) → length xs ≢ 0 → (x : A) × (rest : List A) × (xs ≡ x ∷ rest)
  first_cut [] h = absurd (h refl)
  first_cut (x ∷ xs) h = (x, xs, refl)

  -- A list with an entry ends in one.
  pub last_cut : (x : A) (xs : List A) → (init : List A) × (z : A) × (x ∷ xs ≡ init ++ z ∷ [])
  last_cut x [] = ([], x, refl)
  last_cut x (y ∷ xs) = let (init, z, e) = last_cut y xs in (x ∷ init, z, ap (◌∷◌ x) e)

  pub All-append_right {κ} : (P : A → Type κ) (xs ys : List A) → All P (xs ++ ys) → All P ys
  All-append_right P [] ys h = h
  All-append_right P (x ∷ xs) ys h = All-append_right P xs ys h.1

  pub All-append {κ} : (P : A → Type κ) (xs ys : List A) → All P xs → All P ys → All P (xs ++ ys)
  All-append P [] ys h k = k
  All-append P (x ∷ xs) ys h k = (h.0, All-append P xs ys h.1 k)

  pub All-weaken {κ κ'} :
      (P : A → Type κ) (Q : A → Type κ') (xs : List A) → ((x : A) → P x → Q x) → All P xs → All Q xs
  All-weaken P Q [] f h = tt
  All-weaken P Q (x ∷ xs) f h = (f x h.0, All-weaken P Q xs f h.1)

  pub length-append : (xs ys : List A) → length (xs ++ ys) ≡ length xs + length ys
  length-append [] ys = omega arith
  length-append (x ∷ xs) ys = omega (arith, length-append xs ys)

  pub length-set : (xs : List A) (i : ℕ) (v : A) → length (set xs i v) ≡ length xs
  length-set [] i v = refl
  length-set (x ∷ xs) zero v = refl
  length-set (x ∷ xs) (suc i) v = ap suc (length-set xs i v)

  pub length-take : (n : ℕ) (xs : List A) → length (take n xs) ≡ min n (length xs)
  length-take zero xs = omega arith
  length-take (suc n) [] = omega arith
  length-take (suc n) (x ∷ xs) = omega (arith, length-take n xs)

  pub length-drop : (n : ℕ) (xs : List A) → length (drop n xs) ≡ length xs - n
  length-drop zero xs = omega arith
  length-drop (suc n) [] = omega arith
  length-drop (suc n) (x ∷ xs) = omega (arith, length-drop n xs)

  pub length-replicate : (n : ℕ) (a : A) → length (replicate n a) ≡ n
  length-replicate zero a = refl
  length-replicate (suc n) a = ap suc (length-replicate n a)

  pub replicate-add : (m n : ℕ) (a : A) → replicate (m + n) a ≡ replicate m a ++ replicate n a
  replicate-add zero n a = ap (λ k. replicate k a) (omega arith)
  replicate-add (suc m) n a =
      let e : suc m + n ≡ suc (m + n) = omega arith in rw e (ap (◌∷◌ a) (replicate-add m n a))

  pub get_elem?-append_skip :
      (xs ys : List A) (k : ℕ) → get_elem? (xs ++ ys) (length xs + k) ≡ get_elem? ys k
  get_elem?-append_skip [] ys k = ap (get_elem? ys) (omega arith)
  get_elem?-append_skip (x ∷ xs) ys k =
      let e : length (x ∷ xs) + k ≡ suc (length xs + k) = omega arith in
      rw e (get_elem?-append_skip xs ys k)

  pub take-append-drop : (n : ℕ) (xs : List A) → take n xs ++ drop n xs ≡ xs
  take-append-drop zero xs = refl
  take-append-drop (suc n) [] = refl
  take-append-drop (suc n) (x ∷ xs) = ap (◌∷◌ x) (take-append-drop n xs)

  pub take-append : (n : ℕ) (xs ys : List A) → n ≡ length xs → take n (xs ++ ys) ≡ xs
  take-append zero [] ys h = refl
  take-append (suc n) (x ∷ xs) ys h = ap (◌∷◌ x) (take-append n xs ys (omega arith))
  take-append zero (x ∷ xs) ys h = absurd (omega arith)
  take-append (suc n) [] ys h = absurd (omega arith)

  pub drop-append : (n : ℕ) (xs ys : List A) → n ≡ length xs → drop n (xs ++ ys) ≡ ys
  drop-append zero [] ys h = refl
  drop-append (suc n) (x ∷ xs) ys h = drop-append n xs ys (omega arith)
  drop-append zero (x ∷ xs) ys h = absurd (omega arith)
  drop-append (suc n) [] ys h = absurd (omega arith)

  pub get_elem?-eq-get_or :
      (xs : List A) (i : ℕ) (d : A) → i < length xs → get_elem? xs i ≡ some (get_or xs i d)
  get_elem?-eq-get_or [] i d h = absurd (omega arith)
  get_elem?-eq-get_or (x ∷ xs) zero d h = refl
  get_elem?-eq-get_or (x ∷ xs) (suc i) d h = get_elem?-eq-get_or xs i d (omega arith)

  pub get_elem?-append_mid :
      (xs : List A) (y : A) (ys : List A) → get_elem? (xs ++ y ∷ ys) (length xs) ≡ some y
  get_elem?-append_mid [] y ys = refl
  get_elem?-append_mid (x ∷ xs) y ys = get_elem?-append_mid xs y ys

  pub get_elem?-out : (xs : List A) (i : ℕ) → length xs ≤ i → get_elem? xs i ≡ none
  get_elem?-out [] i h = refl
  get_elem?-out (x ∷ xs) zero h = absurd (omega arith)
  get_elem?-out (x ∷ xs) (suc i) h = get_elem?-out xs i (omega arith)

  pub drop-drop : (m n : ℕ) (xs : List A) → drop n (drop m xs) ≡ drop (m + n) xs
  drop-drop zero n xs = ap (λ k. drop k xs) (omega arith)
  drop-drop (suc m) n (x ∷ xs) =
      let e : suc m + n ≡ suc (m + n) = omega arith in rw e (drop-drop m n xs)
  drop-drop (suc m) zero [] = let e : suc m + 0 ≡ suc m = omega arith in rw e
  drop-drop (suc m) (suc n) [] = let e : suc m + suc n ≡ suc (m + suc n) = omega arith in rw e

  -- A list with at least `n` entries, cut behind them.
  pub split_at :
      (n : ℕ) (xs : List A)
      → n ≤ length xs
      → (ys : List A) × (length ys ≡ n)
        × (xs ≡ ys ++ drop n xs)
        × (length (drop n xs) + n ≡ length xs)
  split_at n xs h = (
    take n xs,
    omega (arith, length-take n xs),
    sym (take-append-drop n xs),
    omega (arith, length-drop n xs),
  )

  -- A list of four entries.
  pub four_entries :
      (xs : List A)
      → length xs ≡ 4
      → (a : A) × (b : A) × (c : A) × (d : A) × (xs ≡ a ∷ b ∷ c ∷ d ∷ [])
  four_entries (a ∷ b ∷ c ∷ d ∷ []) h = (a, b, c, d, refl)
  four_entries (a ∷ b ∷ c ∷ d ∷ e ∷ xs) h = absurd (omega arith)
  four_entries [] h = absurd (omega arith)
  four_entries (a ∷ []) h = absurd (omega arith)
  four_entries (a ∷ b ∷ []) h = absurd (omega arith)
  four_entries (a ∷ b ∷ c ∷ []) h = absurd (omega arith)

-- A list cut into `n` entries, `g` entries, four entries and the rest.
pub record Cut {ℓ} {A : Type ℓ} (n g : ℕ) (xs : List A) : Type ℓ where
  pub front : List A
  pub middle : List A
  pub s₀ : A
  pub s₁ : A
  pub s₂ : A
  pub s₃ : A
  pub rest : List A
  pub front_n : length front ≡ n
  pub middle_g : length middle ≡ g
  pub whole : xs ≡ front ++ (middle ++ s₀ ∷ s₁ ∷ s₂ ∷ s₃ ∷ rest)

pub cut {ℓ} : {A : Type ℓ} (n g : ℕ) (xs : List A) → n + g + 4 ≤ length xs → Cut n g xs
cut n g xs h =
    let (front, front_n, eq₁, left₁) = split_at n xs (omega arith) in
    let (middle, middle_g, eq₂, left₂) = split_at g (drop n xs) (omega arith) in
    let (sum, sum4, eq₃, left₃) = split_at 4 (drop g (drop n xs)) (omega arith) in
    let (s₀, s₁, s₂, s₃, sum_eq) = four_entries sum sum4 in
    record {
      front = front;
      middle = middle;
      s₀ = s₀;
      s₁ = s₁;
      s₂ = s₂;
      s₃ = s₃;
      rest = drop 4 (drop g (drop n xs));
      front_n = front_n;
      middle_g = middle_g;
      whole =
          eq₁
          ∙ ap (◌++◌ front)
              (eq₂ ∙ ap (◌++◌ middle) (eq₃ ∙ ap (λ q. q ++ drop 4 (drop g (drop n xs))) sum_eq));
    }

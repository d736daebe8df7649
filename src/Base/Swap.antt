-- ===== src/Base/Swap.antt =====
-- Writing to a list at an index and exchanging two entries, and that an exchange is a permutation.
use Prim.Native.Nat.{ℕ, zero, suc, ◌<◌}
use mathlib.Core.Path.{◌≡◌, refl, sym, ap, ◌∙◌, subst₂}
use mathlib.Core.Logic.{∥∥₁_elim}
use mathlib.Core.List.{List, [], ◌∷◌, ◌++◌, Perm, Permᴰ, perm_middle}
use mathlib.Core.List.Perm
use native.Mathlib.Nat.{ℕ_set}
use native.Mathlib.Omega.{arith}
use projet.Base.Tests.{◌==◌, if◌then◌else◌}
use projet.Base.Lists.{length, get_or, set, length-set}

module _ {ℓ} {A : Type ℓ} where
  permuted_lengths : {xs ys : List A} → Permᴰ xs ys → length xs ≡ length ys
  permuted_lengths Permᴰ.nil = refl
  permuted_lengths (Permᴰ.cons _ p) = ap suc (permuted_lengths p)
  permuted_lengths (Permᴰ.swap _ _) = refl
  permuted_lengths (Permᴰ.trans p q) = permuted_lengths p ∙ permuted_lengths q

  pub length-perm : {xs ys : List A} → Perm xs ys → length xs ≡ length ys
  length-perm p = ∥∥₁_elim p (ℕ_set _ _) permuted_lengths

  -- The entry at `j` after a write at `i`.
  pub get_or-set :
      (d : A) (xs : List A) (i j : ℕ) (v : A)
      → i < length xs
      → get_or (set xs i v) j d ≡ (if i == j then v else get_or xs j d)
  get_or-set d [] i j v h = absurd (omega arith)
  get_or-set d (x ∷ xs) zero zero v h = refl
  get_or-set d (x ∷ xs) zero (suc j) v h = ground arith
  get_or-set d (x ∷ xs) (suc i) zero v h = ground arith
  get_or-set d (x ∷ xs) (suc i) (suc j) v h = ground (arith, get_or-set d xs i j v)

  pub set-set : (xs : List A) (i : ℕ) (v w : A) → set (set xs i v) i w ≡ set xs i w
  set-set [] i v w = refl
  set-set (x ∷ xs) zero v w = refl
  set-set (x ∷ xs) (suc i) v w = ap (◌∷◌ x) (set-set xs i v w)

  -- A list is cut round an index: a write there changes the entry in the middle only.
  set-cut :
      (d : A) (xs : List A) (i : ℕ)
      → i < length xs
      → (pre : List A) × (post : List A) × (xs ≡ pre ++ get_or xs i d ∷ post)
        × ((v : A) → set xs i v ≡ pre ++ v ∷ post)
  set-cut d [] i h = absurd (omega arith)
  set-cut d (x ∷ xs) zero h = ([], xs, refl, λ v. refl)
  set-cut d (x ∷ xs) (suc i) h =
      let (pre, post, whole, written) = set-cut d xs i (omega arith) in
      (x ∷ pre, post, ap (◌∷◌ x) whole, λ v. ap (◌∷◌ x) (written v))

  -- A write trades an entry for another.
  set-trades :
      (d : A) (xs : List A) (i : ℕ) (v : A)
      → i < length xs
      → Perm (get_or xs i d ∷ set xs i v) (v ∷ xs)
  set-trades d xs i v h =
      let (pre, post, whole, written) = set-cut d xs i h in
      let x = get_or xs i d in
      subst₂ (λ a b. Perm (x ∷ a) (v ∷ b)) (sym (written v)) (sym whole)
        (Perm.trans (Perm.cons x (perm_middle pre post)) (
          Perm.trans (Perm.swap v x (pre ++ post))
            (Perm.cons v (Perm.symm (perm_middle pre post)))))

  pub swap : A → List A → ℕ → ℕ → List A
  swap d xs i j = set (set xs i (get_or xs j d)) j (get_or xs i d)

  pub swap_lem :
      (d : A) (xs : List A) (i j : ℕ)
      → swap d xs i j ≡ set (set xs i (get_or xs j d)) j (get_or xs i d)
  unfolding swap
  swap_lem d xs i j = refl

  pub length-swap : (d : A) (xs : List A) (i j : ℕ) → length (swap d xs i j) ≡ length xs
  unfolding swap
  length-swap d xs i j = length-set (set xs i _) j _ ∙ length-set xs i _

  module _ (d : A) (xs : List A) (i j : ℕ) (hi : i < length xs) (hj : j < length xs) where
    pub get_or-swap :
        (c : ℕ)
        → get_or (swap d xs i j) c d
          ≡ (if j == c then get_or xs i d else if i == c then get_or xs j d else get_or xs c d)
    unfolding swap
    get_or-swap c =
        let y = get_or xs j d in
        let inside : j < length (set xs i y) = omega (arith, length-set xs i y) in
        rw (get_or-set d (set xs i y) j c (get_or xs i d) inside, get_or-set d xs i c y hi)

    pub swap-perm : Perm (swap d xs i j) xs
    unfolding swap
    swap-perm =
        let x = get_or xs i d in
        let y = get_or xs j d in
        let inside : j < length (set xs i y) = omega (arith, length-set xs i y) in
        let same : get_or (set xs i y) j d ≡ y = ground (arith, get_or-set d xs i j y hi) in
        Perm.cons_inv
          (Perm.trans (rw same at (set-trades d (set xs i y) j x inside)) (set-trades d xs i y hi))

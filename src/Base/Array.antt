-- ===== src/Base/Array.antt =====
-- C arrays as lists: an access outside the array is a fault. The two loops by which the sources
-- copy and clear bytes are here, with the lemmas that give their results.
use mathlib.Core.List.{append_assoc, append-nil}
use mathlib.Core.Path.{◌≡◌, refl, ap, ◌∙◌, subst₂}
use mathlib.Core.List.{List, [], ◌∷◌, ◌++◌}
use mathlib.Core.Logic.{inl, inr}
use Prim.Native.Nat.{ℕ, zero, suc, ◌+◌, ◌≤◌, ◌<◌}
use native.Mathlib.Omega.{arith}
use projet.Base.Tests.{ltb, ltb→lt, Bool-cases, if◌then◌else◌}
use projet.Base.Lists.{
  length, get_elem?, set, take, replicate, length-append, length-set, take-append,
  get_elem?-append_mid, get_elem?-append_skip, get_elem?-out,
}
use projet.Base.Exec.{
  Exec, ok, fault, ◌>>=◌, or_fault, OnReturn, OnReturn-bind, OnReturn-map, OnReturn-any,
}

module _ {ℓ} {A : Type ℓ} where
  -- `a[i]`
  unfoldable pub load : List A → ℕ → Exec A
  load a i = or_fault (get_elem? a i)

  -- `a[i] = v`
  unfoldable pub store : List A → ℕ → A → Exec (List A)
  store a i v = if ltb i (length a) then ok (set a i v) else fault

  -- The first `n` entries, as a callee reads them.
  unfoldable pub prefix : List A → ℕ → Exec (List A)
  prefix a n = if ltb (length a) n then fault else ok (take n a)

  -- `for (k = 0; k < n; k++) dst[d + k] = src[s + k];`
  unfoldable pub copy : ℕ → List A → ℕ → List A → ℕ → Exec (List A)
  copy zero dst d src s = ok dst
  copy (suc n) dst d src s = do
    x ← load src s
    dst' ← store dst d x
    copy n dst' (d + 1) src (s + 1)

  -- `for (k = 0; k < n; k++) dst[d + k] = v;`
  unfoldable pub fill : ℕ → List A → ℕ → A → Exec (List A)
  fill zero dst d v = ok dst
  fill (suc n) dst d v = do dst' ← store dst d v; fill n dst' (d + 1) v

  pub set-append :
      (xs : List A) (y v : A) (ys : List A) → set (xs ++ y ∷ ys) (length xs) v ≡ xs ++ v ∷ ys
  set-append [] y v ys = refl
  set-append (x ∷ xs) y v ys = ap (◌∷◌ x) (set-append xs y v ys)

  -- A store just past a known prefix.
  pub store-append :
      (xs : List A) (y v : A) (ys : List A) {i : ℕ}
      → i ≡ length xs
      → store (xs ++ y ∷ ys) i v ≡ ok (xs ++ v ∷ ys)
  unfolding store
  store-append xs y v ys e =
      rw (e, set-append xs y v ys) (ground (arith, length-append xs (y ∷ ys)))

  set-skip :
      (pre xs : List A) (k : ℕ) (v : A) → set (pre ++ xs) (length pre + k) v ≡ pre ++ set xs k v
  set-skip [] xs k v = ap (λ i. set xs i v) (let e : 0 + k ≡ k = omega arith in e)
  set-skip (x ∷ pre) xs k v =
      let e : length (x ∷ pre) + k ≡ suc (length pre + k) = omega arith in
      rw e (ap (◌∷◌ x) (set-skip pre xs k v))

  -- A store behind a known prefix is a store in the rest.
  pub store-skip :
      (pre : List A) (xs : List A) (k : ℕ) (v : A) {i : ℕ}
      → i ≡ length pre + k
      → k < length xs
      → store (pre ++ xs) i v ≡ ok (pre ++ set xs k v)
  unfolding store
  store-skip pre xs k v e h = rw (e, set-skip pre xs k v) (ground (arith, length-append pre xs))

  pub load-append :
      (xs : List A) (y : A) (ys : List A) {i : ℕ} → i ≡ length xs → load (xs ++ y ∷ ys) i ≡ ok y
  unfolding load
  load-append xs y ys e = rw (e, get_elem?-append_mid xs y ys)

  -- A load behind a known prefix is a load from the rest.
  pub load-skip :
      (pre xs : List A) (k : ℕ) {i : ℕ} → i ≡ length pre + k → load (pre ++ xs) i ≡ load xs k
  unfolding load
  load-skip pre xs k e = rw (e, get_elem?-append_skip pre xs k)

  pub store-out : (a : List A) (i : ℕ) (v : A) → length a ≤ i → store a i v ≡ fault
  unfolding store
  store-out a i v h = ground arith

  pub load-out : (a : List A) (i : ℕ) → length a ≤ i → load a i ≡ fault
  unfolding load
  load-out a i h = rw (get_elem?-out a i h)

  -- The copy loop overwrites exactly the `length mid` entries behind `pre`.
  pub copy-append :
      (pre mid post : List A) (before from after : List A) {n d s : ℕ}
      → n ≡ length from
      → length mid ≡ length from
      → d ≡ length pre
      → s ≡ length before
      → copy n (pre ++ (mid ++ post)) d (before ++ (from ++ after)) s ≡ ok (pre ++ (from ++ post))
  unfolding copy
  copy-append pre [] post before [] after en em ed es = rw en
  copy-append pre (y ∷ mid) post before [] after en em ed es = absurd (omega arith)
  copy-append pre [] post before (x ∷ from) after en em ed es = absurd (omega arith)
  copy-append pre (y ∷ mid) post before (x ∷ from) after en em ed es =
      rw
        (
          en,
          load-append before x (from ++ after) es,
          store-append pre y x (mid ++ post) ed,
          ← append_assoc pre (x ∷ []) (mid ++ post),
          ← append_assoc pre (x ∷ []) (from ++ post),
          ← append_assoc before (x ∷ []) (from ++ after),
        )
        (copy-append (pre ++ x ∷ []) mid post (before ++ x ∷ []) from after refl (omega arith)
          (omega (arith, length-append pre (x ∷ [])))
          (omega (arith, length-append before (x ∷ []))))

  -- A copy that fills the whole destination.
  pub copy-whole :
      (dst before from after : List A) {n s : ℕ}
      → n ≡ length from
      → length dst ≡ length from
      → s ≡ length before
      → copy n dst 0 (before ++ (from ++ after)) s ≡ ok from
  copy-whole dst before from after {n} {s} en ed es =
      subst₂ (λ a b. copy n a 0 (before ++ (from ++ after)) s ≡ ok b) (append-nil dst)
        (append-nil from) (copy-append [] dst [] before from after en ed refl es)

  -- The clearing loop does so with `n` equal entries.
  pub fill-append :
      (pre mid post : List A) (v : A) {n d : ℕ}
      → n ≡ length mid
      → d ≡ length pre
      → fill n (pre ++ (mid ++ post)) d v ≡ ok (pre ++ (replicate n v ++ post))
  unfolding fill
  fill-append pre [] post v en ed = rw en
  fill-append pre (y ∷ mid) post v en ed =
      rw
        (
          en,
          store-append pre y v (mid ++ post) ed,
          ← append_assoc pre (v ∷ []) (mid ++ post),
          ← append_assoc pre (v ∷ []) (replicate (length mid) v ++ post),
        )
        (fill-append (pre ++ v ∷ []) mid post v refl (omega (arith, length-append pre (v ∷ []))))

  pub fill-rest :
      (pre mid : List A) (v : A) {n d : ℕ}
      → n ≡ length mid
      → d ≡ length pre
      → fill n (pre ++ mid) d v ≡ ok (pre ++ replicate n v)
  fill-rest pre mid v {n} {d} en ed =
      subst₂ (λ a b. fill n (pre ++ a) d v ≡ ok (pre ++ b)) (append-nil mid)
        (append-nil (replicate n v)) (fill-append pre mid [] v en ed)

  pub prefix-append : (xs ys : List A) {n : ℕ} → n ≡ length xs → prefix (xs ++ ys) n ≡ ok xs
  unfolding prefix
  prefix-append xs ys {n} e = rw (take-append n xs ys e) (ground (arith, length-append xs ys))

  -- A store that returns was inside the array, and keeps its length.
  pub store-inside :
      (a : List A) (i : ℕ) (v : A)
      → OnReturn (λ b. (i < length a) × (length b ≡ length a)) (store a i v)
  unfolding store
  store-inside a i v = elim (Bool-cases (ltb i (length a))) [
    | inl e ↦ rw e (ltb→lt _ _ e, length-set a i v)
    | inr e ↦ rw e tt
  ]

  pub copy-length :
      (n : ℕ) (dst : List A) (d : ℕ) (src : List A) (s : ℕ)
      → OnReturn (λ b. length b ≡ length dst) (copy n dst d src s)
  unfolding copy
  copy-length zero dst d src s = refl
  copy-length (suc n) dst d src s =
      OnReturn-bind (λ _. Unit {0}) _ (load src s) _ (OnReturn-any (load src s))
        λ x _. OnReturn-bind _ _ (store dst d x) _ (store-inside dst d x) λ dst' at.
          OnReturn-map _ _ (copy n dst' (d + 1) src (s + 1))
            (copy-length n dst' (d + 1) src (s + 1)) λ b e. e ∙ at.1

  pub fill-length :
      (n : ℕ) (dst : List A) (d : ℕ) (v : A)
      → OnReturn (λ b. length b ≡ length dst) (fill n dst d v)
  unfolding fill
  fill-length zero dst d v = refl
  fill-length (suc n) dst d v =
      OnReturn-bind _ _ (store dst d v) _ (store-inside dst d v) λ dst' at.
        OnReturn-map _ _ (fill n dst' (d + 1) v) (fill-length n dst' (d + 1) v) λ b e. e ∙ at.1

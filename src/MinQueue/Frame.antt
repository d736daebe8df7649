-- ===== src/MinQueue/Frame.antt =====
-- The loops of the queue touch only the slots in use: behind these the array may hold anything.
use projet.Base.{
  ℕ, zero, suc, ◌+◌, ◌*◌, ◌<◌, ◌≡◌, ◌≢◌, refl, sym, ap, ◌∙◌, Bool, true, false, List, [], ◌∷◌, ◌++◌,
  arith, length, get_elem?, set, length-append, ◌==◌, ltb, leb, if◌then◌else◌, Bool-cases, inl, inr,
  lt→ltb,
}
use projet.Base.Exec.{
  Exec, ok, ◌>>=◌, OnReturn, OnReturn-if, OnReturn-bind, OnReturn-any, bind_assoc, bind-cong,
}
use projet.Base.Array.{load, store, store-inside}
use projet.MinQueue.{parent_of, has_child, heapify_up, heapify_down}

module _ {ℓ} {A : Type ℓ} where
  abbrev pub with_spare : Exec (List A) → List A → Exec (List A)
  with_spare m spare = m >>= λ b. ok (b ++ spare)

  get_elem?-live :
      (live spare : List A) (i : ℕ)
      → i < length live
      → get_elem? (live ++ spare) i ≡ get_elem? live i
  get_elem?-live [] spare i h = absurd (omega arith)
  get_elem?-live (x ∷ live) spare zero h = refl
  get_elem?-live (x ∷ live) spare (suc i) h = get_elem?-live live spare i (omega arith)

  set-live :
      (live spare : List A) (i : ℕ) (v : A)
      → i < length live
      → set (live ++ spare) i v ≡ set live i v ++ spare
  set-live [] spare i v h = absurd (omega arith)
  set-live (x ∷ live) spare zero v h = refl
  set-live (x ∷ live) spare (suc i) v h = ap (◌∷◌ x) (set-live live spare i v (omega arith))

  pub load-live :
      (live spare : List A) (i : ℕ) → i < length live → load (live ++ spare) i ≡ load live i
  unfolding load
  load-live live spare i h = rw (get_elem?-live live spare i h)

  pub store-live :
      (live spare : List A) (i : ℕ) (v : A)
      → i < length live
      → store (live ++ spare) i v ≡ with_spare (store live i v) spare
  unfolding store
  store-live live spare i v h = rw (
    lt→ltb i (length (live ++ spare)) (omega (arith, length-append live spare)),
    lt→ltb i (length live) h,
    set-live live spare i v h,
  )

  if-live :
      (b : Bool) (x y x' y' : Exec (List A)) (spare : List A)
      → x ≡ with_spare x' spare
      → y ≡ with_spare y' spare
      → (if b then x else y) ≡ with_spare (if b then x' else y') spare
  if-live true x y x' y' spare p q = p
  if-live false x y x' y' spare p q = q

  -- A store, followed by code that leaves the spare slots alone.
  store_then-live :
      (live spare : List A) (i : ℕ) (v : A) (next : List A → Exec (List A))
      → i < length live
      → ((b : List A) → length b ≡ length live → next (b ++ spare) ≡ with_spare (next b) spare)
      → (store (live ++ spare) i v >>= next) ≡ with_spare (store live i v >>= next) spare
  store_then-live live spare i v next h same = rw (store-live live spare i v h) (
      bind_assoc (store live i v) (λ b. ok (b ++ spare)) next
      ∙ bind-cong _ (store live i v) _ _ (store-inside live i v) (λ b at. same b at.1)
      ∙ sym (bind_assoc (store live i v) next (λ b. ok (b ++ spare))))

  load_then-live :
      (live spare : List A) (i : ℕ) (f g : A → Exec (List A))
      → i < length live
      → ((x : A) → f x ≡ with_spare (g x) spare)
      → (load (live ++ spare) i >>= f) ≡ with_spare (load live i >>= g) spare
  load_then-live live spare i f g h same = rw (load-live live spare i h) (
      bind-cong _ (load live i) _ _ (OnReturn-any (load live i)) (λ x _. same x)
      ∙ sym (bind_assoc (load live i) g (λ b. ok (b ++ spare))))

  module _ (cmp : A → A → Bool) where
    pub heapify_up-live :
        (k : ℕ) (live spare : List A) (i : ℕ) (v : A)
        → i < length live
        → heapify_up k cmp (live ++ spare) i v ≡ with_spare (heapify_up k cmp live i v) spare
    unfolding heapify_up
    heapify_up-live zero live spare i v h = refl
    heapify_up-live (suc k) live spare i v h =
        if-live (i == 0) _ _ _ _ spare (store-live live spare i v h) (
          load_then-live live spare (parent_of i) _ _ (omega arith) λ above.
            if-live (cmp above v) _ _ _ _ spare
              (store_then-live live spare i above (λ e'. heapify_up k cmp e' (parent_of i) v) h
                λ b e. heapify_up-live k b spare (parent_of i) v (omega arith))
              (store-live live spare i v h))

    has_child-live :
        (live spare : List A) (i : ℕ)
        → has_child cmp (live ++ spare) (length live) i ≡ has_child cmp live (length live) i
    unfolding has_child
    has_child-live live spare i = elim (Bool-cases (ltb (i * 2 + 1) (length live))) [
      | inl e ↦ rw (
        load-live live spare (i * 2) (ground arith),
        load-live live spare (i * 2 + 1) (ground arith),
      )
      | inr e ↦ rw e
    ]

    has_child-inside :
        (live : List A) (i : ℕ)
        → OnReturn
            (λ m. m ≢ 0 → (i < length live) × (m < length live))
            (has_child cmp live (length live) i)
    unfolding has_child
    has_child-inside live i =
        OnReturn-if _ (leb (length live) (i * 2)) _ _ (λ e z. absurd (z refl))
          λ e.
            OnReturn-if _ (ltb (i * 2 + 1) (length live)) _ _
              (λ r. OnReturn-bind _ _ (load live (i * 2)) _ (OnReturn-any _) λ x _.
                OnReturn-bind _ _ (load live (i * 2 + 1)) _ (OnReturn-any _)
                  λ y _. OnReturn-if _ (cmp x y) _ _ (λ g z. ground arith) (λ g z. ground arith))
              λ r z. ground arith

    pub heapify_down-live :
        (k : ℕ) (live spare : List A) (i : ℕ)
        → heapify_down k cmp (live ++ spare) (length live) i
          ≡ with_spare (heapify_down k cmp live (length live) i) spare
    unfolding heapify_down
    heapify_down-live zero live spare i = refl
    heapify_down-live (suc k) live spare i = rw (has_child-live live spare i) (
        bind-cong _ (has_child cmp live (length live) i) _ _ (has_child-inside live i) (λ m inside.
          elim (Bool-cases (m == 0)) [
            | inl e ↦ rw e
            | inr e ↦
                let both : (i < length live) × (m < length live) = inside (ground arith) in
                rw e (
                  load_then-live live spare i _ _ both.0 λ c.
                    load_then-live live spare m _ _ both.1 λ x.
                      if-live (cmp c x) _ _ _ _ spare
                        (store_then-live live spare i x
                          (λ e'. store e' m c >>= λ e''. heapify_down k cmp e'' (length live) m)
                          both.0
                          λ b eb.
                            store_then-live b spare m c
                              (λ e''. heapify_down k cmp e'' (length live) m) (omega arith)
                              λ b' eb'.
                                let same : length live ≡ length b' = omega arith in
                                rw same (heapify_down-live k b' spare m))
                        refl)
          ])
        ∙ sym (bind_assoc (has_child cmp live (length live) i) _ (λ b. ok (b ++ spare))))

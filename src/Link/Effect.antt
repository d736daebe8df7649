-- ===== src/Link/Effect.antt =====
-- What the simulated link of link_sim.c does to a packet.
use mathlib.Core.Path.{subst}
use projet.Base.{
  ◌∙◌, ℕ, suc, ◌+◌, ◌-◌, ◌%◌, ◌≤◌, ◌<◌, ◌≡◌, refl, sym, ap, Bool, true, false, ◌&&◌, Option, none,
  some, List, [], ◌∷◌, ◌++◌, arith, length, take, ltb, ◌==◌, if◌then◌else◌, Bool-cases, inl, inr,
  last_cut, length-append, le→ltb,
}
use projet.Base.Exec.{Exec, ok}
use projet.Base.Array.{prefix, load-append, store-append}
use projet.Link.{
  Outcome, Queue, Settings, World, Timeval, sent_all, rand_percent, happens, write_out, forward,
  corrupt, simulate_link,
}

-- The last byte is inverted.
abbrev pub inverted : List ℕ → List ℕ
inverted [] = []
inverted (z ∷ []) = (255 - z) ∷ []
inverted (x ∷ y ∷ bytes) = x ∷ inverted (y ∷ bytes)

-- Whether something of the given rate comes about, where `rand` gives `value`.
abbrev pub chance : ℕ → ℕ → Bool
chance rate value = ltb 0 rate && ltb (value % 101) rate

-- A rate of 0 takes no call of `rand`.
abbrev pub draws : ℕ → ℕ
draws rate = if rate == 0 then 0 else 1

-- What becomes of a packet: nothing, or the bytes that arrive.
abbrev pub fate : (ℕ → ℕ) → Settings → List ℕ → Option (List ℕ)
fate rand settings buf =
    if chance settings.loss_rate (rand 0)
    then none
    else if chance settings.cut_rate (rand (draws settings.loss_rate))
    then some (take 4 buf)
    else if chance settings.err_rate (rand (draws settings.loss_rate + draws settings.cut_rate))
    then some (inverted buf)
    else some buf

abbrev pub arrivals : Option (List ℕ) → List (List ℕ)
arrivals none = []
arrivals (some bytes) = bytes ∷ []

take_whole : (xs : List ℕ) → take (length xs) xs ≡ xs
take_whole [] = refl
take_whole (x ∷ xs) = ap (◌∷◌ x) (take_whole xs)

pub inverted-append : (init : List ℕ) (z : ℕ) → inverted (init ++ z ∷ []) ≡ init ++ (255 - z) ∷ []
inverted-append [] z = refl
inverted-append (x ∷ []) z = refl
inverted-append (x ∷ y ∷ init) z = ap (◌∷◌ x) (inverted-append (y ∷ init) z)

pub length-inverted : (buf : List ℕ) → length (inverted buf) ≡ length buf
length-inverted [] = refl
length-inverted (z ∷ []) = refl
length-inverted (x ∷ y ∷ bytes) = ap suc (length-inverted (y ∷ bytes))

module _ (rand : ℕ → ℕ) where
  pub happens-chance :
      (rate draw : ℕ) → happens rand rate draw ≡ (chance rate (rand draw), draw + draws rate)
  unfolding happens rand_percent
  happens-chance rate draw = elim (Bool-cases (rate == 0)) [
    | inl never ↦
        let no : chance rate (rand draw) ≡ false = ground arith in
        let same : draw + 0 ≡ draw = omega arith in rw (never, no, same) refl
    | inr sometimes ↦ let yes : ltb 0 rate ≡ true = ground arith in rw (sometimes, yes) refl
  ]

  corrupt-append :
      (init : List ℕ) (z : ℕ)
      → corrupt rand (init ++ z ∷ []) (length (init ++ z ∷ [])) ≡ ok (inverted (init ++ z ∷ []))
  unfolding corrupt
  corrupt-append init z =
      let last : length (init ++ z ∷ []) - 1 ≡ length init =
        omega (arith, length-append init (z ∷ [])) in
      rw
        (
          last,
          load-append init z [] {i = length init} refl,
          store-append init z (255 - z) [] {i = length init} refl,
          inverted-append init z,
        )
        refl

  pub corrupt-inverted :
      (buf : List ℕ) → 0 < length buf → corrupt rand buf (length buf) ≡ ok (inverted buf)
  corrupt-inverted [] h = absurd (omega arith)
  corrupt-inverted (x ∷ xs) h =
      let (init, z, e) = last_cut x xs in
      subst (λ b. corrupt rand b (length b) ≡ ok (inverted b)) (sym e) (corrupt-append init z)

  module _ (settings : Settings) (world : World) (clock : Timeval) (q : Queue) where
    forward-now :
        (draw : ℕ) (buf : List ℕ) (len : ℕ)
        → settings.delay ≡ 0
        → world.sending ≡ sent_all
        → len ≤ length buf
        → forward rand settings world clock q draw buf len
          ≡ ok (record { success = true; pkt_queue = q; sent = take len buf ∷ [] })
    unfolding forward write_out prefix
    forward-now draw buf len undelayed all h = rw (undelayed, le→ltb (length buf) len h, all) refl

    -- A packet is dropped, or forwarded as its fate says.
    pub simulate_link-cases {ℓ} :
        (P : Option (List ℕ) → Exec Outcome → Type ℓ) (buf : List ℕ)
        → 4 ≤ length buf
        → P none (ok (record { success = true; pkt_queue = q; sent = [] }))
        → ((draw len : ℕ) (buf' : List ℕ)
            → len ≤ length buf'
            → length buf' ≡ length buf
            → P (some (take len buf')) (forward rand settings world clock q draw buf' len))
        → P (fate rand settings buf) (simulate_link rand settings world clock q 0 buf (length buf))
    unfolding simulate_link
    simulate_link-cases P buf h dropped forwarded =
        let l = draws settings.loss_rate in
        let c = draws settings.cut_rate in
        let e = draws settings.err_rate in
        let first = happens-chance settings.loss_rate 0 in
        let second = happens-chance settings.cut_rate (0 + draws settings.loss_rate) in
        let third =
          happens-chance settings.err_rate
            (0 + draws settings.loss_rate + draws settings.cut_rate) in
        let start : 0 + draws settings.loss_rate ≡ draws settings.loss_rate = omega arith in
        let corrupted = corrupt-inverted buf (omega arith) in
        let n = length-inverted buf in
        let whole : take (length buf) buf ≡ buf = take_whole buf in
        let changed : take (length buf) (inverted buf) ≡ inverted buf =
          ap (λ k. take k (inverted buf)) (sym n) ∙ take_whole (inverted buf) in
        rw (first, second, third, start)
          (elim (Bool-cases (chance settings.loss_rate (rand 0))) [
            | inl lost ↦ rw lost dropped
            | inr kept ↦ elim (Bool-cases (chance settings.cut_rate (rand l))) [
              | inl cut ↦ rw (kept, cut) (forwarded (l + c) 4 buf h refl)
              | inr uncut ↦ elim (Bool-cases (chance settings.err_rate (rand (l + c)))) [
                | inl bad ↦
                    rw (kept, uncut, bad, corrupted)
                      (subst
                        (λ b. P (some b) (
                          forward rand settings world clock q (l + c + e) (inverted buf)
                            (length buf)))
                        changed
                        (forwarded (l + c + e) (length buf) (inverted buf) (omega (arith, n)) n))
                | inr good ↦
                    rw (kept, uncut, good)
                      (subst
                        (λ b.
                          P (some b)
                            (forward rand settings world clock q (l + c + e) buf (length buf)))
                        whole (forwarded (l + c + e) (length buf) buf (omega arith) refl))
              ]
            ]
          ])

    -- On a link without delay, where the sending succeeds, the outcome for a packet of at least four
    -- bytes is its fate: lost, cut to four bytes, with the last byte inverted, or as it was, as the
    -- draws against the three rates say; the packet that arrives is sent, and the queue stays.
    pub simulate_link-fate :
        (buf : List ℕ)
        → settings.delay ≡ 0
        → world.sending ≡ sent_all
        → 4 ≤ length buf
        → simulate_link rand settings world clock q 0 buf (length buf)
          ≡ ok (record { success = true; pkt_queue = q; sent = arrivals (fate rand settings buf) })
    simulate_link-fate buf undelayed all h =
        simulate_link-cases
          (λ f m. m ≡ ok (record { success = true; pkt_queue = q; sent = arrivals f })) buf h refl
          λ draw len buf' inside same. forward-now draw buf' len undelayed all inside

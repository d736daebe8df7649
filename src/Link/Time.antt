-- ===== src/Link/Time.antt =====
-- The dates of link_sim.c.
use projet.Base.{◌≡◌, ◌⊎◌, inl, inr, arith, Bool-cases}
use projet.Base.Int.{pos, ltb_ℤ, ◌+ℤ◌, ◌-ℤ◌, ◌≤ℤ◌, int_laws}
use projet.MinQueue.Order.{IsOrder}
use projet.Link.{Timeval, eqb_ℤ, timeval_cmp, timeval_diff, pkt_slot_cmp}

-- The comparison that the queue of the link uses is one that the queue may be used with.
pub pkt_slot_cmp-IsOrder : IsOrder pkt_slot_cmp
unfolding pkt_slot_cmp timeval_cmp
pkt_slot_cmp-IsOrder = record { asym = λ a b h. ground arith; trans = λ a b c p q. ground arith }

-- The microseconds are those of a date within a second.
abbrev pub IsNormal : Timeval → Type 0
IsNormal t = (pos 0 ≤ℤ t.tv_usec) × (t.tv_usec +ℤ pos 1 ≤ℤ pos 1000000)

-- `c` is the time from `b` to `a`, its microseconds within a second.
abbrev pub IsDifference : Timeval → Timeval → Timeval → Type 0
IsDifference a b c =
    IsNormal c
    × (((b.tv_sec +ℤ c.tv_sec ≡ a.tv_sec) × (b.tv_usec +ℤ c.tv_usec ≡ a.tv_usec))
        ⊎ ((b.tv_sec +ℤ c.tv_sec +ℤ pos 1 ≡ a.tv_sec)
            × (b.tv_usec +ℤ c.tv_usec ≡ a.tv_usec +ℤ pos 1000000)))

-- `a` is in the second after that of `b`, and has fewer microseconds.
abbrev pub IsMissed : Timeval → Timeval → Type 0
IsMissed a b = (a.tv_sec ≡ b.tv_sec +ℤ pos 1) × (a.tv_usec +ℤ pos 1 ≤ℤ b.tv_usec)

-- For two dates within their seconds: if `a` is in the second after that of `b` and has fewer
-- microseconds, `timeval_diff` gives 0 seconds, and the negative difference of the microseconds,
-- which is not the time between; in all other cases it gives the time from `b` to `a`.
pub timeval_diff-carry :
    (a b : Timeval)
    → IsNormal a
    → IsNormal b
    → (¬ IsMissed a b) × IsDifference a b (timeval_diff a b)
      ⊎ IsMissed a b
        × ((timeval_diff a b).tv_sec ≡ pos 0)
        × (b.tv_usec +ℤ (timeval_diff a b).tv_usec ≡ a.tv_usec)
        × ((timeval_diff a b).tv_usec +ℤ pos 1 ≤ℤ pos 0)
        × (¬ IsDifference a b (timeval_diff a b))
unfolding timeval_diff
timeval_diff-carry a b na nb =
    let sec = a.tv_sec -ℤ b.tv_sec in
    let usec = a.tv_usec -ℤ b.tv_usec in
    elim (Bool-cases (ltb_ℤ usec (pos 0))) [
      | inr enough ↦ rw enough (
          inl (
            λ (same, less). grind int_laws,
            (grind int_laws, inl (grind int_laws, grind int_laws)),
          ))
      | inl under ↦ elim (Bool-cases (eqb_ℤ (sec -ℤ pos 1) (pos 0))) [
        | inl missed ↦
            rw (under, missed)
              (inr (
                (grind int_laws, grind int_laws),
                grind int_laws,
                grind int_laws,
                grind int_laws,
                λ (normal, d). grind int_laws,
              ))
        | inr carried ↦
            rw (under, carried)
              (inl (
                λ (same, less). grind int_laws,
                (grind int_laws, inr (grind int_laws, grind int_laws)),
              ))
      ]
    ]

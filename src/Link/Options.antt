-- ===== src/Link/Options.antt =====
-- The options of linksim/link_sim.c: `getopt` gives a letter, and `atoi` the number behind it.
use projet.Base.{
  refl, ◌==◌, if◌then◌else◌, ℕ, suc, ◌-◌, ◌%◌, ◌^◌, ◌≤◌, ◌<◌, ◌≡◌, Option, none, some, List, [],
  ◌∷◌, arith, All,
}
use projet.Base.Int.{ℤ, pos, negsuc, ◌≤ℤ◌}
use projet.Link.{Settings}

-- The global variables that options set, and the seed.
pub record Options : Type 0 where
  pub port : ℤ
  pub forward_port : ℤ
  pub settings : Settings
  pub seed : ℤ

abbrev pub shrt_max : ℕ
shrt_max = 32767

abbrev pub int_max : ℕ
int_max = 2147483647

-- `a % b` on an `int`: the sign is that of `a`.
unfoldable pub rem : ℤ → ℕ → ℤ
rem (pos a) b = pos (a % b)
rem (negsuc a) b = if suc a % b == 0 then pos 0 else negsuc (suc a % b - 1)

-- An `int` stored in an `unsigned int`.
unfoldable pub unsigned : ℤ → ℕ
unsigned (pos a) = a % 2 ^ 32
unsigned (negsuc a) = 2 ^ 32 - 1 - a % 2 ^ 32

-- What `getopt` answers: an option with the number that `atoi` makes of its argument, or `-h` or an
-- option that is not known.
pub data Opt : Type 0 where
  opt_p opt_P opt_d opt_j opt_e opt_c opt_l opt_s : ℤ → Opt
  opt_h : Opt

-- The defaults.
unfoldable pub defaults : Options
defaults = record {
  port = pos 2141;
  forward_port = pos 12345;
  settings = record { delay = 0; jitter = 0; err_rate = 0; cut_rate = 0; loss_rate = 0 };
  seed = negsuc 0;
}

-- One turn of the loop over the options; with none, the program ends.
unfoldable pub set_option : Options → Opt → Option Options
set_option o (opt_p n) = some (record o { port = rem n shrt_max })
set_option o (opt_P n) = some (record o { forward_port = rem n shrt_max })
set_option o (opt_d n) =
    some (record o { settings = record o.settings { delay = unsigned (rem n int_max) } })
set_option o (opt_j n) =
    some (record o { settings = record o.settings { jitter = unsigned (rem n int_max) } })
set_option o (opt_e n) =
    some (record o { settings = record o.settings { err_rate = unsigned (rem n 101) } })
set_option o (opt_c n) =
    some (record o { settings = record o.settings { cut_rate = unsigned (rem n 101) } })
set_option o (opt_l n) =
    some (record o { settings = record o.settings { loss_rate = unsigned (rem n 101) } })
set_option o (opt_s n) = some (record o { seed = rem n int_max })
set_option o opt_h = none

unfoldable pub set_options : Options → List Opt → Option Options
set_options o [] = some o
set_options o (opt ∷ opts) = elim (set_option o opt) [ none ↦ none | some o' ↦ set_options o' opts ]

-- A known option, whose number is not negative.
abbrev pub IsNatural : Opt → Type 0
IsNatural (opt_p n) = pos 0 ≤ℤ n
IsNatural (opt_P n) = pos 0 ≤ℤ n
IsNatural (opt_d n) = pos 0 ≤ℤ n
IsNatural (opt_j n) = pos 0 ≤ℤ n
IsNatural (opt_e n) = pos 0 ≤ℤ n
IsNatural (opt_c n) = pos 0 ≤ℤ n
IsNatural (opt_l n) = pos 0 ≤ℤ n
IsNatural (opt_s n) = pos 0 ≤ℤ n
IsNatural opt_h = ⊥

-- The ranges of the settings.
pub record IsInRange (o : Options) : Type 0 where
  pub ports : (o.port ≤ℤ pos 32766) × (o.forward_port ≤ℤ pos 32766)
  pub times : (o.settings.delay < int_max) × (o.settings.jitter < int_max)
  pub rates :
      (o.settings.err_rate ≤ 100) × (o.settings.cut_rate ≤ 100) × (o.settings.loss_rate ≤ 100)

unsigned_rate : (n : ℤ) → pos 0 ≤ℤ n → unsigned (rem n 101) ≤ 100
unfolding unsigned rem
unsigned_rate (pos a) h = omega arith
unsigned_rate (negsuc a) h = absurd (omega arith)

unsigned_time : (n : ℤ) → pos 0 ≤ℤ n → unsigned (rem n int_max) < int_max
unfolding unsigned rem
unsigned_time (pos a) h = omega arith
unsigned_time (negsuc a) h = absurd (omega arith)

rem_port : (n : ℤ) → pos 0 ≤ℤ n → rem n shrt_max ≤ℤ pos 32766
unfolding rem
rem_port (pos a) h = omega arith
rem_port (negsuc a) h = absurd (omega arith)

set_option-IsInRange :
    (o : Options) (opt : Opt)
    → IsInRange o
    → IsNatural opt
    → (o' : Options) × (set_option o opt ≡ some o') × IsInRange o'
unfolding set_option
set_option-IsInRange o (opt_p n) i h =
    (_, refl, record { ports = (rem_port n h, i.ports.1); times = i.times; rates = i.rates })
set_option-IsInRange o (opt_P n) i h =
    (_, refl, record { ports = (i.ports.0, rem_port n h); times = i.times; rates = i.rates })
set_option-IsInRange o (opt_d n) i h =
    (_, refl, record { ports = i.ports; times = (unsigned_time n h, i.times.1); rates = i.rates })
set_option-IsInRange o (opt_j n) i h =
    (_, refl, record { ports = i.ports; times = (i.times.0, unsigned_time n h); rates = i.rates })
set_option-IsInRange o (opt_e n) i h =
    let (e, c, l) = i.rates in
    (_, refl, record { ports = i.ports; times = i.times; rates = (unsigned_rate n h, c, l) })
set_option-IsInRange o (opt_c n) i h =
    let (e, c, l) = i.rates in
    (_, refl, record { ports = i.ports; times = i.times; rates = (e, unsigned_rate n h, l) })
set_option-IsInRange o (opt_l n) i h =
    let (e, c, l) = i.rates in
    (_, refl, record { ports = i.ports; times = i.times; rates = (e, c, unsigned_rate n h) })
set_option-IsInRange o (opt_s n) i h =
    (_, refl, record { ports = i.ports; times = i.times; rates = i.rates })
set_option-IsInRange o opt_h i h = elim h [ ]

-- After any known options, none of them negative, the program goes on with a port below 32767, times
-- below INT_MAX and rates up to 100.
pub set_options-IsInRange :
    (o : Options) (opts : List Opt)
    → IsInRange o
    → All IsNatural opts
    → (o' : Options) × (set_options o opts ≡ some o') × IsInRange o'
unfolding set_options
set_options-IsInRange o [] i h = (o, refl, i)
set_options-IsInRange o (opt ∷ opts) i (h, hs) =
    let (o', run, i') = set_option-IsInRange o opt i h in
    let (o'', runs, i'') = set_options-IsInRange o' opts i' hs in
    (o'', rw (set_options, run) runs, i'')

pub defaults-IsInRange : IsInRange defaults
unfolding defaults
defaults-IsInRange = record {
  ports = (omega arith, omega arith);
  times = (omega arith, omega arith);
  rates = (omega arith, omega arith, omega arith);
}

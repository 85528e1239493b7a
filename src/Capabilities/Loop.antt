-- ===== src/Capabilities/Loop.antt =====
-- The loop of ResolveCapabilities (core/domain/capability.go) ends, and where it does.
use mathlib.Core.List.{append-nil}
use mathlib.Core.Path.{subst}
use sercha_core.Base.{
  ℕ, zero, suc, ◌+◌, ◌≤◌, ◌<◌, Bool, true, false, ◌&&◌, ◌≡◌, refl, sym, ap, inl, inr, List, [], ◌∷◌,
  ◌++◌, All, length, Bool-cases, arith,
}
use sercha_core.Capabilities.{Capability, blocked, disabled_if, sweep, cascade}

pub append_step :
    (done : List Capability) (c : Capability) (rest : List Capability)
    → (done ++ (c ∷ [])) ++ rest ≡ done ++ (c ∷ rest)
append_step [] c rest = refl
append_step (d ∷ done) c rest = ap (◌∷◌ d) (append_step done c rest)

abbrev flag : Bool → ℕ
flag true = 1
flag false = 0

-- How many are enabled.
abbrev pub enabled_count : List Capability → ℕ
enabled_count [] = 0
enabled_count (c ∷ caps) = flag c.enabled + enabled_count caps

enabled_count-append :
    (xs ys : List Capability) → enabled_count (xs ++ ys) ≡ enabled_count xs + enabled_count ys
enabled_count-append [] ys = ground arith
enabled_count-append (x ∷ xs) ys = ground (arith, enabled_count-append xs ys)

flag_le : (b : Bool) → flag b ≤ 1
flag_le true = ground arith
flag_le false = ground arith

flag_on : (b : Bool) → b ≡ true → flag b ≡ 1
flag_on true h = refl
flag_on false h = ground arith

-- A run that changes something disables at least one.
sweep-count :
    (done rest : List Capability)
    → enabled_count (sweep done rest).0 + flag (sweep done rest).1
      ≤ enabled_count done + enabled_count rest
unfolding sweep
sweep-count done [] = ground arith
sweep-count done (c ∷ rest) =
    elim (Bool-cases (c.enabled && blocked (done ++ (c ∷ rest)) c.depends_on)) [
      | inl stop ↦
          let off = disabled_if true c in
          rw stop (
            omega (
              arith,
              sweep-count (done ++ (off ∷ [])) rest,
              enabled_count-append done (off ∷ []),
              flag_le (sweep (done ++ (off ∷ [])) rest).1,
              flag_on c.enabled (ground arith),
            ))
      | inr go ↦
          rw go
            (omega (arith, sweep-count (done ++ (c ∷ [])) rest, enabled_count-append done (c ∷ [])))
    ]

-- No capability that is enabled has a dependency that is registered and not active.
abbrev pub IsSettled : List Capability → Capability → Type 0
IsSettled caps c = (c.enabled && blocked caps c.depends_on) ≡ false

sweep-IsSettled :
    (done rest : List Capability)
    → (sweep done rest).1 ≡ false
    → ((sweep done rest).0 ≡ done ++ rest) × All (IsSettled (done ++ rest)) rest
unfolding sweep
sweep-IsSettled done [] h = (sym (append-nil done), tt)
sweep-IsSettled done (c ∷ rest) h =
    elim (Bool-cases (c.enabled && blocked (done ++ (c ∷ rest)) c.depends_on)) [
      | inl stop ↦ absurd (ground arith)
      | inr go ↦
          let ih = sweep-IsSettled (done ++ (c ∷ [])) rest (rw go at h) in
          let whole : ((sweep (done ++ (c ∷ [])) rest).0 ≡ done ++ (c ∷ rest))
              × All (IsSettled (done ++ (c ∷ rest))) rest =
            subst
              (λ (xs : List Capability).
                ((sweep (done ++ (c ∷ [])) rest).0 ≡ xs) × All (IsSettled xs) rest)
              (append_step done c rest) ih in
          rw go (whole.0, (refl, whole.1))
    ]

pub cascade-IsSettled :
    (fuel : ℕ) (caps : List Capability)
    → enabled_count caps < fuel
    → All (IsSettled (cascade fuel caps)) (cascade fuel caps)
unfolding cascade
cascade-IsSettled zero caps h = absurd (ground arith)
cascade-IsSettled (suc fuel) caps h = elim (Bool-cases (sweep [] caps).1) [
  | inl changed ↦ rw changed (
      cascade-IsSettled fuel (sweep [] caps).0
        (omega (arith, sweep-count [] caps, flag_on (sweep [] caps).1 changed)))
  | inr settled ↦
      let (same, all) = sweep-IsSettled [] caps settled in
      rw settled (subst (λ (xs : List Capability). All (IsSettled xs) xs) (sym same) all)
]

pub enabled_count_le : (caps : List Capability) → enabled_count caps ≤ length caps
enabled_count_le [] = ground arith
enabled_count_le (c ∷ caps) = omega (arith, enabled_count_le caps, flag_le c.enabled)

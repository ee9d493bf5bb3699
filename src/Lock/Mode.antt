-- ===== src/Lock/Mode.antt =====
-- crabstash-lock/src/lock_mode.rs: the lock modes, their compatibility and the upgrades.
use crabstash.Base.{◌≡◌, ◌≢◌, ◌⊎◌, Bool, true, false, ◌↔◌, Eq, arith}

pub data LockMode : Type 0 where
  s x is ix six : LockMode

unfoldable pub mode_beq : LockMode → LockMode → Bool
mode_beq s s = true
mode_beq x x = true
mode_beq is is = true
mode_beq ix ix = true
mode_beq six six = true
mode_beq _ _ = false

pub mode_beq_iff : (a b : LockMode) → (mode_beq a b ≡ true) ↔ (a ≡ b)
unfolding mode_beq
mode_beq_iff a b = ground arith

instance abbrev pub mode_eq : Eq LockMode
mode_eq = record { beq = mode_beq; beq_iff = mode_beq_iff }

unfoldable pub is_compatible : LockMode → LockMode → Bool
is_compatible is is = true
is_compatible is ix = true
is_compatible is s = true
is_compatible is six = true
is_compatible ix is = true
is_compatible ix ix = true
is_compatible s is = true
is_compatible s s = true
is_compatible six is = true
is_compatible _ _ = false

unfoldable pub is_shared : LockMode → Bool
is_shared s = true
is_shared is = true
is_shared _ = false

unfoldable pub is_exclusive : LockMode → Bool
is_exclusive x = true
is_exclusive ix = true
is_exclusive six = true
is_exclusive _ = false

unfoldable pub can_upgrade_to : LockMode → LockMode → Bool
can_upgrade_to s x = true
can_upgrade_to s six = true
can_upgrade_to is ix = true
can_upgrade_to is s = true
can_upgrade_to is x = true
can_upgrade_to is six = true
can_upgrade_to ix x = true
can_upgrade_to ix six = true
can_upgrade_to _ _ = false

pub is_compatible_comm : (a b : LockMode) → is_compatible a b ≡ is_compatible b a
unfolding is_compatible
is_compatible_comm a b = ground arith

pub not-is_compatible-x : (a : LockMode) → is_compatible x a ≡ false
unfolding is_compatible
not-is_compatible-x a = ground arith

-- The mode `b` excludes whatever `a` excludes, and is another mode.
pub record Excludes (a b : LockMode) : Type 0 where
  pub strict : a ≢ b
  pub covers : (c : LockMode) → is_compatible b c ≡ true → is_compatible a c ≡ true

-- An upgrade leads to another mode that excludes all that the old one excludes, and there is no
-- upgrade back.
pub can_upgrade_to-strengthens :
    (a b : LockMode) → can_upgrade_to a b ≡ true → Excludes a b × (can_upgrade_to b a ≡ false)
unfolding can_upgrade_to is_compatible
can_upgrade_to-strengthens a b h =
    (record { strict = ground arith; covers = λ c k. ground arith }, ground arith)

-- Whenever one mode excludes all that another one excludes, the upgrade is accepted, except for the
-- one from SIX to X, which is refused.
pub can_upgrade_to_complete :
    (a b : LockMode)
    → Excludes a b
    → (can_upgrade_to a b ≡ true) ⊎ ((a ≡ six) × (b ≡ x) × (can_upgrade_to a b ≡ false))
unfolding can_upgrade_to is_compatible
can_upgrade_to_complete a b e =
    ground (arith, e.strict, e.covers s, e.covers x, e.covers is, e.covers ix, e.covers six)

-- The mode `a` excludes whatever the mode `b` excludes.
abbrev pub Covers : LockMode → LockMode → Type 0
Covers a b = (c : LockMode) → is_compatible a c ≡ true → is_compatible b c ≡ true

-- SIX does not cover X, and neither of S and IX covers the other; none of these has an upgrade.
abbrev pub IsWeaker : LockMode → LockMode → Type 0
IsWeaker a b = ((a ≡ six) × (b ≡ x)) ⊎ (((a ≡ s) × (b ≡ ix)) ⊎ ((a ≡ ix) × (b ≡ s)))

Covers-modes :
    (a b : LockMode)
    → Covers a b
    → (is_compatible a is ≡ true → is_compatible b is ≡ true)
      × (is_compatible a s ≡ true → is_compatible b s ≡ true)
      × (is_compatible a ix ≡ true → is_compatible b ix ≡ true)
Covers-modes a b h = (h is, h s, h ix)

pub not-can_upgrade_to-Covers_iff :
    (a b : LockMode) → can_upgrade_to a b ≡ false → Covers a b ↔ (¬ IsWeaker a b)
unfolding can_upgrade_to is_compatible
not-can_upgrade_to-Covers_iff a b stuck = (
  λ h w. let (h₁, h₂, h₃) = Covers-modes a b h in ground (arith, h₁, h₂, h₃),
  λ n c k. ground arith,
)

pub not-can_upgrade_to_self : (a : LockMode) → can_upgrade_to a a ≡ false
unfolding can_upgrade_to
not-can_upgrade_to_self a = ground arith

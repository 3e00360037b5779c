-- ===== src/Base/Text/Strip.antt =====
-- What `strip` leaves: no space at the front, and nothing for a second `strip` to remove.
use Prim.Native.Nat.{ℕ}
use mathlib.Core.Path.{◌≡◌, refl}
use mathlib.Core.Bool.{false}
use mathlib.Core.List.{[], ◌∷◌}
use mathlib.Core.Logic.{inl, inr}
use native.Mathlib.Omega.{arith}
use ai_chat_bot_v.Base.Lists.{All}
use ai_chat_bot_v.Base.Tests.{Bool-cases}
use ai_chat_bot_v.Base.Text.{Text, is_space, lstrip, rstrip, strip}

-- The text is empty or begins with a character that is no space.
abbrev pub StartsSolid : Text → Type 0
StartsSolid [] = Unit
StartsSolid (c ∷ t) = is_space c ≡ false

lstrip-StartsSolid : (t : Text) → StartsSolid (lstrip t)
unfolding lstrip
lstrip-StartsSolid [] = tt
lstrip-StartsSolid (c ∷ t) = elim (Bool-cases (is_space c)) [
  | inl space ↦ rw space (lstrip-StartsSolid t)
  | inr solid ↦ rw solid solid
]

lstrip_solid : (t : Text) → StartsSolid t → lstrip t ≡ t
unfolding lstrip
lstrip_solid [] h = refl
lstrip_solid (c ∷ t) h = rw h

rstrip_idem : (t : Text) → rstrip (rstrip t) ≡ rstrip t
unfolding rstrip
rstrip_idem [] = refl
rstrip_idem (c ∷ t) = ground (arith, rstrip_idem t)

rstrip-StartsSolid : (t : Text) → StartsSolid t → StartsSolid (rstrip t)
unfolding rstrip
rstrip-StartsSolid [] h = tt
rstrip-StartsSolid (c ∷ t) h = ground arith

pub strip-StartsSolid : (t : Text) → StartsSolid (strip t)
unfolding strip
strip-StartsSolid t = rstrip-StartsSolid (lstrip t) (lstrip-StartsSolid t)

pub strip_idem : (t : Text) → strip (strip t) ≡ strip t
unfolding strip
strip_idem t = rw (lstrip_solid (rstrip (lstrip t)) (strip-StartsSolid t)) (rstrip_idem (lstrip t))

module _ (P : ℕ → Type 0) where
  All-lstrip : (t : Text) → All P t → All P (lstrip t)
  unfolding lstrip
  All-lstrip [] h = tt
  All-lstrip (c ∷ t) h = ground (arith, All-lstrip t h.1)

  All-rstrip : (t : Text) → All P t → All P (rstrip t)
  unfolding rstrip
  All-rstrip [] h = tt
  All-rstrip (c ∷ t) h = ground (arith, All-rstrip t h.1)

  -- What holds of every character holds of those that are left.
  pub All-strip : (t : Text) → All P t → All P (strip t)
  unfolding strip
  All-strip t h = All-rstrip (lstrip t) (All-lstrip t h)

-- ===== src/Base/Text/Decimal.antt =====
-- `str(n)` of a natural number, as f-strings print counts.
use mathlib.Core.List.{[], ◌∷◌}
use mathlib.Core.Path.{◌≡◌, refl}
use Prim.Native.Nat.{ℕ, zero, suc, ◌+◌, ◌-◌, ◌*◌, ◌/◌, ◌%◌, ◌<◌}
use native.Mathlib.Omega.{arith}
use ai_chat_bot_v.Base.Tests.{◌==◌, if◌then◌else◌}
use ai_chat_bot_v.Base.Text.{Text}

-- Digits are put in front of those found so far; the fuel bounds their number.
digits_before : ℕ → ℕ → Text → Text
digits_before zero n acc = acc
digits_before (suc fuel) n acc =
    let more = digits_before fuel (n / 10) ((48 + n % 10) ∷ acc) in
    if n / 10 == 0 then (48 + n % 10) ∷ acc else more

unfoldable pub decimal : ℕ → Text
unfolding digits_before
decimal n = digits_before (suc n) n []

-- The number that a row of digits continues.
unfoldable pub read_from : ℕ → Text → ℕ
read_from n [] = n
read_from n (c ∷ t) = read_from (n * 10 + (c - 48)) t

read_digits_before :
    (fuel n : ℕ) (acc : Text) → n < fuel → read_from 0 (digits_before fuel n acc) ≡ read_from n acc
unfolding digits_before read_from
read_digits_before zero n acc h = elim h [ ]
read_digits_before (suc fuel) n acc h =
    ground (arith, read_digits_before fuel (n / 10) ((48 + n % 10) ∷ acc))

-- Reading back what is printed gives the number, so the fuel is enough.
pub read_from-decimal : (n : ℕ) → read_from 0 (decimal n) ≡ n
unfolding decimal read_from
read_from-decimal n = rw (read_digits_before (suc n) n [] (omega arith)) refl

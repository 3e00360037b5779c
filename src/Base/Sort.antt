-- ===== src/Base/Sort.antt =====
-- `sorted(xs, key=key, reverse=True)`: a stable sort, the greatest key first.
use mathlib.Core.Path.{◌≡◌}
use mathlib.Core.Bool.{Bool, true, false}
use mathlib.Core.List.{List, [], ◌∷◌, Perm}
use mathlib.Core.List.Perm
use mathlib.Core.Logic.{inl, inr}
use ai_chat_bot_v.Base.Lists.{All}
use ai_chat_bot_v.Base.Tests.{if◌then◌else◌, Bool-cases}

-- A test that a key is less than another, of keys that can be ranked.
pub record Ranking {S : Type 0} (below : S → S → Bool) : Type 0 where
  pub asym : (a b : S) → below a b ≡ true → below b a ≡ false
  pub at_least_trans : (a b c : S) → below a b ≡ false → below b c ≡ false → below a c ≡ false

module _ {A S : Type 0} (below : S → S → Bool) (key : A → S) where
  -- Before the elements that are not greater.
  unfoldable pub place : A → List A → List A
  place x [] = x ∷ []
  place x (y ∷ ys) = let rest = place x ys in if below (key x) (key y) then y ∷ rest else x ∷ y ∷ ys

  unfoldable pub sort_desc : List A → List A
  unfolding place
  sort_desc [] = []
  sort_desc (x ∷ xs) = place x (sort_desc xs)

  abbrev pub AtLeast : A → A → Type 0
  AtLeast x y = below (key x) (key y) ≡ false

  -- No element is less than one that follows it.
  abbrev pub Descending : List A → Type 0
  Descending [] = Unit
  Descending (x ∷ xs) = All (AtLeast x) xs × Descending xs

  place-perm : (x : A) (xs : List A) → Perm (place x xs) (x ∷ xs)
  unfolding place
  place-perm x [] = Perm.rfl
  place-perm x (y ∷ ys) = elim (Bool-cases (below (key x) (key y))) [
    | inl less ↦ rw less (Perm.trans (Perm.cons y (place-perm x ys)) (Perm.swap x y ys))
    | inr at_least ↦ rw at_least Perm.rfl
  ]

  -- The elements stay the same.
  pub sort_desc-perm : (xs : List A) → Perm (sort_desc xs) xs
  unfolding sort_desc
  sort_desc-perm [] = Perm.rfl
  sort_desc-perm (x ∷ xs) =
      Perm.trans (place-perm x (sort_desc xs)) (Perm.cons x (sort_desc-perm xs))

  pub All-place : (P : A → Type 0) (x : A) (xs : List A) → P x → All P xs → All P (place x xs)
  unfolding place
  All-place P x [] p h = (p, tt)
  All-place P x (y ∷ ys) p h = elim (Bool-cases (below (key x) (key y))) [
    | inl less ↦ rw less (h.0, All-place P x ys p h.1)
    | inr at_least ↦ rw at_least (p, h)
  ]

  pub All-sort_desc : (P : A → Type 0) (xs : List A) → All P xs → All P (sort_desc xs)
  unfolding sort_desc
  All-sort_desc P [] h = tt
  All-sort_desc P (x ∷ xs) h = All-place P x (sort_desc xs) h.0 (All-sort_desc P xs h.1)

  module _ (r : Ranking below) where
    All-AtLeast : (x y : A) (ys : List A) → AtLeast x y → All (AtLeast y) ys → All (AtLeast x) ys
    All-AtLeast x y [] e h = tt
    All-AtLeast x y (z ∷ zs) e h =
        (r.at_least_trans (key x) (key y) (key z) e h.0, All-AtLeast x y zs e h.1)

    place-Descending : (x : A) (xs : List A) → Descending xs → Descending (place x xs)
    unfolding place
    place-Descending x [] h = (tt, tt)
    place-Descending x (y ∷ ys) h = elim (Bool-cases (below (key x) (key y))) [
      | inl less ↦
          rw less (
            All-place (AtLeast y) x ys (r.asym (key x) (key y) less) h.0,
            place-Descending x ys h.1,
          )
      | inr at_least ↦ rw at_least ((at_least, All-AtLeast x y ys at_least h.0), h)
    ]

    -- A sorted list descends.
    pub sort_desc-Descending : (xs : List A) → Descending (sort_desc xs)
    unfolding sort_desc
    sort_desc-Descending [] = tt
    sort_desc-Descending (x ∷ xs) = place-Descending x (sort_desc xs) (sort_desc-Descending xs)

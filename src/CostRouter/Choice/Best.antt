-- ===== src/CostRouter/Choice/Best.antt =====
-- What the choices of cost_router.py pick: a model of the list, of the highest quality.
use mathlib.Core.Path.{subst}
use ai_chat_bot_v.Base.{
  ℕ, ◌≤◌, ◌≡◌, Bool, true, Option, none, some, List, [], ◌∷◌, filter, All, ltb, if◌then◌else◌,
  arith, Bool-cases, inl, inr, All-filter, All-append, String,
}
use ai_chat_bot_v.CostRouter.Catalog.{
  ModelTier, ModelConfig, best_from, best_quality, select_by_complexity, of_tier,
  get_available_models, is_available, model_catalog, Keys, prefer, cheap, standard, premium, local,
  target_tier, or_else, first, tier_eq,
}

abbrev pub NoBetter : ModelConfig → ModelConfig → Type 0
NoBetter best m = m.quality_score ≤ best.quality_score

pick_max :
    (a b : ModelConfig)
    → (a.quality_score ≤ (if ltb a.quality_score b.quality_score then b else a).quality_score)
      × (b.quality_score ≤ (if ltb a.quality_score b.quality_score then b else a).quality_score)
pick_max a b = ground arith

best_from_max :
    (best : ModelConfig) (ms : List ModelConfig)
    → (best.quality_score ≤ (best_from best ms).quality_score)
      × All (NoBetter (best_from best ms)) ms
unfolding best_from
best_from_max best [] = (omega arith, tt)
best_from_max best (m ∷ ms) =
    let (above, all) =
      best_from_max (if ltb best.quality_score m.quality_score then m else best) ms in
    let (old, new) = pick_max best m in
    (omega (arith, above, old), (omega (arith, above, new), all))

-- The best model is the first of some list that is not empty, and none of it is better.
pub best_quality_max :
    (ms : List ModelConfig) (best : ModelConfig)
    → best_quality ms ≡ some best
    → All (NoBetter best) ms
unfolding best_quality
best_quality_max [] best e = tt
best_quality_max (m ∷ ms) best e =
    let same : best_from m ms ≡ best = cc in
    let (above, all) = best_from_max m ms in
    subst (λ b. All (NoBetter b) (m ∷ ms)) same (above, all)

module _ (P : ModelConfig → Type 0) where
  best_from-All :
      (best : ModelConfig) (ms : List ModelConfig) → P best → All P ms → P (best_from best ms)
  unfolding best_from
  best_from-All best [] h hs = h
  best_from-All best (m ∷ ms) h hs = elim (Bool-cases (ltb best.quality_score m.quality_score)) [
    | inl better ↦ rw better (best_from-All m ms hs.0 hs.1)
    | inr not_better ↦ rw not_better (best_from-All best ms h hs.1)
  ]

  -- What holds of every model of a list holds of the one that is picked.
  abbrev pub Holds : Option ModelConfig → Type 0
  Holds none = Unit
  Holds (some m) = P m

  pub best_quality-Holds : (ms : List ModelConfig) → All P ms → Holds (best_quality ms)
  unfolding best_quality
  best_quality-Holds [] h = tt
  best_quality-Holds (m ∷ ms) h = best_from-All m ms h.0 h.1

  or_else-Holds : (a b : Option ModelConfig) → Holds a → Holds b → Holds (or_else a b)
  or_else-Holds none b ha hb = hb
  or_else-Holds (some m) b ha hb = ha

  first-Holds : (ms : List ModelConfig) → All P ms → Holds (first ms)
  first-Holds [] h = tt
  first-Holds (m ∷ ms) h = h.0

  pub select_by_complexity-Holds :
      (c : ℕ) (ms : List ModelConfig) → All P ms → Holds (select_by_complexity c ms)
  unfolding select_by_complexity
  select_by_complexity-Holds c ms h =
      let tier = λ (t : ModelTier).
        best_quality-Holds (of_tier t ms) (All-filter P (λ m. tier_eq m.tier t) ms h) in
      or_else-Holds _ _ (tier (target_tier c)) (
        or_else-Holds _ _ (tier standard) (
          or_else-Holds _ _ (tier cheap)
            (or_else-Holds _ _ (tier premium) (or_else-Holds _ _ (tier local) (first-Holds ms h)))))

  prefer-All : (p : Option String) (ms : List ModelConfig) → All P ms → All P (prefer p ms)
  prefer-All none ms h = h
  prefer-All (some p) ms h = All-append P _ _ (All-filter P _ ms h) (All-filter P _ ms h)

-- Each of a filtered list passes the filter.
pub filter-All :
    (p : ModelConfig → Bool) (ms : List ModelConfig) → All (λ m. p m ≡ true) (filter p ms)
filter-All p [] = tt
filter-All p (m ∷ ms) = elim (Bool-cases (p m)) [
  | inl passes ↦ rw passes (passes, filter-All p ms)
  | inr fails ↦ rw fails (filter-All p ms)
]

pub available-All :
    (keys : Keys) (vision functions : Bool) (preferred : Option String)
    → All
        (λ m. is_available keys vision functions m ≡ true)
        (get_available_models keys vision functions preferred)
unfolding get_available_models
available-All keys vision functions preferred =
    prefer-All (λ m. is_available keys vision functions m ≡ true) preferred _
      (filter-All (is_available keys vision functions) model_catalog)

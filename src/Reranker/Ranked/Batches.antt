-- ===== src/Reranker/Ranked/Batches.antt =====
-- The batches of the scores: how they are cut does not matter to a model that scores each pair alone.
use ai_chat_bot_v.Base.{
  ℕ, zero, suc, ◌≤◌, ◌<◌, ◌≡◌, refl, some, List, [], ◌∷◌, ◌++◌, map, String, length, length-drop,
  take, drop, arith,
}
use ai_chat_bot_v.Reranker.{Encoder}
use ai_chat_bot_v.Reranker.Ranked.{score_batches}

map-take-drop :
    {A B : Type 0} (f : A → B) (n : ℕ) (xs : List A)
    → map f (take n xs) ++ map f (drop n xs) ≡ map f xs
map-take-drop f zero xs = refl
map-take-drop f (suc n) [] = refl
map-take-drop f (suc n) (x ∷ xs) = rw (map-take-drop f n xs)

-- The fuel is enough, and every pair gets its own score.
pub score_batches-map :
    (encoder : Encoder) (m : encoder.Model) (score : String × String → encoder.Score)
    → ((ps : List (String × String)) → encoder.predict m ps ≡ some (map score ps))
    → (fuel batch_size : ℕ) (ps : List (String × String)) → 0 < batch_size
    → length ps ≤ fuel
    → score_batches encoder fuel batch_size m ps ≡ some (map score ps)
unfolding score_batches
score_batches-map encoder m score h zero b [] pos le = refl
score_batches-map encoder m score h zero b (p ∷ ps) pos le = absurd (omega (arith, le))
score_batches-map encoder m score h (suc fuel) b [] pos le = refl
score_batches-map encoder m score h (suc fuel) b (p ∷ ps) pos le = rw (
  h (take b (p ∷ ps)),
  score_batches-map encoder m score h fuel b (drop b (p ∷ ps)) pos
      (omega (arith, pos, le, length-drop b (p ∷ ps))),
  map-take-drop score b (p ∷ ps),
)

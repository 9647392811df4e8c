-- ===== src/Cortex/Tests.antt =====
-- A window of two frames of one feature, and the theorem about it.
use tesser.Prelude.{ℕ, ◌≡◌, refl, Option, some, List, [], ◌∷◌, ◌++◌, arith, concat, drop, replicate}
use tesser.Prelude.Result.{ok}
use tesser.Cortex.Buffer.{FeatureBuffer, new, as_tensor_view}
use tesser.Cortex.Buffer.Window.{push_all, push_all_window}

-- a view that keeps what it is given
abbrev keep : List ℕ → List ℕ → Option (List ℕ × List ℕ)
keep shape values = some (shape, values)

abbrev frames : List (List ℕ)
frames = (7 ∷ []) ∷ (8 ∷ []) ∷ (9 ∷ []) ∷ []

push_all_window_example :
    (b : FeatureBuffer ℕ) × (b' : FeatureBuffer ℕ) × (new 0 2 1 ≡ some b)
    × (push_all frames b ≡ ok b')
    × (b'.raw_data ≡ concat (drop 3 (replicate 2 (replicate 1 0) ++ frames)))
    × (as_tensor_view keep b' ≡ some (1 ∷ 2 ∷ 1 ∷ [], 8 ∷ 9 ∷ []))
push_all_window_example =
    push_all_window keep 0 2 1 frames (omega arith) (omega arith) (refl, (refl, (refl, tt)))

-- ===== src/Cortex/Buffer.antt =====
-- tesser-cortex/src/buffer.rs. `F` is `f32`, of which the code uses only the zero; a vector of them is a
-- list, whose length is that of the Rust vector.
pub mod Window
use tesser.Prelude.{
  ℕ, ◌+◌, ◌-◌, ◌*◌, Bool, not, ◌||◌, Option, none, some, List, [], ◌∷◌, ◌++◌, if◌then◌else◌, ltb,
  leb, ◌==◌, length, take, drop, replicate,
}
use tesser.Prelude.Result.{Result, ok, err}

pub record FeatureBuffer (F : Type 0) : Type 0 where
  pub raw_data : List F
  pub window_size : ℕ
  pub feature_dim : ℕ
  pub current_len : ℕ

-- the error of `push`: the dimension that is expected, and the one that is found
pub data DimensionError : Type 0 where
  dimension_mismatch : ℕ → ℕ → DimensionError

-- `Ord::min` of `usize`
abbrev pub min_usize : ℕ → ℕ → ℕ
min_usize a b = if ltb b a then b else a

module _ {F : Type 0} where
  -- A buffer, or none where an `assert!` of the code fails.
  unfoldable pub new : F → ℕ → ℕ → Option (FeatureBuffer F)
  new zero_feature window dim =
      if (window == 0) || (dim == 0)
      then none
      else some (record {
        raw_data = replicate (window * dim) zero_feature;
        window_size = window;
        feature_dim = dim;
        current_len = 0;
      })

  -- `copy_within(start.., 0)`: what is behind the copy stays
  abbrev pub copy_within : ℕ → List F → List F
  copy_within start xs = drop start xs ++ drop (length xs - start) xs

  -- `copy_from_slice` into the end of the vector
  abbrev pub write_tail : List F → List F → List F
  write_tail features xs = take (length xs - length features) xs ++ features

  unfoldable pub push : List F → FeatureBuffer F → Result DimensionError (FeatureBuffer F)
  push features b =
      let shifted = write_tail features (copy_within b.feature_dim b.raw_data) in
      if not (length features == b.feature_dim)
      then err (dimension_mismatch b.feature_dim (length features))
      else ok (record b {
        raw_data = if b.window_size == 1 then features else shifted;
        current_len = min_usize (b.current_len + 1) b.window_size;
      })

  unfoldable pub is_ready : FeatureBuffer F → Bool
  is_ready b = leb b.window_size b.current_len

  -- `from_shape` is `ArrayView::from_shape(…).ok()` of the crate ndarray.
  unfoldable pub as_tensor_view :
      {V : Type 0} → (List ℕ → List F → Option V) → FeatureBuffer F → Option V
  as_tensor_view from_shape b =
      if not (is_ready b)
      then none
      else from_shape (1 ∷ b.window_size ∷ b.feature_dim ∷ []) b.raw_data

-- ===== src/Cortex/Buffer/Window.antt =====
-- The buffer as the window of the latest frames.
use tesser.Prelude.{
  ℕ, zero, suc, ◌+◌, ◌-◌, ◌*◌, ◌≤◌, ◌≡◌, refl, sym, ap, ◌∙◌, Option, none, some, List, [], ◌∷◌,
  ◌++◌, arith, length, length-append, take, drop, replicate, concat, concat-append, drop-append,
  drop-past, length-replicate, take-append, length-drop, All, All-append, leb, ◌==◌, ==_iff,
  Bool-cases, inl, inr, if◌then◌else◌,
}
use mathlib.Core.List.{append-nil, append_assoc}
use tesser.Prelude.Result.{Result, ok, ◌>>=◌}
use tesser.Cortex.Buffer.{
  FeatureBuffer, DimensionError, new, push, is_ready, as_tensor_view, copy_within, write_tail,
  min_usize,
}

module _ {F : Type 0} where
  -- The window of frames that a buffer holds, the oldest first.
  pub record Holds (frames : List (List F)) (b : FeatureBuffer F) : Type 0 where
    pub contents : b.raw_data ≡ concat frames
    pub count : length frames ≡ b.window_size
    pub width : All (λ frame. length frame ≡ b.feature_dim) frames

  -- the frames pushed one after another, until one is refused
  abbrev pub push_all : List (List F) → FeatureBuffer F → Result DimensionError (FeatureBuffer F)
  push_all [] b = ok b
  push_all (f ∷ fs) b = push f b >>= push_all fs

  abbrev slide : List (List F) → List F → List (List F)
  slide frames f = drop 1 frames ++ (f ∷ [])

  length-concat :
      (n : ℕ) (frames : List (List F))
      → All (λ frame. length frame ≡ n) frames
      → length (concat frames) ≡ length frames * n
  length-concat n [] a = omega arith
  length-concat n (f ∷ frames) (h, a) =
      omega (arith, length-append f (concat frames), length-concat n frames a)

  shifted :
      (n : ℕ) (f g : List F) (frames : List (List F))
      → length f ≡ n
      → length g ≡ n
      → write_tail g (copy_within n (f ++ concat frames)) ≡ concat (frames ++ (g ∷ []))
  shifted n f g frames h k =
      let rest = concat frames in
      let whole = f ++ rest in
      let back = drop (length whole - n) whole in
      let front : drop n whole ≡ rest = drop-append n f rest h in
      let size : length (rest ++ back) - length g ≡ length rest = omega (
        arith,
        length-append rest back,
        length-drop (length whole - n) whole,
        length-append f rest,
      ) in
      let kept : take (length (rest ++ back) - length g) (rest ++ back) ≡ rest =
        take-append (length (rest ++ back) - length g) rest back (sym size) in
      let joined : concat (frames ++ (g ∷ [])) ≡ rest ++ g =
        concat-append frames (g ∷ []) ∙ ap (λ x. rest ++ x) (append-nil g) in
      ap (λ x. take (length (x ++ back) - length g) (x ++ back) ++ g) front
      ∙ ap (λ x. x ++ g) kept
      ∙ sym joined

  -- the sizes stay, and so many frames count
  abbrev Keeps : ℕ → FeatureBuffer F → FeatureBuffer F → Type 0
  Keeps n b b' =
      (b'.window_size ≡ b.window_size) × (b'.feature_dim ≡ b.feature_dim) × (b'.current_len ≡ n)

  only : (f : List F) (frames : List (List F)) → length frames ≡ 0 → f ≡ concat (frames ++ (f ∷ []))
  only f [] h = sym (append-nil f)
  only f (g ∷ frames) h = absurd (omega arith)

  push-Holds :
      (f : List F) (frames : List (List F)) (b : FeatureBuffer F)
      → Holds frames b
      → 1 ≤ b.window_size
      → length f ≡ b.feature_dim
      → (b' : FeatureBuffer F) × (push f b ≡ ok b')
        × Holds (slide frames f) b'
        × Keeps (min_usize (b.current_len + 1) b.window_size) b b'
  unfolding push
  push-Holds f [] b h w k = absurd (omega (arith, h.count))
  push-Holds f (g ∷ frames) b h w k =
      let b' = record b {
        raw_data =
            if b.window_size == 1 then f else write_tail f (copy_within b.feature_dim b.raw_data);
        current_len = min_usize (b.current_len + 1) b.window_size;
      } in
      let shift =
        ap (λ x. write_tail f (copy_within b.feature_dim x)) h.contents
        ∙ shifted b.feature_dim g f frames (h.width.0) k in
      (
        b',
        ground (arith, k),
        record {
          contents = elim (Bool-cases (b.window_size == 1)) [
            | inl e ↦ rw e (only f frames (omega (arith, h.count, (==_iff b.window_size 1).0 e)))
            | inr e ↦ rw e shift
          ];
          count = omega (arith, h.count, length-append frames (f ∷ []));
          width = All-append (λ x. length x ≡ b.feature_dim) frames (f ∷ []) (h.width.1) (k, tt);
        },
        (refl, refl, refl),
      )

  push_all-Holds :
      (fs frames : List (List F)) (b : FeatureBuffer F)
      → Holds frames b
      → 1 ≤ b.window_size
      → b.current_len ≤ b.window_size
      → All (λ f. length f ≡ b.feature_dim) fs
      → (b' : FeatureBuffer F) × (push_all fs b ≡ ok b')
        × Holds (drop (length fs) (frames ++ fs)) b'
        × Keeps (min_usize (b.current_len + length fs) b.window_size) b b'
  push_all-Holds [] frames b h w c a =
      (b, refl, rw (append-nil frames) h, (refl, refl, ground arith))
  push_all-Holds (f ∷ fs) [] b h w c a = absurd (omega (arith, h.count))
  push_all-Holds (f ∷ fs) (g ∷ frames) b h w c (k, a) =
      let (b₁, pushed, held, (window, dim, len)) = push-Holds f (g ∷ frames) b h w k in
      let (b', rest, held', (window', dim', len')) =
        push_all-Holds fs (frames ++ (f ∷ [])) b₁ held (rw window w) (ground (arith, window, len))
          (rw dim a) in
      (
        b',
        ap (λ r. r >>= push_all fs) pushed ∙ rest,
        rw (← append_assoc frames (f ∷ []) fs) held',
        (window' ∙ window, dim' ∙ dim, ground (arith, window, len, len')),
      )

  replicate-append :
      (x : F) (m n k : ℕ) → k ≡ m + n → replicate k x ≡ replicate m x ++ replicate n x
  replicate-append x zero n k h = ground arith
  replicate-append x (suc m) n zero h = absurd (omega arith)
  replicate-append x (suc m) n (suc k) h = ap (λ r. x ∷ r) (replicate-append x m n k (omega arith))

  replicate-concat : (x : F) (w n : ℕ) → replicate (w * n) x ≡ concat (replicate w (replicate n x))
  replicate-concat x zero n = ground arith
  replicate-concat x (suc w) n =
      replicate-append x n (w * n) (suc w * n) (omega arith)
      ∙ ap (λ r. replicate n x ++ r) (replicate-concat x w n)

  All-replicate : (n w : ℕ) (f : List F) → length f ≡ n → All (λ g. length g ≡ n) (replicate w f)
  All-replicate n zero f h = tt
  All-replicate n (suc w) f h = (h, All-replicate n w f h)

  -- A new buffer into which frames of its width are pushed holds the latest frames of its window, the
  -- oldest first, behind as many frames of zeros as are still missing. Its view has the shape of the
  -- window and those frames; there is none as long as fewer frames were pushed than the window has.
  pub push_all_window :
      {V : Type 0} (from_shape : List ℕ → List F → Option V) (x : F) (w n : ℕ) (fs : List (List F))
      → 1 ≤ w
      → 1 ≤ n
      → All (λ f. length f ≡ n) fs
      → (b : FeatureBuffer F) × (b' : FeatureBuffer F) × (new x w n ≡ some b)
        × (push_all fs b ≡ ok b')
        × (b'.raw_data ≡ concat (drop (length fs) (replicate w (replicate n x) ++ fs)))
        × (as_tensor_view from_shape b' ≡ (
            if leb w (length fs)
            then from_shape (1 ∷ w ∷ n ∷ []) (concat (drop (length fs - w) fs))
            else none))
  unfolding new is_ready as_tensor_view
  push_all_window from_shape x w n fs hw hn a =
      let zeros = replicate w (replicate n x) in
      let b : FeatureBuffer F = record {
        raw_data = replicate (w * n) x;
        window_size = w;
        feature_dim = n;
        current_len = 0;
      } in
      let held : Holds zeros b = record {
        contents = replicate-concat x w n;
        count = length-replicate w (replicate n x);
        width = All-replicate n w (replicate n x) (length-replicate n x);
      } in
      let (b', pushed, held', (window, dim, len)) =
        push_all-Holds fs zeros b held hw (omega arith) a in
      let contents = held'.contents in
      (
        b,
        b',
        ground arith,
        pushed,
        contents,
        elim (Bool-cases (leb w (length fs))) [
          | inl e ↦
              let latest : drop (length fs) (zeros ++ fs) ≡ drop (length fs - w) fs =
                drop-past zeros fs (length fs - w) (length fs)
                  (ground (arith, e, length-replicate w (replicate n x))) in
              ground (arith, e, window, dim, len, contents, latest)
          | inr e ↦ ground (arith, e, window, dim, len)
        ],
      )

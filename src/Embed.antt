-- ===== src/Embed.antt =====
-- internal/embed/similarity.go: the similarity of two embeddings. The rounding arithmetic of
-- `float64` is the interface `Arith`; comparisons are those of Float.
use cache_pot.Prelude.{
  ℕ, ◌+◌, ◌*◌, ◌^◌, true, not, ◌||◌, List, [], ◌∷◌, ◌≡◌, ◌==◌, if◌then◌else◌, length, refl,
}
use cache_pot.Float.{Float64, feq, is_nan}

-- A `float32`, as its bit pattern.
abbrev pub Float32 : Type 0
Float32 = ℕ

-- A vector of `float32`.
abbrev pub Embedding : Type 0
Embedding = List Float32

-- The processor's operations on `float64`, and the conversions from `float32` and `int`.
pub record Arith : Type 0 where
  pub widen : Float32 → Float64
  pub of_int : ℕ → Float64
  pub fadd : Float64 → Float64 → Float64
  pub fsub : Float64 → Float64 → Float64
  pub fmul : Float64 → Float64 → Float64
  pub fdiv : Float64 → Float64 → Float64
  pub sqrt : Float64 → Float64

-- math.NaN() and the constant 1
abbrev pub nan : Float64
nan = 2047 * 2 ^ 52 + 2 ^ 51 + 1

abbrev pub one : Float64
one = 1023 * 2 ^ 52

pub nan_lem : is_nan nan ≡ true
unfolding is_nan
nan_lem = refl

-- The loop of Cosine: the dot product and the squares of both norms.
unfoldable pub cosine_loop :
    Arith → Embedding → Embedding → Float64 → Float64 → Float64 → Float64 × Float64 × Float64
cosine_loop fp (x ∷ a) (y ∷ b) dot norm_a norm_b =
    let ai = fp.widen x in
    let bi = fp.widen y in
    cosine_loop fp a b (fp.fadd dot (fp.fmul ai bi)) (fp.fadd norm_a (fp.fmul ai ai))
      (fp.fadd norm_b (fp.fmul bi bi))
cosine_loop fp [] b dot norm_a norm_b = (dot, norm_a, norm_b)
cosine_loop fp (x ∷ a) [] dot norm_a norm_b = (dot, norm_a, norm_b)

-- Cosine
unfoldable pub cosine : Arith → Embedding → Embedding → Float64
unfolding cosine_loop
cosine fp a b =
    let (dot, norm_a, norm_b) = cosine_loop fp a b 0 0 0 in
    if not (length a == length b) || length a == 0
    then nan
    else if feq norm_a 0 || feq norm_b 0
    then nan
    else fp.fdiv dot (fp.fmul (fp.sqrt norm_a) (fp.sqrt norm_b))

unfoldable pub dot_loop : Arith → Embedding → Embedding → Float64 → Float64
dot_loop fp (x ∷ a) (y ∷ b) dot = dot_loop fp a b (fp.fadd dot (fp.fmul (fp.widen x) (fp.widen y)))
dot_loop fp [] b dot = dot
dot_loop fp (x ∷ a) [] dot = dot

-- Dot
unfoldable pub dot_product : Arith → Embedding → Embedding → Float64
unfolding dot_loop
dot_product fp a b = if not (length a == length b) || length a == 0 then nan else dot_loop fp a b 0

unfoldable pub euclidean_loop : Arith → Embedding → Embedding → Float64 → Float64
euclidean_loop fp (x ∷ a) (y ∷ b) sum =
    let d = fp.fsub (fp.widen x) (fp.widen y) in euclidean_loop fp a b (fp.fadd sum (fp.fmul d d))
euclidean_loop fp [] b sum = sum
euclidean_loop fp (x ∷ a) [] sum = sum

-- Euclidean
unfoldable pub euclidean_distance : Arith → Embedding → Embedding → Float64
unfolding euclidean_loop
euclidean_distance fp a b =
    if not (length a == length b) || length a == 0 then nan else fp.sqrt (euclidean_loop fp a b 0)

-- ===== src/Edge/RosObservation/Letterbox.antt =====
-- src/oven_runtime/edge/ros2_observation.py, `_convert_image`: where the resized image stands on
-- the square canvas. The scale is the exact fraction `image_size / max(width, height)`: the
-- rounding of the two float divisions is not modelled.
use Prim.Native.Nat.{◌/◌, ◌%◌}
use native.Mathlib.Nat.{
  mul_comm, mul-le-mul_right, div-add-mod, div-le_of_le-mul, mul-div_cancel_left,
}
use oven_multiskill_runtime.Common.{
  ℕ, ◌+◌, ◌-◌, ◌*◌, ◌≤◌, ◌<◌, max, ◌≡◌, subst, ltb, ◌==◌, ◌&&◌, ◌||◌, if◌then◌else◌, arith,
}

-- Python's `round` of `n / d`: a half goes to the even neighbour.
unfoldable pub round : ℕ → ℕ → ℕ
round n d =
    if ltb d (2 * (n % d)) || ((2 * (n % d) == d) && ((n / d) % 2 == 1)) then n / d + 1 else n / d

pub record Placement : Type 0 where
  pub x : ℕ
  pub y : ℕ
  pub resized_width : ℕ
  pub resized_height : ℕ

abbrev resized : ℕ → ℕ → ℕ → ℕ
resized image_size side longest = max 1 (round (side * image_size) longest)

unfoldable pub letterbox : ℕ → ℕ → ℕ → Placement
unfolding round
letterbox image_size width height =
    let w = resized image_size width (max width height) in
    let h = resized image_size height (max width height) in
    record {
      x = (image_size - w) / 2;
      y = (image_size - h) / 2;
      resized_width = w;
      resized_height = h;
    }

-- A remainder of a number that is at most k times the divisor, when the quotient is k.
no_rest : (n d k : ℕ) → n ≤ k * d → n / d ≡ k → n % d ≡ 0
no_rest n d k h e =
    let p : d * k + n % d ≡ n = subst (λ q. d * q + n % d ≡ n) e (div-add-mod n d) in
    omega (arith, h, p, mul_comm d k)

round_le : (n d k : ℕ) → 0 < d → n ≤ k * d → round n d ≤ k
unfolding round
round_le n d k p h =
    let q : n / d ≤ k = div-le_of_le-mul d (subst (λ t. n ≤ t) (mul_comm k d) h) in
    ground (arith, q, no_rest n d k h, p)

round_exact : (k d : ℕ) → 0 < d → round (d * k) d ≡ k
unfolding round
round_exact k d p =
    let e : d * k / d ≡ k = mul-div_cancel_left k p in
    ground (arith, e, no_rest (d * k) d k (omega (arith, mul_comm d k)) e, p)

-- How the resized image stands on the canvas: it is inside, it is in the middle, up to a pixel, it
-- has at least a pixel each way, and the longer side takes the whole canvas.
pub record IsPlaced (image_size width height : ℕ) (p : Placement) : Type 0 where
  pub inside_x : p.x + p.resized_width ≤ image_size
  pub inside_y : p.y + p.resized_height ≤ image_size
  pub centred_x : image_size ≤ p.x + p.resized_width + p.x + 1
  pub centred_y : image_size ≤ p.y + p.resized_height + p.y + 1
  pub some_width : 1 ≤ p.resized_width
  pub some_height : 1 ≤ p.resized_height
  pub wide : height ≤ width → p.resized_width ≡ image_size
  pub tall : width ≤ height → p.resized_height ≡ image_size

resized_le :
    (image_size side longest : ℕ)
    → 0 < image_size
    → 0 < longest
    → side ≤ longest
    → resized image_size side longest ≤ image_size
resized_le image_size side longest p q h =
    let r : round (side * image_size) longest ≤ image_size =
      round_le (side * image_size) longest image_size q (
        subst (λ t. side * image_size ≤ t) (mul_comm longest image_size)
          (mul-le-mul_right image_size h)) in
    omega (arith, p, r)

resized_longest :
    (image_size side : ℕ) → 0 < image_size → 0 < side → resized image_size side side ≡ image_size
resized_longest image_size side p q = omega (arith, p, round_exact image_size side q)

half_lem : (n : ℕ) → (n / 2 + n / 2 ≤ n) × (n ≤ n / 2 + n / 2 + 1)
half_lem n = (omega arith, omega arith)

-- For a canvas and an image that have pixels, the resized image is inside the canvas and in its
-- middle, up to one pixel, has at least one pixel each way, and fills the canvas along its longer
-- side.
pub letterbox-IsPlaced :
    (image_size width height : ℕ)
    → 0 < image_size
    → 0 < width
    → 0 < height
    → IsPlaced image_size width height (letterbox image_size width height)
unfolding letterbox
letterbox-IsPlaced image_size width height p q r =
    let long = max width height in
    let a = resized_le image_size width long p (omega (arith, q)) (omega arith) in
    let b = resized_le image_size height long p (omega (arith, q)) (omega arith) in
    record {
      inside_x = omega (arith, a, (half_lem (image_size - resized image_size width long)).0);
      inside_y = omega (arith, b, (half_lem (image_size - resized image_size height long)).0);
      centred_x = omega (arith, a, (half_lem (image_size - resized image_size width long)).1);
      centred_y = omega (arith, b, (half_lem (image_size - resized image_size height long)).1);
      some_width = omega arith;
      some_height = omega arith;
      wide = λ h.
          subst (λ m. resized image_size width m ≡ image_size) (omega (arith, h))
            (resized_longest image_size width p q);
      tall = λ h.
          subst (λ m. resized image_size height m ≡ image_size) (omega (arith, h))
            (resized_longest image_size height p r);
    }

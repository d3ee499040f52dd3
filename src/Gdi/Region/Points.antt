-- ===== src/Gdi/Region/Points.antt =====
-- The points of rectangles, against `RectAnd` and the test for an empty intersection in NNXOSKRN/gdi/region.c.
use nnxos.Prelude.{
  ℕ, ◌+◌, ◌-◌, ◌^◌, ◌%◌, ◌≤◌, ◌<◌, ◌≡◌, refl, inl, inr, true, false, arith, ◌==◌, leb, Bool-cases,
}
use nnxos.Gdi.Region.{Rect, clamp, rect_and, not_positive, is_empty}

-- The points of a rectangle.
pub record Contains (r : Rect) (x y : ℕ) : Type 0 where
  pub from_left : r.left ≤ x
  pub to_right : x < r.right
  pub from_top : r.top ≤ y
  pub to_bottom : y < r.bottom

-- The rectangles with the left edge and the top first, of less than 2 ^ 31 points in each direction.
pub record IsOrdered (r : Rect) : Type 0 where
  pub across : r.left ≤ r.right
  pub down : r.top ≤ r.bottom
  pub width : r.right - r.left < 2 ^ 31
  pub height : r.bottom - r.top < 2 ^ 31
  pub far_right : r.right < 2 ^ 32
  pub far_bottom : r.bottom < 2 ^ 32

clamp_from : (a l b x : ℕ) → a ≤ b → x < b → clamp a l b ≤ x → l ≤ x
unfolding clamp
clamp_from a l b x = ground arith

clamp_to : (a r b x : ℕ) → a ≤ b → a ≤ x → x < clamp a r b → x < r
unfolding clamp
clamp_to a r b x = ground arith

clamp_low : (a l b : ℕ) → a ≤ b → a ≤ clamp a l b
unfolding clamp
clamp_low a l b = ground arith

clamp_high : (a l b : ℕ) → a ≤ b → clamp a l b ≤ b
unfolding clamp
clamp_high a l b = ground arith

clamp_below : (a l b x : ℕ) → a ≤ x → l ≤ x → x < b → clamp a l b ≤ x
unfolding clamp
clamp_below a l b x = ground arith

clamp_above : (a r b x : ℕ) → x < b → a ≤ x → x < r → x < clamp a r b
unfolding clamp
clamp_above a r b x = ground arith

rect_and-common :
    (r1 r2 : Rect) (x y : ℕ)
    → IsOrdered r1
    → Contains (rect_and r1 r2) x y
    → Contains r1 x y × Contains r2 x y
unfolding rect_and
rect_and-common r1 r2 x y o c =
    let left_in : r1.left ≤ x =
      let low = clamp_low r1.left r2.left r1.right o.across in let i = c.from_left in omega arith in
    let top_in : r1.top ≤ y =
      let low = clamp_low r1.top r2.top r1.bottom o.down in let i = c.from_top in omega arith in
    let right_in : x < r1.right =
      let high = clamp_high r1.left r2.right r1.right o.across in
      let i = c.to_right in omega arith in
    let bottom_in : y < r1.bottom =
      let high = clamp_high r1.top r2.bottom r1.bottom o.down in
      let i = c.to_bottom in omega arith in
    (
      record { from_left = left_in; to_right = right_in; from_top = top_in; to_bottom = bottom_in },
      record {
        from_left = clamp_from r1.left r2.left r1.right x o.across right_in c.from_left;
        to_right = clamp_to r1.left r2.right r1.right x o.across left_in c.to_right;
        from_top = clamp_from r1.top r2.top r1.bottom y o.down bottom_in c.from_top;
        to_bottom = clamp_to r1.top r2.bottom r1.bottom y o.down top_in c.to_bottom;
      },
    )

common-rect_and :
    (r1 r2 : Rect) (x y : ℕ) → Contains r1 x y → Contains r2 x y → Contains (rect_and r1 r2) x y
unfolding rect_and
common-rect_and r1 r2 x y c d = record {
  from_left = clamp_below r1.left r2.left r1.right x c.from_left d.from_left c.to_right;
  to_right = clamp_above r1.left r2.right r1.right x c.to_right c.from_left d.to_right;
  from_top = clamp_below r1.top r2.top r1.bottom y c.from_top d.from_top c.to_bottom;
  to_bottom = clamp_above r1.top r2.bottom r1.bottom y c.to_bottom c.from_top d.to_bottom;
}

-- A rectangle is the intersection of two others.
pub record IsMeet (r1 r2 r : Rect) : Type 0 where
  pub common : (x y : ℕ) → Contains r x y → Contains r1 x y × Contains r2 x y
  pub all : (x y : ℕ) → Contains r1 x y → Contains r2 x y → Contains r x y

pub rect_and-IsMeet : (r1 r2 : Rect) → IsOrdered r1 → IsMeet r1 r2 (rect_and r1 r2)
rect_and-IsMeet r1 r2 o = record {
  common = λ x y c. rect_and-common r1 r2 x y o c;
  all = common-rect_and r1 r2;
}

clamp_monotone : (a l r b : ℕ) → l ≤ r → a ≤ b → clamp a l b ≤ clamp a r b
unfolding clamp
clamp_monotone a l r b = ground arith

pub rect_and-IsOrdered : (r1 r2 : Rect) → IsOrdered r1 → IsOrdered r2 → IsOrdered (rect_and r1 r2)
unfolding rect_and
rect_and-IsOrdered r1 r2 o o2 =
    let a = o.across in
    let d = o.down in
    let w = o.width in
    let h = o.height in
    let fr = o.far_right in
    let fb = o.far_bottom in
    let l = clamp_low r1.left r2.left r1.right a in
    let t = clamp_low r1.top r2.top r1.bottom d in
    let r = clamp_high r1.left r2.right r1.right a in
    let b = clamp_high r1.top r2.bottom r1.bottom d in
    record {
      across = clamp_monotone r1.left r2.left r2.right r1.right o2.across a;
      down = clamp_monotone r1.top r2.top r2.bottom r1.bottom o2.down d;
      width = omega arith;
      height = omega arith;
      far_right = omega arith;
      far_bottom = omega arith;
    }

not_positive-leb : (a b : ℕ) → b ≤ a → a - b < 2 ^ 31 → a < 2 ^ 32 → not_positive a b ≡ leb a b
unfolding not_positive
not_positive-leb a b le near small = elim (Bool-cases (leb a b)) [
  | inl y ↦
      let e : a ≡ b = ground arith in
      let d : (a + 2 ^ 32 - b) % 2 ^ 32 ≡ 0 = omega arith in rw (d, y) refl
  | inr n ↦
      let d : (a + 2 ^ 32 - b) % 2 ^ 32 ≡ a - b = omega arith in
      let p : ((a - b) == 0) ≡ false = ground arith in
      let q : leb (2 ^ 31) (a - b) ≡ false = ground arith in rw (d, p, q, n) refl
]

pub is_empty-true : (r : Rect) (x y : ℕ) → IsOrdered r → is_empty r ≡ true → Contains r x y → ⊥
unfolding is_empty
is_empty-true r x y o =
    rw
      (
        not_positive-leb r.right r.left o.across o.width o.far_right,
        not_positive-leb r.bottom r.top o.down o.height o.far_bottom,
      )
      (λ e c.
        let a = c.from_left in
        let b = c.to_right in let d = c.from_top in let f = c.to_bottom in ground arith)

pub is_empty-false : (r : Rect) → IsOrdered r → is_empty r ≡ false → Contains r r.left r.top
unfolding is_empty
is_empty-false r o =
    rw
      (
        not_positive-leb r.right r.left o.across o.width o.far_right,
        not_positive-leb r.bottom r.top o.down o.height o.far_bottom,
      )
      (λ e. record {
        from_left = omega arith;
        to_right = ground arith;
        from_top = omega arith;
        to_bottom = ground arith;
      })

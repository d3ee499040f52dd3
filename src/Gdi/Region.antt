-- ===== src/Gdi/Region.antt =====
-- NNXOSKRN/gdi/region.c: empty and rectangular regions, and the intersection of two rectangles. A `LONG` is its
-- distance from the least one, so that comparisons and differences are those of the source.
pub mod Points
pub mod Meet
use nnxos.Prelude.{
  ℕ, ◌+◌, ◌-◌, ◌^◌, ◌%◌, Bool, ◌||◌, Option, none, some, ◌==◌, ltb, leb, if◌then◌else◌,
}
use nnxos.Ntlist.{update}
use nnxos.Gdi.Object.{Gdi, free_object, register_object, move_into_handle}

pub record Rect : Type 0 where
  pub left : ℕ
  pub top : ℕ
  pub right : ℕ
  pub bottom : ℕ

-- The regions without a bitmap.
pub data Region : Type 0 where
  null_region : Region
  simple_region : Rect → Region

-- The answers of the routines that combine regions.
pub data RegionKind : Type 0 where
  error_kind : RegionKind
  null_kind : RegionKind
  simple_kind : RegionKind

-- The table, and the region in each object.
pub record Regions : Type 0 where
  pub gdi : Gdi
  pub region : ℕ → Region

-- `Clamp`
unfoldable pub clamp : (min val max : ℕ) → ℕ
clamp min val max = if ltb val min then min else (if ltb max val then max else val)

-- `RectAnd`
unfoldable pub rect_and : (r1 r2 : Rect) → Rect
unfolding clamp
rect_and r1 r2 = record {
  left = clamp r1.left r2.left r1.right;
  right = clamp r1.left r2.right r1.right;
  top = clamp r1.top r2.top r1.bottom;
  bottom = clamp r1.top r2.bottom r1.bottom;
}

-- Whether the difference of two `LONG`s, which wraps around, is not positive.
unfoldable pub not_positive : (a b : ℕ) → Bool
not_positive a b =
    let difference = (a + 2 ^ 32 - b) % 2 ^ 32 in (difference == 0) || leb (2 ^ 31) difference

-- The test of `RegionSimpleAndSimple` for an empty intersection.
unfoldable pub is_empty : Rect → Bool
unfolding not_positive
is_empty r = not_positive r.right r.left || not_positive r.bottom r.top

-- The registration of a new region at address `fresh`, which is 0 when the pool has no memory: the handle, or 0.
unfoldable pub create_rgn : Regions → (fresh : ℕ) → Region → ℕ × Regions
create_rgn s fresh content =
    if fresh == 0
    then (0, s)
    else (let result = register_object s.gdi fresh in
        if result.0 == 0
        then (0, record s { gdi = free_object result.1 fresh })
        else (result.0, record { gdi = result.1; region = update s.region fresh content }))

-- `GdiCreateEmptyRgn`
unfoldable pub create_empty_rgn : Regions → (fresh : ℕ) → ℕ × Regions
unfolding create_rgn
create_empty_rgn s fresh = create_rgn s fresh null_region

-- `GdiCreateRectRgn`
unfoldable pub create_rect_rgn : Regions → (fresh : ℕ) → Rect → ℕ × Regions
unfolding create_rgn
create_rect_rgn s fresh rect = create_rgn s fresh (simple_region rect)

-- `GdiMoveIntoHandle` beside the regions, and an answer; `none` when a handle stays locked.
unfoldable pub move_and_answer :
    Regions → (dst src : ℕ) → RegionKind → Option (RegionKind × Regions)
unfolding move_into_handle
move_and_answer s dst src kind = elim (move_into_handle s.gdi dst src) [
  | none ↦ none
  | some u ↦ some (kind, record s { gdi = u })
]

-- `RegionSimpleAndSimple`
unfoldable pub region_simple_and_simple :
    Regions → (fresh dst : ℕ) → (r1 r2 : Rect) → Option (RegionKind × Regions)
unfolding rect_and is_empty create_empty_rgn create_rect_rgn move_and_answer
region_simple_and_simple s fresh dst r1 r2 =
    let result = rect_and r1 r2 in
    if is_empty result
    then (let r = create_empty_rgn s fresh in move_and_answer r.1 dst r.0 null_kind)
    else (let r = create_rect_rgn s fresh result in
        if r.0 == 0 then some (error_kind, r.1) else move_and_answer r.1 dst r.0 simple_kind)

-- ===== src/Gdi/Tests.antt =====
-- The theorems on graphics objects at a table of three entries, the first and the last in use.
use nnxos.Prelude.{refl, [], arith, ◌==◌, if◌then◌else◌}
use nnxos.Gdi.Object.{Gdi, move_ptr_into_handle}
use nnxos.Gdi.Object.Move.{Lost, move_ptr_into_handle-Lost}
use nnxos.Gdi.Region.{Rect, null_region, Regions, region_simple_and_simple}
use nnxos.Gdi.Region.Points.{IsOrdered}
use nnxos.Gdi.Region.Meet.{Meets, region_simple_and_simple-Meets}

abbrev gdi : Gdi
gdi = record {
  database = λ i. if i == 0 then 100 else (if i == 2 then 200 else 0);
  database_length = 3;
  self_handle = λ o. if o == 100 then 1 else (if o == 200 then 3 else 0);
  freed = [];
}

abbrev regions : Regions
regions = record { gdi = gdi; region = λ o. null_region }

-- Two rectangles that overlap in a part of each.
abbrev wide_rect : Rect
wide_rect = record { left = 10; top = 20; right = 50; bottom = 30 }

abbrev high_rect : Rect
high_rect = record { left = 40; top = 0; right = 60; bottom = 25 }

wide_rect-IsOrdered : IsOrdered wide_rect
wide_rect-IsOrdered = record {
  across = omega arith;
  down = omega arith;
  width = omega arith;
  height = omega arith;
  far_right = omega arith;
  far_bottom = omega arith;
}

high_rect-IsOrdered : IsOrdered high_rect
high_rect-IsOrdered = record {
  across = omega arith;
  down = omega arith;
  width = omega arith;
  height = omega arith;
  far_right = omega arith;
  far_bottom = omega arith;
}

region_simple_and_simple-Meets_example :
    Meets regions 300 1 wide_rect high_rect
      (region_simple_and_simple regions 300 1 wide_rect high_rect)
region_simple_and_simple-Meets_example =
    region_simple_and_simple-Meets regions 300 1 1 wide_rect high_rect wide_rect-IsOrdered
      high_rect-IsOrdered (omega arith) (omega arith) (omega arith) (omega arith) (omega arith) refl
      (omega arith)

-- The object under the last handle is moved to the first.
move_ptr_into_handle-Lost_example : Lost gdi 1 200 (move_ptr_into_handle gdi 1 200)
move_ptr_into_handle-Lost_example =
    move_ptr_into_handle-Lost gdi 1 200 (omega arith) (omega arith) (omega arith) (omega arith)

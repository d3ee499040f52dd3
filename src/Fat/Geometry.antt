-- ===== src/Fat/Geometry.antt =====
-- Where the parts of a volume lie, from the fields of the BIOS parameter block.
use nnxos.Prelude.{ℕ, ◌+◌, ◌-◌, ◌*◌, ◌/◌, ◌^◌, ◌≤◌, ◌<◌, ◌≡◌, subst, ap, true, ◌||◌, arith}
use native.Mathlib.Nat.{
  le-mul_of_pos_right, mul-lt-mul_of_pos_right, mul-le-mul_right, mul_comm, div-mul-le_self,
  div-lt_iff_lt-mul,
}
use nnxos.Fat.{
  Bpb, sub32, is_fat16, is_fat32, volume_total_size, file_allocation_table_size, root_dir_sectors,
  calculate_first_cluster_position, calculate_fat_cluster_count, first_sector_of_cluster,
  get_cluster_eof,
}
use nnxos.Fat.Table.Locate.{
  IsSectorSize, bytes_512, bytes_1024, bytes_2048, bytes_4096, entry_size, sector_of, IsEntry,
}

-- A 16 or 32 bit volume whose parts are in their places: a table that has an entry for each cluster,
-- and clusters inside the volume.
pub record IsVolume (b : Bpb) : Type 0 where
  pub size : IsSectorSize b.bytes_per_sector
  pub wide : (is_fat32 b || is_fat16 b) ≡ true
  pub reserved : 0 < b.sector_reserved_size
  pub clusters : 0 < b.sectors_per_cluster
  pub fats : 0 < b.number_of_fats
  pub holds :
      (calculate_fat_cluster_count b + 2) * entry_size b
      ≤ file_allocation_table_size b * b.bytes_per_sector
  pub starts :
      b.sector_reserved_size + b.number_of_fats * file_allocation_table_size b + root_dir_sectors b
      ≤ volume_total_size b
  pub total : volume_total_size b < 2 ^ 32
  pub values : calculate_fat_cluster_count b + 2 ≤ get_cluster_eof b

size_nonzero : {s : ℕ} → IsSectorSize s → 0 < s
size_nonzero bytes_512 = omega arith
size_nonzero bytes_1024 = omega arith
size_nonzero bytes_2048 = omega arith
size_nonzero bytes_4096 = omega arith

entry_nonzero : (b : Bpb) → 0 < entry_size b
entry_nonzero b = ground arith

module _ {b : Bpb} (v : IsVolume b) where
  position :
      calculate_first_cluster_position b
      ≡ b.sector_reserved_size
        + b.number_of_fats * file_allocation_table_size b
        + root_dir_sectors b
  unfolding calculate_first_cluster_position
  position = omega (arith, v.starts, v.total)

  nonzero_size : 0 < b.bytes_per_sector
  nonzero_size = size_nonzero v.size

  small_value : get_cluster_eof b ≤ 0xFFFFFF8
  unfolding get_cluster_eof
  small_value = ground arith

  -- The first copy of the table ends before the first cluster.
  pub table_before_clusters :
      (n : ℕ)
      → n < calculate_fat_cluster_count b + 2
      → sector_of b n < calculate_first_cluster_position b
  table_before_clusters n h =
      let last : n * entry_size b < file_allocation_table_size b * b.bytes_per_sector =
        omega (arith, mul-lt-mul_of_pos_right h (entry_nonzero b), v.holds) in
      let inside : n * entry_size b / b.bytes_per_sector < file_allocation_table_size b =
        (div-lt_iff_lt-mul nonzero_size).1 last in
      let one : file_allocation_table_size b ≤ b.number_of_fats * file_allocation_table_size b =
        subst (λ x. file_allocation_table_size b ≤ x) (mul_comm _ _)
          (le-mul_of_pos_right _ v.fats) in
      rw position (omega (arith, inside, one))

  pub volume-IsEntry : (n : ℕ) → n < calculate_fat_cluster_count b + 2 → IsEntry b n
  volume-IsEntry n h = record {
    size = v.size;
    wide = v.wide;
    below =
        let small : n < 0xFFFFFF8 = omega (arith, h, v.values, small_value) in
        ground (arith, small);
    sector_below = omega (arith, table_before_clusters n h, position, v.starts, v.total);
    reserved = v.reserved;
  }

  count_lem :
      calculate_fat_cluster_count b
      ≡ (volume_total_size b - calculate_first_cluster_position b) / b.sectors_per_cluster
  unfolding calculate_fat_cluster_count
  count_lem = ap (λ n. n / b.sectors_per_cluster) (omega (arith, position, v.starts, v.total))

  pub count_below : calculate_fat_cluster_count b + 2 < 2 ^ 32
  count_below = omega (arith, v.values, small_value)

  -- Of a volume whose parts are in their places, cluster `k + 2` of the volume starts `k` clusters after
  -- the first one, with no wrap of the computation, and ends inside the volume.
  pub first_sector_of_cluster_lem :
      (k : ℕ)
      → k < calculate_fat_cluster_count b
      → (first_sector_of_cluster b (2 + k)
          ≡ calculate_first_cluster_position b + k * b.sectors_per_cluster)
        × (first_sector_of_cluster b (2 + k) + b.sectors_per_cluster ≤ volume_total_size b)
  unfolding first_sector_of_cluster
  first_sector_of_cluster_lem k h =
      let s = b.sectors_per_cluster in
      let n = volume_total_size b - calculate_first_cluster_position b in
      let data_end : (k + 1) * s ≤ n = omega (
        arith,
        mul-le-mul_right s (subst (λ x. k + 1 ≤ x) count_lem (omega (arith, h))),
        div-mul-le_self n s,
      ) in
      let one_more : (k + 1) * s ≡ k * s + s = omega arith in
      let from_two : s * (2 + k) ≡ 2 * s + k * s = omega arith in
      let low : calculate_first_cluster_position b ≤ volume_total_size b =
        omega (arith, position, v.starts) in
      let place : sub32 (s * (2 + k) + calculate_first_cluster_position b) (2 * s)
          ≡ calculate_first_cluster_position b + k * s =
        omega (arith, from_two, data_end, one_more, low, v.total) in
      (place, omega (arith, place, data_end, one_more, low))

-- ===== src/Gdi/Region/Meet.antt =====
-- `RegionSimpleAndSimple` of NNXOSKRN/gdi/region.c with the table of handles.
use nnxos.Prelude.{
  ℕ, ◌+◌, ◌-◌, ◌<◌, ◌≡◌, ◌≢◌, refl, sym, ap, ◌∙◌, inl, inr, false, Option, none, some, ◌∷◌, arith,
  ◌==◌, if◌then◌else◌, Bool-cases, ==-refl, ==-eq_false,
}
use nnxos.Ntlist.{update}
use nnxos.Gdi.Object.{Gdi, locked_object, free_object, register_object, move_into_handle}
use nnxos.Gdi.Object.Move.{
  Registers, full, registered, register_object-Registers, Moved, moved, move_into_handle-Moved,
}
use nnxos.Gdi.Region.{
  Rect, Region, null_region, simple_region, RegionKind, null_kind, simple_kind, Regions, rect_and,
  is_empty, create_rgn, create_empty_rgn, create_rect_rgn, move_and_answer,
  region_simple_and_simple,
}
use nnxos.Gdi.Region.Points.{
  Contains, IsOrdered, IsMeet, rect_and-IsMeet, rect_and-IsOrdered, is_empty-true, is_empty-false,
}

-- A new region under the handle `k + 1`.
data Created (s : Regions) (fresh : ℕ) (content : Region) : ℕ × Regions → Type 0 where
  created :
      {u : Regions} (k : ℕ)
      → s.gdi.database k ≡ 0
      → u.gdi.database ≡ update s.gdi.database k fresh
      → u.gdi.freed ≡ s.gdi.freed
      → u.region ≡ update s.region fresh content
      → Created s fresh content (k + 1, u)

registered-Created :
    (s : Regions) (fresh : ℕ) (content : Region) (free : ℕ) (r : ℕ × Gdi)
    → s.gdi.database free ≡ 0
    → free < s.gdi.database_length
    → Registers s.gdi fresh 0 s.gdi.database_length r
    → Created s fresh content (
        if r.0 == 0
        then (0, record s { gdi = free_object r.1 fresh })
        else (r.0, record { gdi = r.1; region = update s.region fresh content }))
registered-Created s fresh content free r is_free here (full all) =
    absurd (all free (omega arith) (omega arith) is_free)
registered-Created s fresh content free r is_free here (registered k lo hi e all d h f) =
    let nz : ((k + 1) == 0) ≡ false = ground arith in rw nz (created k e d f refl)

create_rgn-Created :
    (s : Regions) (fresh : ℕ) (content : Region) (free : ℕ)
    → fresh ≢ 0
    → s.gdi.database free ≡ 0
    → free < s.gdi.database_length
    → Created s fresh content (create_rgn s fresh content)
unfolding create_rgn
create_rgn-Created s fresh content free nz is_free here = rw (==-eq_false nz) (
    registered-Created s fresh content free (register_object s.gdi fresh) is_free here
      (register_object-Registers s.gdi fresh))

-- A region alone under a handle, in place of what was there.
pub record Under (s : Regions) (fresh dst : ℕ) (content : Region) (u : Regions) : Type 0 where
  pub at_dst : u.gdi.database (dst - 1) ≡ fresh
  pub entries : (i : ℕ) → i ≢ dst - 1 → u.gdi.database i ≡ s.gdi.database i
  pub self_handle : u.gdi.self_handle fresh ≡ dst
  pub regions : u.region ≡ update s.region fresh content
  pub freed : u.gdi.freed ≡ s.gdi.database (dst - 1) ∷ s.gdi.freed

data Answered (s : Regions) (fresh dst : ℕ) (content : Region) (kind : RegionKind)
    : Option (RegionKind × Regions) → Type 0 where
  answered :
      {u : Regions}
      → Under s fresh dst content u
      → Answered s fresh dst content kind (some (kind, u))

module _ (s : Regions) (fresh dst : ℕ) where
  Moved-Answered :
      (content : Region) (kind : RegionKind) (u : Regions) (k : ℕ) (r : Option Gdi)
      → s.gdi.database (dst - 1) ≢ 0
      → s.gdi.database k ≡ 0
      → u.gdi.database ≡ update s.gdi.database k fresh
      → u.gdi.freed ≡ s.gdi.freed
      → u.region ≡ update s.region fresh content
      → Moved u.gdi dst (k + 1) fresh r
      → Answered s fresh dst content kind
          (elim r [ none ↦ none | some v ↦ some (kind, record u { gdi = v }) ])
  Moved-Answered content kind u k r used free d f e (moved {u = v} m) =
      let other : dst - 1 ≢ k = λ z. used (ap s.gdi.database z ∙ free) in
      let old : u.gdi.database (dst - 1) ≡ s.gdi.database (dst - 1) =
        ap (λ x. x (dst - 1)) d ∙ (rw (==-eq_false other) refl) in
      answered record {
        at_dst = m.at_dst;
        entries = λ i no. elim (Bool-cases (i == k)) [
          | inl y ↦
              let same : i ≡ k = ground arith in
              let src : k + 1 - 1 ≡ k = omega arith in
              ap v.database (same ∙ sym src) ∙ m.at_src ∙ sym (ap s.gdi.database same ∙ free)
          | inr n ↦
              m.entries i no (let ne : i ≢ k + 1 - 1 = ground arith in ne)
              ∙ ap (λ x. x i) d
              ∙ (rw n refl)
        ];
        self_handle = m.self_handle;
        regions = e;
        freed = m.freed ∙ (rw (old, ==-eq_false used, f) refl);
      }

  Created-Answered :
      (content : Region) (kind : RegionKind) (r : ℕ × Regions)
      → dst ≢ 0
      → fresh ≢ 0
      → fresh ≢ locked_object
      → s.gdi.database (dst - 1) ≢ 0
      → s.gdi.database (dst - 1) ≢ locked_object
      → Created s fresh content r
      → Answered s fresh dst content kind (move_and_answer r.1 dst r.0 kind)
  unfolding move_and_answer
  Created-Answered content kind r nz some_object other used unlocked (created {u} k free d f e) =
      let apart : dst ≢ k + 1 =
        λ z. used (ap s.gdi.database (let y : dst - 1 ≡ k = omega arith in y) ∙ free) in
      let ne : dst - 1 ≢ k = λ z. used (ap s.gdi.database z ∙ free) in
      let old : u.gdi.database (dst - 1) ≡ s.gdi.database (dst - 1) =
        ap (λ x. x (dst - 1)) d ∙ (rw (==-eq_false ne) refl) in
      let src : k + 1 - 1 ≡ k = omega arith in
      let new : u.gdi.database (k + 1 - 1) ≡ fresh =
        ap u.gdi.database src ∙ ap (λ x. x k) d ∙ (rw (==-refl k) refl) in
      let m : Moved u.gdi dst (k + 1) (u.gdi.database (k + 1 - 1))
          (move_into_handle u.gdi dst (k + 1)) =
        move_into_handle-Moved u.gdi dst (k + 1) nz (omega arith) apart
          (λ z. unlocked (sym old ∙ z)) (λ z. other (sym new ∙ z))
          (λ z. some_object (sym new ∙ z)) in
      Moved-Answered content kind u k (move_into_handle u.gdi dst (k + 1)) used free d f e
        (rw (sym new) m)

-- The outcomes of the intersection of two rectangles.
pub data Meets (s : Regions) (fresh dst : ℕ) (r1 r2 : Rect)
    : Option (RegionKind × Regions) → Type 0 where
  apart :
      {u : Regions}
      → ((x y : ℕ) → Contains r1 x y → Contains r2 x y → ⊥)
      → Under s fresh dst null_region u
      → Meets s fresh dst r1 r2 (some (null_kind, u))
  meeting :
      {u : Regions} (r : Rect)
      → IsMeet r1 r2 r
      → Contains r r.left r.top
      → Under s fresh dst (simple_region r) u
      → Meets s fresh dst r1 r2 (some (simple_kind, u))

Answered-apart :
    {s : Regions} {fresh dst : ℕ} {r1 r2 : Rect} {a : Option (RegionKind × Regions)}
    → ((x y : ℕ) → Contains r1 x y → Contains r2 x y → ⊥)
    → Answered s fresh dst null_region null_kind a
    → Meets s fresh dst r1 r2 a
Answered-apart none_common (answered u) = apart none_common u

Answered-meeting :
    {s : Regions} {fresh dst : ℕ} {r1 r2 : Rect} {a : Option (RegionKind × Regions)} (r : Rect)
    → IsMeet r1 r2 r
    → Contains r r.left r.top
    → Answered s fresh dst (simple_region r) simple_kind a
    → Meets s fresh dst r1 r2 a
Answered-meeting r i c (answered u) = meeting r i c u

Created-some :
    {s : Regions} {fresh : ℕ} {content : Region} {r : ℕ × Regions}
    → Created s fresh content r
    → r.0 ≢ 0
Created-some (created k free d f e) = ground arith

-- `RegionSimpleAndSimple` of two ordered rectangles into a handle that has an object and is not locked, with memory
-- and an empty entry in the table for a new object, returns. Rectangles without a common point put the empty region
-- under the handle, with the answer for it; else the region there is the rectangle of exactly the common points, and
-- not empty. The old object of the handle is freed, that one alone, and no other entry has changed.
pub region_simple_and_simple-Meets :
    (s : Regions) (fresh dst free : ℕ) (r1 r2 : Rect)
    → IsOrdered r1
    → IsOrdered r2
    → dst ≢ 0
    → fresh ≢ 0
    → fresh ≢ locked_object
    → s.gdi.database (dst - 1) ≢ 0
    → s.gdi.database (dst - 1) ≢ locked_object
    → s.gdi.database free ≡ 0
    → free < s.gdi.database_length
    → Meets s fresh dst r1 r2 (region_simple_and_simple s fresh dst r1 r2)
unfolding region_simple_and_simple create_empty_rgn create_rect_rgn
region_simple_and_simple-Meets s fresh dst free r1 r2 o o2 nz some_object other used unlocked
      is_free here =
    let r = rect_and r1 r2 in
    let i = rect_and-IsMeet r1 r2 o in
    let ordered = rect_and-IsOrdered r1 r2 o o2 in
    elim (Bool-cases (is_empty r)) [
      | inl y ↦ rw y (
          Answered-apart (λ a b c d. is_empty-true r a b ordered y (i.all a b c d))
            (Created-Answered s fresh dst null_region null_kind (create_rgn s fresh null_region) nz
              some_object other used unlocked
              (create_rgn-Created s fresh null_region free some_object is_free here)))
      | inr n ↦
          let content = simple_region r in
          let c = create_rgn-Created s fresh content free some_object is_free here in
          rw (n, ==-eq_false (Created-some c))
            (Answered-meeting r i (is_empty-false r ordered n) (
              Created-Answered s fresh dst content simple_kind (create_rgn s fresh content) nz
                some_object other used unlocked c))
    ]

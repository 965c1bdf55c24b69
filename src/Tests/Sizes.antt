-- ===== src/Tests/Sizes.antt =====
-- Algorithms/: merging three scenes, with matrices by the type and the number of their elements.
use mathlib.Core.Option.{some-injective}
use minority_viewport.Base.{
  ℕ, suc, ◌+◌, Bool, true, false, ◌&&◌, ◌==◌, eq→==, if◌then◌else◌, [], ◌∷◌, codes, none, some, ok,
  err, undefined, ◌≡◌, refl, ap, subst, arith, Bool-cases, inl, inr,
}
use minority_viewport.Base.OrderedMap.{number_order}
use minority_viewport.Data.Matrix.{Matrices}
use minority_viewport.Data.Matrix.Sizes.{Depth, single, double, SizeLaws}
use minority_viewport.Data.Scene.{Scene, Link, to, null, new_scene}
use minority_viewport.Algorithms.Viewport.{Viewport}
use minority_viewport.Algorithms.Viewport.SensorData.Loading.{AreValid}
use minority_viewport.Algorithms.Viewport.Merging.{
  merge_scenes, merge_list, merge_scene, merge_beside, combine,
}
use minority_viewport.Algorithms.Viewport.Merging.Sizes.{AreFloats}
use minority_viewport.Algorithms.Viewport.Merging.People.{IsMerged}
use minority_viewport.Algorithms.Viewport.Merging.Chained.{merge_scenes-IsMerged_chained}
use minority_viewport.Tests.Scenes.{visitor, clock, same_place, dice}

record Size : Type 0 where
  depth : Depth
  rows : ℕ
  cols : ℕ

abbrev size : Depth → ℕ → ℕ → Size
size d r c = record { depth = d; rows = r; cols = c }

abbrev same_depth : Depth → Depth → Bool
same_depth single single = true
same_depth double double = true
same_depth _ _ = false

same_depth_refl : (d : Depth) → same_depth d d ≡ true
same_depth_refl single = refl
same_depth_refl double = refl

-- The elements are all 0.
abbrev sizes : Matrices ℕ
sizes = record {
  Mat = Size;
  row = λ x y z. size double 1 3;
  empty = size double 0 0;
  eye = size single 3 3;
  zero_column = size single 3 1;
  to_float = λ m. size single m.rows m.cols;
  to_double = λ m. size double m.rows m.cols;
  rows = λ m. m.rows;
  cols = λ m. m.cols;
  at = λ m i c. 0;
  transpose = λ m. size m.depth m.cols m.rows;
  negate = λ m. m;
  push_back = λ m n.
      if same_depth m.depth n.depth && m.cols == n.cols
      then ok (size m.depth (m.rows + n.rows) m.cols)
      else err undefined;
  multiply = λ m n.
      if same_depth m.depth n.depth && m.cols == n.rows
      then ok (size m.depth m.rows n.cols)
      else err undefined;
  add = λ m n.
      if m.rows == n.rows && m.cols == n.cols
      then ok (size single m.rows m.cols)
      else err undefined;
  subtract = λ m n. ok m;
  average = λ m. ok (size m.depth 1 m.cols);
  decompose = λ m. ok (m, m);
}

add_one : (r : ℕ) → r + 1 ≡ suc r
add_one r = omega arith

abbrev size_laws : SizeLaws sizes
size_laws = record {
  Sized = λ d r c m. m ≡ size d r c;
  sized_rows = λ m h. ap (λ (x : Size). x.rows) h;
  sized_cols = λ m h. ap (λ (x : Size). x.cols) h;
  sized_row = λ x y z. refl;
  sized_eye = refl;
  sized_column = refl;
  sized_float = λ m h. ap (λ (x : Size). size single x.rows x.cols) h;
  sized_double = λ m h. ap (λ (x : Size). size double x.rows x.cols) h;
  sized_transpose = λ m h. ap (λ (x : Size). size x.depth x.cols x.rows) h;
  push_sized = λ {d} {r} {c} m n h g.
      (size d (r + 1) c, rw (h, g, same_depth_refl d, eq→== c c refl) refl, rw (add_one r) refl);
  multiply_sized = λ {d} {r} {k} {c} m n h g.
      (size d r c, rw (h, g, same_depth_refl d, eq→== k k refl) refl, refl);
  add_sized = λ {d} {r} {c} m n h g.
      (size single r c, rw (h, g, eq→== r r refl, eq→== c c refl) refl, refl);
}

-- Three scenes in a row, calibrated, with a person in each.
abbrev room : ℕ → Link → Link → ℕ → Scene ℕ Size
room n left right person = record empty {
  ordering = n;
  left = left;
  right = right;
  calibrated = true;
  skeletons = (person, visitor person) ∷ [];
  r_matrix = size single 3 3;
  t_matrix = size single 3 1;
}
  where
    empty : Scene ℕ Size
    empty = new_scene (size double 0 0) (codes "k")

abbrev corridor : Viewport ℕ Size
corridor = record {
  clients = record { avaliable_ids = []; raw_client_list = [] };
  store = record {
    cell = λ a.
        if a == 20
        then some (room 1 null (to 30) 4)
        else if a == 30
        then some (room 2 (to 20) (to 40) 4)
        else if a == 40
        then some (room 3 (to 30) null 0)
        else none;
    made = 3;
  };
  global_scene = room 0 null null 0;
  ordered_scenes = 20 ∷ 30 ∷ 40 ∷ [];
  scenes_set = [];
}

corridor-AreValid : AreValid corridor.store
corridor-AreValid a = elim (Bool-cases (a == 20)) [
  | inl first ↦ rw first (record { sorted = ground arith; bounded = omega arith })
  | inr other ↦ elim (Bool-cases (a == 30)) [
    | inl second ↦ rw (other, second) (record { sorted = ground arith; bounded = omega arith })
    | inr next ↦ elim (Bool-cases (a == 40)) [
      | inl third ↦
          rw (other, next, third) (record { sorted = ground arith; bounded = omega arith })
      | inr neither ↦ rw (other, next, neither) tt
    ]
  ]
]

size_floats :
    (s t : Scene ℕ Size)
    → s.r_matrix ≡ size single 3 3
    → s.t_matrix ≡ size single 3 1
    → some s ≡ some t
    → AreFloats sizes size_laws (t.r_matrix, t.t_matrix)
size_floats s t r c e =
    subst (λ (x : Scene ℕ Size). AreFloats sizes size_laws (x.r_matrix, x.t_matrix))
      (some-injective s t e) (record { rotation = r; translation = c })

merge_scenes-IsMerged_chained_example :
    (v' : Viewport ℕ Size) × (merge_scenes sizes same_place dice clock corridor ≡ ok v')
    × IsMerged corridor v'
unfolding new_scene
merge_scenes-IsMerged_chained_example =
    merge_scenes-IsMerged_chained sizes size_laws same_place dice clock 1 corridor corridor-AreValid
      (refl, (refl, (refl, tt)))
      (
        λ t. size_floats (room 2 (to 20) (to 40) 4) t refl refl,
        (λ t. size_floats (room 3 (to 30) null 0) t refl refl, tt),
      )

-- Only the second and the third scene were aligned: the second is marked as calibrated, and has a scene
-- to its left but no matrices, so that the merge throws.
half_aligned :
    merge_scenes sizes same_place dice clock (record corridor {
      store = record {
        cell = λ a.
            if a == 30
            then some (record (room 2 (to 20) (to 40) 4) {
              r_matrix = size double 0 0;
              t_matrix = size double 0 0;
            })
            else corridor.store.cell a;
        made = 3;
      };
    })
    ≡ err undefined
unfolding merge_scenes merge_list merge_scene merge_beside combine new_scene
half_aligned = refl

-- ===== src/Algorithms/Viewport/Merging/Sizes.antt =====
-- Matrices that fit are combined, and skeletons moved by them, without a fault.
use minority_viewport.Base.{ℕ, zero, suc, ◌+◌, ◌-◌, length, ◌≡◌, refl, subst, arith}
use minority_viewport.Data.Matrix.{Matrices}
use minority_viewport.Data.Matrix.Sizes.{Depth, Returns, >>=-Returns, SizeLaws}
use minority_viewport.Data.Skeleton.{Skeleton}
use minority_viewport.Data.Skeleton.Points.{get_complete_points_vector_matrix}
use minority_viewport.Data.Skeleton.Points.Sizes.{get_complete_points-Sized, convert-inside}
use minority_viewport.Algorithms.Viewport.Merging.{repeat_row, transform_skeleton_matrix, moved}

module _ {D : Type 0} (C : Matrices D) (L : SizeLaws C) where
  open C use {Mat}
  open L use {Sized}

  -- A rotation and a translation, in floats.
  pub record AreFloats (rt : Mat × Mat) : Type 0 where
    pub rotation : Sized Depth.single 3 3 rt.0
    pub translation : Sized Depth.single 3 1 rt.1

  repeat_row-Sized :
      (n r : ℕ) (row m : Mat)
      → Sized Depth.single r 3 m
      → Sized Depth.single 1 3 row
      → Returns (repeat_row C n row m) (Sized Depth.single (n + r) 3)
  repeat_row-Sized zero r row m h one =
      (m, refl, subst (λ k. Sized Depth.single k 3 m) (omega arith) h)
  repeat_row-Sized (suc n) r row m h one =
      >>=-Returns (C.push_back m row) (repeat_row C n row) (L.push_sized m row h one) (λ m' g.
        subst (λ k. Returns (repeat_row C n row m') (Sized Depth.single k 3)) (omega arith)
          (repeat_row-Sized n (suc r) row m' g one))

  transform-Sized :
      (n : ℕ) (m : Mat) (rt : Mat × Mat)
      → Sized Depth.single (suc n) 3 m
      → AreFloats rt
      → Returns (transform_skeleton_matrix C m rt.0 rt.1) (Sized Depth.single (suc n) 3)
  unfolding transform_skeleton_matrix
  transform-Sized n m rt h f =
      let bt = C.transpose m in
      let row = C.transpose rt.1 in
      let wide = L.sized_transpose m h in
      let one = L.sized_transpose rt.1 f.translation in
      let times : C.cols bt - 1 ≡ n = omega (arith, L.sized_cols bt wide) in
      let repeated : Returns (repeat_row C (C.cols bt - 1) row row) (Sized Depth.single (n + 1) 3) =
        rw times (repeat_row-Sized n 1 row row one one) in
      >>=-Returns (repeat_row C (C.cols bt - 1) row row) _ repeated (λ resized g.
        >>=-Returns (C.multiply rt.0 bt) _ (L.multiply_sized rt.0 bt f.rotation wide) (λ product p.
          >>=-Returns (C.add product (C.transpose resized)) _
            (L.add_sized product (C.transpose resized) p (
              subst (λ k. Sized Depth.single 3 k (C.transpose resized)) (omega arith)
                (L.sized_transpose resized g)))
            (λ sum q. (C.transpose sum, refl, L.sized_transpose sum q))))

  -- Every skeleton can be moved by such matrices.
  pub moved-Returns :
      (rt : Mat × Mat) (s : Skeleton D)
      → AreFloats rt
      → Returns (moved C rt.0 rt.1 s) (λ s'. length s'.joints ≡ length s.joints)
  unfolding moved
  moved-Returns rt s f =
      >>=-Returns (get_complete_points_vector_matrix C s) _ (get_complete_points-Sized C L s)
        (λ m h.
          >>=-Returns (transform_skeleton_matrix C m rt.0 rt.1) _
            (transform-Sized (length s.joints) m rt h f) (λ m' g. convert-inside C L m' s g))

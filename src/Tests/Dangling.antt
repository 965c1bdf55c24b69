-- ===== src/Tests/Dangling.antt =====
-- A client goes, and another's scene is still linked to the scene of the first: at concrete inputs.
use minority_viewport.Base.{ℕ, [], ◌∷◌, codes, none, some, ok, err, bad_pointer, ◌≡◌, refl, arith}
use minority_viewport.Algorithms.Viewport.{Viewport, deregister_client}
use minority_viewport.Algorithms.Viewport.Merging.{start_merge, merge_scene}
use minority_viewport.Algorithms.Viewport.Ownership.Dangling.{merge_scene_dangling}
use minority_viewport.Data.Scene.{new_scene}
use minority_viewport.Data.ClientsList.{at}
use minority_viewport.Tests.Scenes.{gallery, lab, sensor_at, same_place, dice, clock}
use minority_viewport.Tests.World.{Rows, matrices}

-- The two scenes belong to two clients.
abbrev parted : Viewport ℕ Rows
parted = record gallery {
  clients = record {
    avaliable_ids = [];
    raw_client_list =
        record { id = 4; location = []; ip_addr = []; sensors = (codes "a", sensor_at 20) ∷ [] }
        ∷ record { id = 8; location = []; ip_addr = []; sensors = (codes "b", sensor_at 30) ∷ [] }
        ∷ [];
  };
}

merge_scene_dangling_example :
    (v' : Viewport ℕ Rows) × (deregister_client 4 parted ≡ ok v')
    × (v'.store.cell 30 ≡ some lab)
    × (v'.store.cell 20 ≡ none)
    × (merge_scene matrices same_place dice clock 30 []
          (record (start_merge parted) { store = v'.store })
        ≡ err bad_pointer)
unfolding at new_scene
merge_scene_dangling_example =
    merge_scene_dangling matrices same_place dice clock 4 20 30 parted (start_merge parted)
      (record { distinct = ground arith; within = omega arith }) refl (omega arith) refl refl refl
      refl refl refl

-- ===== src/Tests/Data.antt =====
-- Data/: scenes and clients at concrete inputs. A `double` and a `Mat` are numbers here.
use minority_viewport.Base.{
  ℕ, zero, suc, ◌*◌, ◌+◌, ◌<◌, true, false, List, [], ◌∷◌, codes, none, some, ok, err, undefined,
  no_fuel, ◌==◌, if◌then◌else◌, ◌≡◌, refl, arith, inr,
}
use minority_viewport.Base.OrderedMap.{find, number_order}
use minority_viewport.Data.Skeleton.{Skeleton, Tracking}
use minority_viewport.Data.Scene.{manual_clear, Scene, update, new_scene}
use minority_viewport.Data.Scene.Refreshing.{Round, clear, run_all, clear_period}
use minority_viewport.Data.Scene.Capacity.{updates, run, has_room, find-update}
use minority_viewport.Data.Queues.{new_job, get_job}
use minority_viewport.Data.Queues.Order.{push_jobs, get_jobs, get_jobs-push_jobs}
use minority_viewport.Data.Client.{Client, new_client}
use minority_viewport.Data.ClientsList.{ClientsList, is_assigned, add_client, remove_client, at}
use minority_viewport.Data.ClientsList.Ids
use minority_viewport.Data.ClientsList.Ids.{add_client-IsValid}
use minority_viewport.Data.ClientsList.Draws.{add_client-returns, add_client_full}
use minority_viewport.Data.ClientsList.Removal.{Removes, remove_client-found, remove_client-missing}

abbrev person : ℕ → Skeleton ℕ
person n = record {
  client_id = 7;
  skeleton_id = n;
  sensor_id = codes "k";
  time_stamp = 0;
  shared = false;
  pos_x = n;
  pos_y = 0;
  pos_z = 2;
  tracking = Tracking.tracked;
  joints = [];
}

abbrev crowd : Scene ℕ ℕ
crowd = record empty_scene { skeletons = (1, person 1) ∷ (2, person 2) ∷ (5, person 5) ∷ [] }
  where
    empty_scene : Scene ℕ ℕ
    empty_scene = new_scene 0 (codes "k")

find-update_example : find 4 (update 9 4 (person 4) crowd).skeletons ≡ (
    if 4 == 4 then (if has_room 4 crowd then some (person 4) else none) else find 4 crowd.skeletons)
find-update_example =
    find-update 9 4 4 (person 4) crowd (record { sorted = ground arith; bounded = omega arith })

abbrev two_clients : ClientsList
two_clients = record {
  avaliable_ids = 9 ∷ [];
  raw_client_list =
      new_client 4 (codes "hall") (codes "10.0.0.4")
      ∷ new_client 8 (codes "lab") (codes "10.0.0.8")
      ∷ [];
}

two_clients-IsValid : Ids.IsValid two_clients
two_clients-IsValid = record { distinct = ground arith; within = omega arith }

abbrev after_third : ClientsList
after_third = record {
  avaliable_ids = [];
  raw_client_list =
      new_client 4 (codes "hall") (codes "10.0.0.4")
      ∷ new_client 8 (codes "lab") (codes "10.0.0.8")
      ∷ new_client 9 (codes "roof") (codes "10.0.0.9")
      ∷ [];
}

-- The first two draws stand for 4 and 8.
abbrev draws : ℕ → ℕ
draws k = 4 * k + 3

add_client-returns_example :
    (id : ℕ) × (l : ClientsList) × (add_client 3 draws
        (codes "roof")
        []
        (record two_clients { avaliable_ids = [] })
      ≡ ok (id, l))
unfolding is_assigned
add_client-returns_example =
    add_client-returns 3 draws 2 (codes "roof") [] (record two_clients { avaliable_ids = [] })
      (inr refl) (omega arith)

-- All identifiers in use.
clients_up_to : ℕ → List Client
clients_up_to zero = []
clients_up_to (suc n) = new_client (suc n) [] [] ∷ clients_up_to n

clients_up_to-assigned : (k n : ℕ) → n < k → is_assigned (n + 1) (clients_up_to k) ≡ true
unfolding clients_up_to is_assigned
clients_up_to-assigned zero n h = absurd (omega arith)
clients_up_to-assigned (suc k) n h = ground (arith, clients_up_to-assigned k n)

full : ClientsList
full = record { avaliable_ids = []; raw_client_list = clients_up_to 1000 }

add_client_full_example : add_client 50 draws [] [] full ≡ err no_fuel
unfolding full
add_client_full_example = add_client_full 50 draws [] [] full refl (clients_up_to-assigned 1000)

remove_client-found_example : Removes 4 (new_client 4 (codes "hall") (codes "10.0.0.4")) two_clients
unfolding at
remove_client-found_example =
    remove_client-found 4 (new_client 4 (codes "hall") (codes "10.0.0.4")) two_clients
      two_clients-IsValid refl

-- Client 8 goes, though it was client 5 that was to be removed.
remove_client-missing_example :
    (remove_client 5 two_clients
      ≡ ok (
        none,
        record {
          avaliable_ids = 9 ∷ 5 ∷ [];
          raw_client_list = new_client 4 (codes "hall") (codes "10.0.0.4") ∷ [];
        },
      ))
    × (remove_client 5 (record two_clients { raw_client_list = [] }) ≡ err undefined)
unfolding is_assigned
remove_client-missing_example =
    remove_client-missing 5 (new_client 8 (codes "lab") (codes "10.0.0.8"))
      (new_client 4 (codes "hall") (codes "10.0.0.4") ∷ []) two_clients refl refl (omega arith)

get_jobs-push_jobs_example :
    (get_jobs 2 (
        push_jobs
          ((codes "{}", []) ∷ (codes "[1]", codes "9") ∷ [])
          (record { json_queue = new_job (codes "[0]") (codes "8") ∷ [] }))
      ≡ (
        new_job (codes "[0]") (codes "8") ∷ new_job (codes "[1]") (codes "9") ∷ [],
        record { json_queue = [] },
      ))
    × (get_job (record { json_queue = [] })
        ≡ (record { sensor_data = []; time_stamp = [] }, record { json_queue = [] }))
unfolding new_job
get_jobs-push_jobs_example =
    get_jobs-push_jobs ((codes "{}", []) ∷ (codes "[1]", codes "9") ∷ [])
      (new_job (codes "[0]") (codes "8") ∷ [])

-- A round each second, before each of which a person is updated: the scene is cleared at once, then
-- left for three seconds, and cleared again.
abbrev second : ℕ → Round ℕ ℕ
second n = record { calls = updates 50 2 (person 2) ∷ []; now = n * 1000; again = n * 1000 + 1 }

clear_period_example :
    (clear (second 1 ∷ second 2 ∷ second 3 ∷ []) 0 crowd
      ≡ (4000, run_all (second 2 ∷ second 3 ∷ []) (manual_clear (run (second 1).calls crowd))))
    × (clear (second 1 ∷ second 2 ∷ second 3 ∷ second 4 ∷ []) 0 crowd ≡ (
      7000,
      manual_clear (
          run
            (second 4).calls
            (run_all (second 2 ∷ second 3 ∷ []) (manual_clear (run (second 1).calls crowd)))),
    ))
unfolding new_scene
clear_period_example =
    clear_period (second 1) (second 4) (second 2 ∷ second 3 ∷ []) 0 crowd refl (omega arith)
      (omega arith) (omega arith) (omega arith, (omega arith, tt)) (omega arith) (omega arith)
      (omega arith)

-- ===== src/Data/Queues.antt =====
-- Data/Job.h and Data/Job.cpp, Data/JobsQueue.h and Data/JobsQueue.cpp, Data/SkeletonsQueue.h and
-- Data/SkeletonsQueue.cpp. The mutex makes each call on the queue of jobs one step.
pub mod Order
use minority_viewport.Base.{
  ℕ, ◌%◌, ◌^◌, Bool, true, false, ◌&&◌, List, [], ◌∷◌, ◌++◌, Bytes, length, Result, ok, err,
  undefined, if◌then◌else◌,
}
use minority_viewport.Data.Skeleton.{Skeleton}

pub record Job : Type 0 where
  pub sensor_data : Bytes
  pub time_stamp : Bytes

abbrev pub is_given : Bytes → Bool
is_given [] = false
is_given (c ∷ cs) = true

-- The constructor: without data or without a time stamp both stay empty.
unfoldable pub new_job : Bytes → Bytes → Job
new_job i_sensor_data i_time_stamp =
    if is_given i_sensor_data && is_given i_time_stamp
    then record { sensor_data = i_sensor_data; time_stamp = i_time_stamp }
    else record { sensor_data = []; time_stamp = [] }

-- The front of a queue comes first.
pub record JobsQueue : Type 0 where
  pub json_queue : List Job

unfoldable pub new_jobs_queue : JobsQueue
new_jobs_queue = record { json_queue = [] }

unfoldable pub push_job : Bytes → Bytes → JobsQueue → JobsQueue
push_job object time_stamp q =
    if is_given object && is_given time_stamp
    then record { json_queue = q.json_queue ++ new_job object time_stamp ∷ [] }
    else q

unfoldable pub get_job : JobsQueue → Job × JobsQueue
get_job q = elim q.json_queue [
  | [] ↦ (new_job [] [], q)
  | job ∷ jobs ↦ (job, record { json_queue = jobs })
]

module _ (D : Type 0) where
  pub record SkeletonsQueue : Type 0 where
    pub skeleton_queue : List (Skeleton D)

module _ {D : Type 0} where
  unfoldable pub new_skeletons_queue : SkeletonsQueue D
  new_skeletons_queue = record { skeleton_queue = [] }

  unfoldable pub push_skeleton : Skeleton D → SkeletonsQueue D → SkeletonsQueue D
  push_skeleton s q = record { skeleton_queue = q.skeleton_queue ++ s ∷ [] }

  -- `front()` of an empty queue is undefined.
  unfoldable pub pop_skeleton : SkeletonsQueue D → Result (Skeleton D × SkeletonsQueue D)
  pop_skeleton q = elim q.skeleton_queue [
    | [] ↦ err undefined
    | s ∷ ss ↦ ok (s, record { skeleton_queue = ss })
  ]

  -- An `unsigned int`.
  unfoldable pub get_size : SkeletonsQueue D → ℕ
  get_size q = length q.skeleton_queue % 2 ^ 32

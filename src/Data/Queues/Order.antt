-- ===== src/Data/Queues/Order.antt =====
-- The queues are first in, first out.
use minority_viewport.Base.{
  ℕ, zero, suc, ◌&&◌, List, [], ◌∷◌, ◌++◌, append_assoc, append-nil, Bytes, length, Result, ok, err,
  undefined, ◌>>=◌, if◌then◌else◌, ◌≡◌, refl, ◌∙◌, Bool-cases, inl, inr,
}
use minority_viewport.Data.Skeleton.{Skeleton}
use minority_viewport.Data.Queues.{
  Job, is_given, new_job, JobsQueue, push_job, get_job, SkeletonsQueue, push_skeleton, pop_skeleton,
}

-- The calls of `push`, each with an object and a time stamp, in their order.
abbrev pub push_jobs : List (Bytes × Bytes) → JobsQueue → JobsQueue
push_jobs [] q = q
push_jobs ((object, time_stamp) ∷ os) q = push_jobs os (push_job object time_stamp q)

-- The jobs that a queue should take of them: those with data and a time stamp.
abbrev pub accepted : List (Bytes × Bytes) → List Job
accepted [] = []
accepted ((object, time_stamp) ∷ os) =
    if is_given object && is_given time_stamp
    then record { sensor_data = object; time_stamp = time_stamp } ∷ accepted os
    else accepted os

-- So many calls of `get`: their answers and the queue after them.
abbrev pub get_jobs : ℕ → JobsQueue → List Job × JobsQueue
get_jobs zero q = ([], q)
get_jobs (suc n) q =
    let (job, q') = get_job q in let (jobs, q'') = get_jobs n q' in (job ∷ jobs, q'')

push_jobs-accepted :
    (os : List (Bytes × Bytes)) (jobs : List Job)
    → push_jobs os (record { json_queue = jobs }) ≡ record { json_queue = jobs ++ accepted os }
unfolding push_job new_job
push_jobs-accepted [] jobs = rw (append-nil jobs)
push_jobs-accepted ((object, time_stamp) ∷ os) jobs =
    elim (Bool-cases (is_given object && is_given time_stamp)) [
      | inl e ↦ rw e (push_jobs-accepted os _ ∙ rw append_assoc refl)
      | inr e ↦ rw e (push_jobs-accepted os jobs)
    ]

get_jobs-all :
    (jobs : List Job)
    → get_jobs (length jobs) (record { json_queue = jobs }) ≡ (jobs, record { json_queue = [] })
unfolding get_job
get_jobs-all [] = refl
get_jobs-all (job ∷ jobs) = rw (get_jobs-all jobs)

-- Whatever is pushed on a queue of jobs, as many calls of get as there are jobs then, those that were
-- there and those pushed with data and a time stamp, answer with these in the order in which they
-- came; the queue is empty after that, and the next call answers with an empty job and leaves it so.
pub get_jobs-push_jobs :
    (os : List (Bytes × Bytes)) (jobs : List Job)
    → (get_jobs (length (jobs ++ accepted os)) (push_jobs os (record { json_queue = jobs }))
        ≡ (jobs ++ accepted os, record { json_queue = [] }))
      × (get_job (record { json_queue = [] })
          ≡ (record { sensor_data = []; time_stamp = [] }, record { json_queue = [] }))
unfolding get_job new_job
get_jobs-push_jobs os jobs = (rw (push_jobs-accepted os jobs) (get_jobs-all _), refl)

module _ {D : Type 0} where
  abbrev pub push_skeletons : List (Skeleton D) → SkeletonsQueue D → SkeletonsQueue D
  push_skeletons [] q = q
  push_skeletons (s ∷ ss) q = push_skeletons ss (push_skeleton s q)

  -- So many calls of `pop`.
  abbrev pub pop_skeletons : ℕ → SkeletonsQueue D → Result (List (Skeleton D) × SkeletonsQueue D)
  pop_skeletons zero q = ok ([], q)
  pop_skeletons (suc n) q = do
    (s, q') ← pop_skeleton q
    (ss, q'') ← pop_skeletons n q'
    ok (s ∷ ss, q'')

  push_skeletons-append :
      (ss ts : List (Skeleton D))
      → push_skeletons ss (record { skeleton_queue = ts }) ≡ record { skeleton_queue = ts ++ ss }
  unfolding push_skeleton
  push_skeletons-append [] ts = rw (append-nil ts)
  push_skeletons-append (s ∷ ss) ts = push_skeletons-append ss _ ∙ rw append_assoc refl

  pop_skeletons-all :
      (ss : List (Skeleton D))
      → pop_skeletons (length ss) (record { skeleton_queue = ss })
        ≡ ok (ss, record { skeleton_queue = [] })
  unfolding pop_skeleton
  pop_skeletons-all [] = refl
  pop_skeletons-all (s ∷ ss) = rw (pop_skeletons-all ss)

  -- The skeletons pushed on a queue are popped behind those that were there, in the order in which
  -- they came, and one call of pop more is undefined.
  pub pop_skeletons-push_skeletons :
      (ss ts : List (Skeleton D))
      → (pop_skeletons (length (ts ++ ss)) (push_skeletons ss (record { skeleton_queue = ts }))
          ≡ ok (ts ++ ss, record { skeleton_queue = [] }))
        × (pop_skeleton {D = D} (record { skeleton_queue = [] }) ≡ err undefined)
  unfolding pop_skeleton
  pop_skeletons-push_skeletons ss ts =
      (rw (push_skeletons-append ss ts) (pop_skeletons-all _), refl)

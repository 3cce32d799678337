-- ===== src/Api/Jobs/Accepted.antt =====
-- The life of an operation of internal/api/, from the request to the end of its task.
use mathlib.Core.Path.{subst}
use beanstore.Base.{
  ◌≡◌, ◌≢◌, refl, ap, sym, ◌∙◌, ℕ, ◌==◌, String, Bool, true, false, ◌||◌, not, none, some, List, [],
  ◌∷◌, str_eq,
}
use beanstore.Base.Exec.{ok}
use beanstore.Operations.{Table, get, pending_op}
use beanstore.Operations.Phases.{Call, run, run-Known}
use beanstore.Operations.Endings.{Ended}
use beanstore.Storage.Volume.{Volume, volume_exists}
use beanstore.Storage.Verbs.{mark_deleting}
use beanstore.Storage.Pushes.{mark_pushing}
use beanstore.Api.Status.{invalid_argument, already_exists, internal, answer_code, volume_error}
use beanstore.Api.Names.{is_volume_id, is_target_address}
use beanstore.Api.Reservations.{is_reserved}
use beanstore.Api.Server.{Daemon, Server, Job, inside, or_internal, name_taken}
use beanstore.Api.Exports.{acquire_export, get_snapshot}
use beanstore.Api.Volumes.{answer_create_volume, answer_delete_volume}
use beanstore.Api.Pushing.{answer_push_volume}
use beanstore.Api.Pushing.Streams.{map_error-Keeps}
use beanstore.Api.Copies.{
  accept_free, accept_copy, answer_create_volume_from_snapshot, accept_snapshot_push,
  answer_push_snapshot,
}
use beanstore.Api.Jobs.{
  Request, create_volume, delete_volume, push_volume, create_volume_from_snapshot, push_snapshot,
  accept, run_job,
}
use beanstore.Api.Jobs.Ends.{run_job_ends}
use beanstore.Api.Jobs.Requests.{
  request_operation, Answered, quiet_rule, require_rule, begin_rule, or_fail_rule, or_refuse_rule,
  refused-Answered,
}

module _ {W : Type 0} (d : Daemon W) (t : Table) where
  create-Answered :
      (id : String) (size : ℕ) (op : String) (s : Server W)
      → s.ops ≡ t
      → Answered op t (answer_create_volume d id size op s)
  unfolding answer_create_volume or_internal inside
  create-Answered id size op s e =
      require_rule d op t (is_volume_id id) invalid_argument _ s e (λ s1 e1.
        require_rule d op t (not (size == 0)) invalid_argument _ s1 e1 (λ s2 e2.
          require_rule d op t (not (str_eq op "")) invalid_argument _ s2 e2 (λ s3 e3.
            quiet_rule d op t (or_internal (volume_exists d.lvm d.cfg id)) _ s3 e3
              (map_error-Keeps (λ s'. s'.ops ≡ s3.ops) (λ _. answer_code internal)
                (inside (volume_exists d.lvm d.cfg id)) (λ s' k. k) s3 refl)
              (λ exists s4 e4.
                require_rule d op t (not (exists || is_reserved (id ∷ []) s4.reserved))
                  already_exists _ s4 e4
                  (λ s5 e5. begin_rule d op t _ s5 e5 (λ s6 new now. (refl, new, now)))))))

  delete-Answered :
      (id : String) (force : Bool) (op : String) (s : Server W)
      → s.ops ≡ t
      → Answered op t (answer_delete_volume d id force op s)
  unfolding answer_delete_volume inside
  delete-Answered id force op s e =
      require_rule d op t (is_volume_id id) invalid_argument _ s e (λ s1 e1.
        require_rule d op t (not (str_eq op "")) invalid_argument _ s1 e1 (λ s2 e2.
          begin_rule d op t _ s2 e2 (λ s3 new now.
            or_fail_rule d op t (λ s'. inside (mark_deleting d.lvm d.cfg s'.pins id force) s') _ s3
              new now refl (λ snapshots s4 still. (refl, new, still)))))

  push-Answered :
      (id transfer_id target op : String) (s : Server W)
      → s.ops ≡ t
      → Answered op t (answer_push_volume d id transfer_id target op s)
  unfolding answer_push_volume inside
  push-Answered id transfer_id target op s e =
      require_rule d op t (is_volume_id id) invalid_argument _ s e (λ s1 e1.
        require_rule d op t (is_volume_id transfer_id) invalid_argument _ s1 e1 (λ s2 e2.
          require_rule d op t (is_target_address target) invalid_argument _ s2 e2 (λ s3 e3.
            require_rule d op t (not (str_eq op "")) invalid_argument _ s3 e3 (λ s4 e4.
              begin_rule d op t _ s4 e4 (λ s5 new now.
                or_fail_rule d op t (inside (mark_pushing d.lvm d.cfg id transfer_id target)) _ s5
                  new now refl (λ _ s6 still. (refl, new, still)))))))

  accept_free-Answered :
      (exists : Bool) (id snapshot_id op : String) (size : ℕ) (s : Server W)
      → get op t ≡ none
      → get op s.ops ≡ some pending_op
      → Answered op t (accept_free d exists id snapshot_id op size s)
  unfolding accept_free
  accept_free-Answered true id snapshot_id op size s new now =
      refused-Answered d op t snapshot_id name_taken (answer_code already_exists) s new now
  accept_free-Answered false id snapshot_id op size s new now = (refl, new, now)

  accept_copy-Answered :
      (id snapshot_id op : String) (s : Server W)
      → get op t ≡ none
      → get op s.ops ≡ some pending_op
      → Answered op t (accept_copy d id snapshot_id op s)
  unfolding accept_copy acquire_export
  accept_copy-Answered id snapshot_id op s new now =
      or_refuse_rule d op t snapshot_id volume_error (get_snapshot d snapshot_id) _
        (acquire_export snapshot_id s) new now
        (λ (volume : Volume) s1 now1.
          or_refuse_rule d op t snapshot_id (λ _. answer_code internal)
            (volume_exists d.lvm d.cfg id) _ s1 new now1
            (λ exists s2 now2.
              accept_free-Answered exists id snapshot_id op volume.size_bytes s2 new now2))

  copy-Answered :
      (id snapshot_id op : String) (s : Server W)
      → s.ops ≡ t
      → Answered op t (answer_create_volume_from_snapshot d id snapshot_id op s)
  unfolding answer_create_volume_from_snapshot
  copy-Answered id snapshot_id op s e =
      require_rule d op t (is_volume_id id) invalid_argument _ s e (λ s1 e1.
        require_rule d op t (is_volume_id snapshot_id) invalid_argument _ s1 e1 (λ s2 e2.
          require_rule d op t (not (str_eq op "")) invalid_argument _ s2 e2 (λ s3 e3.
            begin_rule d op t (accept_copy d id snapshot_id op) s3 e3
              (accept_copy-Answered id snapshot_id op))))

  accept_snapshot_push-Answered :
      (id transfer_id target op : String) (s : Server W)
      → get op t ≡ none
      → get op s.ops ≡ some pending_op
      → Answered op t (accept_snapshot_push d id transfer_id target op s)
  unfolding accept_snapshot_push acquire_export
  accept_snapshot_push-Answered id transfer_id target op s new now =
      or_refuse_rule d op t id volume_error (get_snapshot d id) _ (acquire_export id s) new now
        (λ volume s1 now1. (refl, new, now1))

  push_snapshot-Answered :
      (id transfer_id target op : String) (s : Server W)
      → s.ops ≡ t
      → Answered op t (answer_push_snapshot d id transfer_id target op s)
  unfolding answer_push_snapshot
  push_snapshot-Answered id transfer_id target op s e =
      require_rule d op t (is_volume_id id) invalid_argument _ s e (λ s1 e1.
        require_rule d op t (is_volume_id transfer_id) invalid_argument _ s1 e1 (λ s2 e2.
          require_rule d op t (is_target_address target) invalid_argument _ s2 e2 (λ s3 e3.
            require_rule d op t (not (str_eq op "")) invalid_argument _ s3 e3 (λ s4 e4.
              begin_rule d op t (accept_snapshot_push d id transfer_id target op) s4 e4
                (accept_snapshot_push-Answered id transfer_id target op)))))

module _ {W : Type 0} (d : Daemon W) where
  -- A request that starts a task is accepted only with an operation id that is new, which is then
  -- pending. A request that is refused leaves the table of operations as it was, or its id was new
  -- and its operation failed.
  pub request_answers :
      (q : Request) (s : Server W) → Answered (request_operation q) s.ops (accept d q s)
  unfolding accept
  request_answers (create_volume id size op) s = create-Answered d s.ops id size op s refl
  request_answers (delete_volume id force op) s = delete-Answered d s.ops id force op s refl
  request_answers (push_volume id transfer_id target op) s =
      push-Answered d s.ops id transfer_id target op s refl
  request_answers (create_volume_from_snapshot id snapshot_id op) s =
      copy-Answered d s.ops id snapshot_id op s refl
  request_answers (push_snapshot id transfer_id target op) s =
      push_snapshot-Answered d s.ops id transfer_id target op s refl

  -- The operation of a request that was accepted is done or failed once its task has run, whatever
  -- calls changed the table of operations before the task, in whatever state of the server it
  -- runs, and whatever lvm, the files and the target answer it.
  pub accepted_ends :
      (q : Request) (s : Server W) (j : Job) (calls : List Call) (s1 : Server W)
      → (accept d q s).0 ≡ ok j
      → s1.ops ≡ run calls (accept d q s).1.ops
      → Ended (request_operation q) (run_job d j s1).ops
  accepted_ends q s j calls s1 accepted later =
      let (same, _, now) =
        subst (λ r. Answered (request_operation q) s.ops (r, (accept d q s).1)) accepted
          (request_answers q s) in
      subst (λ op. Ended op (run_job d j s1).ops) same
        (run_job_ends d j s1 (
          subst (λ op. get op s1.ops ≢ none) (sym same)
            (λ gone.
              run-Known calls (request_operation q) (accept d q s).1.ops (λ k. cc (now, k))
                (ap (get (request_operation q)) (sym later) ∙ gone))))

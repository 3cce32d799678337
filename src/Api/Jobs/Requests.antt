-- ===== src/Api/Jobs/Requests.antt =====
-- What a request that starts a task in internal/api/ leaves in the table of operations.
use beanstore.Base.{
  ◌≡◌, refl, ap, sym, ◌∙◌, ◌⊎◌, inl, inr, String, Bool, true, false, none, some, Bool-cases,
}
use beanstore.Base.Exec.{Result, ok, err, Exec, ◌>>=◌, ◌>>◌, bind_rule, Result-cases}
use beanstore.Operations.{Table, begin, get, pending_op}
use beanstore.Operations.Phases.{begun}
use beanstore.Operations.Endings.{Failed, mark_failed-Failed}
use beanstore.Storage.Errors.{Error}
use beanstore.Storage.Pins.{release}
use beanstore.Api.Status.{Code, Status, already_exists, answer_code, volume_error}
use beanstore.Api.Server.{
  Daemon, Server, Cause, stored, Job, inside, require, begin_operation, or_fail, update_ops,
  fail_operation,
}
use beanstore.Api.Exports.{release_export}
use beanstore.Api.Copies.{refuse_pinned, or_refuse}
use beanstore.Api.Jobs.{
  Request, create_volume, delete_volume, push_volume, create_volume_from_snapshot, push_snapshot,
}
use beanstore.Api.Jobs.Ends.{job_operation}

abbrev pub request_operation : Request → String
request_operation (create_volume id size op) = op
request_operation (delete_volume id force op) = op
request_operation (push_volume id transfer_id target op) = op
request_operation (create_volume_from_snapshot id snapshot_id op) = op
request_operation (push_snapshot id transfer_id target op) = op

-- A request started a task: its id was new and is pending. Or it was refused: the table is as it
-- was, or the id was new and the operation failed.
abbrev pub Answered : {W : Type 0} → String → Table → Result Status Job × Server W → Type 0
Answered op t (ok j, s) =
    (job_operation j ≡ op) × (get op t ≡ none) × (get op s.ops ≡ some pending_op)
Answered op t (err e, s) = (s.ops ≡ t) ⊎ ((get op t ≡ none) × Failed op s.ops)

module _ {W : Type 0} (d : Daemon W) (op : String) (t : Table) where
  -- A check or a call before the operation begins.
  pub quiet_rule :
      {A : Type 0} (m : Exec (Server W) Status A) (f : A → Exec (Server W) Status Job)
      (s : Server W)
      → s.ops ≡ t
      → (m s).1.ops ≡ s.ops
      → ((a : A) (s1 : Server W) → s1.ops ≡ t → Answered op t (f a s1))
      → Answered op t ((m >>= f) s)
  quiet_rule m f s e quiet rest =
      bind_rule (Answered op t) m f s (λ a _. rest a (m s).1 (quiet ∙ e)) (λ x _. inl (quiet ∙ e))

  require-quiet : (b : Bool) (c : Code) (s : Server W) → (require b c s).1.ops ≡ s.ops
  unfolding require
  require-quiet true c s = refl
  require-quiet false c s = refl

  pub require_rule :
      (b : Bool) (c : Code) (f : Exec (Server W) Status Job) (s : Server W)
      → s.ops ≡ t
      → ((s1 : Server W) → s1.ops ≡ t → Answered op t (f s1))
      → Answered op t ((require b c >> f) s)
  require_rule b c f s e rest =
      quiet_rule (require b c) (λ _. f) s e (require-quiet b c s) (λ _ s1 k. rest s1 k)

  begin_operation-ok :
      (s : Server W) (u : Unit)
      → (begin op s.ops).0 ≡ ok u
      → begin_operation op s ≡ (ok tt, update_ops (λ x. (begin op x).1) s)
  unfolding begin_operation
  begin_operation-ok s u k = rw (k, begin_operation) refl

  begin_operation-used :
      (s : Server W) (u : Unit)
      → (begin op s.ops).0 ≡ err u
      → begin_operation op s ≡ (err (answer_code already_exists), s)
  unfolding begin_operation
  begin_operation-used s u k = rw (k, begin_operation) refl

  pub begin_rule :
      (f : Exec (Server W) Status Job) (s : Server W)
      → s.ops ≡ t
      → ((s1 : Server W) → get op t ≡ none → get op s1.ops ≡ some pending_op → Answered op t (f s1))
      → Answered op t ((begin_operation op >> f) s)
  begin_rule f s e rest = elim (Result-cases (begin op s.ops).0) [
    | inl (a, k) ↦
        let (new, now) = begun op s.ops a k in
        rw (begin_operation-ok s a k) (
          rest (update_ops (λ x. (begin op x).1) s) (ap (get op) (sym e) ∙ new)
            (unfold update_ops in now))
    | inr (x, k) ↦ rw (begin_operation-used s x k) (inl e)
  ]

  fails-Failed :
      (cause : Cause) (s : Server W)
      → get op s.ops ≡ some pending_op
      → Failed op (fail_operation d op cause s).ops
  unfolding fail_operation update_ops
  fails-Failed cause s h = mark_failed-Failed op _ s.ops (λ k. cc (h, k))

  or_fail-ok :
      {A : Type 0} (m : Exec (Server W) Error A) (s : Server W) (a : A)
      → (m s).0 ≡ ok a
      → or_fail d op m s ≡ (ok a, (m s).1)
  unfolding or_fail
  or_fail-ok m s a k = rw (k, or_fail) refl

  or_fail-err :
      {A : Type 0} (m : Exec (Server W) Error A) (s : Server W) (x : Error)
      → (m s).0 ≡ err x
      → or_fail d op m s ≡ (err (volume_error x), fail_operation d op (stored x) (m s).1)
  unfolding or_fail
  or_fail-err m s x k = rw (k, or_fail) refl

  -- A call whose error fails the operation.
  pub or_fail_rule :
      {A : Type 0} (m : Exec (Server W) Error A) (f : A → Exec (Server W) Status Job) (s : Server W)
      → get op t ≡ none
      → get op s.ops ≡ some pending_op
      → (m s).1.ops ≡ s.ops
      → ((a : A) (s1 : Server W) → get op s1.ops ≡ some pending_op → Answered op t (f a s1))
      → Answered op t ((or_fail d op m >>= f) s)
  or_fail_rule m f s new now quiet rest =
      let still : get op (m s).1.ops ≡ some pending_op = ap (get op) quiet ∙ now in
      elim (Result-cases (m s).0) [
        | inl (a, k) ↦ rw (or_fail-ok m s a k) (rest a (m s).1 still)
        | inr (x, k) ↦ rw (or_fail-err m s x k) (inr (new, fails-Failed (stored x) (m s).1 still))
      ]

  release_export-ops : (id : String) (s : Server W) → (release_export d id s).ops ≡ s.ops
  unfolding release_export
  release_export-ops id s = elim (Bool-cases (release id s.pins).0) [
    | inl last ↦ rw last refl
    | inr more ↦ rw more refl
  ]

  pub refused-Answered :
      (id : String) (cause : Cause) (answer : Status) (s : Server W)
      → get op t ≡ none
      → get op s.ops ≡ some pending_op
      → Answered op t (refuse_pinned d id op cause answer s)
  unfolding refuse_pinned
  refused-Answered id cause answer s new now = inr (
    new,
    fails-Failed cause (release_export d id s) (ap (get op) (release_export-ops id s) ∙ now),
  )

  or_refuse-ok :
      {A : Type 0} (id : String) (answer : Error → Status) (m : Exec W Error A) (s : Server W)
      (a : A)
      → (m s.world).0 ≡ ok a
      → or_refuse d id op answer m s ≡ (ok a, (inside m s).1)
  unfolding or_refuse inside
  or_refuse-ok id answer m s a k = rw (k, or_refuse) refl

  or_refuse-err :
      {A : Type 0} (id : String) (answer : Error → Status) (m : Exec W Error A) (s : Server W)
      (x : Error)
      → (m s.world).0 ≡ err x
      → or_refuse d id op answer m s ≡ refuse_pinned d id op (stored x) (answer x) (inside m s).1
  unfolding or_refuse inside
  or_refuse-err id answer m s x k = rw (k, or_refuse) refl

  -- A call behind the pin, whose error gives the pin back and fails the operation.
  pub or_refuse_rule :
      {A : Type 0} (id : String) (answer : Error → Status) (m : Exec W Error A)
      (f : A → Exec (Server W) Status Job) (s : Server W)
      → get op t ≡ none
      → get op s.ops ≡ some pending_op
      → ((a : A) (s1 : Server W) → get op s1.ops ≡ some pending_op → Answered op t (f a s1))
      → Answered op t ((or_refuse d id op answer m >>= f) s)
  or_refuse_rule id answer m f s new now rest = elim (Result-cases (m s.world).0) [
    | inl (a, k) ↦
        rw (or_refuse-ok id answer m s a k) (rest a (inside m s).1 (unfold inside in now))
    | inr (x, k) ↦ rw (or_refuse-err id answer m s x k) (
        unfold refuse_pinned in
        refused-Answered id (stored x) (answer x) (inside m s).1 new (unfold inside in now))
  ]

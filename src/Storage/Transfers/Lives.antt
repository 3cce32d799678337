-- ===== src/Storage/Transfers/Lives.antt =====
-- The life of an inbound transfer in internal/storage/transfers.go.
use mathlib.Core.Path.{subst}
use beanstore.Base.{
  ◌≡◌, refl, sym, ap, ◌∙◌, String, true, false, ◌||◌, none, some, List, ◌∷◌, contains, eq_refl,
  if◌then◌else◌, arith, Bool-cases, Option-cases, inl, inr, ◌⊎◌, ◌≤◌,
}
use beanstore.Base.StringMap.{lookup, lookup-erase}
use beanstore.Base.Exec.{Result, ok, err, Exec, pure, bind_ok_then}
use beanstore.Config.{Config}
use beanstore.Lvm.Types.{no_common}
use beanstore.Storage.Volume.{lv_name}
use beanstore.Lvm.Interface.{Lvm}
use beanstore.Storage.Errors.{wrap, Error, transfer_unknown, transfer_busy, digest_mismatch}
use beanstore.Storage.Digest.{Bytes}
use beanstore.Storage.Reader.{Files, io}
use beanstore.Storage.Transfers.{commit_options, equal_bytes, Session, Transfers, finish}
use beanstore.Storage.Transfers.Gaps.{digest_of_session, received_digest_lem}
use beanstore.Storage.Transfers.Handlers.{
  Node, outside, update, destroy, or_destroy, commit_volume, commit_answer, received_digest, commit,
}

contains_head : (id : String) (l : List String) → contains id (id ∷ l) ≡ true
unfolding contains
contains_head id l = ground (arith, eq_refl id)

-- A transfer that has ended.
record Ended (id : String) (t : Transfers) : Type 0 where
  gone : lookup id t.sessions ≡ none
  done : contains id t.committed ≡ true

finish-Ended :
    (id : String) (t : Transfers) → Ended id (finish id (record t { committed = id ∷ t.committed }))
unfolding finish
finish-Ended id t = elim (Option-cases (lookup id t.sessions)) [
  | inl e ↦ rw (e, finish) (record { gone = e; done = contains_head id t.committed })
  | inr (s, e) ↦
      rw (e, finish)
        (record {
          gone =
              lookup-erase id id t.sessions
              ∙ ap (λ b. if b then none else lookup id t.sessions) (eq_refl id);
          done = contains_head id t.committed;
        })
]

answer_ok :
    {W : Type 0} (id : String) (e : Error) (n : Node W)
    → (commit_answer id e n).0 ≡ ok tt
    → (contains id n.table.committed ≡ true) × ((commit_answer id e n).1 ≡ n)
unfolding commit_answer
answer_ok id e n h = elim (Bool-cases (contains id n.table.committed)) [
  | inl c ↦ (c, rw c refl)
  | inr d ↦ absurd (cc (h, d))
]

update-Ended :
    {W : Type 0} (id : String) (n : Node W)
    → Ended id (update (λ t. finish id (record t { committed = id ∷ t.committed })) n).1.table
unfolding update
update-Ended id n = finish-Ended id n.table

module _ {W : Type 0} (lvm : Lvm W) (cfg : Config) (sha256 : Bytes → Bytes) (files : Files W) where
  abbrev sync_step : String → Session → Exec (Node W) Error Unit
  sync_step id s =
      or_destroy lvm cfg id (if s.device_open then outside (io (files.sync s.path)) else pure tt)

  abbrev deactivate_step : String → Session → Exec (Node W) Error Unit
  deactivate_step id s =
      or_destroy lvm cfg id (outside (wrap (lvm.deactivate (lv_name cfg s.volume_id) no_common)))

  abbrev retag_step : String → Session → Exec (Node W) Error Unit
  retag_step id s =
      or_destroy lvm cfg id
        (outside (wrap (lvm.change (lv_name cfg s.volume_id) (commit_options id))))

  commit_volume-Ended :
      (id : String) (s : Session) (n : Node W)
      → (commit_volume lvm cfg files id s n).0 ≡ ok tt
      → Ended id (commit_volume lvm cfg files id s n).1.table
  unfolding commit_volume
  commit_volume-Ended id s n h = bind_ok_then (sync_step id s) _ n tt h (λ _ _ h1 e1.
      bind_ok_then (deactivate_step id s) _ _ tt h1 (λ _ _ h2 e2.
        bind_ok_then (retag_step id s) _ _ tt h2 (λ _ _ h3 e3.
          subst (λ (r : Result Error Unit × Node W). Ended id r.1.table) (sym (e1 ∙ e2 ∙ e3))
            (update-Ended id _))))

  abbrev commits : String → Bytes → Exec (Node W) Error Unit
  commits = commit lvm cfg sha256 files

  commit_gone :
      (id : String) (d : Bytes) (n : Node W)
      → lookup id n.table.sessions ≡ none
      → commits id d n ≡ commit_answer id (transfer_unknown id) n
  unfolding commit
  commit_gone id d n h = rw (h, commit) refl

  commit_held :
      (id : String) (d : Bytes) (n : Node W) (s : Session)
      → lookup id n.table.sessions ≡ some s
      → s.terminal || s.streaming ≡ true
      → commits id d n
        ≡ commit_answer id (if s.streaming then transfer_busy id else transfer_unknown id) n
  unfolding commit
  commit_held id d n s h k = rw (h, commit) (rw k refl)

  commit_matched :
      (id : String) (d : Bytes) (n : Node W) (s : Session)
      → lookup id n.table.sessions ≡ some s
      → s.terminal || s.streaming ≡ false
      → equal_bytes (received_digest sha256 s) d ≡ true
      → commits id d n ≡ commit_volume lvm cfg files id s n
  unfolding commit
  commit_matched id d n s h k m = rw (h, commit) (rw (k, m) refl)

  commit_mismatched :
      (id : String) (d : Bytes) (n : Node W) (s : Session)
      → lookup id n.table.sessions ≡ some s
      → s.terminal || s.streaming ≡ false
      → equal_bytes (received_digest sha256 s) d ≡ false
      → commits id d n ≡ (err (digest_mismatch id), destroy lvm cfg id n)
  unfolding commit
  commit_mismatched id d n s h k m = rw (h, commit) (rw (k, m) refl)

  -- How a commit succeeds: it had been committed, or the digest matched and it has ended.
  abbrev Committed : String → Bytes → Node W → Node W → Type 0
  Committed id d n n' =
      ((contains id n.table.committed ≡ true)
        × (n' ≡ n)
        × ((lookup id n.table.sessions ≡ none)
            ⊎ ((s : Session) × (lookup id n.table.sessions ≡ some s)
                × (s.terminal || s.streaming ≡ true))))
      ⊎ (((s : Session) × (lookup id n.table.sessions ≡ some s)
            × (s.terminal || s.streaming ≡ false)
            × (equal_bytes (received_digest sha256 s) d ≡ true))
          × Ended id n'.table)

  commit-Committed :
      (id : String) (d : Bytes) (n : Node W)
      → (commits id d n).0 ≡ ok tt
      → Committed id d n (commits id d n).1
  commit-Committed id d n h = elim (Option-cases (lookup id n.table.sessions)) [
    | inl gone ↦
        let e = commit_gone id d n gone in
        let (c, same) = answer_ok id (transfer_unknown id) n (ap (λ r. r.0) (sym e) ∙ h) in
        inl (c, ap (λ r. r.1) e ∙ same, inl gone)
    | inr (s, at) ↦ elim (Bool-cases (s.terminal || s.streaming)) [
      | inl held ↦
          let e = commit_held id d n s at held in
          let (c, same) = answer_ok id _ n (ap (λ r. r.0) (sym e) ∙ h) in
          inl (c, ap (λ r. r.1) e ∙ same, inr (s, at, held))
      | inr free ↦ elim (Bool-cases (equal_bytes (received_digest sha256 s) d)) [
        | inl match_d ↦
            let e = commit_matched id d n s at free match_d in
            inr (
              (s, at, free, match_d),
              subst (λ (r : Result Error Unit × Node W). Ended id r.1.table) (sym e)
                  (commit_volume-Ended id s n (ap (λ r. r.0) (sym e) ∙ h)),
            )
        | inr bad ↦ absurd (cc (h, commit_mismatched id d n s at free bad))
      ]
    ]
  ]

  answer_committed :
      (id : String) (e : Error) (n : Node W)
      → contains id n.table.committed ≡ true
      → commit_answer id e n ≡ (ok tt, n)
  unfolding commit_answer
  answer_committed id e n h = rw h refl

  -- A commit that succeeded can be repeated, with any digest: it succeeds again and changes
  -- nothing, on the table and in the world.
  pub commit_repeats :
      (id : String) (d d' : Bytes) (n : Node W)
      → (commit lvm cfg sha256 files id d n).0 ≡ ok tt
      → commit lvm cfg sha256 files id d' (commit lvm cfg sha256 files id d n).1
        ≡ (ok tt, (commit lvm cfg sha256 files id d n).1)
  commit_repeats id d d' n h = elim (commit-Committed id d n h) [
    | inl (c, same, inl gone) ↦ rw same (commit_gone id d' n gone ∙ answer_committed id _ n c)
    | inl (c, same, inr (s, at, held)) ↦
        rw same (commit_held id d' n s at held ∙ answer_committed id _ n c)
    | inr (_, ended) ↦ commit_gone id d' _ ended.gone ∙ answer_committed id _ _ ended.done
  ]

  -- A transfer that was not committed before, of a volume of at most 2^64 - 2^20 bytes, commits
  -- only if it has a session without a stream, and the digest that the caller gives is the one over
  -- the chunks that the session hashed, a chunk of zeros for each further chunk of the volume up to
  -- its end, and the volume's size; and then it has no session any more and counts as committed.
  pub commit_checks :
      (id : String) (d : Bytes) (n : Node W)
      → contains id n.table.committed ≡ false
      → ((s : Session) → lookup id n.table.sessions ≡ some s → s.size_bytes ≤ 18446744073708503040)
      → (commit lvm cfg sha256 files id d n).0 ≡ ok tt
      → ((s : Session) × (lookup id n.table.sessions ≡ some s)
          × (s.streaming ≡ false)
          × (equal_bytes (digest_of_session sha256 s) d ≡ true))
        × (lookup id (commit lvm cfg sha256 files id d n).1.table.sessions ≡ none)
        × (contains id (commit lvm cfg sha256 files id d n).1.table.committed ≡ true)
  commit_checks id d n fresh fits h = elim (commit-Committed id d n h) [
    | inl (c, _, _) ↦ absurd (cc (c, fresh))
    | inr ((s, at, free, same), ended) ↦ (
      (
        s,
        at,
        ground arith,
        ap (λ (x : Bytes). equal_bytes x d) (sym (received_digest_lem sha256 s (fits s at))) ∙ same,
      ),
      ended.gone,
      ended.done,
    )
  ]

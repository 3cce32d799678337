-- ===== src/Storage/Transfers/Limit.antt =====
-- The limit on the inbound transfers of internal/storage/transfers.go.
use beanstore.Base.{
  ◌≡◌, refl, sym, ap, ◌∙◌, suc, ◌≤◌, String, Bool, some, [], ◌∷◌, eq_iff, arith, Option-cases, inl,
  inr,
}
use beanstore.Base.StringMap.{StringMap, lookup, insert, erase, lookup-insert}
use beanstore.Base.Exec.{ok, err, Exec, ◌>>=◌, bind_rule, Result-cases}
use beanstore.Base.Keeps.{Keeps}
use beanstore.Config.{Config}
use beanstore.Lvm.Interface.{Lvm}
use beanstore.Storage.Errors.{Error}
use beanstore.Storage.Transfers.{
  Session, Transfers, live_sessions, live_session, finish, put_session,
}
use beanstore.Storage.Transfers.Handlers.{Node, outside, update, destroy, or_destroy, or_finish}

live-erase : (id : String) (m : StringMap Session) → live_sessions (erase id m) ≤ live_sessions m
unfolding live_sessions erase
live-erase id [] = omega arith
live-erase id ((j, v) ∷ m) = ground (arith, live-erase id m)

-- A session that replaces one with the same flag does not count twice.
live-replace :
    (id : String) (s s' : Session) (m : StringMap Session)
    → lookup id m ≡ some s
    → s'.terminal ≡ s.terminal
    → live_sessions (insert id s' m) ≤ live_sessions m
unfolding live_sessions erase insert lookup
live-replace id s s' [] h e = absurd (cc h)
live-replace id s s' ((j, v) ∷ m) h e = ground (arith, live-replace id s s' m, live-erase id m)

pub live-insert :
    (id : String) (s : Session) (m : StringMap Session)
    → live_sessions (insert id s m) ≤ suc (live_sessions m)
unfolding live_sessions insert
live-insert id s m = ground (arith, live-erase id m)

pub lookup-put :
    (id : String) (s : Session) (t : Transfers) → lookup id (put_session id s t).sessions ≡ some s
unfolding put_session
lookup-put id s t = lookup-insert id id s t.sessions ∙ rw ((eq_iff id id).1 refl) refl

module _ (cfg : Config) where
  abbrev pub IsWithin : Transfers → Type 0
  IsWithin t = live_sessions t.sessions ≤ cfg.max_inbound_transfers

  -- Within the limit, with a session of this flag under the id.
  abbrev pub IsHeld : String → Bool → Transfers → Type 0
  IsHeld id b t =
      IsWithin t × ((s : Session) × ((lookup id t.sessions ≡ some s) × (s.terminal ≡ b)))

  pub put-IsHeld :
      (id : String) (b : Bool) (s : Session) (t : Transfers)
      → s.terminal ≡ b
      → IsHeld id b t
      → IsHeld id b (put_session id s t)
  unfolding put_session
  put-IsHeld id b s t e (w, (s0, (at, e0))) =
      let k = live-replace id s0 s t.sessions at (e ∙ sym e0) in
      (omega arith, (s, (lookup-put id s t, e)))

  pub finish-IsWithin : (id : String) (t : Transfers) → IsWithin t → IsWithin (finish id t)
  unfolding finish
  finish-IsWithin id t w = elim (Option-cases (lookup id t.sessions)) [
    | inl e ↦ rw (e, finish) w
    | inr (s, e) ↦ rw (e, finish) (let k = live-erase id t.sessions in omega arith)
  ]

  module _ {W : Type 0} where
    pub outside-Keeps :
        {A : Type 0} (P : Transfers → Type 0) (m : Exec W Error A)
        → Keeps (λ n. P n.table) (outside m)
    unfolding outside
    outside-Keeps P m n h = h

    pub update-Keeps :
        (P : Transfers → Type 0) (f : Transfers → Transfers)
        → ((t : Transfers) → P t → P (f t))
        → Keeps {S = Node W} (λ n. P n.table) (update f)
    unfolding update
    update-Keeps P f k n h = k n.table h

    -- A guarded first call: `g` ends as `m` does where `m` succeeds, and within the limit where not.
    guarded_then :
        {A B : Type 0} (g m : Exec (Node W) Error A) (f : A → Exec (Node W) Error B) (n : Node W)
        → ((a : A) → (m n).0 ≡ ok a → g n ≡ (ok a, (m n).1))
        → ((x : Error) → (m n).0 ≡ err x → ((g n).0 ≡ err x) × IsWithin (g n).1.table)
        → ((a : A) → IsWithin (f a (m n).1).1.table)
        → IsWithin ((g >>= f) n).1.table
    guarded_then g m f n ko ke kf = elim (Result-cases (m n).0) [
      | inl (a, e) ↦
          bind_rule (λ r. IsWithin r.1.table) g f n (λ b k. rw (ap (λ r. r.1) (ko a e)) (kf b))
            (λ x k. absurd (cc (k, ap (λ r. r.0) (ko a e))))
      | inr (x, e) ↦
          bind_rule (λ r. IsWithin r.1.table) g f n (λ b k. absurd (cc (k, (ke x e).0)))
            (λ y k. (ke x e).1)
    ]

  module _ {W : Type 0} (lvm : Lvm W) where
    pub destroy-IsWithin :
        (id : String) (n : Node W) → IsWithin n.table → IsWithin (destroy lvm cfg id n).table
    unfolding destroy
    destroy-IsWithin id n h = elim (Option-cases (live_session id n.table)) [
      | inl e ↦ rw (e, destroy) h
      | inr (s, e) ↦ rw (e, destroy) (finish-IsWithin id n.table h)
    ]

    module _ (P : Transfers → Type 0) (weaken : (t : Transfers) → P t → IsWithin t) where
      pub or_destroy_then :
          {A B : Type 0} (id : String) (m : Exec (Node W) Error A) (f : A → Exec (Node W) Error B)
          → Keeps (λ n. P n.table) m
          → ((a : A) (n : Node W) → P n.table → IsWithin (f a n).1.table)
          → (n : Node W) → P n.table
          → IsWithin ((or_destroy lvm cfg id m >>= f) n).1.table
      unfolding or_destroy
      or_destroy_then id m f km kf n h =
          guarded_then (or_destroy lvm cfg id m) m f n (λ a e. rw (e, or_destroy) refl)
            (λ x e. (
              rw (e, or_destroy) refl,
              rw (e, or_destroy) (destroy-IsWithin id (m n).1 (weaken _ (km n h))),
            ))
            (λ a. kf a (m n).1 (km n h))

      pub or_finish_then :
          {A B : Type 0} (id : String) (m : Exec (Node W) Error A) (f : A → Exec (Node W) Error B)
          → Keeps (λ n. P n.table) m
          → ((a : A) (n : Node W) → P n.table → IsWithin (f a n).1.table)
          → (n : Node W) → P n.table
          → IsWithin ((or_finish lvm cfg id m >>= f) n).1.table
      unfolding or_finish
      or_finish_then id m f km kf n h =
          guarded_then (or_finish lvm cfg id m) m f n (λ a e. rw (e, or_finish) refl)
            (λ x e. (
              rw (e, or_finish) refl,
              rw (e, or_finish) (finish-IsWithin id (m n).1.table (weaken _ (km n h))),
            ))
            (λ a. kf a (m n).1 (km n h))

-- ===== src/Storage/Node/Ends.antt =====
-- How a verb ends: what was done, what a failed command of lvm left half done, or a refusal that
-- changed nothing.
use beanstore.Base.{
  ◌≡◌, ap, sym, ◌∙◌, ◌⊎◌, inl, inr, String, Bool, true, false, Option, none, some, eq_iff,
}
use mathlib.Core.Path.{subst}
use beanstore.Base.Exec.{Result, ok, err, Exec, ◌>>=◌, bind_rule, Result-cases}
use beanstore.Lvm.Errors.{LvmError}
use beanstore.Lvm.Laws.{Entry, View}
use beanstore.Storage.State.{State, state_text, known_state, known_state-state_text}
use beanstore.Storage.Errors.{Error, lvm_failed, wrap}
use beanstore.Storage.Verbs.{is_state}
use beanstore.Storage.Node.{Same}
use beanstore.Storage.Node.Reads.{wrap-ok, wrap-err}
use beanstore.Storage.Node.Guard.{Refused}

abbrev pub Ends :
    {A : Type 0}
    → String
    → (State → Bool)
    → View
    → (A → View → Type 0)
    → (View → Type 0)
    → Result Error A
    → View
    → Type 0
Ends id test v Done Partial (ok a) v' = Done a v'
Ends id test v Done Partial (err (lvm_failed x)) v' = Same v v' ⊎ Partial v'
Ends id test v Done Partial (err x) v' = Same v v' × Refused id test v x

pub Refused-Ends :
    {A : Type 0} (id : String) (test : State → Bool) (v v' : View) (Done : A → View → Type 0)
    (Partial : View → Type 0) (x : Error)
    → Same v v'
    → Refused id test v x
    → Ends id test v Done Partial (err x) v'
Refused-Ends id test v v' Done Partial (lvm_failed x) s r = inl s
Refused-Ends id test v v' Done Partial _ s r = (s, r)

pub is_state-eq : (a b : State) → is_state a b ≡ true → a ≡ b
unfolding is_state
is_state-eq a b h =
    sym (known_state-state_text a)
    ∙ ap known_state ((eq_iff (state_text a) (state_text b)).0 h)
    ∙ known_state-state_text b

abbrev pub is_active : Option Entry → Bool
is_active none = false
is_active (some e) = e.lv.active

module _ {W A B : Type 0} where
  -- A sequence that begins with a command of lvm.
  pub wrap_rule :
      (Q : Result Error B × W → Type 0) (m : Exec W LvmError A) (f : A → Exec W Error B) (w : W)
      → ((a : A) → (m w).0 ≡ ok a → Q (f a (m w).1))
      → ((x : LvmError) → (m w).0 ≡ err x → Q (err (lvm_failed x), (m w).1))
      → Q ((wrap m >>= f) w)
  unfolding wrap
  wrap_rule Q m f w ko ke =
      bind_rule Q (wrap m) f w (λ a h. ko a (wrap-ok m w a h))
        (λ e h.
          let (x, k, h') = wrap-err m w e h in
          subst (λ (y : Error). Q (err y, (m w).1)) (sym k) (ke x h'))

module _ {W A : Type 0} where
  -- A command of lvm that ends a verb.
  pub wrap_last_rule :
      (Q : Result Error A × W → Type 0) (m : Exec W LvmError A) (w : W)
      → ((a : A) → (m w).0 ≡ ok a → Q (ok a, (m w).1))
      → ((x : LvmError) → (m w).0 ≡ err x → Q (err (lvm_failed x), (m w).1))
      → Q (wrap m w)
  unfolding wrap
  wrap_last_rule Q m w ko ke = elim (Result-cases (m w).0) [
    | inl (a, h) ↦ rw (h, wrap) (ko a h)
    | inr (x, h) ↦ rw (h, wrap) (ke x h)
  ]

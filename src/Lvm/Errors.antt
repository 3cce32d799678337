-- ===== src/Lvm/Errors.antt =====
-- lvm/errors.go: a failed command and its classification by exit code and standard error.
use beanstore.Base.{
  ℕ, ◌≡◌, refl, String, Bool, true, false, Option, none, some, List, [], ◌∷◌, ◌==◌, if◌then◌else◌,
}
use text.Mathlib.Text.{find?}

-- The sentinel errors.
pub data Kind : Type 0 where
  not_found already_exists in_use not_allowed permission invalid_command : Kind

-- A command that lvm ran and failed, one that never ran (a cancelled context), a request that
-- the library refused before it ran anything, and a report that it could not read.
pub data LvmError : Type 0 where
  exited : ℕ → String → Option Kind → LvmError
  not_run : String → LvmError
  refused : String → LvmError
  bad_report : String → LvmError

-- strings.Contains
pub has_substring : String → String → Bool
has_substring s sub = elim (find? s sub) [ none ↦ false | some _ ↦ true ]

abbrev pub stderr_patterns : List (String × Kind)
stderr_patterns =
    ("Permission denied", permission)
    ∷ (": device not found", not_found)
    ∷ ("is not in devices file", not_found)
    ∷ ("\" not found", not_found)
    ∷ ("already exists", already_exists)
    ∷ ("is already in volume group", already_exists)
    ∷ ("is used by VG", in_use)
    ∷ ("is not resizeable", not_allowed)
    ∷ ("without -ff", in_use)
    ∷ []

first_match : String → List (String × Kind) → Option Kind
first_match stderr [] = none
first_match stderr ((sub, k) ∷ rest) =
    if has_substring stderr sub then some k else first_match stderr rest

pub classify : ℕ → String → Option Kind
unfolding has_substring first_match
classify exit_code stderr =
    if exit_code == 3 then some invalid_command else first_match stderr stderr_patterns

pub Kind-discrete : Discrete Kind
Kind-discrete = hlevel

-- errors.Is(err, target) for a sentinel of this library.
unfoldable pub is_kind : LvmError → Kind → Bool
is_kind (exited _ _ (some not_found)) not_found = true
is_kind (exited _ _ (some already_exists)) already_exists = true
is_kind (exited _ _ (some in_use)) in_use = true
is_kind (exited _ _ (some not_allowed)) not_allowed = true
is_kind (exited _ _ (some permission)) permission = true
is_kind (exited _ _ (some invalid_command)) invalid_command = true
is_kind _ _ = false

test_in_use : classify 5 "  Logical volume vg/lv is used by VG x" ≡ some in_use
unfolding classify
test_in_use = refl

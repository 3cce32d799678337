-- ===== src/Lvm/Client.antt =====
-- lvm/client.go: commands as argument lists, and what runs them. The runner (the package
-- go-runner), the JSON decoder and the parser of floats are not the program's code: `Host` takes
-- them as parameters.
use beanstore.Base.{ℕ, String, Bool, true, false, Option, none, some, List, [], ◌∷◌, ◌++◌, cat}
use beanstore.Base.Exec.{Result, ok, err, Exec, fail}
use beanstore.Lvm.Types.{CommonOptions, Selector, device, name, select, all, nil_selector, Float64}
use beanstore.Lvm.Errors.{LvmError, exited, not_run, refused, classify}

-- What the runner answers when a command did not succeed.
pub data RunFailure : Type 0 where
  run_error : ℕ → String → RunFailure
  other_error : String → RunFailure

-- A row of `lvs` as the decoder fills it.
pub record RawLv : Type 0 where
  pub name : String
  pub uuid : String
  pub vg : String
  pub size : String
  pub metadata_size : String
  pub chunk_size : String
  pub attr : String
  pub tags : String
  pub pool : String
  pub origin : String
  pub path : String
  pub dm_path : String
  pub data_percent : String
  pub metadata_percent : String
  pub active : String
  pub layout : String

pub record Host (W : Type 0) : Type 0 where
  pub runner : List String → Exec W RunFailure String
  pub unmarshal_lvs : String → Option (List (List RawLv))
  pub parse_float : String → Option Float64

pub record Client : Type 0 where
  pub devices : List String
  pub autobackup : Option Bool

-- flagValue of lvm/pv.go
unfoldable pub flag_value : Bool → String
flag_value true = "y"
flag_value false = "n"

-- strings.Join with a comma
unfoldable pub join_commas : List String → String
join_commas [] = ""
join_commas (x ∷ []) = x
join_commas (x ∷ y ∷ ys) = cat x (cat "," (join_commas (y ∷ ys)))

or_default {ℓ} : {A : Type ℓ} → Option A → A → A
or_default none d = d
or_default (some a) d = a

device_flags : List String → List String
device_flags [] = []
device_flags (d ∷ ds) = "--devices" ∷ join_commas (d ∷ ds) ∷ []

unfoldable pub command : Client → String → CommonOptions → List String
unfolding or_default device_flags
command c subcommand common =
    ("lvm" ∷ subcommand ∷ []) ++ device_flags (or_default common.devices c.devices)

autobackup_flags : Option Bool → Option Bool → List String
autobackup_flags none none = []
autobackup_flags none (some b) = "-A" ∷ flag_value b ∷ []
autobackup_flags (some b) _ = "-A" ∷ flag_value b ∷ []

unfoldable pub metadata_command : Client → String → CommonOptions → List String
unfolding command autobackup_flags
metadata_command c subcommand common =
    command c subcommand common ++ autobackup_flags common.autobackup c.autobackup

-- The arguments that the target adds, or none for the nil selector.
unfoldable pub selector_args : Selector → String → Option (List String)
selector_args (device d) _ = some (d ∷ [])
selector_args (name n) _ = some (n ∷ [])
selector_args (select s) _ = some ("-S" ∷ s ∷ [])
selector_args all String.[] = some []
selector_args all (String.◌∷◌ c s) = some (String.◌∷◌ c s ∷ [])
selector_args nil_selector _ = none

module _ {W : Type 0} (h : Host W) where
  translate : RunFailure → LvmError
  translate (run_error code stderr) = exited code stderr (classify code stderr)
  translate (other_error message) = not_run message

  answer : Result RunFailure String → Result LvmError String
  unfolding translate
  answer (ok output) = ok output
  answer (err e) = err (translate e)

  -- Client.run
  unfoldable pub run : List String → Exec W LvmError String
  unfolding answer
  run cmd w = (answer (h.runner cmd w).0, (h.runner cmd w).1)

  -- `cmd, err := appendSelector(…)`, the return on its error, and the run.
  unfoldable pub run_on : List String → Selector → String → Exec W LvmError String
  run_on cmd target all_flag w = elim (selector_args target all_flag) [
    | none ↦ fail (refused "nil selector, want Device, Name, Select or All") w
    | some args ↦ run (cmd ++ args) w
  ]

-- ===== src/Privilege/Minimize.antt =====
-- `Privileges::minimize` and `Privileges::preserve` (src/privilege.rs).
use landlock_observability.Prelude.{Result, err, ok}
use landlock_observability.Privilege.Errors.{PrivilegeError}
use landlock_observability.Privilege.Kernel.{
  ◌>>◌, Kernel, Steps, CapabilitySets, setup_capabilities, check_single_threaded,
  enable_no_new_privs, clear_ambient, change_capabilities,
}
use landlock_observability.Privilege.Inspect.{preflight_minimization, clear_bounding, verify}
use landlock_observability.Privilege.Policy.{Policy, Process, drop_privileges}

abbrev pub setup : CapabilitySets
setup = record { effective = setup_capabilities; permitted = setup_capabilities; inheritable = 0 }

-- What `minimize` leaves: the process is aborted, or it goes on with a result.
pub data Minimized (S I : Type 0) : Type 0 where
  aborted : Minimized S I
  returned : S → Result (PrivilegeError I) Policy → Minimized S I

module _ {S I : Type 0} where
  -- An early return with the error, after the cleanup's drop.
  abbrev pub cleaned_up : PrivilegeError I → Process S → Minimized S I
  cleaned_up error (Process.running s) = Minimized.returned s (err error)
  cleaned_up error Process.aborted = Minimized.aborted

module _ {S I : Type 0} (k : Kernel S I) where
  -- The calls before the cleanup is armed.
  unfoldable pub prologue : Steps S I Unit
  prologue = do preflight_minimization k; check_single_threaded k; enable_no_new_privs k

  -- The calls while it is armed.
  unfoldable pub reduce : Steps S I Unit
  reduce = do
    check_single_threaded k
    clear_ambient k
    check_single_threaded k
    clear_bounding k
    check_single_threaded k
    change_capabilities k setup
    verify k setup

  -- An armed cleanup is dropped as a minimized value.
  abbrev pub after_reduce : S × Result (PrivilegeError I) Unit → Minimized S I
  after_reduce (s, ok u) = Minimized.returned s (ok Policy.minimized)
  after_reduce (s, err error) = cleaned_up error (drop_privileges k Policy.minimized s)

  abbrev pub after_prologue : S × Result (PrivilegeError I) Unit → Minimized S I
  after_prologue (s, err error) = Minimized.returned s (err error)
  after_prologue (s, ok u) = after_reduce (reduce s)

  unfoldable pub minimize : S → Minimized S I
  unfolding prologue
  minimize s = after_prologue (prologue s)

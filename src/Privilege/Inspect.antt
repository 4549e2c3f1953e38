-- ===== src/Privilege/Inspect.antt =====
-- The loop over the capabilities that the kernel knows, and what runs in it (src/privilege.rs):
-- `each_supported_capability`, `clear_bounding`, `verify` and `preflight_minimization`.
use landlock_observability.Prelude.{
  ℕ, zero, suc, Bool, false, not, ◌&&◌, ◌||◌, Option, none, some, ◌==◌,
}
use landlock_observability.Privilege.Errors.{PrivilegeErrorKind, error_message}
use landlock_observability.Privilege.Kernel.{
  CapabilitySets, contains, cap_setpcap, setup_capabilities, known_capability_bits, ◌>>=◌, ◌>>◌,
  pure, require, when, Kernel, Steps, capability, check_single_threaded, current_capabilities,
  current_no_new_privs, ambient_contains, bounding_contains, remove_bounding,
}

abbrev pub sets_equal : CapabilitySets → CapabilitySets → Bool
sets_equal a b =
    a.effective == b.effective && a.permitted == b.permitted && a.inheritable == b.inheritable

abbrev pub is_member : Option Bool → Bool
is_member none = false
is_member (some member) = member

module _ {S I : Type 0} (k : Kernel S I) where
  -- `each_supported_capability` from `index` on, `left` indices before the end. The captured
  -- variable that the action changes is passed along.
  unfoldable pub each_from : {A : Type 0} → (ℕ → A → Steps S I A) → ℕ → ℕ → A → Steps S I A
  each_from action zero index a = pure a
  each_from action (suc left) index a = elim (capability index) [
    | none ↦ pure a
    | some c ↦ do
      known ← bounding_contains k c
      elim known [
        | none ↦ pure a
        | some member ↦ do b ← action c a; each_from action left (suc index) b
      ]
  ]

  unfoldable pub each_supported_capability : {A : Type 0} → (ℕ → A → Steps S I A) → A → Steps S I A
  unfolding each_from
  each_supported_capability action a = each_from action known_capability_bits 0 a

  abbrev pub clear_one : ℕ → Unit {0} → Steps S I Unit
  clear_one c u = do member ← bounding_contains k c; when (is_member member) (remove_bounding k c)

  unfoldable pub clear_bounding : Steps S I Unit
  unfolding each_supported_capability
  clear_bounding = each_supported_capability clear_one tt

  abbrev pub verify_one : ℕ → Unit {0} → Steps S I Unit
  verify_one c u = do
    ambient ← ambient_contains k c
    require (not ambient)
        (error_message PrivilegeErrorKind.verify "the ambient capability set is not empty")
    member ← bounding_contains k c
    require (not (is_member member))
        (error_message PrivilegeErrorKind.verify "the capability bounding set is not empty")

  unfoldable pub verify : CapabilitySets → Steps S I Unit
  unfolding each_supported_capability
  verify expected = do
    set ← current_no_new_privs k
    require set (error_message PrivilegeErrorKind.verify "no_new_privs is not set")
    current ← current_capabilities k
    require (sets_equal current expected)
        (error_message PrivilegeErrorKind.verify "capability sets differ from the requested state")
    each_supported_capability verify_one tt

  abbrev pub note_member : ℕ → Bool → Steps S I Bool
  note_member c nonempty = do member ← bounding_contains k c; pure (nonempty || is_member member)

  unfoldable pub preflight_minimization : Steps S I Unit
  unfolding each_supported_capability
  preflight_minimization = do
    check_single_threaded k
    current ← current_capabilities k
    require (contains current.permitted setup_capabilities) (
        error_message PrivilegeErrorKind.missing_setup_capability
          "CAP_BPF and CAP_PERFMON must be permitted")
    nonempty ← each_supported_capability note_member false
    require (not nonempty || contains current.effective cap_setpcap) (
        error_message PrivilegeErrorKind.missing_setup_capability
          "CAP_SETPCAP is required to empty the capability bounding set")

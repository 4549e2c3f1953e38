-- ===== src/Privilege/Kernel.antt =====
-- The calls of the operating system that src/privilege.rs makes, as a parameter: each is a function
-- of a state `S` of the thread, which no code of the repository describes. Then the functions that
-- wrap one call each.
use Prim.Native.Nat.{bit_and, bit_or}
use landlock_observability.Prelude.{
  ℕ, ◌^◌, Bool, true, false, Option, none, some, List, [], ◌∷◌, Result, err, ok, map_err, ltb, ◌==◌,
  if◌then◌else◌,
}
use landlock_observability.Privilege.Errors.{
  PrivilegeError, PrivilegeErrorKind, error_message, inspect_io, inspect_errno, transition_errno,
  einval,
}

-- A `CapabilitySet` is its bits.
abbrev pub CapabilitySet : Type 0
CapabilitySet = ℕ

pub record CapabilitySets : Type 0 where
  pub effective : CapabilitySet
  pub permitted : CapabilitySet
  pub inheritable : CapabilitySet

-- `self.contains(other)`
abbrev pub contains : CapabilitySet → CapabilitySet → Bool
contains a b = bit_and a b == b

abbrev pub cap_setpcap : CapabilitySet
cap_setpcap = 2 ^ 8

-- `SETUP_CAPABILITIES`: CAP_BPF and CAP_PERFMON.
abbrev pub setup_capabilities : CapabilitySet
setup_capabilities = bit_or (2 ^ 39) (2 ^ 38)

abbrev pub known_capability_bits : ℕ
known_capability_bits = 64

abbrev pub empty_capabilities : CapabilitySets
empty_capabilities = record { effective = 0; permitted = 0; inheritable = 0 }

-- What a call does to the state and what it answers, with errors of type `E`.
abbrev pub Call : Type 0 → Type 0 → Type 0 → Type 0
Call S E A = S → S × Result E A

infixl 5 ◌>>=◌ ◌>>◌
unfoldable pub ◌>>=◌ : {S E A B : Type 0} → Call S E A → (A → Call S E B) → Call S E B
◌>>=◌ call next s =
    let (t, r) = call s in elim r [ err error ↦ (t, err error) | ok value ↦ next value t ]

abbrev pub ◌>>◌ : {S E A B : Type 0} → Call S E A → Call S E B → Call S E B
◌>>◌ call next = call >>= λ _. next

unfoldable pub pure : {S E A : Type 0} → A → Call S E A
pure value s = (s, ok value)

-- `call.map_err(convert)`
unfoldable pub with_error : {S E F A : Type 0} → (E → F) → Call S E A → Call S F A
with_error convert call s = let (t, r) = call s in (t, map_err convert r)

-- `if !condition { return Err(error) }`
unfoldable pub require : {S E : Type 0} → Bool → E → Call S E Unit
require true error s = (s, ok tt)
require false error s = (s, err error)

-- `if condition { call?; }`
unfoldable pub when : {S E : Type 0} → Bool → Call S E Unit → Call S E Unit
when true call s = call s
when false call s = (s, ok tt)

-- `read_dir("/proc/self/task")` gives the entries that its iterator will yield.
pub record Kernel (S I : Type 0) : Type 0 where
  pub read_tasks : Call S I (List (Result I Unit))
  pub capabilities : Call S ℕ CapabilitySets
  pub set_capabilities : CapabilitySets → Call S ℕ Unit
  pub no_new_privs : Call S ℕ Bool
  pub set_no_new_privs : Bool → Call S ℕ Unit
  pub clear_ambient_capability_set : Call S ℕ Unit
  pub capability_is_in_ambient_set : CapabilitySet → Call S ℕ Bool
  pub capability_is_in_bounding_set : CapabilitySet → Call S ℕ Bool
  pub remove_capability_from_bounding_set : CapabilitySet → Call S ℕ Unit

abbrev pub Steps : Type 0 → Type 0 → Type 0 → Type 0
Steps S I A = Call S (PrivilegeError I) A

-- `first.is_some() && second.is_none()`, with the error of either entry first.
abbrev pub one_task : {I : Type 0} → List (Result I Unit) → Result (PrivilegeError I) Unit
one_task [] =
    err (error_message PrivilegeErrorKind.not_single_threaded "the process is not single-threaded")
one_task (err error ∷ entries) = err (inspect_io "read /proc/self/task" error)
one_task (ok u ∷ []) = ok u
one_task (ok u ∷ err error ∷ entries) = err (inspect_io "read /proc/self/task" error)
one_task (ok u ∷ ok v ∷ entries) =
    err (error_message PrivilegeErrorKind.not_single_threaded "the process is not single-threaded")

-- `capability`: `1_u64.checked_shl(index)`.
unfoldable pub capability : ℕ → Option CapabilitySet
capability index = if ltb index known_capability_bits then some (2 ^ index) else none

abbrev pub supported : Result ℕ Bool → Result ℕ (Option Bool)
supported (ok value) = ok (some value)
supported (err error) = if error == einval then ok none else err error

module _ {S I : Type 0} (k : Kernel S I) where
  unfoldable pub check_single_threaded : Steps S I Unit
  check_single_threaded = do
    tasks ← with_error (inspect_io "read /proc/self/task") k.read_tasks
    λ s. (s, one_task tasks)

  unfoldable pub current_capabilities : Steps S I CapabilitySets
  current_capabilities = with_error (inspect_errno "read capability sets") k.capabilities

  unfoldable pub change_capabilities : CapabilitySets → Steps S I Unit
  change_capabilities sets =
      with_error (transition_errno "set capability sets") (k.set_capabilities sets)

  unfoldable pub current_no_new_privs : Steps S I Bool
  current_no_new_privs = with_error (inspect_errno "read no_new_privs") k.no_new_privs

  unfoldable pub enable_no_new_privs : Steps S I Unit
  enable_no_new_privs = with_error (transition_errno "set no_new_privs") (k.set_no_new_privs true)

  unfoldable pub clear_ambient : Steps S I Unit
  clear_ambient =
      with_error (transition_errno "clear ambient capabilities") k.clear_ambient_capability_set

  unfoldable pub ambient_contains : CapabilitySet → Steps S I Bool
  ambient_contains c =
      with_error (inspect_errno "read ambient capability set") (k.capability_is_in_ambient_set c)

  -- A capability that the kernel does not know is `none`.
  unfoldable pub bounding_contains : CapabilitySet → Steps S I (Option Bool)
  bounding_contains c =
      with_error (inspect_errno "read capability bounding set")
        (λ s. let r = k.capability_is_in_bounding_set c s in (r.0, supported r.1))

  unfoldable pub remove_bounding : CapabilitySet → Steps S I Unit
  remove_bounding c =
      with_error (transition_errno "reduce capability bounding set")
        (k.remove_capability_from_bounding_set c)

-- ===== src/Privilege/Tests.antt =====
-- Tests and concrete instances for the privileges (src/privilege.rs): a kernel with one thread and
-- 41 capabilities.
use landlock_observability.Prelude.{
  ℕ, ◌^◌, ◌-◌, ◌≡◌, ◌↔◌, ◌≢◌, refl, Bool, true, false, List, [], ◌∷◌, Result, err, ok, ◌⊎◌, inl,
  leb, ◌||◌, ◌==◌, if◌then◌else◌, arith,
}
use native.Mathlib.Nat.{pow-le-pow_right}
use landlock_observability.Privilege.Errors.{PrivilegeError}
use landlock_observability.Privilege.Kernel.{
  CapabilitySet, CapabilitySets, Kernel, empty_capabilities, ◌>>=◌, pure, require, when, with_error,
  capability, check_single_threaded, current_capabilities, change_capabilities,
  current_no_new_privs, enable_no_new_privs, clear_ambient, ambient_contains, bounding_contains,
  remove_bounding,
}
use landlock_observability.Privilege.Inspect.{
  each_from, each_supported_capability, clear_bounding, verify, preflight_minimization,
}
use landlock_observability.Privilege.Policy.{
  Policy, FinalizationMode, Process, finish_policy_with, ensure_can_prepare, removal, finish,
  production_ops, drop_privileges, drop_with,
}
use landlock_observability.Privilege.Minimize.{setup, Minimized, prologue, reduce, minimize}
use landlock_observability.Privilege.Honest.{Credentials, IsHonest}
use landlock_observability.Privilege.Guarantee.{
  FailedEarly, IsReduced, minimize-IsReduced, finish-IsReduced,
}
use landlock_observability.Privilege.Reuse.{finish_policy_with-reuse}

-- The kernel's state: what is ambient and in the bounding set is listed.
record Machine : Type 0 where
  sets : CapabilitySets
  no_new_privs : Bool
  ambient : List ℕ
  bounding : List ℕ

abbrev known_to_kernel : CapabilitySet → Bool
known_to_kernel c = leb c 4

abbrev listed : ℕ → List ℕ → Bool
listed c [] = false
listed c (d ∷ ds) = d == c || listed c ds

abbrev removed : ℕ → List ℕ → List ℕ
removed c [] = []
removed c (d ∷ ds) = if d == c then removed c ds else d ∷ removed c ds

abbrev current : Machine → Credentials
current m = record {
  sets = m.sets;
  no_new_privs = m.no_new_privs;
  ambient = λ c. listed c m.ambient;
  bounding = λ c. listed c m.bounding;
}

abbrev one_thread : Kernel Machine ℕ
one_thread = record {
  read_tasks = λ m. (m, ok (ok tt ∷ []));
  capabilities = λ m. (m, ok m.sets);
  set_capabilities = λ sets m. (record m { sets = sets }, ok tt);
  no_new_privs = λ m. (m, ok m.no_new_privs);
  set_no_new_privs = λ on m. (record m { no_new_privs = on }, ok tt);
  clear_ambient_capability_set = λ m. (record m { ambient = [] }, ok tt);
  capability_is_in_ambient_set = λ c m. (m, ok (listed c m.ambient));
  capability_is_in_bounding_set =
      λ c m. (m, if known_to_kernel c then ok (listed c m.bounding) else err 22);
  remove_capability_from_bounding_set =
      λ c m. (record m { bounding = removed c m.bounding }, ok tt);
}

one_thread-IsHonest : IsHonest one_thread current known_to_kernel
one_thread-IsHonest = record {
  no_new_privs_reads = λ s t value h. ground arith;
  capabilities_reads = λ s t value h. ground arith;
  ambient_reads = λ c s t value h. ground arith;
  bounding_reads = λ c s t value h. ground arith;
  unknown_einval = λ c s t h. ground arith;
  known_first = λ i j le h. ground (arith, pow-le-pow_right {n = 2} (omega arith) le);
}

-- All capabilities, as root has them.
abbrev root : Machine
root = record {
  sets = record { effective = 2 ^ 41 - 1; permitted = 2 ^ 41 - 1; inheritable = 0 };
  no_new_privs = false;
  ambient = 2 ∷ [];
  bounding = 1 ∷ 2 ∷ 4 ∷ [];
}

-- What `minimize` leaves of them.
abbrev reduced_from_root : Machine
reduced_from_root = record { sets = setup; no_new_privs = true; ambient = []; bounding = [] }

minimized_root :
    minimize one_thread root ≡ Minimized.returned reduced_from_root (ok Policy.minimized)
unfolding minimize prologue reduce preflight_minimization each_supported_capability each_from
    clear_bounding verify capability check_single_threaded current_capabilities change_capabilities
    current_no_new_privs enable_no_new_privs clear_ambient ambient_contains bounding_contains
    remove_bounding ◌>>=◌ pure require when with_error drop_privileges drop_with finish_policy_with
minimized_root = refl

minimize-IsReduced_example :
    let policy : Result (PrivilegeError ℕ) Policy = ok Policy.minimized in
    ((policy ≡ ok Policy.minimized) × IsReduced known_to_kernel setup (current reduced_from_root))
    ⊎ ((e : PrivilegeError ℕ) × (policy ≡ err e)
        × (FailedEarly one_thread root reduced_from_root e
            ⊎ IsReduced known_to_kernel empty_capabilities (current reduced_from_root)))
minimize-IsReduced_example =
    minimize-IsReduced one_thread current known_to_kernel one_thread-IsHonest root reduced_from_root
      (ok Policy.minimized) minimized_root

finish-IsReduced_example :
    ((t : Machine)
      → drop_privileges one_thread Policy.minimized reduced_from_root ≡ Process.running t
      → IsReduced known_to_kernel empty_capabilities (current t))
    × ((finish one_thread Policy.minimized reduced_from_root).result ≡ ok tt
        → ((finish one_thread Policy.minimized reduced_from_root).policy ≡ Policy.finished)
          × IsReduced known_to_kernel empty_capabilities
              (current (finish one_thread Policy.minimized reduced_from_root).state))
finish-IsReduced_example =
    finish-IsReduced one_thread current known_to_kernel one_thread-IsHonest Policy.minimized
      reduced_from_root (inl refl)

finish_policy_with-reuse_example :
    let o =
      finish_policy_with Policy.minimized FinalizationMode.explicit
        (production_ops one_thread)
        reduced_from_root in
    ((o.policy ≡ Policy.finished) ↔ (o.result ≡ ok tt))
    × ((ensure_can_prepare {I = ℕ} o.policy ≡ ok tt) ↔ (
        (e : PrivilegeError ℕ) × ((removal (production_ops one_thread) reduced_from_root).1 ≡ err e)
        × (o.result ≡ err e)))
    × (o.policy ≢ Policy.minimized
        → (later : Machine)
        → ((finish_policy_with o.policy FinalizationMode.explicit
              (production_ops one_thread)
              later).state
            ≡ later)
          × ((finish_policy_with o.policy FinalizationMode.explicit
                (production_ops one_thread)
                later).policy
              ≡ o.policy))
finish_policy_with-reuse_example =
    finish_policy_with-reuse (production_ops one_thread) reduced_from_root

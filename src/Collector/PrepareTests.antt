-- ===== src/Collector/PrepareTests.antt =====
-- Tests and concrete instances for the preparation (src/collector.rs, src/collector/tracepoint.rs).
use landlock_observability.Prelude.{
  ℕ, suc, ◌+◌, ◌-◌, ◌≡◌, ◌⊎◌, refl, true, false, none, some, [], ◌∷◌, err, ok, length, map, arith,
}
use landlock_observability.Privilege.Kernel.{
  Kernel, empty_capabilities, ◌>>=◌, pure, require, when, with_error, capability,
  check_single_threaded, current_capabilities, change_capabilities, current_no_new_privs,
  clear_ambient, bounding_contains,
}
use landlock_observability.Privilege.Inspect.{
  each_from, each_supported_capability, clear_bounding, verify,
}
use landlock_observability.Privilege.Policy.{Policy, finish_policy_with, finish}
use landlock_observability.Collector.Config.{CollectorConfig}
use landlock_observability.Collector.Pipe.{Pipe}
use landlock_observability.Collector.Tracepoint.{
  LoadErrorKind, generation_1_targets, generation_1_complete, generation_1_is_missing, position,
  generation_1_target_bit, mark_generation_1_target, scan,
}
use landlock_observability.Collector.Prepare.{
  Libbpf, PreparedResources, CollectorPrepareError, prepare_collector,
}
use landlock_observability.Collector.Preparation.{IsTracked, prepare_collector-attached}

-- The state is the number of attached programs. There are no capabilities.
abbrev bare_kernel : Kernel ℕ ℕ
bare_kernel = record {
  read_tasks = λ n. (n, ok (ok tt ∷ []));
  capabilities = λ n. (n, ok empty_capabilities);
  set_capabilities = λ sets n. (n, ok tt);
  no_new_privs = λ n. (n, ok true);
  set_no_new_privs = λ on n. (n, ok tt);
  clear_ambient_capability_set = λ n. (n, ok tt);
  capability_is_in_ambient_set = λ c n. (n, ok false);
  capability_is_in_bounding_set = λ c n. (n, err 22);
  remove_capability_from_bounding_set = λ c n. (n, ok tt);
}

abbrev two_programs : Libbpf ℕ ℕ ℕ ℕ Unit Unit
two_programs = record {
  open_memory = λ n. (n, ok tt);
  load = λ n. (n, ok (1 ∷ 2 ∷ [], ("events", tt) ∷ []));
  attach = λ p n. (suc n, ok p);
  detach = λ l n. n - 1;
  new_ring = λ m n. (n, ok tt);
  drop_ring = λ r n. n;
  error_kind = λ e. LoadErrorKind.other;
  read_btf = λ n. (n, ok []);
}

abbrev number : ℕ → ℕ
number n = n

two_programs-IsTracked : IsTracked two_programs number
two_programs-IsTracked = record {
  open_memory_keeps = λ s. refl;
  load_keeps = λ s. refl;
  new_ring_keeps = λ m s. refl;
  read_btf_keeps = λ s. refl;
  drop_ring_keeps = λ r s. refl;
  attach_error = λ p s e h. absurd (ground arith);
  attach_ok = λ p s l h. refl;
  detach_one = λ l s. refl;
}

finish_bare : (policy : Policy) (s : ℕ) → (finish bare_kernel policy s).state ≡ s
unfolding finish finish_policy_with check_single_threaded clear_ambient clear_bounding
    each_supported_capability each_from capability bounding_contains change_capabilities verify
    current_no_new_privs current_capabilities ◌>>=◌ pure require when with_error
finish_bare Policy.minimized s = refl
finish_bare Policy.preserved s = refl
finish_bare Policy.verification_pending s = refl
finish_bare Policy.finished s = refl

abbrev configured : CollectorConfig
configured = record { event_capacity = 8 }

prepare_collector-attached_example :
    let o = prepare_collector {X = ℕ} two_programs bare_kernel configured Policy.minimized 3 in
    ((e : CollectorPrepareError ℕ ℕ) → o.result ≡ err e → o.state ≡ 3)
    × ((c : Pipe ℕ × PreparedResources ℕ Unit)
        → o.result ≡ ok c
        → (o.state ≡ 3 + length c.1.links)
          × ((o.policy ≡ Policy.finished) ⊎ (o.policy ≡ Policy.preserved)))
prepare_collector-attached_example =
    prepare_collector-attached two_programs bare_kernel number two_programs-IsTracked finish_bare
      configured Policy.minimized 3

-- All the targets complete the mask, whatever stands around them.
scanned : scan 0 (none ∷ some "kmem_alloc" ∷ map some generation_1_targets) ≡ generation_1_complete
unfolding scan mark_generation_1_target position generation_1_target_bit
scanned = refl

-- A kernel without the targets is unsupported if the load error may come from that.
missing :
    (generation_1_is_missing {E = ℕ} LoadErrorKind.other (ok (some "kmem_alloc" ∷ [])) ≡ true)
    × (generation_1_is_missing {E = ℕ} LoadErrorKind.distinct (ok []) ≡ false)
    × (generation_1_is_missing {E = ℕ} LoadErrorKind.other (err 1) ≡ false)
unfolding generation_1_is_missing scan mark_generation_1_target position generation_1_target_bit
missing = (refl, refl, refl)

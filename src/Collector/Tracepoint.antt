-- ===== src/Collector/Tracepoint.antt =====
-- The diagnosis of a load error (src/collector/tracepoint.rs): are the tracepoints of the first
-- generation in the kernel's BTF? The BTF file, and the kinds of libbpf's errors, are parameters.
use Prim.Native.Nat.{bit_or}
use text.Mathlib.Text.{◌==◌ as same_text}
use landlock_observability.Prelude.{
  ℕ, suc, ◌-◌, ◌^◌, Bool, true, false, not, ◌&&◌, Option, none, some, List, [], ◌∷◌, String, Result,
  err, ok, length, ltb, ◌==◌, if◌then◌else◌,
}

abbrev pub generation_1_targets : List String
generation_1_targets =
    "btf_trace_landlock_create_ruleset" ∷ "btf_trace_landlock_add_rule_path_beneath"
    ∷ "btf_trace_landlock_add_rule_net_port" ∷ "btf_trace_landlock_create_domain"
    ∷ "btf_trace_landlock_enforce_domain" ∷ "btf_trace_landlock_deny_access_fs"
    ∷ "btf_trace_landlock_deny_access_net" ∷ "btf_trace_landlock_deny_ptrace"
    ∷ "btf_trace_landlock_deny_scope_signal" ∷ "btf_trace_landlock_deny_scope_abstract_unix_socket"
    ∷ "btf_trace_landlock_free_domain" ∷ "btf_trace_landlock_free_ruleset" ∷ []

-- `(1 << GENERATION_1_TARGETS.len()) - 1`
abbrev pub generation_1_complete : ℕ
generation_1_complete = 2 ^ length generation_1_targets - 1

-- The kinds of `libbpf_rs::ErrorKind` that the code names, and the others.
pub data LoadErrorKind : Type 0 where
  not_found other distinct : LoadErrorKind

abbrev pub should_diagnose : LoadErrorKind → Bool
should_diagnose LoadErrorKind.not_found = true
should_diagnose LoadErrorKind.other = true
should_diagnose LoadErrorKind.distinct = false

-- `iter().position(…)`, from an index on.
unfoldable pub position : String → ℕ → List String → Option ℕ
position name index [] = none
position name index (target ∷ targets) =
    let rest = position name (suc index) targets in
    if same_text name target then some index else rest

-- `u32::try_from(index)`, then `1_u16.checked_shl(index)`.
unfoldable pub generation_1_target_bit : ℕ → Option ℕ
generation_1_target_bit index =
    if ltb index (2 ^ 32) then if ltb index 16 then some (2 ^ index) else none else none

abbrev pub mark_bit : ℕ → Option ℕ → ℕ
mark_bit mask none = mask
mark_bit mask (some bit) = bit_or mask bit

abbrev pub mark_index : ℕ → Option ℕ → ℕ
mark_index mask none = mask
mark_index mask (some index) = mark_bit mask (generation_1_target_bit index)

unfoldable pub mark_generation_1_target : ℕ → String → ℕ
unfolding position generation_1_target_bit
mark_generation_1_target mask name = mark_index mask (position name 0 generation_1_targets)

-- The loop over the types of the BTF, each with its name if it has one.
unfoldable pub scan : ℕ → List (Option String) → ℕ
unfolding mark_generation_1_target
scan mask [] = mask
scan mask (none ∷ names) = scan mask names
scan mask (some name ∷ names) =
    let marked = mark_generation_1_target mask name in
    let rest = scan marked names in if marked == generation_1_complete then marked else rest

-- `generation_1_target_mask`, with the answer of `Btf::from_path` and its types' names.
abbrev pub generation_1_target_mask : {E : Type 0} → Result E (List (Option String)) → Result E ℕ
generation_1_target_mask (err error) = err error
generation_1_target_mask (ok names) = ok (scan 0 names)

abbrev pub is_incomplete : {E : Type 0} → Result E ℕ → Bool
is_incomplete (err error) = false
is_incomplete (ok mask) = not (mask == generation_1_complete)

-- `generation_1_is_missing_with`
unfoldable pub generation_1_is_missing :
    {E : Type 0} → LoadErrorKind → Result E (List (Option String)) → Bool
unfolding scan
generation_1_is_missing kind btf =
    should_diagnose kind && is_incomplete (generation_1_target_mask btf)

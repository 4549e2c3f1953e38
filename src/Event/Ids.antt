-- ===== src/Event/Ids.antt =====
-- Kernel-assigned identities and timestamps: `LandlockId`, `ProcessId`, `ThreadId`,
-- `KernelTimestamp` (src/event/mod.rs). A `u64` or `u32` is a native number.
use landlock_observability.Prelude.{
  ℕ, ◌≤◌, ◌<◌, Result, ok, err, leb, if◌then◌else◌, ℕ_discrete, ite,
}

-- `MIN_LANDLOCK_ID`
abbrev pub min_landlock_id : ℕ
min_landlock_id = 0x1_0000_0000

-- The markers `Domain` and `Ruleset`.
pub data LandlockIdKind : Type 0 where
  domain_kind ruleset_kind : LandlockIdKind

pub record LandlockId (k : LandlockIdKind) : Type 0 where
  pub value : ℕ

abbrev pub DomainId : Type 0
DomainId = LandlockId LandlockIdKind.domain_kind

abbrev pub RulesetId : Type 0
RulesetId = LandlockId LandlockIdKind.ruleset_kind

pub record InvalidLandlockIdError : Type 0 where
  pub value : ℕ

-- `LandlockId::new`: `NonZeroU64::new` refuses 0, and the guard refuses what is below the minimum.
unfoldable pub landlock_id_new :
    (k : LandlockIdKind) → ℕ → Result InvalidLandlockIdError (LandlockId k)
landlock_id_new k value = elim (ℕ_discrete value 0) [
  | yes _ ↦ err (record { value = value })
  | no _ ↦
      if leb min_landlock_id value
      then ok (record { value = value })
      else err (record { value = value })
]

pub record ProcessId : Type 0 where
  pub value : ℕ

pub record ThreadId : Type 0 where
  pub value : ℕ

pub record InvalidTaskIdError : Type 0 where
  pub value : ℕ

-- `ProcessId::new` and `ThreadId::new`, the two instances of one macro.
unfoldable pub process_id_new : ℕ → Result InvalidTaskIdError ProcessId
process_id_new value =
    ite (ℕ_discrete value 0) (err (record { value = value })) (ok (record { value = value }))

unfoldable pub thread_id_new : ℕ → Result InvalidTaskIdError ThreadId
thread_id_new value =
    ite (ℕ_discrete value 0) (err (record { value = value })) (ok (record { value = value }))

-- `KernelTimestamp`: `from_nanoseconds` and `as_nanoseconds` are the identity.
abbrev pub KernelTimestamp : Type 0
KernelTimestamp = ℕ

-- The invariants that the constructors establish.
abbrev pub LandlockId-IsValid : {k : LandlockIdKind} → LandlockId k → Type 0
LandlockId-IsValid i = min_landlock_id ≤ i.value

abbrev pub ProcessId-IsValid : ProcessId → Type 0
ProcessId-IsValid p = 0 < p.value

abbrev pub ThreadId-IsValid : ThreadId → Type 0
ThreadId-IsValid t = 0 < t.value

unfoldable pub LandlockId-discrete : {k : LandlockIdKind} → Discrete (LandlockId k)
unfolding ℕ_discrete
LandlockId-discrete = hlevel ℕ_discrete

unfoldable pub ProcessId-discrete : Discrete ProcessId
unfolding ℕ_discrete
ProcessId-discrete = hlevel ℕ_discrete

unfoldable pub ThreadId-discrete : Discrete ThreadId
unfolding ℕ_discrete
ThreadId-discrete = hlevel ℕ_discrete

-- ===== src/Collector/Prepare.antt =====
-- `CollectorConfig::prepare` and what it calls (src/collector.rs): `prepare_resources`,
-- `backend::prepare` and `finalize_prepared`. What libbpf does is a parameter.
use text.Mathlib.Text.{◌==◌ as same_text}
use landlock_observability.Prelude.{
  ℕ, Option, none, some, List, [], ◌∷◌, ◌++◌, Result, err, ok, String, if◌then◌else◌,
}
use landlock_observability.Privilege.Errors.{PrivilegeError}
use landlock_observability.Privilege.Kernel.{Call, ◌>>=◌, ◌>>◌, with_error, Kernel}
use landlock_observability.Privilege.Policy.{Policy, Outcome, ensure_can_prepare, finish}
use landlock_observability.Collector.Config.{CollectorConfig}
use landlock_observability.Collector.Pipe.{Pipe, prepare}
use landlock_observability.Collector.Tracepoint.{
  LoadErrorKind, should_diagnose, generation_1_is_missing,
}

pub data CollectorPrepareErrorKind : Type 0 where
  unsupported_kernel open_failure load_failure attach_failure ring_setup privilege :
      CollectorPrepareErrorKind

-- The boxed sources that occur: libbpf's error, the missing map, a privilege error.
pub data PrepareErrorSource (E I : Type 0) : Type 0 where
  from_libbpf : E → PrepareErrorSource E I
  from_io : String → PrepareErrorSource E I
  from_privilege : PrivilegeError I → PrepareErrorSource E I

pub record CollectorPrepareError (E I : Type 0) : Type 0 where
  pub kind : CollectorPrepareErrorKind
  pub source : PrepareErrorSource E I

-- The state `S` of the process, its errors `E`, programs `P`, links `L`, maps `M` and rings `R`.
-- `load` gives the programs and the named maps; dropping a link is `detach`.
pub record Libbpf (S E P L M R : Type 0) : Type 0 where
  pub open_memory : Call S E Unit
  pub load : Call S E (List P × List (String × M))
  pub attach : P → Call S E L
  pub detach : L → S → S
  pub new_ring : M → Call S E R
  pub drop_ring : R → S → S
  pub error_kind : E → LoadErrorKind
  pub read_btf : Call S E (List (Option String))

-- `PreparedResources`, less the two fields that the worker's state has.
pub record PreparedResources (L R : Type 0) : Type 0 where
  pub ring : R
  pub links : List L

unfoldable pub find_map : {M : Type 0} → String → List (String × M) → Option M
find_map name [] = none
find_map name (m ∷ maps) =
    let rest = find_map name maps in if same_text m.0 name then some m.1 else rest

module _ {S E P L M R : Type 0} (lib : Libbpf S E P L M R) where
  abbrev pub detach_all : List L → S → S
  detach_all [] s = s
  detach_all (link ∷ links) s = detach_all links (lib.detach link s)

  -- `map(|program| program.attach()).collect()`: at the first error, the links that were collected
  -- are dropped.
  unfoldable pub attach_all : List L → List P → Call S E (List L)
  attach_all links [] s = (s, ok links)
  attach_all links (program ∷ programs) s =
      let r = lib.attach program s in
      elim r.1 [
        | err error ↦ (detach_all links r.0, err error)
        | ok link ↦ attach_all (links ++ link ∷ []) programs r.0
      ]

  -- The prepared pair is dropped.
  unfoldable pub drop_resources : PreparedResources L R → S → S
  drop_resources resources s = detach_all resources.links (lib.drop_ring resources.ring s)

abbrev pub stage : {E I : Type 0} → CollectorPrepareErrorKind → E → CollectorPrepareError E I
stage kind error = record { kind = kind; source = PrepareErrorSource.from_libbpf error }

module _ {S E P L M R I : Type 0} (lib : Libbpf S E P L M R) where
  -- The load failed: the BTF is read only for a kind of error that it may explain.
  unfoldable pub explain_load : {A : Type 0} → S → E → S × Result (CollectorPrepareError E I) A
  explain_load s error =
      let btf = lib.read_btf s in
      let kind = lib.error_kind error in
      (
        if should_diagnose kind then btf.0 else s,
        err (
            stage
              (if generation_1_is_missing kind btf.1
                then CollectorPrepareErrorKind.unsupported_kernel
                else CollectorPrepareErrorKind.load_failure)
              error),
      )

  unfoldable pub load_object : Call S (CollectorPrepareError E I) (List P × List (String × M))
  unfolding explain_load
  load_object s =
      let r = lib.load s in
      elim r.1 [ err error ↦ explain_load r.0 error | ok object ↦ (r.0, ok object) ]

  -- An early return after the links were made: they are dropped.
  abbrev pub failed_with :
      {A : Type 0}
      → List L
      → CollectorPrepareError E I
      → S
      → S × Result (CollectorPrepareError E I) A
  failed_with links error s = (detach_all lib links s, err error)

  abbrev pub no_events_map : CollectorPrepareError E I
  no_events_map = record {
    kind = CollectorPrepareErrorKind.ring_setup;
    source = PrepareErrorSource.from_io "embedded BPF object has no events map";
  }

  unfoldable pub set_up_ring :
      List L → Option M → S → S × Result (CollectorPrepareError E I) (PreparedResources L R)
  set_up_ring links none s = failed_with links no_events_map s
  set_up_ring links (some events) s =
      let r = lib.new_ring events s in
      elim r.1 [
        | err error ↦ failed_with links (stage CollectorPrepareErrorKind.ring_setup error) r.0
        | ok ring ↦ (r.0, ok (record { ring = ring; links = links }))
      ]

  unfoldable pub attach_object :
      List P × List (String × M) → Call S (CollectorPrepareError E I) (PreparedResources L R)
  unfolding attach_all set_up_ring find_map
  attach_object object = do
    links ← with_error (stage CollectorPrepareErrorKind.attach_failure) (attach_all lib [] object.0)
    set_up_ring links (find_map "events" object.1)

  unfoldable pub prepare_resources : Call S (CollectorPrepareError E I) (PreparedResources L R)
  unfolding load_object attach_object
  prepare_resources = do
    with_error (stage CollectorPrepareErrorKind.open_failure) lib.open_memory
    object ← load_object
    attach_object object

abbrev pub from_privilege_error : {E I : Type 0} → PrivilegeError I → CollectorPrepareError E I
from_privilege_error error = record {
  kind = CollectorPrepareErrorKind.privilege;
  source = PrepareErrorSource.from_privilege error;
}

-- What `prepare` leaves: the state, the privileges' policy, and the collector with its worker.
pub record PrepareOutcome (S E I X L R : Type 0) : Type 0 where
  pub state : S
  pub policy : Policy
  pub result : Result (CollectorPrepareError E I) (Pipe X × PreparedResources L R)

module _ {S E P L M R I X : Type 0} (lib : Libbpf S E P L M R) (k : Kernel S I) where
  -- `finalize_prepared`: where finishing fails, what was prepared is dropped.
  abbrev pub finalize_prepared :
      ℕ → PreparedResources L R → Outcome S I → PrepareOutcome S E I X L R
  finalize_prepared event_capacity resources o = elim o.result [
    | err error ↦ record {
      state = drop_resources lib resources o.state;
      policy = o.policy;
      result = err (from_privilege_error error);
    }
    | ok u ↦ record {
      state = o.state;
      policy = o.policy;
      result = ok (prepare event_capacity, resources);
    }
  ]

  abbrev pub after_resources :
      ℕ
      → Policy
      → S × Result (CollectorPrepareError E I) (PreparedResources L R)
      → PrepareOutcome S E I X L R
  after_resources event_capacity policy (s, err error) = record {
    state = s;
    policy = policy;
    result = err error;
  }
  after_resources event_capacity policy (s, ok resources) =
      finalize_prepared event_capacity resources (finish k policy s)

  -- `CollectorConfig::prepare`
  unfoldable pub prepare_collector : CollectorConfig → Policy → S → PrepareOutcome S E I X L R
  unfolding finish drop_resources prepare_resources
  prepare_collector config policy s = elim (ensure_can_prepare {I = I} policy) [
    | err error ↦ record { state = s; policy = policy; result = err (from_privilege_error error) }
    | ok u ↦ after_resources config.event_capacity policy (prepare_resources lib s)
  ]

-- ===== src/Privilege/Policy.antt =====
-- The states of a `Privileges` value, and `finish_policy_with` over the operations that it is given
-- (src/privilege.rs): `ensure_can_prepare`, `finish` and the two `Drop` implementations.
use landlock_observability.Prelude.{Result, err, ok}
use landlock_observability.Privilege.Errors.{PrivilegeError, already_finalized_error}
use landlock_observability.Privilege.Kernel.{
  ◌>>◌, Kernel, Steps, empty_capabilities, check_single_threaded, clear_ambient,
  change_capabilities,
}
use landlock_observability.Privilege.Inspect.{clear_bounding, verify}

pub data Policy : Type 0 where
  minimized preserved verification_pending finished : Policy

pub data FinalizationMode : Type 0 where
  explicit cleanup : FinalizationMode

-- `FinalizationOps`
pub record FinalizationOps (S I : Type 0) : Type 0 where
  pub check_thread : Steps S I Unit
  pub remove_ambient : Steps S I Unit
  pub remove_bounding : Steps S I Unit
  pub clear_capabilities : Steps S I Unit
  pub verify : Steps S I Unit

-- What a call leaves: the state, the policy, and the result.
pub record Outcome (S I : Type 0) : Type 0 where
  pub state : S
  pub policy : Policy
  pub result : Result (PrivilegeError I) Unit

module _ {S I : Type 0} where
  abbrev pub outcome : Policy → S × Result (PrivilegeError I) Unit → Outcome S I
  outcome policy r = record { state = r.0; policy = policy; result = r.1 }

  -- `ops.verify()?; *policy = Policy::Finished; Ok(())`
  abbrev pub verified : S × Result (PrivilegeError I) Unit → Outcome S I
  verified (s, err error) = record {
    state = s;
    policy = Policy.verification_pending;
    result = err error;
  }
  verified (s, ok u) = record { state = s; policy = Policy.finished; result = ok u }

  -- The calls up to the removal of the capabilities.
  abbrev pub removal : FinalizationOps S I → Steps S I Unit
  removal ops = do
    ops.check_thread
    ops.remove_ambient
    ops.check_thread
    ops.remove_bounding
    ops.check_thread
    ops.clear_capabilities

  abbrev pub after_removal : FinalizationOps S I → S × Result (PrivilegeError I) Unit → Outcome S I
  after_removal ops (s, err error) = record {
    state = s;
    policy = Policy.minimized;
    result = err error;
  }
  after_removal ops (s, ok u) = verified (ops.verify s)

  unfoldable pub finish_policy_with :
      Policy → FinalizationMode → FinalizationOps S I → S → Outcome S I
  finish_policy_with Policy.preserved mode ops s = outcome Policy.preserved (s, ok tt)
  finish_policy_with Policy.finished mode ops s = outcome Policy.finished (s, ok tt)
  finish_policy_with Policy.verification_pending FinalizationMode.explicit ops s =
      outcome Policy.verification_pending (s, err already_finalized_error)
  finish_policy_with Policy.verification_pending FinalizationMode.cleanup ops s =
      verified (ops.verify s)
  finish_policy_with Policy.minimized mode ops s = after_removal ops (removal ops s)

-- `Privileges::ensure_can_prepare`
unfoldable pub ensure_can_prepare : {I : Type 0} → Policy → Result (PrivilegeError I) Unit
ensure_can_prepare Policy.minimized = ok tt
ensure_can_prepare Policy.preserved = ok tt
ensure_can_prepare Policy.verification_pending = err already_finalized_error
ensure_can_prepare Policy.finished = err already_finalized_error

-- What is left when a value is dropped: the process goes on in a state, or is aborted.
pub data Process (S : Type 0) : Type 0 where
  running : S → Process S
  aborted : Process S

module _ {S I : Type 0} where
  abbrev pub unless_failed : Outcome S I → Process S
  unless_failed o = elim o.result [ err error ↦ Process.aborted | ok u ↦ Process.running o.state ]

  unfoldable pub drop_with : FinalizationOps S I → Policy → S → Process S
  unfolding finish_policy_with
  drop_with ops policy s = unless_failed (finish_policy_with policy FinalizationMode.cleanup ops s)

module _ {S I : Type 0} (k : Kernel S I) where
  -- `ProductionFinalizationOps`
  abbrev pub production_ops : FinalizationOps S I
  production_ops = record {
    check_thread = check_single_threaded k;
    remove_ambient = clear_ambient k;
    remove_bounding = clear_bounding k;
    clear_capabilities = change_capabilities k empty_capabilities;
    verify = verify k empty_capabilities;
  }

  -- `Privileges::finish`
  unfoldable pub finish : Policy → S → Outcome S I
  unfolding finish_policy_with
  finish policy s = finish_policy_with policy FinalizationMode.explicit production_ops s

  -- `Privileges::drop`
  unfoldable pub drop_privileges : Policy → S → Process S
  unfolding drop_with
  drop_privileges policy s = drop_with production_ops policy s

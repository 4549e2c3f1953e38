-- ===== src/State/Invariant.antt =====
-- The invariant of the whole state, between rulesets and domains (src/state.rs).
use landlock_observability.Prelude.{ℕ, ◌≤◌, Option, none, some, arith, Option-cases, inl, inr}
use landlock_observability.Map.{
  Map, get, alter, Entries, Entries-alter, Entries-weaken, IsSome, IsSome-alter, IsSome-alter_self,
  get-alter,
}
use landlock_observability.Event.Ids.{DomainId, RulesetId, LandlockId-discrete}
use landlock_observability.State.Rulesets.{RulesetState}
use landlock_observability.State.Domains.{DomainParent, parent_of, RulesetVersion, DomainState}
use landlock_observability.State.Apply.{State, state_new, with_placeholder}
use landlock_observability.State.RulesetInvariant.{RulesetFits}
use landlock_observability.State.DomainInvariant
use landlock_observability.State.DomainInvariant.{DomainFits}

abbrev pub Rulesets : Type 0
Rulesets = Map RulesetId RulesetState

abbrev pub Domains : Type 0
Domains = Map DomainId DomainState

-- A known parent domain is itself in the state.
abbrev pub ParentIn : Map DomainId DomainState → Option DomainParent → Type 0
ParentIn m none = Unit
ParentIn m (some DomainParent.root) = Unit
ParentIn m (some (DomainParent.parent_domain id)) = IsSome (get LandlockId-discrete id m)

abbrev pub ObservedAt : ℕ → Option RulesetState → Type 0
ObservedAt version none = ⊥
ObservedAt version (some r) = version ≤ r.max_observed_version

-- A known frozen ruleset is in the state, and its version is an observed one.
abbrev pub FrozenIn : Map RulesetId RulesetState → Option RulesetVersion → Type 0
FrozenIn m none = Unit
FrozenIn m (some v) = ObservedAt v.ruleset_version (get LandlockId-discrete v.ruleset_id m)

-- What holds of a domain beside the rulesets and the domains of the state.
pub record DomainFitsIn (rulesets : Map RulesetId RulesetState) (domains : Map DomainId DomainState)
    (id : DomainId) (d : DomainState) : Type 0 where
  pub fits : DomainFits id d
  pub parent_in : ParentIn domains d.parent
  pub frozen_in : FrozenIn rulesets d.frozen_ruleset

pub record IsValid (s : State) : Type 0 where
  pub ruleset_entries : Entries LandlockId-discrete RulesetFits s.rulesets
  pub domain_entries : Entries LandlockId-discrete (DomainFitsIn s.rulesets s.domains) s.domains

pub state_new-IsValid : IsValid state_new
unfolding get
state_new-IsValid = record { ruleset_entries = λ k v e. cc; domain_entries = λ k v e. cc }

-- No key of the first is missing in the second.
abbrev pub Within : Domains → Domains → Type 0
Within m n =
    (id : DomainId) → IsSome (get LandlockId-discrete id m) → IsSome (get LandlockId-discrete id n)

pub ParentIn-Within :
    (m n : Domains) (p : Option DomainParent) → Within m n → ParentIn m p → ParentIn n p
ParentIn-Within m n none w h = tt
ParentIn-Within m n (some DomainParent.root) w h = tt
ParentIn-Within m n (some (DomainParent.parent_domain id)) w h = w id h

pub Within-placeholder : (o : Option DomainId) (m : Domains) → Within m (with_placeholder o m)
unfolding with_placeholder
Within-placeholder none m id h = h
Within-placeholder (some other) m id h = IsSome-alter LandlockId-discrete id other _ _ m h

-- No ruleset is lost, and none observes a lower version.
abbrev pub Grows : Rulesets → Rulesets → Type 0
Grows m n =
    (version : ℕ) (id : RulesetId)
    → ObservedAt version (get LandlockId-discrete id m)
    → ObservedAt version (get LandlockId-discrete id n)

pub Grows-alter :
    (other : RulesetId) (d : RulesetState) (f : RulesetState → RulesetState) (m : Rulesets)
    → ((r : RulesetState) → r.max_observed_version ≤ (f r).max_observed_version)
    → Grows m (alter LandlockId-discrete other d f m)
Grows-alter other d f m grows version id h = elim (Option-cases (get LandlockId-discrete id m)) [
  | inl missing ↦ absurd (rw missing at h)
  | inr (r, found) ↦ ground (arith, get-alter LandlockId-discrete id other d f m, grows r)
]

pub FrozenIn-Grows :
    (m n : Rulesets) (v : Option RulesetVersion) → Grows m n → FrozenIn m v → FrozenIn n v
FrozenIn-Grows m n none g h = tt
FrozenIn-Grows m n (some v) g h = g v.ruleset_version v.ruleset_id h

-- The domains of a state still fit where rulesets and domains are added or grow.
pub still_fit :
    (r r' : Rulesets) (m m' n : Domains)
    → Grows r r'
    → Within m m'
    → Entries LandlockId-discrete (DomainFitsIn r m) n
    → Entries LandlockId-discrete (DomainFitsIn r' m') n
still_fit r r' m m' n g w =
    Entries-weaken LandlockId-discrete (DomainFitsIn r m) (DomainFitsIn r' m') n λ id d h. record {
      fits = h.fits;
      parent_in = ParentIn-Within m m' d.parent w h.parent_in;
      frozen_in = FrozenIn-Grows r r' d.frozen_ruleset g h.frozen_in;
    }

-- A placeholder fits everywhere.
pub placeholder-Fits :
    (r : Rulesets) (m : Domains) (o : Option DomainId) (n : Domains)
    → Entries LandlockId-discrete (DomainFitsIn r m) n
    → Entries LandlockId-discrete (DomainFitsIn r m) (with_placeholder o n)
unfolding with_placeholder
placeholder-Fits r m none n all = all
placeholder-Fits r m (some id) n all =
    Entries-alter LandlockId-discrete (DomainFitsIn r m) id _ _ n
      (record { fits = DomainInvariant.new-Fits id; parent_in = tt; frozen_in = tt }) (λ d h. h) all

pub placeholder-ParentIn :
    (o : Option DomainId) (m : Domains) → ParentIn (with_placeholder o m) (some (parent_of o))
unfolding with_placeholder
placeholder-ParentIn none m = tt
placeholder-ParentIn (some id) m = IsSome-alter_self LandlockId-discrete id _ _ m

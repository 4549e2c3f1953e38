-- ===== src/State/Tally.antt =====
-- Joins of facts over a stream of events, and observers of the state (src/state.rs) that take one
-- join for each event.
use mathlib.Core.List.{Perm, Permᴰ}
use mathlib.Core.Logic.{∥∥₁_elim}
use landlock_observability.Prelude.{
  ℕ, ◌≡◌, refl, sym, ap, ◌∙◌, Bool, false, ◌||◌, Option, none, some, List, [], ◌∷◌, max, arith, ite,
  if_pos, if_neg, inl, inr, Option-cases,
}
use landlock_observability.Map.{Map, get, alter, get-alter}
use landlock_observability.Event.Kinds.{Event}
use landlock_observability.State.Facts.{LifecycleState}
use landlock_observability.State.Apply.{State, apply, apply_all}

pub record Join (M : Type 0) : Type 0 where
  pub unit : M
  pub join : M → M → M
  pub join_comm : (a b : M) → join a b ≡ join b a
  pub join_assoc : (a b c : M) → join (join a b) c ≡ join a (join b c)
  pub join_unit : (a : M) → join a unit ≡ a
  pub is_set : IsSet M

-- The greater of two numbers that may be unknown.
abbrev pub max_option : Option ℕ → Option ℕ → Option ℕ
max_option none b = b
max_option (some a) none = some a
max_option (some a) (some b) = some (max a b)

pub max_option_comm : (a b : Option ℕ) → max_option a b ≡ max_option b a
max_option_comm none none = refl
max_option_comm none (some b) = refl
max_option_comm (some a) none = refl
max_option_comm (some a) (some b) = ground arith

pub max_option_assoc :
    (a b c : Option ℕ) → max_option (max_option a b) c ≡ max_option a (max_option b c)
max_option_assoc none b c = refl
max_option_assoc (some a) none c = refl
max_option_assoc (some a) (some b) none = refl
max_option_assoc (some a) (some b) (some c) = ground arith

pub max_option-none : (a : Option ℕ) → max_option a none ≡ a
max_option-none none = refl
max_option-none (some a) = refl

abbrev pub max_join : Join (Option ℕ)
max_join = record {
  unit = none;
  join = max_option;
  join_comm = max_option_comm;
  join_assoc = max_option_assoc;
  join_unit = max_option-none;
  is_set = hlevel;
}

-- The stronger of two lifecycles that may be unknown: deallocation is final.
abbrev pub stronger : Option LifecycleState → Option LifecycleState → Option LifecycleState
stronger none b = b
stronger (some LifecycleState.deallocated) b = some LifecycleState.deallocated
stronger (some LifecycleState.allocated) none = some LifecycleState.allocated
stronger (some LifecycleState.allocated) (some b) = some b

pub stronger_comm : (a b : Option LifecycleState) → stronger a b ≡ stronger b a
stronger_comm a b = ground arith

pub stronger_assoc :
    (a b c : Option LifecycleState) → stronger (stronger a b) c ≡ stronger a (stronger b c)
stronger_assoc a b c = ground arith

pub stronger-none : (a : Option LifecycleState) → stronger a none ≡ a
stronger-none a = ground arith

abbrev pub lifecycle_join : Join (Option LifecycleState)
lifecycle_join = record {
  unit = none;
  join = stronger;
  join_comm = stronger_comm;
  join_assoc = stronger_assoc;
  join_unit = stronger-none;
  is_set = hlevel;
}

pub or_comm : (a b : Bool) → (a || b) ≡ (b || a)
or_comm a b = ground arith

pub or_assoc : (a b c : Bool) → ((a || b) || c) ≡ (a || (b || c))
or_assoc a b c = ground arith

pub or_false : (a : Bool) → (a || false) ≡ a
or_false a = ground arith

abbrev pub or_join : Join Bool
or_join = record {
  unit = false;
  join = ◌||◌;
  join_comm = or_comm;
  join_assoc = or_assoc;
  join_unit = or_false;
  is_set = hlevel;
}

module _ {M : Type 0} (j : Join M) where
  open j use {unit, join, join_comm, join_assoc, join_unit, is_set}

  -- What a history says, from what each of its events says.
  abbrev pub tally : (Event → M) → List Event → M
  tally says [] = unit
  tally says (e ∷ events) = join (says e) (tally says events)

  tally-permᴰ :
      (says : Event → M) {es fs : List Event} → Permᴰ es fs → tally says es ≡ tally says fs
  tally-permᴰ says Permᴰ.nil = refl
  tally-permᴰ says (Permᴰ.cons {l₁ = xs} {l₂ = ys} e p) =
      ap (λ a. join (says a) (tally says xs)) e ∙ ap (join (says _)) (tally-permᴰ says p)
  tally-permᴰ says (Permᴰ.swap {a = a} {b = b} {l = l} e f) = ground (
    arith,
    join_assoc (says a) (says b) (tally says l),
    join_assoc (says b) (says a) (tally says l),
    join_comm (says a) (says b),
  )
  tally-permᴰ says (Permᴰ.trans p q) = tally-permᴰ says p ∙ tally-permᴰ says q

  pub tally-perm :
      (says : Event → M) {es fs : List Event} → Perm es fs → tally says es ≡ tally says fs
  tally-perm says {es} {fs} p = ∥∥₁_elim p (is_set _ _) (tally-permᴰ says)

  -- What is said of the key `k` by an update of the key `other` that says `m`.
  abbrev pub about : {K : Type 0} → Discrete K → K → K → M → M
  about dec k other m = ite (dec other k) m unit

  -- An update of one entry joins what it says to what is observed of that key, and nothing to
  -- what is observed of another.
  pub view-alter :
      {K V : Type 0} (dec : Discrete K) (observe : Option V → M) (k other : K) (d : V) (f : V → V)
      (x : M)
      → observe (some d) ≡ join (observe none) x
      → ((v : V) → observe (some (f v)) ≡ join (observe (some v)) x)
      → (m : Map K V)
      → observe (get dec k (alter dec other d f m))
        ≡ join (observe (get dec k m)) (about dec k other x)
  view-alter dec observe k other d f x at_new at_old m = elim (dec other k) [
    | yes same ↦
        rw (get-alter dec k other d f m, if_pos _ same, if_pos (dec other k) same x unit)
          (elim (Option-cases (get dec k m)) [
            | inl e ↦ rw (e, at_new)
            | inr (v, e) ↦ rw (e, at_old)
          ])
    | no different ↦ rw (get-alter, if_neg _ different, if_neg _ different, join_unit)
  ]

  -- An observer that takes one join for each event reads the tally of the history.
  pub view-apply_all :
      (view : State → M) (says : Event → M)
      → ((s : State) (e : Event) → view (apply s e) ≡ join (view s) (says e))
      → (s : State) (events : List Event)
      → view (apply_all s events) ≡ join (view s) (tally says events)
  unfolding apply_all
  view-apply_all view says step s [] = sym (join_unit (view s))
  view-apply_all view says step s (e ∷ events) =
      view-apply_all view says step (apply s e) events
      ∙ ap (λ m. join m (tally says events)) (step s e)
      ∙ join_assoc (view s) (says e) (tally says events)

-- ===== src/State/Latest.antt =====
-- The event that is kept where a later one by timestamp replaces an earlier one, and one with an
-- equal timestamp too, as `State::apply` keeps them (src/state.rs).
use landlock_observability.Prelude.{
  ℕ, ◌≤◌, ◌<◌, ◌≡◌, refl, Option, none, some, List, [], ◌∷◌, ◌++◌, leb, if◌then◌else◌, All, arith,
  Bool-cases, inl, inr,
}

module _ {E : Type 0} (time : E → ℕ) where
  abbrev pub pick : Option E → E → Option E
  pick none e = some e
  pick (some kept) e = if leb (time kept) (time e) then some e else some kept

  abbrev pub pick_all : Option E → List E → Option E
  pick_all kept [] = kept
  pick_all kept (e ∷ events) = pick_all (pick kept e) events

  -- No event of the stream before `e` is later than it, and all that follow it are earlier.
  pub record IsLatest (e : E) (events : List E) : Type 0 where
    pub before : List E
    pub after : List E
    pub split : events ≡ before ++ e ∷ after
    pub none_later : All (λ b. time b ≤ time e) before
    pub then_earlier : All (λ a. time a < time e) after

  kept_after :
      (e : E) (after : List E) → All (λ a. time a < time e) after → pick_all (some e) after ≡ some e
  kept_after e [] h = refl
  kept_after e (a ∷ after) h = ground (arith, kept_after e after h.1)

  -- Whatever no later event was kept before.
  abbrev NotLater : E → Option E → Type 0
  NotLater e none = Unit
  NotLater e (some kept) = time kept ≤ time e

  picked :
      (e : E) (kept : Option E) (before after : List E)
      → NotLater e kept
      → All (λ b. time b ≤ time e) before
      → All (λ a. time a < time e) after
      → pick_all kept (before ++ e ∷ after) ≡ some e
  picked e none [] after n b a = kept_after e after a
  picked e (some kept) [] after n b a = ground (arith, kept_after e after a)
  picked e none (x ∷ before) after n b a = picked e (some x) before after b.0 b.1 a
  picked e (some kept) (x ∷ before) after n b a = elim (Bool-cases (leb (time kept) (time x))) [
    | inl t ↦ rw (t, pick_all, pick) (picked e (some x) before after b.0 b.1 a)
    | inr t ↦ rw (t, pick_all, pick) (picked e (some kept) before after n b.1 a)
  ]

  pub pick_all-IsLatest :
      (e : E) (events : List E) → IsLatest e events → pick_all none events ≡ some e
  pick_all-IsLatest e events l =
      rw l.split (picked e none l.before l.after tt l.none_later l.then_earlier)

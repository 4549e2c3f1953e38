-- ===== src/Lltop/Stats.antt =====
-- The denial counters of the batch mode (lltop/src/batch.rs): `DenialKind`, `Stats` and
-- `Stats::observe`, as `Batch::process` calls it for each event.
use landlock_observability.Prelude.{
  ℕ, ◌+◌, ◌≤◌, ◌≡◌, refl, Option, none, some, List, [], ◌∷◌, min, arith,
}
use landlock_observability.Event.Kinds.{
  Event, deny_access_fs, deny_access_net, deny_ptrace, deny_scope_signal,
  deny_scope_abstract_unix_socket,
}
use landlock_observability.Aggregate.Aggregator.{u64_max, saturating_add}

pub data DenialKind : Type 0 where
  fs net ptrace signal abstract_unix : DenialKind

-- `DenialKind::from_event`
unfoldable pub from_event : Event → Option DenialKind
from_event (deny_access_fs e) = some DenialKind.fs
from_event (deny_access_net e) = some DenialKind.net
from_event (deny_ptrace e) = some DenialKind.ptrace
from_event (deny_scope_signal e) = some DenialKind.signal
from_event (deny_scope_abstract_unix_socket e) = some DenialKind.abstract_unix
from_event _ = none

-- The array of five counters.
pub record Counters : Type 0 where
  pub fs : ℕ
  pub net : ℕ
  pub ptrace : ℕ
  pub signal : ℕ
  pub abstract_unix : ℕ

-- `DenialKind::counter`, to read a counter and to add one to it.
unfoldable pub counter : DenialKind → Counters → ℕ
counter DenialKind.fs c = c.fs
counter DenialKind.net c = c.net
counter DenialKind.ptrace c = c.ptrace
counter DenialKind.signal c = c.signal
counter DenialKind.abstract_unix c = c.abstract_unix

unfoldable pub count_one : DenialKind → Counters → Counters
count_one DenialKind.fs c = record c { fs = saturating_add u64_max c.fs 1 }
count_one DenialKind.net c = record c { net = saturating_add u64_max c.net 1 }
count_one DenialKind.ptrace c = record c { ptrace = saturating_add u64_max c.ptrace 1 }
count_one DenialKind.signal c = record c { signal = saturating_add u64_max c.signal 1 }
count_one DenialKind.abstract_unix c = record c {
  abstract_unix = saturating_add u64_max c.abstract_unix 1;
}

pub record Stats : Type 0 where
  pub total_denials : ℕ
  pub denials : Counters

-- `Stats::default`
abbrev pub stats_default : Stats
stats_default = record {
  total_denials = 0;
  denials = record { fs = 0; net = 0; ptrace = 0; signal = 0; abstract_unix = 0 };
}

-- `Stats::observe`
unfoldable pub stats_observe : Stats → DenialKind → Stats
unfolding count_one
stats_observe s kind = record {
  total_denials = saturating_add u64_max s.total_denials 1;
  denials = count_one kind s.denials;
}

-- `if let Some(kind) = DenialKind::from_event(event) { self.stats.observe(kind) }`
unfoldable pub process_stats : Stats → Option DenialKind → Stats
unfolding stats_observe
process_stats s none = s
process_stats s (some kind) = stats_observe s kind

unfoldable pub process_all_stats : Stats → List Event → Stats
unfolding process_stats from_event
process_all_stats s [] = s
process_all_stats s (event ∷ events) = process_all_stats (process_stats s (from_event event)) events

-- Whether an event is a denial of a kind, by what was denied: a count of 1 or 0.
abbrev pub is_kind : DenialKind → Event → ℕ
is_kind DenialKind.fs (deny_access_fs e) = 1
is_kind DenialKind.net (deny_access_net e) = 1
is_kind DenialKind.ptrace (deny_ptrace e) = 1
is_kind DenialKind.signal (deny_scope_signal e) = 1
is_kind DenialKind.abstract_unix (deny_scope_abstract_unix_socket e) = 1
is_kind _ _ = 0

-- How many denials of a kind there are, and how many of all five.
abbrev pub denials_of : DenialKind → List Event → ℕ
denials_of kind [] = 0
denials_of kind (event ∷ events) = is_kind kind event + denials_of kind events

abbrev pub denials_in : List Event → ℕ
denials_in events =
    denials_of DenialKind.fs events
    + denials_of DenialKind.net events
    + denials_of DenialKind.ptrace events
    + denials_of DenialKind.signal events
    + denials_of DenialKind.abstract_unix events

total-process :
    (s : Stats) (event : Event)
    → s.total_denials ≤ u64_max
    → (process_stats s (from_event event)).total_denials
      ≡ min (s.total_denials + denials_in (event ∷ [])) u64_max
unfolding process_stats stats_observe from_event
total-process s event h = ground (arith, h)

counter-process :
    (kind : DenialKind) (s : Stats) (event : Event)
    → counter kind s.denials ≤ u64_max
    → counter kind (process_stats s (from_event event)).denials
      ≡ min (counter kind s.denials + is_kind kind event) u64_max
unfolding process_stats stats_observe counter count_one from_event
counter-process kind s event h = ground (arith, h)

total-process_all :
    (s : Stats) (events : List Event)
    → s.total_denials ≤ u64_max
    → (process_all_stats s events).total_denials ≡ min (s.total_denials + denials_in events) u64_max
unfolding process_all_stats
total-process_all s [] h = omega arith
total-process_all s (event ∷ events) h =
    let step = total-process s event h in
    omega (
      arith,
      step,
      total-process_all (process_stats s (from_event event)) events (omega (arith, step)),
    )

counter-process_all :
    (kind : DenialKind) (s : Stats) (events : List Event)
    → counter kind s.denials ≤ u64_max
    → counter kind (process_all_stats s events).denials
      ≡ min (counter kind s.denials + denials_of kind events) u64_max
unfolding process_all_stats
counter-process_all kind s [] h = omega arith
counter-process_all kind s (event ∷ events) h =
    let step = counter-process kind s event h in
    omega (
      arith,
      step,
      counter-process_all kind (process_stats s (from_event event)) events (omega (arith, step)),
    )

zero_counter : (kind : DenialKind) → counter kind stats_default.denials ≡ 0
unfolding counter
zero_counter DenialKind.fs = refl
zero_counter DenialKind.net = refl
zero_counter DenialKind.ptrace = refl
zero_counter DenialKind.signal = refl
zero_counter DenialKind.abstract_unix = refl

-- After every stream of events, the total is the number of its denials and each counter the number
-- of its denials of that kind, all up to the greatest `u64`, where they stay.
pub process_all_stats-counts :
    (events : List Event)
    → ((process_all_stats stats_default events).total_denials ≡ min (denials_in events) u64_max)
      × ((kind : DenialKind)
          → counter kind (process_all_stats stats_default events).denials
            ≡ min (denials_of kind events) u64_max)
process_all_stats-counts events = (
  omega (arith, total-process_all stats_default events (omega arith)),
  λ kind. omega (
    arith,
    zero_counter kind,
    counter-process_all kind stats_default events (omega (arith, zero_counter kind)),
  ),
)

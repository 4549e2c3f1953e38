-- ===== src/Collector/Config.antt =====
-- `CollectorConfig`, its builder and its error (src/collector.rs).
use landlock_observability.Prelude.{
  ℕ, ◌≤◌, ◌≡◌, ◌↔◌, ◌&&◌, not, Result, ok, err, leb, if◌then◌else◌, arith,
}

abbrev pub default_event_capacity : ℕ
default_event_capacity = 1024

abbrev pub min_event_capacity : ℕ
min_event_capacity = 1

abbrev pub max_event_capacity : ℕ
max_event_capacity = 65536

pub data CollectorConfigErrorKind : Type 0 where
  invalid_event_capacity : CollectorConfigErrorKind

pub record CollectorConfigError : Type 0 where
  pub kind : CollectorConfigErrorKind
  pub configured : ℕ

pub record CollectorConfigBuilder : Type 0 where
  pub event_capacity : ℕ

pub record CollectorConfig : Type 0 where
  pub event_capacity : ℕ

-- `CollectorConfigBuilder::default`, and the setter.
abbrev pub config_builder : CollectorConfigBuilder
config_builder = record { event_capacity = default_event_capacity }

abbrev pub event_capacity : ℕ → CollectorConfigBuilder → CollectorConfigBuilder
event_capacity capacity b = record b { event_capacity = capacity }

-- `CollectorConfigBuilder::build`
unfoldable pub config_build : CollectorConfigBuilder → Result CollectorConfigError CollectorConfig
config_build b =
    if not (leb min_event_capacity b.event_capacity && leb b.event_capacity max_event_capacity)
    then err (record {
      kind = CollectorConfigErrorKind.invalid_event_capacity;
      configured = b.event_capacity;
    })
    else ok (record { event_capacity = b.event_capacity })

-- A configuration is built exactly from a capacity from 1 to 65536, and keeps it; any other
-- capacity gives an error that names it.
pub config_build-bounds :
    (capacity : ℕ) (b : CollectorConfigBuilder)
    → ((c : CollectorConfig)
        → (config_build (event_capacity capacity b) ≡ ok c)
          ↔ ((1 ≤ capacity) × (capacity ≤ 65536) × (c.event_capacity ≡ capacity)))
      × ((e : CollectorConfigError)
          → config_build (event_capacity capacity b) ≡ err e
          → e.configured ≡ capacity)
unfolding config_build
config_build-bounds capacity b = (λ c. ground arith, λ e h. ground arith)

-- ===== src/Wire/Guarantee.antt =====
-- The results of `decode` (src/wire.rs): the event or the error, against the bytes of the record.
use landlock_observability.Prelude.{
  ℕ, zero, suc, ◌<◌, ◌≡◌, ◌≢◌, ◌⊎◌, refl, sym, ap, subst, ◌∙◌, Option, none, some, List, [], ◌∷◌,
  ok, err, ◌==◌, length, take, get_elem?, arith, Bool-cases, inl, inr,
}
use landlock_observability.Event.Ids.{KernelTimestamp}
use landlock_observability.Event.Kinds.{
  Event, timestamp, create_ruleset, add_rule_path_beneath, add_rule_net_port, create_domain,
  deny_access_fs, deny_access_net, deny_ptrace, deny_scope_signal, deny_scope_abstract_unix_socket,
  free_domain, free_ruleset, enforce_domain,
}
use landlock_observability.Event.Ranges.{Event-IsValid}
use landlock_observability.Wire.Reader.{
  record_size, DecodeError, Decoded, wrong_length, boolean, captured_bytes,
  abstract_unix_socket_name_length, landlock_id, task_id, event_kind, missing_field, ByteOrder,
  from_ne_bytes, byte_at,
}
use landlock_observability.Wire.Decode.{
  EventKind, numbered_kinds, kind_in, decode_kind, decode_as, decode_sized, decode,
}
use landlock_observability.Wire.Ensures.{Ensures, IsFieldError, Ensures-map, Ensures-weaken}
use landlock_observability.Wire.Fields.{AreBytes, u64_at-ok}
use landlock_observability.Wire.Records.{
  read_create_ruleset-Ensures, read_add_rule_path_beneath-Ensures, read_add_rule_net_port-Ensures,
  read_create_domain-Ensures, read_deny_access_fs-Ensures, read_deny_access_net-Ensures,
  read_deny_ptrace-Ensures, read_deny_scope_signal-Ensures,
  read_deny_scope_abstract_unix_socket-Ensures, read_free_domain-Ensures, read_free_ruleset-Ensures,
  read_enforce_domain-Ensures,
}

-- The number of an event's kind in a record.
abbrev pub event_number : Event → ℕ
event_number (create_ruleset e) = 1
event_number (add_rule_path_beneath e) = 2
event_number (add_rule_net_port e) = 3
event_number (create_domain e) = 4
event_number (deny_access_fs e) = 5
event_number (deny_access_net e) = 6
event_number (deny_ptrace e) = 7
event_number (deny_scope_signal e) = 8
event_number (deny_scope_abstract_unix_socket e) = 9
event_number (free_domain e) = 10
event_number (free_ruleset e) = 11
event_number (enforce_domain e) = 12

abbrev kind_number : EventKind → ℕ
kind_number EventKind.create_ruleset_kind = 1
kind_number EventKind.add_rule_path_beneath_kind = 2
kind_number EventKind.add_rule_net_port_kind = 3
kind_number EventKind.create_domain_kind = 4
kind_number EventKind.deny_access_fs_kind = 5
kind_number EventKind.deny_access_net_kind = 6
kind_number EventKind.deny_ptrace_kind = 7
kind_number EventKind.deny_scope_signal_kind = 8
kind_number EventKind.deny_scope_abstract_unix_socket_kind = 9
kind_number EventKind.free_domain_kind = 10
kind_number EventKind.free_ruleset_kind = 11
kind_number EventKind.enforce_domain_kind = 12

kind_in-number :
    (event_type : ℕ) (kind : EventKind)
    → kind_in event_type numbered_kinds ≡ some kind
    → kind_number kind ≡ event_type
unfolding kind_in
kind_in-number event_type kind h = ground arith

-- A type that no kind has.
kind_in-none :
    (event_type : ℕ)
    → kind_in event_type numbered_kinds ≡ none
    → (event_type ≡ 0) ⊎ (12 < event_type)
unfolding kind_in
kind_in-none event_type h = grind arith

-- An event in its ranges, of a kind and with a timestamp.
abbrev Describes : ℕ → KernelTimestamp → Event → Type 0
Describes number t e = Event-IsValid e × (event_number e ≡ number) × (timestamp e ≡ t)

-- The event is in its ranges, and has the kind and the timestamp that the record names.
abbrev pub Reads : ByteOrder → List ℕ → Event → Type 0
Reads order sample e =
    Event-IsValid e
    × (get_elem? sample 8 ≡ some (event_number e))
    × (timestamp e ≡ from_ne_bytes order (take 8 sample))

-- What is wrong with a record that gives an error.
abbrev pub IsDecodeError : List ℕ → DecodeError → Type 0
IsDecodeError sample (wrong_length expected actual) =
    (expected ≡ record_size) × (actual ≡ length sample) × (length sample ≢ record_size)
IsDecodeError sample (event_kind value) =
    (length sample ≡ record_size) × (get_elem? sample 8 ≡ some value) × ((value ≡ 0) ⊎ (12 < value))
IsDecodeError sample (boolean field value) =
    (length sample ≡ record_size) × IsFieldError (boolean field value)
IsDecodeError sample (captured_bytes field source) =
    (length sample ≡ record_size) × IsFieldError (captured_bytes field source)
IsDecodeError sample (abstract_unix_socket_name_length value maximum) =
    (length sample ≡ record_size) × IsFieldError (abstract_unix_socket_name_length value maximum)
IsDecodeError sample (landlock_id field value) =
    (length sample ≡ record_size) × IsFieldError (landlock_id field value)
IsDecodeError sample (task_id field) = length sample ≡ record_size
IsDecodeError sample (missing_field field) = ⊥

IsFieldError-IsDecodeError :
    (sample : List ℕ) (e : DecodeError)
    → length sample ≡ record_size
    → IsFieldError e
    → IsDecodeError sample e
IsFieldError-IsDecodeError sample (wrong_length expected actual) sized h = absurd h
IsFieldError-IsDecodeError sample (event_kind value) sized h = absurd h
IsFieldError-IsDecodeError sample (boolean field value) sized h = (sized, h)
IsFieldError-IsDecodeError sample (captured_bytes field source) sized h = (sized, h)
IsFieldError-IsDecodeError sample (abstract_unix_socket_name_length v m) sized h = (sized, h)
IsFieldError-IsDecodeError sample (landlock_id field value) sized h = (sized, h)
IsFieldError-IsDecodeError sample (task_id field) sized h = sized
IsFieldError-IsDecodeError sample (missing_field field) sized h = absurd h

get_elem?-lt : (l : List ℕ) (i : ℕ) → i < length l → (b : ℕ) × (get_elem? l i ≡ some b)
get_elem?-lt [] i h = absurd (omega arith)
get_elem?-lt (b ∷ l) zero h = (b, refl)
get_elem?-lt (b ∷ l) (suc i) h = get_elem?-lt l i (omega arith)

-- Both sides of a result.
abbrev ResultFits : ByteOrder → List ℕ → Decoded Event → Type 0
ResultFits order sample (err e) = IsDecodeError sample e
ResultFits order sample (ok e) = (length sample ≡ record_size) × Reads order sample e

Ensures-ResultFits :
    (order : ByteOrder) (sample : List ℕ) (m : Decoded Event)
    → length sample ≡ record_size
    → Ensures (Reads order sample) m
    → ResultFits order sample m
Ensures-ResultFits order sample (err e) sized h = IsFieldError-IsDecodeError sample e sized h.holds
Ensures-ResultFits order sample (ok e) sized h = (sized, h.holds)

module _ (order : ByteOrder) (sample : List ℕ) (sized : length sample ≡ record_size)
    (small : AreBytes sample) where
  decode_kind-Ensures :
      (kind : EventKind) (t : KernelTimestamp)
      → Ensures (Describes (kind_number kind) t) (decode_kind order kind t sample)
  unfolding decode_kind timestamp
  decode_kind-Ensures EventKind.create_ruleset_kind t =
      Ensures-map create_ruleset (read_create_ruleset-Ensures order sample sized small t)
        (λ e h. (h.0, refl, h.1))
  decode_kind-Ensures EventKind.add_rule_path_beneath_kind t =
      Ensures-map add_rule_path_beneath
        (read_add_rule_path_beneath-Ensures order sample sized small t) (λ e h. (h.0, refl, h.1))
  decode_kind-Ensures EventKind.add_rule_net_port_kind t =
      Ensures-map add_rule_net_port (read_add_rule_net_port-Ensures order sample sized small t)
        (λ e h. (h.0, refl, h.1))
  decode_kind-Ensures EventKind.create_domain_kind t =
      Ensures-map create_domain (read_create_domain-Ensures order sample sized small t)
        (λ e h. (h.0, refl, h.1))
  decode_kind-Ensures EventKind.deny_access_fs_kind t =
      Ensures-map deny_access_fs (read_deny_access_fs-Ensures order sample sized small t)
        (λ e h. (h.0, refl, h.1))
  decode_kind-Ensures EventKind.deny_access_net_kind t =
      Ensures-map deny_access_net (read_deny_access_net-Ensures order sample sized small t)
        (λ e h. (h.0, refl, h.1))
  decode_kind-Ensures EventKind.deny_ptrace_kind t =
      Ensures-map deny_ptrace (read_deny_ptrace-Ensures order sample sized small t)
        (λ e h. (h.0, refl, h.1))
  decode_kind-Ensures EventKind.deny_scope_signal_kind t =
      Ensures-map deny_scope_signal (read_deny_scope_signal-Ensures order sample sized small t)
        (λ e h. (h.0, refl, h.1))
  decode_kind-Ensures EventKind.deny_scope_abstract_unix_socket_kind t =
      Ensures-map deny_scope_abstract_unix_socket
        (read_deny_scope_abstract_unix_socket-Ensures order sample sized small t)
        (λ e h. (h.0, refl, h.1))
  decode_kind-Ensures EventKind.free_domain_kind t =
      Ensures-map free_domain (read_free_domain-Ensures order sample sized small t)
        (λ e h. (h.0, refl, h.1))
  decode_kind-Ensures EventKind.free_ruleset_kind t =
      Ensures-map free_ruleset (read_free_ruleset-Ensures order sample sized small t)
        (λ e h. (h.0, refl, h.1))
  decode_kind-Ensures EventKind.enforce_domain_kind t =
      Ensures-map enforce_domain (read_enforce_domain-Ensures order sample sized small t)
        (λ e h. (h.0, refl, h.1))

  decode_as-ResultFits :
      (event_type : ℕ) (kind : Option EventKind)
      → kind_in event_type numbered_kinds ≡ kind
      → get_elem? sample 8 ≡ some event_type
      → ResultFits order sample
          (decode_as order event_type kind (from_ne_bytes order (take 8 sample)) sample)
  unfolding decode_as
  decode_as-ResultFits event_type none found there = (sized, there, kind_in-none event_type found)
  decode_as-ResultFits event_type (some kind) found there =
      Ensures-ResultFits order sample _ sized (
        Ensures-weaken (decode_kind-Ensures kind (from_ne_bytes order (take 8 sample))) (λ e h.
          (h.0, there ∙ ap some (sym (kind_in-number event_type kind found) ∙ sym h.1), h.2)))

  type_at : (event_type : ℕ) × (get_elem? sample 8 ≡ some event_type)
  type_at = get_elem?-lt sample 8 (omega (arith, sized))

  decode_sized-ResultFits : ResultFits order sample (decode_sized order sample)
  unfolding decode_sized byte_at
  decode_sized-ResultFits =
      rw (type_at.1, u64_at-ok sample sized small order 0 "timestamp" (omega arith))
        (decode_as-ResultFits type_at.0 (kind_in type_at.0 numbered_kinds) refl type_at.1)

decode-ResultFits :
    (order : ByteOrder) (sample : List ℕ)
    → AreBytes sample
    → ResultFits order sample (decode order sample)
unfolding decode
decode-ResultFits order sample small = elim (Bool-cases (length sample == record_size)) [
  | inl same ↦ rw (same) (decode_sized-ResultFits order sample (ground (arith, same)) small)
  | inr other ↦ rw (other) (refl, refl, λ (q : length sample ≡ record_size). ground (arith, other))
]

-- In either byte order and for every list of bytes, an event that `decode` returns comes from a
-- record of 352 bytes; its kind is the byte at 8 and its timestamp the number in the first eight
-- bytes; its identities, its captured bytes and its numbers are in their ranges.
pub decode-Reads :
    (order : ByteOrder) (sample : List ℕ)
    → AreBytes sample
    → (e : Event) → decode order sample ≡ ok e
    → (length sample ≡ record_size) × Reads order sample e
decode-Reads order sample small e h =
    subst (ResultFits order sample) h (decode-ResultFits order sample small)

-- ===== src/Lltop/Affected.antt =====
-- The identities that `affected_domain_ids` returns (lltop/src/batch.rs).
use landlock_observability.Prelude.{
  ℕ, suc, ◌≤◌, ◌<◌, ◌≡◌, ◌≢◌, refl, sym, ap, subst, ◌∙◌, Option, none, some, List, [], ◌∷◌, All,
  arith, inl, inr, ◌⊎◌, length, length-append, ltb, ◌==◌, Bool-cases,
}
use landlock_observability.Event.Ids.{DomainId}
use landlock_observability.Event.Kinds.{
  Event, DenialContext, DomainMembership, create_domain, free_domain, enforce_domain,
  deny_access_fs, deny_access_net, deny_ptrace, deny_scope_signal, deny_scope_abstract_unix_socket,
  create_ruleset, add_rule_path_beneath, add_rule_net_port, free_ruleset,
}
use landlock_observability.State.Apply.{sandboxed_id}
use landlock_observability.Lltop.Batch.{
  opt_list, add_denial, named_ids, place_id, sort_ids, dedup_after, dedup, affected_domain_ids,
}
use landlock_observability.Lltop.Counting.{IsIn, IsDistinct}

abbrev Above : ℕ → List DomainId → Type 0
Above n ids = All (λ y. n ≤ y.value) ids

abbrev IsAscending : List DomainId → Type 0
IsAscending [] = Unit
IsAscending (x ∷ ids) = Above x.value ids × IsAscending ids

All-weaken :
    (P Q : DomainId → Type 0) (ids : List DomainId)
    → ((y : DomainId) → P y → Q y)
    → All P ids
    → All Q ids
All-weaken P Q [] weaker h = tt
All-weaken P Q (y ∷ ids) weaker h = (weaker y h.0, All-weaken P Q ids weaker h.1)

place_id-Above :
    (n : ℕ) (x : DomainId) (ids : List DomainId)
    → n ≤ x.value
    → Above n ids
    → Above n (place_id x ids)
unfolding place_id
place_id-Above n x [] le h = (le, tt)
place_id-Above n x (y ∷ ids) le h = elim (Bool-cases (ltb y.value x.value)) [
  | inl e ↦ rw (e, place_id) (h.0, place_id-Above n x ids le h.1)
  | inr e ↦ rw (e, place_id) (le, h)
]

place_id-IsAscending :
    (x : DomainId) (ids : List DomainId) → IsAscending ids → IsAscending (place_id x ids)
unfolding place_id
place_id-IsAscending x [] h = (tt, tt)
place_id-IsAscending x (y ∷ ids) h = elim (Bool-cases (ltb y.value x.value)) [
  | inl e ↦
      let lt : y.value < x.value = ground (arith, e) in
      rw (e, place_id)
        (place_id-Above y.value x ids (omega (arith, lt)) h.0, place_id-IsAscending x ids h.1)
  | inr e ↦
      let le : x.value ≤ y.value = ground (arith, e) in
      rw (e, place_id)
        (
          (
            le,
            All-weaken (λ z. y.value ≤ z.value) (λ z. x.value ≤ z.value) ids
                (λ z p. omega (arith, le, p)) h.0,
          ),
          h,
        )
]

sort_ids-IsAscending : (ids : List DomainId) → IsAscending (sort_ids ids)
unfolding sort_ids
sort_ids-IsAscending [] = tt
sort_ids-IsAscending (x ∷ ids) = place_id-IsAscending x (sort_ids ids) (sort_ids-IsAscending ids)

place_id-IsIn_self : (x : DomainId) (ids : List DomainId) → IsIn x (place_id x ids)
unfolding place_id
place_id-IsIn_self x [] = inl refl
place_id-IsIn_self x (y ∷ ids) = elim (Bool-cases (ltb y.value x.value)) [
  | inl e ↦ rw (e, place_id) (inr (place_id-IsIn_self x ids))
  | inr e ↦ rw (e, place_id) (inl refl)
]

place_id-IsIn : (x z : DomainId) (ids : List DomainId) → IsIn z ids → IsIn z (place_id x ids)
unfolding place_id
place_id-IsIn x z [] i = elim i [ ]
place_id-IsIn x z (y ∷ ids) i = elim (Bool-cases (ltb y.value x.value)) [
  | inl e ↦
      rw (e, place_id)
        (elim i [ inl same ↦ inl same | inr later ↦ inr (place_id-IsIn x z ids later) ])
  | inr e ↦ rw (e, place_id) (inr i)
]

sort_ids-IsIn : (z : DomainId) (ids : List DomainId) → IsIn z ids → IsIn z (sort_ids ids)
unfolding sort_ids
sort_ids-IsIn z [] i = elim i [ ]
sort_ids-IsIn z (x ∷ ids) (inl same) =
    subst (λ w. IsIn w (place_id x (sort_ids ids))) same (place_id-IsIn_self x (sort_ids ids))
sort_ids-IsIn z (x ∷ ids) (inr later) = place_id-IsIn x z (sort_ids ids) (sort_ids-IsIn z ids later)

value-eq : (x y : DomainId) → x.value ≡ y.value → x ≡ y
value-eq x y e = λ i. record { value = e i }

-- What is kept after `x` is above it, and nothing is lost but `x`.
dedup_after-Above :
    (x : DomainId) (ids : List DomainId)
    → Above x.value ids
    → IsAscending ids
    → All (λ y. x.value < y.value) (dedup_after x ids) × IsDistinct (dedup_after x ids)
unfolding dedup_after
dedup_after-Above x [] h a = (tt, tt)
dedup_after-Above x (y ∷ ids) h a =
    let rest = dedup_after-Above y ids a.0 a.1 in
    elim (Bool-cases (x.value == y.value)) [
      | inl e ↦
          let same : y.value ≡ x.value = ground (arith, e) in
          rw (e, dedup_after)
            (subst (λ n. All (λ z. n < z.value) (dedup_after y ids)) same rest.0, rest.1)
      | inr e ↦
          let lt : x.value < y.value = ground (arith, e, h.0) in
          rw (e, dedup_after)
            (
              (
                lt,
                All-weaken (λ z. y.value < z.value) (λ z. x.value < z.value) (dedup_after y ids)
                    (λ z p. omega (arith, lt, p)) rest.0,
              ),
              (
                All-weaken (λ z. y.value < z.value) (λ z. y ≢ z) (dedup_after y ids)
                    (λ z p e. absurd (omega (arith, p, ap (λ w. w.value) e))) rest.0,
                rest.1,
              ),
            )
    ]

dedup_after-IsIn :
    (x z : DomainId) (ids : List DomainId) → IsIn z ids → (z ≡ x) ⊎ IsIn z (dedup_after x ids)
unfolding dedup_after
dedup_after-IsIn x z [] i = elim i [ ]
dedup_after-IsIn x z (y ∷ ids) i =
    let kept : (z ≡ y) ⊎ IsIn z (dedup_after y ids) = elim i [
      | inl same ↦ inl (sym same)
      | inr later ↦ dedup_after-IsIn y z ids later
    ] in
    elim (Bool-cases (x.value == y.value)) [
      | inl e ↦
          let same : y ≡ x = value-eq y x (ground (arith, e)) in
          rw (e, dedup_after) (elim kept [ inl p ↦ inl (p ∙ same) | inr p ↦ inr p ])
      | inr e ↦ rw (e, dedup_after) (inr (elim kept [ inl p ↦ inl (sym p) | inr p ↦ inr p ]))
    ]

dedup-IsIn : (z : DomainId) (ids : List DomainId) → IsIn z ids → IsIn z (dedup ids)
dedup-IsIn z [] i = i
dedup-IsIn z (x ∷ ids) (inl same) = inl same
dedup-IsIn z (x ∷ ids) (inr later) = elim (dedup_after-IsIn x z ids later) [
  | inl same ↦ inl (sym same)
  | inr kept ↦ inr kept
]

dedup-IsDistinct : (ids : List DomainId) → IsAscending ids → IsDistinct (dedup ids)
dedup-IsDistinct [] h = tt
dedup-IsDistinct (x ∷ ids) h =
    let rest = dedup_after-Above x ids h.0 h.1 in
    (
      All-weaken (λ z. x.value < z.value) (λ z. x ≢ z) (dedup_after x ids)
          (λ z p e. absurd (omega (arith, p, ap (λ w. w.value) e))) rest.0,
      rest.1,
    )

pub affected_domain_ids-IsDistinct : (event : Event) → IsDistinct (affected_domain_ids event)
unfolding affected_domain_ids
affected_domain_ids-IsDistinct event =
    dedup-IsDistinct (sort_ids (named_ids event)) (sort_ids-IsAscending (named_ids event))

pub affected_domain_ids-IsIn :
    (event : Event) (z : DomainId) → IsIn z (named_ids event) → IsIn z (affected_domain_ids event)
unfolding affected_domain_ids
affected_domain_ids-IsIn event z i =
    dedup-IsIn z (sort_ids (named_ids event)) (sort_ids-IsIn z (named_ids event) i)

length-place_id : (x : DomainId) (ids : List DomainId) → length (place_id x ids) ≡ suc (length ids)
unfolding place_id
length-place_id x [] = refl
length-place_id x (y ∷ ids) = ground (arith, length-place_id x ids)

length-sort_ids : (ids : List DomainId) → length (sort_ids ids) ≡ length ids
unfolding sort_ids
length-sort_ids [] = refl
length-sort_ids (x ∷ ids) = omega (arith, length-place_id x (sort_ids ids), length-sort_ids ids)

length-dedup_after : (x : DomainId) (ids : List DomainId) → length (dedup_after x ids) ≤ length ids
unfolding dedup_after
length-dedup_after x [] = omega arith
length-dedup_after x (y ∷ ids) = ground (arith, length-dedup_after y ids)

length-dedup : (ids : List DomainId) → length (dedup ids) ≤ length ids
length-dedup [] = omega arith
length-dedup (x ∷ ids) = omega (arith, length-dedup_after x ids)

length-opt_list : {A : Type 0} (o : Option A) → length (opt_list o) ≤ 1
length-opt_list none = omega arith
length-opt_list (some a) = omega arith

length-add_denial :
    (c : DenialContext) (membership : Option DomainMembership)
    → length (add_denial c membership) ≤ 3
length-add_denial c membership = omega (
  arith,
  length-append (opt_list c.hierarchy.parent_id) (opt_list (sandboxed_id membership)),
  length-opt_list c.hierarchy.parent_id,
  length-opt_list (sandboxed_id membership),
)

length-named_ids : (event : Event) → length (named_ids event) ≤ 3
length-named_ids (create_domain e) = omega (arith, length-opt_list e.parent_id)
length-named_ids (free_domain e) = omega arith
length-named_ids (enforce_domain e) = omega arith
length-named_ids (deny_access_fs e) = length-add_denial e.context none
length-named_ids (deny_access_net e) = length-add_denial e.context none
length-named_ids (deny_ptrace e) = length-add_denial e.context (some e.tracee_domain)
length-named_ids (deny_scope_signal e) = length-add_denial e.context (some e.target_domain)
length-named_ids (deny_scope_abstract_unix_socket e) =
    length-add_denial e.context (some e.peer_domain)
length-named_ids (create_ruleset e) = omega arith
length-named_ids (add_rule_path_beneath e) = omega arith
length-named_ids (add_rule_net_port e) = omega arith
length-named_ids (free_ruleset e) = omega arith

pub length-affected_domain_ids : (event : Event) → length (affected_domain_ids event) ≤ 3
unfolding affected_domain_ids
length-affected_domain_ids event = omega (
  arith,
  length-dedup (sort_ids (named_ids event)),
  length-sort_ids (named_ids event),
  length-named_ids event,
)

-- ===== src/Collector/Preparation.antt =====
-- What a preparation leaves attached (src/collector.rs, `prepare_resources` and
-- `CollectorConfig::prepare`).
use landlock_observability.Prelude.{
  ℕ, suc, ◌+◌, ◌-◌, ◌≤◌, ◌≡◌, refl, sym, ap, subst, ◌∙◌, Option, none, some, List, [], ◌∷◌, ◌++◌,
  Result, err, ok, String, length, length-append, Result-cases, inl, inr, ◌⊎◌, arith,
}
use landlock_observability.Privilege.Kernel.{Call, ◌>>=◌, with_error, Kernel}
use landlock_observability.Privilege.Ensures.{>>=-err, >>=-ok, with_error-state}
use landlock_observability.Privilege.Policy.{
  Policy, finish_policy_with, production_ops, ensure_can_prepare, finish,
}
use landlock_observability.Privilege.Reuse.{finish_policy_with-reuse}
use landlock_observability.Collector.Pipe.{Pipe}
use landlock_observability.Collector.Config.{CollectorConfig}
use landlock_observability.Collector.Prepare.{
  Libbpf, PreparedResources, CollectorPrepareError, prepare_collector, prepare_resources,
  load_object, attach_object, attach_all, detach_all, stage, CollectorPrepareErrorKind, set_up_ring,
  explain_load, find_map, drop_resources,
}

-- How many programs are attached in a state; only attaching and detaching changes it.
abbrev pub Keeps : {S E A : Type 0} → (S → ℕ) → Call S E A → Type 0
Keeps {S} attached call = (s : S) → attached (call s).0 ≡ attached s

-- The documentation of libbpf: a link is attached until it is dropped, and the other calls attach
-- nothing.
pub record IsTracked {S E P L M R : Type 0} (lib : Libbpf S E P L M R) (attached : S → ℕ)
    : Type 0 where
  pub open_memory_keeps : Keeps attached lib.open_memory
  pub load_keeps : Keeps attached lib.load
  pub new_ring_keeps : (m : M) → Keeps attached (lib.new_ring m)
  pub read_btf_keeps : Keeps attached lib.read_btf
  pub drop_ring_keeps : (r : R) (s : S) → attached (lib.drop_ring r s) ≡ attached s
  pub attach_error :
      (p : P) (s : S) (e : E)
      → (lib.attach p s).1 ≡ err e
      → attached (lib.attach p s).0 ≡ attached s
  pub attach_ok :
      (p : P) (s : S) (l : L)
      → (lib.attach p s).1 ≡ ok l
      → attached (lib.attach p s).0 ≡ suc (attached s)
  pub detach_one : (l : L) (s : S) → attached (lib.detach l s) ≡ attached s - 1

module _ {S E P L M R : Type 0} (lib : Libbpf S E P L M R) (attached : S → ℕ)
    (tracked : IsTracked lib attached) where
  detach_all-attached :
      (links : List L) (s : S) → attached (detach_all lib links s) ≡ attached s - length links
  detach_all-attached [] s = omega arith
  detach_all-attached (link ∷ links) s =
      omega (arith, detach_all-attached links (lib.detach link s), tracked.detach_one link s)

  -- The links that a list of programs gives, or none of them.
  abbrev AttachesAll : List L → S → S × Result E (List L) → Type 0
  AttachesAll links s r =
      ((e : E) → r.1 ≡ err e → attached r.0 + length links ≡ attached s)
      × ((all : List L) → r.1 ≡ ok all → attached r.0 + length links ≡ attached s + length all)

  attach_all-lem :
      (links : List L) (programs : List P) (s : S)
      → length links ≤ attached s
      → AttachesAll links s (attach_all lib links programs s)
  unfolding attach_all
  attach_all-lem links [] s le = (λ e h. absurd (ground arith), λ all h. ground arith)
  attach_all-lem links (program ∷ programs) s le =
      let r = lib.attach program s in
      elim (Result-cases r.1) [
        | inl (e, p) ↦
            let kept = tracked.attach_error program s e p in
            let none_left = detach_all-attached links r.0 in
            (λ f h. ground (arith, p, kept, none_left), λ all h. absurd (ground (arith, p)))
        | inr (link, p) ↦
            let more = tracked.attach_ok program s link p in
            let longer = length-append links (link ∷ []) in
            let later =
              attach_all-lem (links ++ link ∷ []) programs r.0 (omega (arith, le, more, longer)) in
            rw (p, attach_all)
              (
                λ e h. omega (arith, later.0 e h, more, longer),
                λ all h. omega (arith, later.1 all h, more, longer),
              )
      ]

  -- A failure leaves attached what was attached, and success adds the links of the resources.
  abbrev Leaves : ℕ → {F : Type 0} → S × Result F (PreparedResources L R) → Type 0
  Leaves n {F} r =
      ((e : F) → r.1 ≡ err e → attached r.0 ≡ n)
      × ((resources : PreparedResources L R)
          → r.1 ≡ ok resources
          → attached r.0 ≡ n + length resources.links)

  Leaves-bind :
      (n : ℕ) {F A : Type 0} (call : Call S F A) (next : A → Call S F (PreparedResources L R))
      (s : S)
      → ((e : F) → (call s).1 ≡ err e → attached (call s).0 ≡ n)
      → ((a : A) → (call s).1 ≡ ok a → Leaves n (next a (call s).0))
      → Leaves n ((call >>= next) s)
  Leaves-bind n call next s failed later = elim (Result-cases (call s).1) [
    | inl (e, p) ↦
        subst (Leaves n) (sym (>>=-err call next s e p))
          (λ f q. failed e p, λ resources q. absurd (ground arith))
    | inr (a, p) ↦ subst (Leaves n) (sym (>>=-ok call next s a p)) (later a p)
  ]

  -- A call whose errors are converted.
  Leaves-with_error :
      (n : ℕ) {F G A : Type 0} (convert : F → G) (call : Call S F A)
      (next : A → Call S G (PreparedResources L R)) (s : S)
      → ((e : F) → (call s).1 ≡ err e → attached (call s).0 ≡ n)
      → ((a : A) → (call s).1 ≡ ok a → Leaves n (next a (call s).0))
      → Leaves n ((with_error convert call >>= next) s)
  Leaves-with_error n convert call next s failed later =
      let same = with_error-state convert call s in
      Leaves-bind n (with_error convert call) next s
        (λ e p. elim (Result-cases (call s).1) [
          | inl (f, q) ↦ ap attached same.0 ∙ failed f q
          | inr (a, q) ↦ absurd (ground (arith, same.1, p, q))
        ])
        (λ a p. elim (Result-cases (call s).1) [
          | inl (f, q) ↦ absurd (ground (arith, same.1, p, q))
          | inr (b, q) ↦
              let kept : b ≡ a = ground (arith, same.1, p, q) in
              subst (λ t. Leaves n (next a t)) (sym same.0)
                (subst (λ v. Leaves n (next v (call s).0)) kept (later b q))
        ])

  load_object-attached : (I : Type 0) (s : S) → attached (load_object {I = I} lib s).0 ≡ attached s
  unfolding load_object explain_load
  load_object-attached I s =
      let r = lib.load s in
      elim (Result-cases r.1) [
        | inl (e, p) ↦ ground (arith, p, tracked.load_keeps s, tracked.read_btf_keeps r.0)
        | inr (object, p) ↦ ground (arith, p, tracked.load_keeps s)
      ]

  module _ {I : Type 0} where
    set_up_ring-Leaves :
        (n : ℕ) (links : List L) (o : Option M) (s : S)
        → attached s ≡ n + length links
        → Leaves n {F = CollectorPrepareError E I} (set_up_ring lib links o s)
    unfolding set_up_ring
    set_up_ring-Leaves n links none s h =
        (λ e p. omega (arith, h, detach_all-attached links s), λ resources p. absurd (ground arith))
    set_up_ring-Leaves n links (some events) s h =
        let r = lib.new_ring events s in
        let kept = tracked.new_ring_keeps events s in
        elim (Result-cases r.1) [
          | inl (e, p) ↦
              let none_left = detach_all-attached links r.0 in
              (
                λ f q. ground (arith, p, h, kept, none_left),
                λ resources q. absurd (ground (arith, p)),
              )
          | inr (ring, p) ↦
              (λ f q. absurd (ground (arith, p)), λ resources q. ground (arith, p, h, kept))
        ]

    attach_object-Leaves :
        (object : List P × List (String × M)) (s : S)
        → Leaves (attached s) {F = CollectorPrepareError E I} (attach_object lib object s)
    unfolding attach_object
    attach_object-Leaves object s =
        let made = attach_all-lem [] object.0 s (omega arith) in
        Leaves-with_error (attached s) (stage CollectorPrepareErrorKind.attach_failure)
          (attach_all lib [] object.0) _ s (λ e p. omega (arith, made.0 e p))
          (λ links p.
            set_up_ring-Leaves (attached s) links (find_map "events" object.1)
              (attach_all lib [] object.0 s).0 (omega (arith, made.1 links p)))

    prepare_resources-Leaves :
        (s : S) → Leaves (attached s) {F = CollectorPrepareError E I} (prepare_resources lib s)
    unfolding prepare_resources
    prepare_resources-Leaves s =
        let opened = tracked.open_memory_keeps s in
        let t = (lib.open_memory s).0 in
        let loaded = load_object-attached I t ∙ opened in
        Leaves-with_error (attached s) (stage CollectorPrepareErrorKind.open_failure)
          lib.open_memory _ s (λ e p. opened)
          (λ u p.
            Leaves-bind (attached s) (load_object lib) (attach_object lib) t (λ e q. loaded)
              (λ object q.
                subst
                  (λ n.
                    Leaves n {F = CollectorPrepareError E I}
                      (attach_object lib object (load_object {I = I} lib t).0))
                  loaded (attach_object-Leaves object (load_object {I = I} lib t).0)))

drop_resources-attached :
    {S E P L M R : Type 0} (lib : Libbpf S E P L M R) (attached : S → ℕ)
    → IsTracked lib attached
    → (resources : PreparedResources L R) (s : S)
    → attached (drop_resources lib resources s) ≡ attached s - length resources.links
unfolding drop_resources
drop_resources-attached lib attached tracked resources s = omega (
  arith,
  detach_all-attached lib attached tracked resources.links (lib.drop_ring resources.ring s),
  tracked.drop_ring_keeps resources.ring s,
)

-- A value that is finished explicitly with success is finished, or it was preserved.
finish-IsDone :
    {S I : Type 0} (k : Kernel S I) (policy : Policy) (s : S) (u : Unit)
    → (finish k policy s).result ≡ ok u
    → ((finish k policy s).policy ≡ Policy.finished)
      ⊎ ((finish k policy s).policy ≡ Policy.preserved)
unfolding finish finish_policy_with
finish-IsDone k Policy.minimized s u h = inl ((finish_policy_with-reuse (production_ops k) s).0.1 h)
finish-IsDone k Policy.preserved s u h = inr refl
finish-IsDone k Policy.verification_pending s u h = absurd (ground arith)
finish-IsDone k Policy.finished s u h = inl refl

-- A preparation that fails, at whatever stage, leaves attached as many programs as before; one that
-- succeeds adds those of its resources, and the privileges are then finished or preserved. Links
-- are taken to count until they are dropped, and credentials not to matter for them.
pub prepare_collector-attached :
    {S E P L M R I X : Type 0} (lib : Libbpf S E P L M R) (k : Kernel S I) (attached : S → ℕ)
    → IsTracked lib attached
    → ((policy : Policy) (s : S) → attached (finish k policy s).state ≡ attached s)
    → (config : CollectorConfig) (policy : Policy) (s : S)
    → let o = prepare_collector {X = X} lib k config policy s in
      ((e : CollectorPrepareError E I) → o.result ≡ err e → attached o.state ≡ attached s)
      × ((c : Pipe X × PreparedResources L R)
          → o.result ≡ ok c
          → (attached o.state ≡ attached s + length c.1.links)
            × ((o.policy ≡ Policy.finished) ⊎ (o.policy ≡ Policy.preserved)))
unfolding prepare_collector
prepare_collector-attached {I = I} lib k attached tracked unmoved config policy s =
    let r = prepare_resources {I = I} lib s in
    let left = prepare_resources-Leaves lib attached tracked {I = I} s in
    elim (Result-cases (ensure_can_prepare {I = I} policy)) [
      | inl (e, p) ↦ (λ f h. ground (arith, p), λ c h. absurd (ground (arith, p)))
      | inr (u, p) ↦ elim (Result-cases r.1) [
        | inl (e, q) ↦
            (λ f h. ground (arith, p, q, left.0 e q), λ c h. absurd (ground (arith, p, q)))
        | inr (resources, q) ↦
            let o = finish k policy r.0 in
            let kept = unmoved policy r.0 in
            elim (Result-cases o.result) [
              | inl (e, w) ↦
                  let dropped = drop_resources-attached lib attached tracked resources o.state in
                  (
                    λ f h. ground (arith, p, q, w, kept, left.1 resources q, dropped),
                    λ c h. absurd (ground (arith, p, q, w)),
                  )
              | inr (v, w) ↦
                  let done = finish-IsDone k policy r.0 v w in
                  (
                    λ f h. absurd (ground (arith, p, q, w)),
                    λ c h. (
                      ground (arith, p, q, w, kept, left.1 resources q),
                      ground (arith, p, q, w, done),
                    ),
                  )
            ]
      ]
    ]

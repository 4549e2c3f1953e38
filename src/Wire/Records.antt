-- ===== src/Wire/Records.antt =====
-- The results of the readers of the twelve records (src/wire.rs).
use landlock_observability.Prelude.{ℕ, ◌≡◌, refl, List, length, arith}
use landlock_observability.Event.Ids.{LandlockIdKind, KernelTimestamp}
use landlock_observability.Event.Ranges.{
  Hierarchy-IsValid, Context-IsValid, CreateRuleset-IsValid, AddRulePathBeneath-IsValid,
  AddRuleNetPort-IsValid, CreateDomain-IsValid, DenyAccessFs-IsValid, DenyAccessNet-IsValid,
  DenyPtrace-IsValid, DenyScopeSignal-IsValid, DenyScopeAbstractUnixSocket-IsValid,
  FreeDomain-IsValid, FreeRuleset-IsValid, EnforceDomain-IsValid,
}
use landlock_observability.Wire.Reader.{record_size, path_size, ByteOrder}
use landlock_observability.Wire.Ensures.{Ensures, Ensures-ok, Ensures-bind}
use landlock_observability.Wire.Fields.{
  AreBytes, id_of-Ensures, process_id-Ensures, thread_id-Ensures, optional_process_id-IsValid,
  parent-Ensures, membership-Ensures, boolean_at-Ensures, u32_at-Ensures, u64_at-Ensures,
  command_at-Ensures, captured_at-Ensures, abstract_unix_socket_name_at-Ensures,
}
use landlock_observability.Wire.Arms.{
  hierarchy_at, denial_context, read_create_ruleset, read_add_rule_path_beneath,
  read_add_rule_net_port, read_create_domain, read_deny_access_fs, read_deny_access_net,
  read_deny_ptrace, read_deny_scope_signal, read_deny_scope_abstract_unix_socket, read_free_domain,
  read_free_ruleset, read_enforce_domain,
}

module _ (order : ByteOrder) (sample : List ℕ) (sized : length sample ≡ record_size)
    (small : AreBytes sample) where
  hierarchy_at-Ensures : Ensures Hierarchy-IsValid (hierarchy_at order sample)
  unfolding hierarchy_at
  hierarchy_at-Ensures =
      Ensures-bind (u64_at-Ensures sample sized small order 16 _ (omega arith)) λ m m_ok.
        Ensures-bind (id_of-Ensures LandlockIdKind.domain_kind m _) λ d d_ok.
          Ensures-bind (u64_at-Ensures sample sized small order 24 _ (omega arith)) λ p p_ok.
            Ensures-bind (parent-Ensures p _) λ q q_ok.
              Ensures-bind (u32_at-Ensures sample sized small order 32 _ (omega arith)) λ t t_ok.
                Ensures-bind (process_id-Ensures t _) λ g g_ok.
                  Ensures-bind (command_at-Ensures sample sized small 36 _ (omega arith))
                    λ c c_ok. Ensures-ok (d_ok, q_ok, g_ok, c_ok)

  denial_context-Ensures : Ensures Context-IsValid (denial_context order sample)
  unfolding denial_context
  denial_context-Ensures = Ensures-bind (hierarchy_at-Ensures) λ h h_ok.
      Ensures-bind (u64_at-Ensures sample sized small order 56 _ (omega arith)) λ n n_ok.
        Ensures-bind (boolean_at-Ensures sample sized small 72 _ (omega arith)) λ s s_ok.
          Ensures-bind (boolean_at-Ensures sample sized small 73 _ (omega arith))
            λ l l_ok. Ensures-ok (h_ok, n_ok)

  pub read_create_ruleset-Ensures :
      (timestamp : KernelTimestamp)
      → Ensures
          (λ e. CreateRuleset-IsValid e × (e.timestamp ≡ timestamp))
          (read_create_ruleset order timestamp sample)
  unfolding read_create_ruleset
  read_create_ruleset-Ensures timestamp =
      Ensures-bind (u64_at-Ensures sample sized small order 16 _ (omega arith)) λ n n_ok.
        Ensures-bind (id_of-Ensures LandlockIdKind.ruleset_kind n _) λ i i_ok.
          Ensures-bind (u64_at-Ensures sample sized small order 24 _ (omega arith)) λ v v_ok.
            Ensures-bind (u64_at-Ensures sample sized small order 32 _ (omega arith)) λ a a_ok.
              Ensures-bind (u64_at-Ensures sample sized small order 40 _ (omega arith)) λ b b_ok.
                Ensures-bind (u64_at-Ensures sample sized small order 48 _ (omega arith))
                  λ c c_ok. Ensures-ok ((i_ok, v_ok, a_ok, b_ok, c_ok), refl)

  pub read_add_rule_path_beneath-Ensures :
      (timestamp : KernelTimestamp)
      → Ensures
          (λ e. AddRulePathBeneath-IsValid e × (e.timestamp ≡ timestamp))
          (read_add_rule_path_beneath order timestamp sample)
  unfolding read_add_rule_path_beneath
  read_add_rule_path_beneath-Ensures timestamp =
      Ensures-bind (u64_at-Ensures sample sized small order 16 _ (omega arith)) λ n n_ok.
        Ensures-bind (id_of-Ensures LandlockIdKind.ruleset_kind n _) λ i i_ok.
          Ensures-bind (u64_at-Ensures sample sized small order 24 _ (omega arith)) λ v v_ok.
            Ensures-bind (u64_at-Ensures sample sized small order 32 _ (omega arith)) λ a a_ok.
              Ensures-bind (u32_at-Ensures sample sized small order 40 _ (omega arith)) λ d d_ok.
                Ensures-bind (u64_at-Ensures sample sized small order 48 _ (omega arith)) λ j j_ok.
                  Ensures-bind
                    (captured_at-Ensures sample sized small 56 path_size 44 _ _ (omega arith)
                      (omega arith))
                    λ c c_ok. Ensures-ok ((i_ok, v_ok, a_ok, d_ok, j_ok, c_ok), refl)

  pub read_add_rule_net_port-Ensures :
      (timestamp : KernelTimestamp)
      → Ensures
          (λ e. AddRuleNetPort-IsValid e × (e.timestamp ≡ timestamp))
          (read_add_rule_net_port order timestamp sample)
  unfolding read_add_rule_net_port
  read_add_rule_net_port-Ensures timestamp =
      Ensures-bind (u64_at-Ensures sample sized small order 16 _ (omega arith)) λ n n_ok.
        Ensures-bind (id_of-Ensures LandlockIdKind.ruleset_kind n _) λ i i_ok.
          Ensures-bind (u64_at-Ensures sample sized small order 24 _ (omega arith)) λ v v_ok.
            Ensures-bind (u64_at-Ensures sample sized small order 32 _ (omega arith)) λ a a_ok.
              Ensures-bind (u64_at-Ensures sample sized small order 40 _ (omega arith))
                λ p p_ok. Ensures-ok ((i_ok, v_ok, a_ok, p_ok), refl)

  pub read_create_domain-Ensures :
      (timestamp : KernelTimestamp)
      → Ensures
          (λ e. CreateDomain-IsValid e × (e.timestamp ≡ timestamp))
          (read_create_domain order timestamp sample)
  unfolding read_create_domain
  read_create_domain-Ensures timestamp =
      Ensures-bind (u64_at-Ensures sample sized small order 16 _ (omega arith)) λ n n_ok.
        Ensures-bind (id_of-Ensures LandlockIdKind.ruleset_kind n _) λ i i_ok.
          Ensures-bind (u64_at-Ensures sample sized small order 24 _ (omega arith)) λ v v_ok.
            Ensures-bind (u64_at-Ensures sample sized small order 32 _ (omega arith)) λ m m_ok.
              Ensures-bind (id_of-Ensures LandlockIdKind.domain_kind m _) λ d d_ok.
                Ensures-bind (u64_at-Ensures sample sized small order 40 _ (omega arith)) λ p p_ok.
                  Ensures-bind (parent-Ensures p _) λ q q_ok.
                    Ensures-bind (u32_at-Ensures sample sized small order 48 _ (omega arith))
                      λ t t_ok. Ensures-bind (process_id-Ensures t _) λ g g_ok.
                        Ensures-bind (command_at-Ensures sample sized small 52 _ (omega arith))
                          λ c c_ok. Ensures-ok ((i_ok, v_ok, d_ok, q_ok, g_ok, c_ok), refl)

  pub read_deny_access_fs-Ensures :
      (timestamp : KernelTimestamp)
      → Ensures
          (λ e. DenyAccessFs-IsValid e × (e.timestamp ≡ timestamp))
          (read_deny_access_fs order timestamp sample)
  unfolding read_deny_access_fs
  read_deny_access_fs-Ensures timestamp = Ensures-bind (denial_context-Ensures) λ x x_ok.
      Ensures-bind (u32_at-Ensures sample sized small order 52 _ (omega arith)) λ r r_ok.
        Ensures-bind (u64_at-Ensures sample sized small order 64 _ (omega arith)) λ a a_ok.
          Ensures-bind (u32_at-Ensures sample sized small order 80 _ (omega arith)) λ d d_ok.
            Ensures-bind (u64_at-Ensures sample sized small order 88 _ (omega arith)) λ j j_ok.
              Ensures-bind
                (captured_at-Ensures sample sized small 96 path_size 84 _ _ (omega arith)
                  (omega arith))
                λ c c_ok. Ensures-ok ((x_ok, r_ok, a_ok, d_ok, j_ok, c_ok), refl)

  pub read_deny_access_net-Ensures :
      (timestamp : KernelTimestamp)
      → Ensures
          (λ e. DenyAccessNet-IsValid e × (e.timestamp ≡ timestamp))
          (read_deny_access_net order timestamp sample)
  unfolding read_deny_access_net
  read_deny_access_net-Ensures timestamp = Ensures-bind (denial_context-Ensures) λ x x_ok.
      Ensures-bind (u32_at-Ensures sample sized small order 52 _ (omega arith)) λ r r_ok.
        Ensures-bind (u64_at-Ensures sample sized small order 64 _ (omega arith)) λ a a_ok.
          Ensures-bind (u64_at-Ensures sample sized small order 80 _ (omega arith)) λ b b_ok.
            Ensures-bind (u64_at-Ensures sample sized small order 88 _ (omega arith))
              λ d d_ok. Ensures-ok ((x_ok, r_ok, a_ok, b_ok, d_ok), refl)

  pub read_deny_ptrace-Ensures :
      (timestamp : KernelTimestamp)
      → Ensures
          (λ e. DenyPtrace-IsValid e × (e.timestamp ≡ timestamp))
          (read_deny_ptrace order timestamp sample)
  unfolding read_deny_ptrace
  read_deny_ptrace-Ensures timestamp = Ensures-bind (denial_context-Ensures) λ x x_ok.
      Ensures-bind (u64_at-Ensures sample sized small order 80 _ (omega arith)) λ p p_ok.
        Ensures-bind (membership-Ensures p _) λ q q_ok.
          Ensures-bind (u32_at-Ensures sample sized small order 88 _ (omega arith)) λ t t_ok.
            Ensures-bind (process_id-Ensures t _) λ g g_ok.
              Ensures-bind (command_at-Ensures sample sized small 92 _ (omega arith))
                λ c c_ok. Ensures-ok ((x_ok, q_ok, g_ok, c_ok), refl)

  pub read_deny_scope_signal-Ensures :
      (timestamp : KernelTimestamp)
      → Ensures
          (λ e. DenyScopeSignal-IsValid e × (e.timestamp ≡ timestamp))
          (read_deny_scope_signal order timestamp sample)
  unfolding read_deny_scope_signal
  read_deny_scope_signal-Ensures timestamp = Ensures-bind (denial_context-Ensures) λ x x_ok.
      Ensures-bind (u64_at-Ensures sample sized small order 80 _ (omega arith)) λ p p_ok.
        Ensures-bind (membership-Ensures p _) λ q q_ok.
          Ensures-bind (u32_at-Ensures sample sized small order 88 _ (omega arith)) λ t t_ok.
            Ensures-bind (process_id-Ensures t _) λ g g_ok.
              Ensures-bind (command_at-Ensures sample sized small 92 _ (omega arith))
                λ c c_ok. Ensures-ok ((x_ok, q_ok, g_ok, c_ok), refl)

  pub read_deny_scope_abstract_unix_socket-Ensures :
      (timestamp : KernelTimestamp)
      → Ensures
          (λ e. DenyScopeAbstractUnixSocket-IsValid e × (e.timestamp ≡ timestamp))
          (read_deny_scope_abstract_unix_socket order timestamp sample)
  unfolding read_deny_scope_abstract_unix_socket
  read_deny_scope_abstract_unix_socket-Ensures timestamp =
      Ensures-bind (denial_context-Ensures) λ x x_ok.
        Ensures-bind (u64_at-Ensures sample sized small order 80 _ (omega arith)) λ p p_ok.
          Ensures-bind (membership-Ensures p _) λ q q_ok.
            Ensures-bind (u32_at-Ensures sample sized small order 88 _ (omega arith)) λ t t_ok.
              Ensures-bind
                (abstract_unix_socket_name_at-Ensures sample sized small order 92 96 (omega arith)
                  (omega arith))
                λ c c_ok. Ensures-ok ((x_ok, q_ok, optional_process_id-IsValid t, c_ok), refl)

  pub read_free_domain-Ensures :
      (timestamp : KernelTimestamp)
      → Ensures
          (λ e. FreeDomain-IsValid e × (e.timestamp ≡ timestamp))
          (read_free_domain order timestamp sample)
  unfolding read_free_domain
  read_free_domain-Ensures timestamp =
      Ensures-bind (u64_at-Ensures sample sized small order 16 _ (omega arith)) λ m m_ok.
        Ensures-bind (id_of-Ensures LandlockIdKind.domain_kind m _) λ d d_ok.
          Ensures-bind (u64_at-Ensures sample sized small order 24 _ (omega arith))
            λ n n_ok. Ensures-ok ((d_ok, n_ok), refl)

  pub read_free_ruleset-Ensures :
      (timestamp : KernelTimestamp)
      → Ensures
          (λ e. FreeRuleset-IsValid e × (e.timestamp ≡ timestamp))
          (read_free_ruleset order timestamp sample)
  unfolding read_free_ruleset
  read_free_ruleset-Ensures timestamp =
      Ensures-bind (u64_at-Ensures sample sized small order 16 _ (omega arith)) λ n n_ok.
        Ensures-bind (id_of-Ensures LandlockIdKind.ruleset_kind n _) λ i i_ok.
          Ensures-bind (u64_at-Ensures sample sized small order 24 _ (omega arith))
            λ v v_ok. Ensures-ok ((i_ok, v_ok), refl)

  pub read_enforce_domain-Ensures :
      (timestamp : KernelTimestamp)
      → Ensures
          (λ e. EnforceDomain-IsValid e × (e.timestamp ≡ timestamp))
          (read_enforce_domain order timestamp sample)
  unfolding read_enforce_domain
  read_enforce_domain-Ensures timestamp =
      Ensures-bind (u64_at-Ensures sample sized small order 16 _ (omega arith)) λ m m_ok.
        Ensures-bind (id_of-Ensures LandlockIdKind.domain_kind m _) λ d d_ok.
          Ensures-bind (u32_at-Ensures sample sized small order 24 _ (omega arith)) λ t t_ok.
            Ensures-bind (thread_id-Ensures t _) λ g g_ok.
              Ensures-bind (boolean_at-Ensures sample sized small 28 _ (omega arith)) λ a a_ok.
                Ensures-bind (boolean_at-Ensures sample sized small 29 _ (omega arith)) λ b b_ok.
                  Ensures-bind (boolean_at-Ensures sample sized small 30 _ (omega arith))
                    λ c c_ok. Ensures-ok ((d_ok, g_ok), refl)

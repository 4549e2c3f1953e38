-- ===== src/Privilege/Errors.antt =====
-- `PrivilegeError` and its constructors (src/privilege.rs). The type of I/O errors is a parameter;
-- an `Errno` is its number.
use landlock_observability.Prelude.{ℕ, String}

pub data PrivilegeErrorKind : Type 0 where
  not_single_threaded missing_setup_capability already_finalized inspect transition verify :
      PrivilegeErrorKind

pub data PrivilegeErrorDetail (I : Type 0) : Type 0 where
  message : String → PrivilegeErrorDetail I
  io : (operation : String) → (source : I) → PrivilegeErrorDetail I
  errno : (operation : String) → (source : ℕ) → PrivilegeErrorDetail I

pub record PrivilegeError (I : Type 0) : Type 0 where
  pub kind : PrivilegeErrorKind
  pub detail : PrivilegeErrorDetail I

-- `Errno::INVAL`
abbrev pub einval : ℕ
einval = 22

module _ {I : Type 0} where
  abbrev pub error_message : PrivilegeErrorKind → String → PrivilegeError I
  error_message kind text = record { kind = kind; detail = PrivilegeErrorDetail.message text }

  abbrev pub inspect_io : String → I → PrivilegeError I
  inspect_io operation source = record {
    kind = PrivilegeErrorKind.inspect;
    detail = PrivilegeErrorDetail.io operation source;
  }

  abbrev pub inspect_errno : String → ℕ → PrivilegeError I
  inspect_errno operation source = record {
    kind = PrivilegeErrorKind.inspect;
    detail = PrivilegeErrorDetail.errno operation source;
  }

  abbrev pub transition_errno : String → ℕ → PrivilegeError I
  transition_errno operation source = record {
    kind = PrivilegeErrorKind.transition;
    detail = PrivilegeErrorDetail.errno operation source;
  }

  abbrev pub already_finalized_error : PrivilegeError I
  already_finalized_error =
      error_message PrivilegeErrorKind.already_finalized
        "minimized privileges cannot be reused after final capability removal"

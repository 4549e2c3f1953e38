-- ===== src/Collector/Errors.antt =====
-- The failures that a collector reports (src/collector.rs). The errors of libbpf, which this
-- repository only passes on, are a type that is a parameter, `E`.
use landlock_observability.Prelude.{Option, none, some, String}
use landlock_observability.Wire.Reader.{DecodeError}

pub data CollectorReceiveErrorKind : Type 0 where
  malformed_sample output_queue_full poll_failure worker_panic worker_stop :
      CollectorReceiveErrorKind

-- A panic's payload: a text, or a value of any other type.
pub data PanicPayload : Type 0 where
  text : (message : String) → PanicPayload
  opaque : PanicPayload

pub record CollectorWorkerPanic : Type 0 where
  pub message : Option String

-- `CollectorWorkerPanic::from_payload`
unfoldable pub from_payload : PanicPayload → CollectorWorkerPanic
from_payload (text message) = record { message = some message }
from_payload opaque = record { message = none }

-- `ErrorDetail`: the boxed sources that occur, and a static text.
pub data ErrorDetail (E : Type 0) : Type 0 where
  decode_source : DecodeError → ErrorDetail E
  poll_source : E → ErrorDetail E
  panic_source : CollectorWorkerPanic → ErrorDetail E
  static_detail : String → ErrorDetail E

pub record CollectorReceiveError (E : Type 0) : Type 0 where
  pub kind : CollectorReceiveErrorKind
  pub detail : ErrorDetail E

module _ {E : Type 0} where
  -- `receive_error`
  abbrev pub receive_error : CollectorReceiveErrorKind → String → CollectorReceiveError E
  receive_error kind message = record { kind = kind; detail = ErrorDetail.static_detail message }

  abbrev pub worker_stop_error : CollectorReceiveError E
  worker_stop_error =
      receive_error CollectorReceiveErrorKind.worker_stop "collector worker is no longer running"

  -- The notice of omitted entries.
  abbrev pub queue_full_error : CollectorReceiveError E
  queue_full_error =
      receive_error CollectorReceiveErrorKind.output_queue_full
        "one or more delivery entries were omitted"

  abbrev pub malformed_error : DecodeError → CollectorReceiveError E
  malformed_error error = record {
    kind = CollectorReceiveErrorKind.malformed_sample;
    detail = ErrorDetail.decode_source error;
  }

  abbrev pub poll_error : E → CollectorReceiveError E
  poll_error error = record {
    kind = CollectorReceiveErrorKind.poll_failure;
    detail = ErrorDetail.poll_source error;
  }

  -- `worker_receive_panic`
  unfoldable pub worker_receive_panic : PanicPayload → CollectorReceiveError E
  unfolding from_payload
  worker_receive_panic payload = record {
    kind = CollectorReceiveErrorKind.worker_panic;
    detail = ErrorDetail.panic_source (from_payload payload);
  }

-- ===== src/BadRequest.antt =====
-- The errors of lmd/request.go, lmd/filter.go, lmd/response.go and lmd/listener.go: one constructor for each
-- message, with what it quotes.
use lmd.Prelude.{Bytes}
use lmd.Runtime.{Panic}

pub data BadRequest : Type 0 where
  -- lmd/filter.go
  filter_header stats_header : BadRequest
  unrecognized_filter_column unrecognized_stats_column : Bytes → Bytes → BadRequest
  not_an_integer not_a_float : Bytes → Bytes → BadRequest
  custom_variable_form : Bytes → BadRequest
  invalid_regexp : Bytes → BadRequest
  unrecognized_operator : Bytes → Bytes → BadRequest
  group_not_positive : Bytes → Bytes → BadRequest
  not_enough_filter : Bytes → BadRequest
  -- lmd/request.go
  bad_action : Bytes → BadRequest
  no_such_table : Bytes → BadRequest
  bad_header_line unrecognized_header : Bytes → BadRequest
  header_not_positive : Bytes → BadRequest
  invalid_sort_header invalid_sort_direction : BadRequest
  unrecognized_response_format unrecognized_output_format : BadRequest
  not_on_or_off : Bytes → BadRequest
  no_wait_object no_wait_timeout no_wait_condition : BadRequest
  -- lmd/response.go
  no_such_backend : Bytes → BadRequest
  no_such_column no_such_sort_column : Bytes → Bytes → BadRequest
  sort_column_not_in_result : Bytes → BadRequest
  -- lmd/listener.go
  empty_request : BadRequest

-- How a step of a request may end early: by an error that the client is sent, or by a panic, which
-- ends the daemon.
pub data Failure : Type 0 where
  bad : BadRequest → Failure
  panicked : Panic → Failure

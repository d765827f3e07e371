-- ===== src/Objects/Schema/Services.antt =====
-- The columns of the tables services of lmd/objects.go.
use lmd.Prelude.{List, [], ◌∷◌}
use lmd.Objects.{
  custom_var_col, dynamic_update, float_col, int_col, int_list_col, ref_no_update, shinken_only,
  static_update, string_col, string_list_col, virt_col,
}
use lmd.Objects.Schema.{Entry, column, opt_column, ref_column}

abbrev pub services_columns : List Entry
services_columns =
    column "accept_passive_checks" dynamic_update int_col
      "Whether the service accepts passive checks (0/1)"
    ∷ column "acknowledged" dynamic_update int_col
        "Whether the current service problem has been acknowledged (0/1)"
    ∷ column "acknowledgement_type" dynamic_update int_col
        "The type of the acknownledgement (0: none, 1: normal, 2: sticky)"
    ∷ column "action_url" static_update string_col
        "An optional URL for actions or custom information about the service"
    ∷ column "action_url_expanded" static_update string_col
        "An optional URL for actions or custom information about the service"
    ∷ column "active_checks_enabled" dynamic_update int_col
        "Whether active checks are enabled for the service (0/1)"
    ∷ column "check_command" static_update string_col "Nagios command used for active checks"
    ∷ column "check_interval" static_update int_col
        "Number of basic interval lengths between two scheduled checks of the service"
    ∷ column "check_options" dynamic_update int_col
        "The current check option, forced, normal, freshness... (0/1)"
    ∷ column "check_period" static_update string_col
        "The name of the check period of the service. It this is empty, the service is always checked."
    ∷ column "check_type" dynamic_update int_col
        "The type of the last check (0: active, 1: passive)"
    ∷ column "checks_enabled" dynamic_update int_col
        "Whether active checks are enabled for the service (0/1)"
    ∷ column "contacts" static_update string_list_col
        "A list of all contacts of the service, either direct or via a contact group"
    ∷ column "contact_groups" static_update string_list_col
        "A list of all contact groups this service is in"
    ∷ column "comments" dynamic_update int_list_col "A list of all comment ids of the service"
    ∷ column "current_attempt" dynamic_update int_col "The number of the current check attempt"
    ∷ column "current_notification_number" dynamic_update int_col
        "The number of the current notification"
    ∷ column "custom_variables" static_update custom_var_col "A dictionary of the custom variables"
    ∷ column "custom_variable_names" static_update string_list_col
        "A list of the names of all custom variables of the service"
    ∷ column "custom_variable_values" static_update string_list_col
        "A list of the values of all custom variable of the service"
    ∷ column "description" static_update string_col "Description of the service (also used as key)"
    ∷ column "downtimes" dynamic_update int_list_col "A list of all downtime ids of the service"
    ∷ column "display_name" static_update string_col
        "An optional display name (not used by Nagios standard web pages)"
    ∷ column "event_handler" static_update string_col "Nagios command used as event handler"
    ∷ column "event_handler_enabled" dynamic_update int_col "Nagios command used as event handler"
    ∷ column "execution_time" dynamic_update float_col "Time the service check needed for execution"
    ∷ column "first_notification_delay" dynamic_update int_col "Delay before the first notification"
    ∷ column "flap_detection_enabled" dynamic_update int_col
        "Whether flap detection is enabled for the service (0/1)"
    ∷ column "groups" static_update string_list_col "A list of all service groups the service is in"
    ∷ column "has_been_checked" dynamic_update int_col
        "Whether the service already has been checked (0/1)"
    ∷ column "high_flap_threshold" static_update int_col "High threshold of flap detection"
    ∷ column "icon_image" static_update string_col
        "The name of an image to be used as icon in the web interface"
    ∷ column "icon_image_alt" static_update string_col
        "The name of an image to be used as icon in the web interface"
    ∷ column "icon_image_expanded" static_update string_col
        "The name of an image to be used as icon in the web interface"
    ∷ column "in_check_period" dynamic_update int_col
        "The name of the check period of the service. It this is empty, the service is always checked."
    ∷ column "in_notification_period" dynamic_update int_col
        "The name of the notification period of the service. It this is empty, service problems are always notified."
    ∷ column "initial_state" static_update int_col "The initial state of the service"
    ∷ column "is_executing" dynamic_update int_col
        "is there a service check currently running... (0/1)"
    ∷ column "is_flapping" dynamic_update int_col "Whether the service is flapping (0/1)"
    ∷ column "last_check" dynamic_update int_col "The time of the last check (Unix timestamp)"
    ∷ column "last_hard_state" dynamic_update int_col "The last hard state of the service"
    ∷ column "last_hard_state_change" dynamic_update int_col "The last hard state of the service"
    ∷ column "last_notification" dynamic_update int_col
        "The time of the last notification (Unix timestamp)"
    ∷ column "last_state" dynamic_update int_col "The last state of the service"
    ∷ column "last_state_change" dynamic_update int_col "The last state of the service"
    ∷ column "last_time_critical" dynamic_update int_col
        "The last time the service was CRITICAL (Unix timestamp)"
    ∷ column "last_time_warning" dynamic_update int_col
        "The last time the service was in WARNING state (Unix timestamp)"
    ∷ column "last_time_ok" dynamic_update int_col
        "The last time the service was OK (Unix timestamp)"
    ∷ column "last_time_unknown" dynamic_update int_col
        "The last time the service was UNKNOWN (Unix timestamp)"
    ∷ column "latency" dynamic_update float_col
        "Time difference between scheduled check time and actual check time"
    ∷ column "long_plugin_output" dynamic_update string_col
        "Unabbreviated output of the last check plugin"
    ∷ column "low_flap_threshold" dynamic_update int_col "Low threshold of flap detection"
    ∷ column "max_check_attempts" static_update int_col "The maximum number of check attempts"
    ∷ column "modified_attributes" dynamic_update int_col
        "A bitmask specifying which attributes have been modified"
    ∷ column "modified_attributes_list" dynamic_update string_list_col
        "A bitmask specifying which attributes have been modified"
    ∷ column "next_check" dynamic_update int_col
        "The scheduled time of the next check (Unix timestamp)"
    ∷ column "next_notification" dynamic_update int_col
        "The time of the next notification (Unix timestamp)"
    ∷ column "notes" static_update string_col "Optional notes about the service"
    ∷ column "notes_expanded" static_update string_col "Optional notes about the service"
    ∷ column "notes_url" static_update string_col "Optional notes about the service"
    ∷ column "notes_url_expanded" static_update string_col "Optional notes about the service"
    ∷ column "notification_interval" static_update int_col
        "Interval of periodic notification or 0 if its off"
    ∷ column "notification_period" static_update string_col
        "The name of the notification period of the service. It this is empty, service problems are always notified."
    ∷ column "notifications_enabled" dynamic_update int_col
        "Whether notifications are enabled for the service (0/1)"
    ∷ column "obsess_over_service" dynamic_update int_col
        "Whether 'obsess_over_service' is enabled for the service (0/1)"
    ∷ column "percent_state_change" dynamic_update float_col "Percent state change"
    ∷ column "perf_data" dynamic_update string_col "Performance data of the last check plugin"
    ∷ column "plugin_output" dynamic_update string_col "Output of the last check plugin"
    ∷ column "process_performance_data" dynamic_update int_col
        "Whether processing of performance data is enabled for the service (0/1)"
    ∷ column "retry_interval" static_update int_col
        "Number of basic interval lengths between checks when retrying after a soft error"
    ∷ column "scheduled_downtime_depth" dynamic_update int_col
        "The number of scheduled downtimes the service is currently in"
    ∷ column "state" dynamic_update int_col
        "The current state of the service (0: OK, 1: WARN, 2: CRITICAL, 3: UNKNOWN)"
    ∷ column "state_type" dynamic_update int_col
        "The current state of the service (0: OK, 1: WARN, 2: CRITICAL, 3: UNKNOWN)"
    ∷ column "host_name" static_update string_col "Host name"
    ∷ column "staleness" dynamic_update float_col "Staleness indicator for this host"
    ∷ opt_column "is_impact" dynamic_update int_col shinken_only
        "Whether the host state is an impact or not (0/1)"
    ∷ opt_column "source_problems" dynamic_update string_list_col shinken_only
        "The name of the source problems (host or service)"
    ∷ opt_column "impacts" dynamic_update string_list_col shinken_only
        "List of what the source impact (list of hosts and services)"
    ∷ opt_column "criticity" dynamic_update int_col shinken_only
        "The importance we gave to this service between the minimum 0 and the maximum 5"
    ∷ opt_column "is_problem" dynamic_update int_col shinken_only
        "Whether the host state is a problem or not (0/1)"
    ∷ opt_column "realm" dynamic_update string_col shinken_only "Realm"
    ∷ opt_column "poller_tag" dynamic_update string_col shinken_only "Poller Tag"
    ∷ opt_column "got_business_rule" dynamic_update int_col shinken_only
        "Whether the service state is an business rule based host or not (0/1)"
    ∷ opt_column "parent_dependencies" dynamic_update string_col shinken_only
        "List of the dependencies (logical, network or business one) of this service."
    ∷ ref_column "hosts" "host" "name" "host_name"
    ∷ column "peer_key" ref_no_update virt_col "Id of this peer"
    ∷ column "peer_name" ref_no_update virt_col "Name of this peer"
    ∷ column "last_state_change_order" ref_no_update virt_col
        "The last_state_change of this host suitable for sorting. Returns program_start from the core if host has been never checked."
    ∷ column "state_order" ref_no_update virt_col
        "The service state suitable for sorting. Unknown and Critical state are switched."
    ∷ column "has_long_plugin_output" ref_no_update virt_col
        "Flag wether this service has long_plugin_output or not"
    ∷ []

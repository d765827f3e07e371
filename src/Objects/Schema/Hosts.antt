-- ===== src/Objects/Schema/Hosts.antt =====
-- The columns of the tables hosts of lmd/objects.go.
use lmd.Prelude.{List, [], ◌∷◌}
use lmd.Objects.{
  custom_var_col, dynamic_update, float_col, int_col, int_list_col, ref_no_update, shinken_only,
  static_update, string_col, string_list_col, virt_col,
}
use lmd.Objects.Schema.{Entry, column, opt_column}

abbrev pub hosts_columns : List Entry
hosts_columns =
    column "accept_passive_checks" dynamic_update int_col
      "Whether passive host checks are accepted (0/1)"
    ∷ column "acknowledged" dynamic_update int_col
        "Whether the current host problem has been acknowledged (0/1)"
    ∷ column "action_url" static_update string_col
        "An optional URL to custom actions or information about this host"
    ∷ column "action_url_expanded" static_update string_col
        "An optional URL to custom actions or information about this host"
    ∷ column "active_checks_enabled" dynamic_update int_col
        "Whether active checks are enabled for the host (0/1)"
    ∷ column "address" static_update string_col "IP address"
    ∷ column "alias" static_update string_col "An alias name for the host"
    ∷ column "check_command" static_update string_col
        "Nagios command for active host check of this host"
    ∷ column "check_freshness" dynamic_update int_col "Whether freshness checks are activated (0/1)"
    ∷ column "check_interval" static_update int_col
        "Number of basic interval lengths between two scheduled checks of the host"
    ∷ column "check_options" dynamic_update int_col
        "The current check option, forced, normal, freshness... (0-2)"
    ∷ column "check_period" static_update string_col
        "Time period in which this host will be checked. If empty then the host will always be checked."
    ∷ column "check_type" dynamic_update int_col "Type of check (0: active, 1: passive)"
    ∷ column "checks_enabled" dynamic_update int_col "Whether checks of the host are enabled (0/1)"
    ∷ column "childs" static_update string_list_col "A list of all direct childs of the host"
    ∷ column "contacts" static_update string_list_col
        "A list of all contacts of this host, either direct or via a contact group"
    ∷ column "contact_groups" static_update string_list_col
        "A list of all contact groups this host is in"
    ∷ column "comments" dynamic_update int_list_col "A list of the ids of all comments of this host"
    ∷ column "current_attempt" dynamic_update int_col "Number of the current check attempts"
    ∷ column "current_notification_number" dynamic_update int_col
        "Number of the current notification"
    ∷ column "custom_variables" static_update custom_var_col "A dictionary of the custom variables"
    ∷ column "custom_variable_names" static_update string_list_col
        "A list of the names of all custom variables"
    ∷ column "custom_variable_values" static_update string_list_col
        "A list of the values of the custom variables"
    ∷ column "display_name" static_update string_col
        "Optional display name of the host - not used by Nagios' web interface"
    ∷ column "downtimes" dynamic_update int_list_col
        "A list of the ids of all scheduled downtimes of this host"
    ∷ column "event_handler" static_update string_col "Nagios command used as event handler"
    ∷ column "event_handler_enabled" dynamic_update int_col "Nagios command used as event handler"
    ∷ column "execution_time" dynamic_update float_col "Time the host check needed for execution"
    ∷ column "first_notification_delay" static_update int_col "Delay before the first notification"
    ∷ column "flap_detection_enabled" dynamic_update int_col
        "Whether flap detection is enabled (0/1)"
    ∷ column "groups" static_update string_list_col "A list of all host groups this host is in"
    ∷ column "hard_state" dynamic_update int_col
        "The effective hard state of the host (eliminates a problem in hard_state)"
    ∷ column "has_been_checked" dynamic_update int_col
        "Whether the host has already been checked (0/1)"
    ∷ column "high_flap_threshold" static_update int_col "High threshold of flap detection"
    ∷ column "icon_image" static_update string_col
        "The name of an image file to be used in the web pages"
    ∷ column "icon_image_alt" static_update string_col
        "The name of an image file to be used in the web pages"
    ∷ column "icon_image_expanded" static_update string_col
        "The name of an image file to be used in the web pages"
    ∷ column "in_check_period" dynamic_update int_col
        "Time period in which this host will be checked. If empty then the host will always be checked."
    ∷ column "in_notification_period" dynamic_update int_col
        "Time period in which problems of this host will be notified. If empty then notification will be always"
    ∷ column "is_executing" dynamic_update int_col
        "is there a host check currently running... (0/1)"
    ∷ column "is_flapping" dynamic_update int_col "Whether the host state is flapping (0/1)"
    ∷ column "last_check" dynamic_update int_col "Time of the last check (Unix timestamp)"
    ∷ column "last_hard_state" dynamic_update int_col
        "The effective hard state of the host (eliminates a problem in hard_state)"
    ∷ column "last_hard_state_change" dynamic_update int_col
        "The effective hard state of the host (eliminates a problem in hard_state)"
    ∷ column "last_notification" dynamic_update int_col
        "Time of the last notification (Unix timestamp)"
    ∷ column "last_state" dynamic_update int_col "State before last state change"
    ∷ column "last_state_change" dynamic_update int_col "State before last state change"
    ∷ column "last_time_down" dynamic_update int_col
        "The last time the host was DOWN (Unix timestamp)"
    ∷ column "last_time_unreachable" dynamic_update int_col
        "The last time the host was UNREACHABLE (Unix timestamp)"
    ∷ column "last_time_up" dynamic_update int_col "The last time the host was UP (Unix timestamp)"
    ∷ column "latency" dynamic_update float_col
        "Time difference between scheduled check time and actual check time"
    ∷ column "long_plugin_output" dynamic_update string_col "Complete output from check plugin"
    ∷ column "low_flap_threshold" static_update int_col "Low threshold of flap detection"
    ∷ column "max_check_attempts" static_update int_col "Max check attempts for active host checks"
    ∷ column "modified_attributes" dynamic_update int_col
        "A bitmask specifying which attributes have been modified"
    ∷ column "modified_attributes_list" dynamic_update string_list_col
        "A bitmask specifying which attributes have been modified"
    ∷ column "name" static_update string_col "Host name"
    ∷ column "next_check" dynamic_update int_col
        "Scheduled time for the next check (Unix timestamp)"
    ∷ column "next_notification" dynamic_update int_col
        "Time of the next notification (Unix timestamp)"
    ∷ column "num_services" static_update int_col "The total number of services of the host"
    ∷ column "num_services_crit" dynamic_update int_col
        "The number of the host's services with the soft state CRIT"
    ∷ column "num_services_ok" dynamic_update int_col
        "The number of the host's services with the soft state OK"
    ∷ column "num_services_pending" dynamic_update int_col
        "The number of the host's services which have not been checked yet (pending)"
    ∷ column "num_services_unknown" dynamic_update int_col
        "The number of the host's services with the soft state UNKNOWN"
    ∷ column "num_services_warn" dynamic_update int_col
        "The number of the host's services with the soft state WARN"
    ∷ column "notes" static_update string_col "Optional notes for this host"
    ∷ column "notes_expanded" static_update string_col "Optional notes for this host"
    ∷ column "notes_url" static_update string_col "Optional notes for this host"
    ∷ column "notes_url_expanded" static_update string_col "Optional notes for this host"
    ∷ column "notification_interval" static_update int_col
        "Interval of periodic notification or 0 if its off"
    ∷ column "notification_period" static_update string_col
        "Time period in which problems of this host will be notified. If empty then notification will be always"
    ∷ column "notifications_enabled" dynamic_update int_col
        "Whether notifications of the host are enabled (0/1)"
    ∷ column "obsess_over_host" dynamic_update int_col
        "The current obsess_over_host setting... (0/1)"
    ∷ column "parents" static_update string_list_col "A list of all direct parents of the host"
    ∷ column "percent_state_change" dynamic_update float_col "Percent state change"
    ∷ column "perf_data" dynamic_update string_col
        "Optional performance data of the last host check"
    ∷ column "plugin_output" dynamic_update string_col "Output of the last host check"
    ∷ column "process_performance_data" dynamic_update int_col
        "Whether processing of performance data is enabled (0/1)"
    ∷ column "retry_interval" static_update int_col
        "Number of basic interval lengths between checks when retrying after a soft error"
    ∷ column "scheduled_downtime_depth" dynamic_update int_col
        "The number of downtimes this host is currently in"
    ∷ column "state" dynamic_update int_col
        "The current state of the host (0: up, 1: down, 2: unreachable)"
    ∷ column "state_type" dynamic_update int_col
        "The current state of the host (0: up, 1: down, 2: unreachable)"
    ∷ column "staleness" dynamic_update float_col "Staleness indicator for this host"
    ∷ opt_column "is_impact" dynamic_update int_col shinken_only
        "Whether the host state is an impact or not (0/1)"
    ∷ opt_column "source_problems" dynamic_update string_list_col shinken_only
        "The name of the source problems (host or service)"
    ∷ opt_column "impacts" dynamic_update string_list_col shinken_only
        "List of what the source impact (list of hosts and services)"
    ∷ opt_column "criticity" dynamic_update int_col shinken_only
        "The importance we gave to this host between the minimum 0 and the maximum 5"
    ∷ opt_column "is_problem" dynamic_update int_col shinken_only
        "Whether the host state is a problem or not (0/1)"
    ∷ opt_column "realm" dynamic_update string_col shinken_only "Realm"
    ∷ opt_column "poller_tag" dynamic_update string_col shinken_only "Poller Tag"
    ∷ opt_column "got_business_rule" dynamic_update int_col shinken_only
        "Whether the host state is an business rule based host or not (0/1)"
    ∷ opt_column "parent_dependencies" dynamic_update string_col shinken_only
        "List of the dependencies (logical, network or business one) of this host."
    ∷ column "peer_key" ref_no_update virt_col "Id of this peer"
    ∷ column "peer_name" ref_no_update virt_col "Name of this peer"
    ∷ column "last_state_change_order" ref_no_update virt_col
        "The last_state_change of this host suitable for sorting. Returns program_start from the core if host has been never checked."
    ∷ column "has_long_plugin_output" ref_no_update virt_col
        "Flag wether this host has long_plugin_output or not"
    ∷ []

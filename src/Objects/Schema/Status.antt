-- ===== src/Objects/Schema/Status.antt =====
-- The columns of the tables status, timeperiods, contacts, contactgroups, commands of lmd/objects.go.
use lmd.Prelude.{List, [], ◌∷◌}
use lmd.Objects.{
  dynamic_update, float_col, int_col, ref_no_update, static_update, string_col, string_list_col,
  virt_col,
}
use lmd.Objects.Schema.{Entry, column}

abbrev pub status_columns : List Entry
status_columns =
    column "program_start" dynamic_update int_col
      "The time of the last program start as UNIX timestamp"
    ∷ column "accept_passive_host_checks" dynamic_update int_col
        "The number of host checks since program start"
    ∷ column "accept_passive_service_checks" dynamic_update int_col
        "The number of completed service checks since program start"
    ∷ column "cached_log_messages" dynamic_update int_col
        "The current number of log messages MK Livestatus keeps in memory"
    ∷ column "check_external_commands" dynamic_update int_col
        "Whether the core checks for external commands at its command pipe (0/1)"
    ∷ column "check_host_freshness" dynamic_update int_col
        "Whether host freshness checking is activated in general (0/1)"
    ∷ column "check_service_freshness" dynamic_update int_col
        "Whether service freshness checking is activated in general (0/1)"
    ∷ column "connections" dynamic_update int_col
        "The number of client connections to Livestatus since program start"
    ∷ column "connections_rate" dynamic_update float_col
        "The number of client connections to Livestatus since program start"
    ∷ column "enable_event_handlers" dynamic_update int_col
        "Whether event handlers are activated in general (0/1)"
    ∷ column "enable_flap_detection" dynamic_update int_col
        "Whether flap detection is activated in general (0/1)"
    ∷ column "enable_notifications" dynamic_update int_col
        "Whether notifications are enabled in general (0/1)"
    ∷ column "execute_host_checks" dynamic_update int_col
        "The number of host checks since program start"
    ∷ column "execute_service_checks" dynamic_update int_col
        "The number of completed service checks since program start"
    ∷ column "forks" dynamic_update int_col "The number of process creations since program start"
    ∷ column "forks_rate" dynamic_update float_col
        "The number of process creations since program start"
    ∷ column "host_checks" dynamic_update int_col "The number of host checks since program start"
    ∷ column "host_checks_rate" dynamic_update float_col
        "The number of host checks since program start"
    ∷ column "interval_length" static_update int_col
        "The default interval length from the core configuration"
    ∷ column "last_command_check" dynamic_update int_col
        "The time of the last check for a command as UNIX timestamp"
    ∷ column "last_log_rotation" dynamic_update int_col "Time time of the last log file rotation"
    ∷ column "livestatus_version" static_update string_col "The version of the MK Livestatus module"
    ∷ column "log_messages" dynamic_update int_col
        "The number of new log messages since program start"
    ∷ column "log_messages_rate" dynamic_update float_col
        "The number of new log messages since program start"
    ∷ column "nagios_pid" static_update int_col "The process ID of the core main process"
    ∷ column "neb_callbacks" dynamic_update int_col
        "The number of NEB call backs since program start"
    ∷ column "neb_callbacks_rate" dynamic_update float_col
        "The number of NEB call backs since program start"
    ∷ column "obsess_over_hosts" dynamic_update int_col
        "Whether the core will obsess over host checks (0/1)"
    ∷ column "obsess_over_services" dynamic_update int_col
        "Whether the core will obsess over service checks and run the ocsp_command (0/1)"
    ∷ column "process_performance_data" dynamic_update int_col
        "Whether processing of performance data is activated in general (0/1)"
    ∷ column "program_version" static_update string_col "The version of the monitoring daemon"
    ∷ column "requests" dynamic_update float_col
        "The number of requests to Livestatus since program start"
    ∷ column "requests_rate" dynamic_update float_col
        "The number of requests to Livestatus since program start"
    ∷ column "service_checks" dynamic_update int_col
        "The number of completed service checks since program start"
    ∷ column "service_checks_rate" dynamic_update float_col
        "The number of completed service checks since program start"
    ∷ column "peer_key" ref_no_update virt_col "Id of this peer"
    ∷ column "peer_name" ref_no_update virt_col "Name of this peer"
    ∷ column "peer_addr" ref_no_update virt_col "Address of this peer"
    ∷ column "peer_status" ref_no_update virt_col
        "Status of this peer (0 - UP, 1 - Stale, 2 - Down, 4 - Pending)"
    ∷ column "peer_bytes_send" ref_no_update virt_col "Bytes send to this peer"
    ∷ column "peer_bytes_received" ref_no_update virt_col "Bytes received to this peer"
    ∷ column "peer_queries" ref_no_update virt_col "Number of queries sent to this peer"
    ∷ column "peer_last_error" ref_no_update virt_col "Last error message or empty if up"
    ∷ column "peer_last_update" ref_no_update virt_col "Timestamp of last update"
    ∷ column "peer_last_online" ref_no_update virt_col "Timestamp when peer was last online"
    ∷ column "peer_response_time" ref_no_update virt_col "Duration of last update in seconds"
    ∷ []

abbrev pub timeperiods_columns : List Entry
timeperiods_columns =
    column "alias" static_update string_col "The alias of the timeperiod"
    ∷ column "name" static_update string_col "The name of the timeperiod"
    ∷ column "in" dynamic_update int_col "Wether we are currently in this period (0/1)"
    ∷ column "peer_key" ref_no_update virt_col "Id of this peer"
    ∷ column "peer_name" ref_no_update virt_col "Name of this peer"
    ∷ []

abbrev pub contacts_columns : List Entry
contacts_columns =
    column "alias" static_update string_col "The full name of the contact"
    ∷ column "can_submit_commands" static_update int_col
        "Wether the contact is allowed to submit commands (0/1)"
    ∷ column "email" static_update string_col "The email address of the contact"
    ∷ column "host_notification_period" static_update string_col
        "The time period in which the contact will be notified about host problems"
    ∷ column "host_notifications_enabled" static_update int_col
        "Wether the contact will be notified about host problems in general (0/1)"
    ∷ column "name" static_update string_col "The login name of the contact person"
    ∷ column "pager" static_update string_col "The pager address of the contact"
    ∷ column "service_notification_period" static_update string_col
        "The time period in which the contact will be notified about service problems"
    ∷ column "service_notifications_enabled" static_update int_col
        "Wether the contact will be notified about service problems in general (0/1)"
    ∷ column "peer_key" ref_no_update virt_col "Id of this peer"
    ∷ column "peer_name" ref_no_update virt_col "Name of this peer"
    ∷ []

abbrev pub contactgroups_columns : List Entry
contactgroups_columns =
    column "alias" static_update string_col "The alias of the contactgroup"
    ∷ column "members" static_update string_list_col "A list of all members of this contactgroup"
    ∷ column "name" static_update string_col "The name of the contactgroup"
    ∷ column "peer_key" ref_no_update virt_col "Id of this peer"
    ∷ column "peer_name" ref_no_update virt_col "Name of this peer"
    ∷ []

abbrev pub commands_columns : List Entry
commands_columns =
    column "name" static_update string_col "The name of the command"
    ∷ column "line" static_update string_col "The shell command line"
    ∷ column "peer_key" ref_no_update virt_col "Id of this peer"
    ∷ column "peer_name" ref_no_update virt_col "Name of this peer"
    ∷ []

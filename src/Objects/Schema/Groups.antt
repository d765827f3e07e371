-- ===== src/Objects/Schema/Groups.antt =====
-- The columns of the tables of groups, comments, downtimes and log entries, and of the tables that
-- are grouped by others, of lmd/objects.go.
use lmd.Prelude.{List, [], ◌∷◌}
use lmd.Objects.{
  dynamic_update, int_col, ref_no_update, static_update, string_col, string_list_col, virt_col,
}
use lmd.Objects.Schema.{Entry, column, ref_column}

abbrev pub hostgroups_columns : List Entry
hostgroups_columns =
    column "action_url" static_update string_col
      "An optional URL to custom actions or information about the hostgroup"
    ∷ column "alias" static_update string_col "An alias of the hostgroup"
    ∷ column "members" static_update string_list_col
        "A list of all host names that are members of the hostgroup"
    ∷ column "name" static_update string_col "Name of the hostgroup"
    ∷ column "notes" static_update string_col "Optional notes to the hostgroup"
    ∷ column "notes_url" static_update string_col
        "An optional URL with further information about the hostgroup"
    ∷ column "num_hosts" static_update int_col "The total number of hosts of the hostgroup"
    ∷ column "num_hosts_up" dynamic_update int_col "The total number of up hosts of the hostgroup"
    ∷ column "num_hosts_down" dynamic_update int_col
        "The total number of down hosts of the hostgroup"
    ∷ column "num_hosts_unreach" dynamic_update int_col
        "The total number of unreachable hosts of the hostgroup"
    ∷ column "num_hosts_pending" dynamic_update int_col
        "The total number of down hosts of the hostgroup"
    ∷ column "num_services" static_update int_col "The total number of services of the hostgroup"
    ∷ column "num_services_ok" dynamic_update int_col
        "The total number of ok services of the hostgroup"
    ∷ column "num_services_warn" dynamic_update int_col
        "The total number of warning services of the hostgroup"
    ∷ column "num_services_crit" dynamic_update int_col
        "The total number of critical services of the hostgroup"
    ∷ column "num_services_unknown" dynamic_update int_col
        "The total number of unknown services of the hostgroup"
    ∷ column "num_services_pending" dynamic_update int_col
        "The total number of pending services of the hostgroup"
    ∷ column "worst_host_state" dynamic_update int_col "The worst host state of the hostgroup"
    ∷ column "worst_service_state" dynamic_update int_col "The worst service state of the hostgroup"
    ∷ column "peer_key" ref_no_update virt_col "Id of this peer"
    ∷ column "peer_name" ref_no_update virt_col "Name of this peer"
    ∷ []

abbrev pub servicegroups_columns : List Entry
servicegroups_columns =
    column "action_url" static_update string_col
      "An optional URL to custom notes or actions on the service group"
    ∷ column "alias" static_update string_col "An alias of the service group"
    ∷ column "members" static_update string_list_col
        "A list of all members of the service group as host/service pairs"
    ∷ column "name" static_update string_col "The name of the service group"
    ∷ column "notes" static_update string_col "Optional additional notes about the service group"
    ∷ column "notes_url" static_update string_col
        "An optional URL to further notes on the service group"
    ∷ column "num_services" static_update int_col
        "The total number of services of the service group"
    ∷ column "num_services_ok" dynamic_update int_col
        "The total number of ok services of the service group"
    ∷ column "num_services_warn" dynamic_update int_col
        "The total number of warning services of the service group"
    ∷ column "num_services_crit" dynamic_update int_col
        "The total number of critical services of the service group"
    ∷ column "num_services_unknown" dynamic_update int_col
        "The total number of unknown services of the service group"
    ∷ column "num_services_pending" dynamic_update int_col
        "The total number of pending services of the service group"
    ∷ column "worst_service_state" dynamic_update int_col
        "The worst service state of the service group"
    ∷ column "peer_key" ref_no_update virt_col "Id of this peer"
    ∷ column "peer_name" ref_no_update virt_col "Name of this peer"
    ∷ []

abbrev pub comments_columns : List Entry
comments_columns =
    column "author" static_update string_col "The contact that entered the comment"
    ∷ column "comment" static_update string_col "A comment text"
    ∷ column "entry_time" static_update int_col "The time the entry was made as UNIX timestamp"
    ∷ column "entry_type" static_update int_col
        "The type of the comment: 1 is user, 2 is downtime, 3 is flap and 4 is acknowledgement"
    ∷ column "expires" static_update int_col "Whether this comment expires"
    ∷ column "expire_time" static_update int_col
        "The time of expiry of this comment as a UNIX timestamp"
    ∷ column "id" static_update int_col "The id of the comment"
    ∷ column "is_service" static_update int_col
        "0, if this entry is for a host, 1 if it is for a service"
    ∷ column "persistent" static_update int_col "Whether this comment is persistent (0/1)"
    ∷ column "source" static_update int_col
        "The source of the comment (0 is internal and 1 is external)"
    ∷ column "type" static_update int_col "The type of the comment: 1 is host, 2 is service"
    ∷ column "host_name" static_update string_col "Host name"
    ∷ column "service_description" static_update string_col
        "Description of the service (also used as key)"
    ∷ column "host_contacts" static_update string_list_col
        "A list of all contacts of the host, either direct or via a contact group"
    ∷ column "service_contacts" static_update string_list_col
        "A list of all contacts of the service, either direct or via a contact group"
    ∷ column "peer_key" ref_no_update virt_col "Id of this peer"
    ∷ column "peer_name" ref_no_update virt_col "Name of this peer"
    ∷ []

abbrev pub downtimes_columns : List Entry
downtimes_columns =
    column "author" static_update string_col "The contact that scheduled the downtime"
    ∷ column "comment" static_update string_col "A comment text"
    ∷ column "duration" static_update int_col "The duration of the downtime in seconds"
    ∷ column "end_time" static_update int_col "The end time of the downtime as UNIX timestamp"
    ∷ column "entry_time" static_update int_col "The time the entry was made as UNIX timestamp"
    ∷ column "fixed" static_update int_col "1 if the downtime is fixed, a 0 if it is flexible"
    ∷ column "id" static_update int_col "The id of the downtime"
    ∷ column "is_service" static_update int_col
        "0, if this entry is for a host, 1 if it is for a service"
    ∷ column "start_time" static_update int_col "The start time of the downtime as UNIX timestamp"
    ∷ column "triggered_by" static_update int_col
        "The id of the downtime this downtime was triggered by or 0 if it was not triggered by another downtime"
    ∷ column "type" static_update int_col
        "The type of the downtime: 0 if it is active, 1 if it is pending"
    ∷ column "host_name" static_update string_col "Host name"
    ∷ column "service_description" static_update string_col
        "Description of the service (also used as key)"
    ∷ column "host_contacts" static_update string_list_col
        "A list of all contacts of the host, either direct or via a contact group"
    ∷ column "service_contacts" static_update string_list_col
        "A list of all contacts of the service, either direct or via a contact group"
    ∷ column "peer_key" ref_no_update virt_col "Id of this peer"
    ∷ column "peer_name" ref_no_update virt_col "Name of this peer"
    ∷ []

abbrev pub log_columns : List Entry
log_columns =
    column "attempt" static_update int_col "The number of the check attempt"
    ∷ column "class" static_update int_col
        "The class of the message as integer (0:info, 1:state, 2:program, 3:notification, 4:passive, 5:command)"
    ∷ column "contact_name" static_update string_col
        "The name of the contact the log entry is about (might be empty)"
    ∷ column "host_name" static_update string_col
        "The name of the host the log entry is about (might be empty)"
    ∷ column "lineno" static_update int_col "The number of the line in the log file"
    ∷ column "message" static_update string_col "The complete message line including the timestamp"
    ∷ column "options" static_update string_col "The part of the message after the ':'"
    ∷ column "plugin_output" static_update string_col
        "The output of the check, if any is associated with the message"
    ∷ column "service_description" static_update string_col
        "The description of the service log entry is about (might be empty)"
    ∷ column "state" static_update int_col "The state of the host or service in question"
    ∷ column "state_type" static_update string_col
        "The type of the state (varies on different log classes)"
    ∷ column "time" static_update int_col "Time of the log event (UNIX timestamp)"
    ∷ column "type" static_update string_col
        "The type of the message (text before the colon), the message itself for info messages"
    ∷ column "current_service_contacts" static_update string_list_col
        "A list of all contacts of the service, either direct or via a contact group"
    ∷ column "current_host_contacts" static_update string_list_col
        "A list of all contacts of this host, either direct or via a contact group"
    ∷ column "peer_key" ref_no_update virt_col "Id of this peer"
    ∷ column "peer_name" ref_no_update virt_col "Name of this peer"
    ∷ []

abbrev pub hosts_by_group_columns : List Entry
hosts_by_group_columns =
    column "name" static_update string_col "Host name"
    ∷ column "hostgroup_name" static_update string_col "Host group name"
    ∷ ref_column "hosts" "" "name" "name"
    ∷ ref_column "hostgroups" "hostgroup" "name" "hostgroup_name"
    ∷ column "peer_key" ref_no_update virt_col "Id of this peer"
    ∷ column "peer_name" ref_no_update virt_col "Name of this peer"
    ∷ []

abbrev pub services_by_group_columns : List Entry
services_by_group_columns =
    column "host_name" static_update string_col "Host name"
    ∷ column "description" static_update string_col "Service description"
    ∷ column "servicegroup_name" static_update string_col "Service group name"
    ∷ ref_column "hosts" "host" "name" "host_name"
    ∷ ref_column "services" "" "description" "description"
    ∷ ref_column "servicegroups" "servicegroup" "name" "servicegroup_name"
    ∷ column "peer_key" ref_no_update virt_col "Id of this peer"
    ∷ column "peer_name" ref_no_update virt_col "Name of this peer"
    ∷ []

abbrev pub services_by_hostgroup_columns : List Entry
services_by_hostgroup_columns =
    column "host_name" static_update string_col "Host name"
    ∷ column "description" static_update string_col "Service description"
    ∷ column "hostgroup_name" static_update string_col "Host group name"
    ∷ ref_column "hosts" "host" "name" "host_name"
    ∷ ref_column "services" "" "description" "description"
    ∷ ref_column "hostgroups" "hostgroup" "name" "hostgroup_name"
    ∷ column "peer_key" ref_no_update virt_col "Id of this peer"
    ∷ column "peer_name" ref_no_update virt_col "Name of this peer"
    ∷ []

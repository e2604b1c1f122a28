-- ===== src/Entities/Filterset.antt =====
-- internal/core/entities/filterset: the conditions of a server query. A condition that is at its
-- zero value is not set.
use swat4master.Prelude.{Option, none, some, bit_or, if◌then◌else◌}
use swat4master.Entities.Status.{DiscoveryStatus, no_status, has_status}
use swat4master.Entities.Server.{Time, is_zero}

pub record ServerFilterSet : Type 0 where
  pub with_status : DiscoveryStatus
  pub no_status : DiscoveryStatus
  pub updated_before : Time
  pub updated_after : Time
  pub active_before : Time
  pub active_after : Time

abbrev pub new_server_filter_set : ServerFilterSet
new_server_filter_set = record {
  with_status = no_status;
  no_status = no_status;
  updated_before = 0;
  updated_after = 0;
  active_before = 0;
  active_after = 0;
}

abbrev pub updated_before : ServerFilterSet → Time → ServerFilterSet
updated_before fs before = record fs { updated_before = before }

abbrev pub active_after : ServerFilterSet → Time → ServerFilterSet
active_after fs after = record fs { active_after = after }

abbrev pub active_before : ServerFilterSet → Time → ServerFilterSet
active_before fs before = record fs { active_before = before }

abbrev pub with_status : ServerFilterSet → DiscoveryStatus → ServerFilterSet
with_status fs status = record fs { with_status = bit_or fs.with_status status }

abbrev pub without_status : ServerFilterSet → DiscoveryStatus → ServerFilterSet
without_status fs status = record fs { no_status = bit_or fs.no_status status }

-- `GetUpdatedAfter` and its three kin: a time that is set
abbrev pub get_time : Time → Option Time
get_time t = if is_zero t then none else some t

-- `GetWithStatus` and `GetNoStatus`: a status that is set
abbrev pub get_status : DiscoveryStatus → Option DiscoveryStatus
get_status s = if has_status s then some s else none

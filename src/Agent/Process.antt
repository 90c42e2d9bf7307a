-- ===== src/Agent/Process.antt =====
-- The `Process...` methods of src/agent.cpp.
use ieee.Prelude.{String, []}
use ieee.Cmdu.{Cmdu}
use ieee.World.{M, pure}
use ieee.Logger.{em_debug}

-- SPDLOG_DEBUG(format, cmdu.mid()). Cmdu has no member `mid`, so the file compiles only where the
-- macro discards its arguments, which spdlog does above the debug level at compile time.
unfoldable pub spdlog_debug : String → M (Unit {0})
spdlog_debug format = pure tt

unfoldable pub process_topology_discovery : Cmdu → M (Unit {0})
process_topology_discovery request =
    em_debug "Ieee1905Agent: Processing Topology Discovery Request." []

unfoldable pub process_topology_notification : Cmdu → M (Unit {0})
process_topology_notification request =
    em_debug "Ieee1905Agent: Processing Topology Notification." []

unfoldable pub process_topology_query : Cmdu → M (Unit {0})
process_topology_query request = em_debug "Ieee1905Agent: Processing Topology Query." []

unfoldable pub process_topology_response : Cmdu → M (Unit {0})
process_topology_response request = em_debug "Ieee1905Agent: Processing Topology Response." []

unfoldable pub process_vendor_specific : Cmdu → M (Unit {0})
process_vendor_specific request = em_debug "Ieee1905Agent: Processing Vendor Specific." []

unfoldable pub process_link_metric_query : Cmdu → M (Unit {0})
process_link_metric_query request = em_debug "Ieee1905Agent: Processing Link Metric Query." []

unfoldable pub process_link_metric_response : Cmdu → M (Unit {0})
process_link_metric_response request = em_debug "Ieee1905Agent: Processing Link Metric Response." []

unfoldable pub process_autoconfiguration_search : Cmdu → M (Unit {0})
process_autoconfiguration_search request =
    em_debug "Ieee1905Agent: Processing Autoconfiguration Search." []

unfoldable pub process_autoconfiguration_response : Cmdu → M (Unit {0})
process_autoconfiguration_response request =
    em_debug "Ieee1905Agent: Processing Autoconfiguration Response." []

unfoldable pub process_autoconfiguration_wsc : Cmdu → M (Unit {0})
process_autoconfiguration_wsc request =
    em_debug "Ieee1905Agent: Processing Autoconfiguration WSC." []

unfoldable pub process_autoconfiguration_renew : Cmdu → M (Unit {0})
process_autoconfiguration_renew request =
    em_debug "Ieee1905Agent: Processing Autoconfiguration Renew." []

unfoldable pub process_higher_layer_query : Cmdu → M (Unit {0})
process_higher_layer_query request = em_debug "Ieee1905Agent: Processing Higher Layer Query." []

unfoldable pub process_higher_layer_response : Cmdu → M (Unit {0})
process_higher_layer_response request =
    em_debug "Ieee1905Agent: Processing Higher Layer Response." []

unfoldable pub process_generic_phy_query : Cmdu → M (Unit {0})
process_generic_phy_query request = em_debug "Ieee1905Agent: Processing Generic PHY Query." []

unfoldable pub process_generic_phy_response : Cmdu → M (Unit {0})
process_generic_phy_response request = em_debug "Ieee1905Agent: Processing Generic PHY Response." []

unfoldable pub process_client_capability_query : Cmdu → M (Unit {0})
process_client_capability_query cmdu = spdlog_debug "ProcessClientCapabilityQuery MID={}"

unfoldable pub process_client_capability_report : Cmdu → M (Unit {0})
process_client_capability_report cmdu = spdlog_debug "ProcessClientCapabilityReport MID={}"

unfoldable pub process_ap_capability_query : Cmdu → M (Unit {0})
process_ap_capability_query cmdu = spdlog_debug "ProcessApCapabilityQuery MID={}"

unfoldable pub process_ap_capability_report : Cmdu → M (Unit {0})
process_ap_capability_report cmdu = spdlog_debug "ProcessApCapabilityReport MID={}"

unfoldable pub process_channel_preference_query : Cmdu → M (Unit {0})
process_channel_preference_query cmdu = spdlog_debug "ProcessChannelPreferenceQuery MID={}"

unfoldable pub process_channel_preference_report : Cmdu → M (Unit {0})
process_channel_preference_report cmdu = spdlog_debug "ProcessChannelPreferenceReport MID={}"

unfoldable pub process_channel_selection_request : Cmdu → M (Unit {0})
process_channel_selection_request cmdu = spdlog_debug "ProcessChannelSelectionRequest MID={}"

unfoldable pub process_channel_selection_response : Cmdu → M (Unit {0})
process_channel_selection_response cmdu = spdlog_debug "ProcessChannelSelectionResponse MID={}"

unfoldable pub process_channel_scan_request : Cmdu → M (Unit {0})
process_channel_scan_request cmdu = spdlog_debug "ProcessChannelScanRequest MID={}"

unfoldable pub process_channel_scan_response : Cmdu → M (Unit {0})
process_channel_scan_response cmdu = spdlog_debug "ProcessChannelScanResponse MID={}"

unfoldable pub process_operating_channel_report : Cmdu → M (Unit {0})
process_operating_channel_report cmdu = spdlog_debug "ProcessOperatingChannelReport MID={}"

unfoldable pub process_assoc_sta_link_metrics_query : Cmdu → M (Unit {0})
process_assoc_sta_link_metrics_query cmdu = spdlog_debug "ProcessAssocStaLinkMetricsQuery MID={}"

unfoldable pub process_assoc_sta_link_metrics_response : Cmdu → M (Unit {0})
process_assoc_sta_link_metrics_response cmdu =
    spdlog_debug "ProcessAssocStaLinkMetricsResponse MID={}"

unfoldable pub process_unassoc_sta_link_metrics_query : Cmdu → M (Unit {0})
process_unassoc_sta_link_metrics_query cmdu =
    spdlog_debug "ProcessUnassocStaLinkMetricsQuery MID={}"

unfoldable pub process_unassoc_sta_link_metrics_response : Cmdu → M (Unit {0})
process_unassoc_sta_link_metrics_response cmdu =
    spdlog_debug "ProcessUnassocStaLinkMetricsResponse MID={}"

unfoldable pub process_client_steering_request : Cmdu → M (Unit {0})
process_client_steering_request cmdu = spdlog_debug "ProcessClientSteeringRequest MID={}"

unfoldable pub process_client_steering_btm_request : Cmdu → M (Unit {0})
process_client_steering_btm_request cmdu = spdlog_debug "ProcessClientSteeringBtmRequest MID={}"

unfoldable pub process_client_steering_complete : Cmdu → M (Unit {0})
process_client_steering_complete cmdu = spdlog_debug "ProcessClientSteeringComplete MID={}"

unfoldable pub process_client_assoc_control_request : Cmdu → M (Unit {0})
process_client_assoc_control_request cmdu = spdlog_debug "ProcessClientAssocControlRequest MID={}"

unfoldable pub process_backhaul_steering_request : Cmdu → M (Unit {0})
process_backhaul_steering_request cmdu = spdlog_debug "ProcessBackhaulSteeringRequest MID={}"

unfoldable pub process_backhaul_steering_response : Cmdu → M (Unit {0})
process_backhaul_steering_response cmdu = spdlog_debug "ProcessBackhaulSteeringResponse MID={}"

unfoldable pub process_ap_mld_configuration_request : Cmdu → M (Unit {0})
process_ap_mld_configuration_request cmdu = spdlog_debug "ProcessApMldConfigurationRequest MID={}"

unfoldable pub process_ap_mld_configuration_response : Cmdu → M (Unit {0})
process_ap_mld_configuration_response cmdu = spdlog_debug "ProcessApMldConfigurationResponse MID={}"

unfoldable pub process_bsta_mld_configuration_request : Cmdu → M (Unit {0})
process_bsta_mld_configuration_request cmdu =
    spdlog_debug "ProcessBstaMldConfigurationRequest MID={}"

unfoldable pub process_bsta_mld_configuration_response : Cmdu → M (Unit {0})
process_bsta_mld_configuration_response cmdu =
    spdlog_debug "ProcessBstaMldConfigurationResponse MID={}"

-- ===== src/Agent/Dispatch.antt =====
-- `HandleCmdu` of src/agent.cpp.
use ieee.Prelude.{ℕ, List, [], ◌∷◌, ◌++◌}
use ieee.CmduTypes.{
  topology_discovery, topology_notification, topology_query, topology_response, link_metric_query,
  link_metric_response, ap_autoconfiguration_search, ap_autoconfiguration_response,
  ap_autoconfiguration_wsc, ap_autoconfiguration_renew, vendor_specific, higher_layer_query,
  higher_layer_response, generic_phy_query, generic_phy_response, ap_capability_query,
  ap_capability_report, channel_preference_query, channel_preference_report,
  channel_selection_request, channel_selection_response, operating_channel_report,
  client_capability_query, client_capability_report, assoc_sta_link_metrics_query,
  assoc_sta_link_metrics_response, unassoc_sta_link_metrics_query,
  unassoc_sta_link_metrics_response, client_steering_request, client_steering_btm_request,
  client_assoc_control_request, client_steering_complete, backhaul_steering_request,
  backhaul_steering_response, channel_scan_request, channel_scan_response,
  ap_mld_configuration_request_message, ap_mld_configuration_response_message,
  bsta_mld_configuration_request_message, bsta_mld_configuration_response_message,
}
use ieee.Cmdu.{Cmdu}
use ieee.World.{M, text, number, ◌>>◌}
use ieee.Logger.{em_debug, em_warn}
use ieee.Agent.Switch.{switch}
use ieee.Agent.Names.{cmdu_type_to_string}
use ieee.Agent.Process.{
  process_topology_discovery, process_topology_notification, process_topology_query,
  process_topology_response, process_link_metric_query, process_link_metric_response,
  process_autoconfiguration_search, process_autoconfiguration_response,
  process_autoconfiguration_wsc, process_autoconfiguration_renew, process_vendor_specific,
  process_higher_layer_query, process_higher_layer_response, process_generic_phy_query,
  process_generic_phy_response, process_ap_capability_query, process_ap_capability_report,
  process_channel_preference_query, process_channel_preference_report,
  process_channel_selection_request, process_channel_selection_response,
  process_operating_channel_report, process_client_capability_query,
  process_client_capability_report, process_assoc_sta_link_metrics_query,
  process_assoc_sta_link_metrics_response, process_unassoc_sta_link_metrics_query,
  process_unassoc_sta_link_metrics_response, process_client_steering_request,
  process_client_steering_btm_request, process_client_assoc_control_request,
  process_client_steering_complete, process_backhaul_steering_request,
  process_backhaul_steering_response, process_channel_scan_request, process_channel_scan_response,
  process_ap_mld_configuration_request, process_ap_mld_configuration_response,
  process_bsta_mld_configuration_request, process_bsta_mld_configuration_response,
}

-- The cases of the switch for IEEE 1905.1, and those for EasyMesh.
abbrev pub ieee1905_cases : List (ℕ × (Cmdu → M (Unit {0})))
ieee1905_cases =
    (topology_discovery, process_topology_discovery)
    ∷ (topology_notification, process_topology_notification)
    ∷ (topology_query, process_topology_query)
    ∷ (topology_response, process_topology_response)
    ∷ (link_metric_query, process_link_metric_query)
    ∷ (link_metric_response, process_link_metric_response)
    ∷ (ap_autoconfiguration_search, process_autoconfiguration_search)
    ∷ (ap_autoconfiguration_response, process_autoconfiguration_response)
    ∷ (ap_autoconfiguration_wsc, process_autoconfiguration_wsc)
    ∷ (ap_autoconfiguration_renew, process_autoconfiguration_renew)
    ∷ (vendor_specific, process_vendor_specific)
    ∷ (higher_layer_query, process_higher_layer_query)
    ∷ (higher_layer_response, process_higher_layer_response)
    ∷ (generic_phy_query, process_generic_phy_query)
    ∷ (generic_phy_response, process_generic_phy_response)
    ∷ []

abbrev pub easymesh_cases : List (ℕ × (Cmdu → M (Unit {0})))
easymesh_cases =
    (ap_capability_query, process_ap_capability_query)
    ∷ (ap_capability_report, process_ap_capability_report)
    ∷ (channel_preference_query, process_channel_preference_query)
    ∷ (channel_preference_report, process_channel_preference_report)
    ∷ (channel_selection_request, process_channel_selection_request)
    ∷ (channel_selection_response, process_channel_selection_response)
    ∷ (operating_channel_report, process_operating_channel_report)
    ∷ (client_capability_query, process_client_capability_query)
    ∷ (client_capability_report, process_client_capability_report)
    ∷ (assoc_sta_link_metrics_query, process_assoc_sta_link_metrics_query)
    ∷ (assoc_sta_link_metrics_response, process_assoc_sta_link_metrics_response)
    ∷ (unassoc_sta_link_metrics_query, process_unassoc_sta_link_metrics_query)
    ∷ (unassoc_sta_link_metrics_response, process_unassoc_sta_link_metrics_response)
    ∷ (client_steering_request, process_client_steering_request)
    ∷ (client_steering_btm_request, process_client_steering_btm_request)
    ∷ (client_assoc_control_request, process_client_assoc_control_request)
    ∷ (client_steering_complete, process_client_steering_complete)
    ∷ (backhaul_steering_request, process_backhaul_steering_request)
    ∷ (backhaul_steering_response, process_backhaul_steering_response)
    ∷ (channel_scan_request, process_channel_scan_request)
    ∷ (channel_scan_response, process_channel_scan_response)
    ∷ (ap_mld_configuration_request_message, process_ap_mld_configuration_request)
    ∷ (ap_mld_configuration_response_message, process_ap_mld_configuration_response)
    ∷ (bsta_mld_configuration_request_message, process_bsta_mld_configuration_request)
    ∷ (bsta_mld_configuration_response_message, process_bsta_mld_configuration_response)
    ∷ []

unfoldable pub unhandled : Cmdu → M (Unit {0})
unhandled cmdu =
    em_warn "Ieee1905Agent: Unhandled CMDU {} (0x{:04x}), MID=0x{:04x}"
      (text (cmdu_type_to_string cmdu.type) ∷ number cmdu.type ∷ number cmdu.id ∷ [])

unfoldable pub handle_cmdu : Cmdu → M (Unit {0})
handle_cmdu cmdu = do
  em_debug "Ieee1905Agent: Received CMDU {} (0x{:04x}), MID=0x{:04x}"
      (text (cmdu_type_to_string cmdu.type) ∷ number cmdu.type ∷ number cmdu.id ∷ [])
  switch cmdu.type (ieee1905_cases ++ easymesh_cases) unhandled cmdu

-- ===== src/Agent/Declared.antt =====
-- The message types that include/ieee1905_1/cmdu.h declares, with the names of their constants.
use ieee.Prelude.{ℕ, String, List, [], ◌∷◌}
use ieee.CmduTypes.{
  topology_discovery, topology_notification, topology_query, topology_response, vendor_specific,
  link_metric_query, link_metric_response, ap_autoconfiguration_search,
  ap_autoconfiguration_response, ap_autoconfiguration_wsc, ap_autoconfiguration_renew,
  push_button_event_notification, push_button_join_notification, higher_layer_query,
  higher_layer_response, interface_power_change_request, interface_power_change_response,
  generic_phy_query, generic_phy_response, ack_1905, ap_capability_query, ap_capability_report,
  map_policy_config_request, channel_preference_query, channel_preference_report,
  channel_selection_request, channel_selection_response, operating_channel_report,
  client_capability_query, client_capability_report, ap_link_metrics_query,
  ap_link_metrics_response, assoc_sta_link_metrics_query, assoc_sta_link_metrics_response,
  unassoc_sta_link_metrics_query, unassoc_sta_link_metrics_response, beacon_metrics_query,
  beacon_metrics_response, combined_infrastructure_metrics, client_steering_request,
  client_steering_btm_request, client_assoc_control_request, client_steering_complete,
  higher_layer_data_message, backhaul_steering_request, backhaul_steering_response,
  channel_scan_request, channel_scan_response, dpp_cce_indication_message, rekey_request_1905,
  description_failure_1905, cac_request, cac_termination, client_disassociation_stats,
  service_prioritization_stats, error_response, association_status_notification, tunneled_message,
  backhaul_sta_cap_query_message, backhaul_sta_cap_report_message, proxied_encap_dpp_message,
  direct_encap_dpp_message, bss_reconfiguration_trigger_message, bss_configuration_request_message,
  bss_configuration_response_message, bss_configuration_result_message, chirp_notification_message,
  encap_eapol_1905, dpp_bootstraping_uri_notification, dpp_bootstraping_uri_query,
  failed_connection_message, dpp_uri_notification_message, agent_list_message,
  qos_management_notification, early_ap_cap_report_message, ap_mld_configuration_request_message,
  ap_mld_configuration_response_message, bsta_mld_configuration_request_message,
  bsta_mld_configuration_response_message, afc_spectrum_inquiry_message, dev_send_1905_request,
}

abbrev pub declared_names : List (ℕ × String)
declared_names =
    (topology_discovery, "TOPOLOGY_DISCOVERY")
    ∷ (topology_notification, "TOPOLOGY_NOTIFICATION")
    ∷ (topology_query, "TOPOLOGY_QUERY")
    ∷ (topology_response, "TOPOLOGY_RESPONSE")
    ∷ (vendor_specific, "VENDOR_SPECIFIC")
    ∷ (link_metric_query, "LINK_METRIC_QUERY")
    ∷ (link_metric_response, "LINK_METRIC_RESPONSE")
    ∷ (ap_autoconfiguration_search, "AP_AUTOCONFIGURATION_SEARCH")
    ∷ (ap_autoconfiguration_response, "AP_AUTOCONFIGURATION_RESPONSE")
    ∷ (ap_autoconfiguration_wsc, "AP_AUTOCONFIGURATION_WSC")
    ∷ (ap_autoconfiguration_renew, "AP_AUTOCONFIGURATION_RENEW")
    ∷ (push_button_event_notification, "PUSH_BUTTON_EVENT_NOTIFICATION")
    ∷ (push_button_join_notification, "PUSH_BUTTON_JOIN_NOTIFICATION")
    ∷ (higher_layer_query, "HIGHER_LAYER_QUERY")
    ∷ (higher_layer_response, "HIGHER_LAYER_RESPONSE")
    ∷ (interface_power_change_request, "INTERFACE_POWER_CHANGE_REQUEST")
    ∷ (interface_power_change_response, "INTERFACE_POWER_CHANGE_RESPONSE")
    ∷ (generic_phy_query, "GENERIC_PHY_QUERY")
    ∷ (generic_phy_response, "GENERIC_PHY_RESPONSE")
    ∷ (ack_1905, "ACK_1905")
    ∷ (ap_capability_query, "AP_CAPABILITY_QUERY")
    ∷ (ap_capability_report, "AP_CAPABILITY_REPORT")
    ∷ (map_policy_config_request, "MAP_POLICY_CONFIG_REQUEST")
    ∷ (channel_preference_query, "CHANNEL_PREFERENCE_QUERY")
    ∷ (channel_preference_report, "CHANNEL_PREFERENCE_REPORT")
    ∷ (channel_selection_request, "CHANNEL_SELECTION_REQUEST")
    ∷ (channel_selection_response, "CHANNEL_SELECTION_RESPONSE")
    ∷ (operating_channel_report, "OPERATING_CHANNEL_REPORT")
    ∷ (client_capability_query, "CLIENT_CAPABILITY_QUERY")
    ∷ (client_capability_report, "CLIENT_CAPABILITY_REPORT")
    ∷ (ap_link_metrics_query, "AP_LINK_METRICS_QUERY")
    ∷ (ap_link_metrics_response, "AP_LINK_METRICS_RESPONSE")
    ∷ (assoc_sta_link_metrics_query, "ASSOC_STA_LINK_METRICS_QUERY")
    ∷ (assoc_sta_link_metrics_response, "ASSOC_STA_LINK_METRICS_RESPONSE")
    ∷ (unassoc_sta_link_metrics_query, "UNASSOC_STA_LINK_METRICS_QUERY")
    ∷ (unassoc_sta_link_metrics_response, "UNASSOC_STA_LINK_METRICS_RESPONSE")
    ∷ (beacon_metrics_query, "BEACON_METRICS_QUERY")
    ∷ (beacon_metrics_response, "BEACON_METRICS_RESPONSE")
    ∷ (combined_infrastructure_metrics, "COMBINED_INFRASTRUCTURE_METRICS")
    ∷ (client_steering_request, "CLIENT_STEERING_REQUEST")
    ∷ (client_steering_btm_request, "CLIENT_STEERING_BTM_REQUEST")
    ∷ (client_assoc_control_request, "CLIENT_ASSOC_CONTROL_REQUEST")
    ∷ (client_steering_complete, "CLIENT_STEERING_COMPLETE")
    ∷ (higher_layer_data_message, "HIGHER_LAYER_DATA_MESSAGE")
    ∷ (backhaul_steering_request, "BACKHAUL_STEERING_REQUEST")
    ∷ (backhaul_steering_response, "BACKHAUL_STEERING_RESPONSE")
    ∷ (channel_scan_request, "CHANNEL_SCAN_REQUEST")
    ∷ (channel_scan_response, "CHANNEL_SCAN_RESPONSE")
    ∷ (dpp_cce_indication_message, "DPP_CCE_INDICATION_MESSAGE")
    ∷ (rekey_request_1905, "_1905_REKEY_REQUEST")
    ∷ (description_failure_1905, "_1905_DESCRIPTION_FAILURE")
    ∷ (cac_request, "CAC_REQUEST")
    ∷ (cac_termination, "CAC_TERMINATION")
    ∷ (client_disassociation_stats, "CLIENT_DISASSOCIATION_STATS")
    ∷ (service_prioritization_stats, "SERVICE_PRIORITIZATION_STATS")
    ∷ (error_response, "ERROR_RESPONSE")
    ∷ (association_status_notification, "ASSOCIATION_STATUS_NOTIFICATION")
    ∷ (tunneled_message, "TUNNELED_MESSAGE")
    ∷ (backhaul_sta_cap_query_message, "BACKHAUL_STA_CAP_QUERY_MESSAGE")
    ∷ (backhaul_sta_cap_report_message, "BACKHAUL_STA_CAP_REPORT_MESSAGE")
    ∷ (proxied_encap_dpp_message, "PROXIED_ENCAP_DPP_MESSAGE")
    ∷ (direct_encap_dpp_message, "DIRECT_ENCAP_DPP_MESSAGE")
    ∷ (bss_reconfiguration_trigger_message, "BSS_RECONFIGURATION_TRIGGER_MESSAGE")
    ∷ (bss_configuration_request_message, "BSS_CONFIGURATION_REQUEST_MESSAGE")
    ∷ (bss_configuration_response_message, "BSS_CONFIGURATION_RESPONSE_MESSAGE")
    ∷ (bss_configuration_result_message, "BSS_CONFIGURATION_RESULT_MESSAGE")
    ∷ (chirp_notification_message, "CHIRP_NOTIFICATION_MESSAGE")
    ∷ (encap_eapol_1905, "_1905_ENCAP_EAPOL")
    ∷ (dpp_bootstraping_uri_notification, "DPP_BOOTSTRAPING_URI_NOTIFICATION")
    ∷ (dpp_bootstraping_uri_query, "DPP_BOOTSTRAPING_URI_QUERY")
    ∷ (failed_connection_message, "FAILED_CONNECTION_MESSAGE")
    ∷ (dpp_uri_notification_message, "DPP_URI_NOTIFICATION_MESSAGE")
    ∷ (agent_list_message, "AGENT_LIST_MESSAGE")
    ∷ (qos_management_notification, "QOS_MANAGEMENT_NOTIFICATION")
    ∷ (early_ap_cap_report_message, "EARLY_AP_CAP_REPORT_MESSAGE")
    ∷ (ap_mld_configuration_request_message, "AP_MLD_CONFIGURATION_REQUEST_MESSAGE")
    ∷ (ap_mld_configuration_response_message, "AP_MLD_CONFIGURATION_RESPONSE_MESSAGE")
    ∷ (bsta_mld_configuration_request_message, "BSTA_MLD_CONFIGURATION_REQUEST_MESSAGE")
    ∷ (bsta_mld_configuration_response_message, "BSTA_MLD_CONFIGURATION_RESPONSE_MESSAGE")
    ∷ (afc_spectrum_inquiry_message, "AFC_SPECTRUM_INQUIRY_MESSAGE")
    ∷ (dev_send_1905_request, "DEV_SEND_1905_REQUEST")
    ∷ []

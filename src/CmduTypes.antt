-- ===== src/CmduTypes.antt =====
-- The message types of include/ieee1905_1/cmdu.h (namespace CmduTypes). A leading `_1905_` of the
-- source stands last in the name here.
use ieee.Prelude.{ℕ}

abbrev pub topology_discovery : ℕ
topology_discovery = 0x0000

abbrev pub topology_notification : ℕ
topology_notification = 0x0001

abbrev pub topology_query : ℕ
topology_query = 0x0002

abbrev pub topology_response : ℕ
topology_response = 0x0003

abbrev pub vendor_specific : ℕ
vendor_specific = 0x0004

abbrev pub link_metric_query : ℕ
link_metric_query = 0x0005

abbrev pub link_metric_response : ℕ
link_metric_response = 0x0006

abbrev pub ap_autoconfiguration_search : ℕ
ap_autoconfiguration_search = 0x0007

abbrev pub ap_autoconfiguration_response : ℕ
ap_autoconfiguration_response = 0x0008

abbrev pub ap_autoconfiguration_wsc : ℕ
ap_autoconfiguration_wsc = 0x0009

abbrev pub ap_autoconfiguration_renew : ℕ
ap_autoconfiguration_renew = 0x000a

abbrev pub push_button_event_notification : ℕ
push_button_event_notification = 0x000b

abbrev pub push_button_join_notification : ℕ
push_button_join_notification = 0x000c

abbrev pub higher_layer_query : ℕ
higher_layer_query = 0x000d

abbrev pub higher_layer_response : ℕ
higher_layer_response = 0x000e

abbrev pub interface_power_change_request : ℕ
interface_power_change_request = 0x000f

abbrev pub interface_power_change_response : ℕ
interface_power_change_response = 0x0010

abbrev pub generic_phy_query : ℕ
generic_phy_query = 0x0011

abbrev pub generic_phy_response : ℕ
generic_phy_response = 0x0012

abbrev pub ack_1905 : ℕ
ack_1905 = 0x8000

abbrev pub ap_capability_query : ℕ
ap_capability_query = 0x8001

abbrev pub ap_capability_report : ℕ
ap_capability_report = 0x8002

abbrev pub map_policy_config_request : ℕ
map_policy_config_request = 0x8003

abbrev pub channel_preference_query : ℕ
channel_preference_query = 0x8004

abbrev pub channel_preference_report : ℕ
channel_preference_report = 0x8005

abbrev pub channel_selection_request : ℕ
channel_selection_request = 0x8006

abbrev pub channel_selection_response : ℕ
channel_selection_response = 0x8007

abbrev pub operating_channel_report : ℕ
operating_channel_report = 0x8008

abbrev pub client_capability_query : ℕ
client_capability_query = 0x8009

abbrev pub client_capability_report : ℕ
client_capability_report = 0x800a

abbrev pub ap_link_metrics_query : ℕ
ap_link_metrics_query = 0x800b

abbrev pub ap_link_metrics_response : ℕ
ap_link_metrics_response = 0x800c

abbrev pub assoc_sta_link_metrics_query : ℕ
assoc_sta_link_metrics_query = 0x800d

abbrev pub assoc_sta_link_metrics_response : ℕ
assoc_sta_link_metrics_response = 0x800e

abbrev pub unassoc_sta_link_metrics_query : ℕ
unassoc_sta_link_metrics_query = 0x800f

abbrev pub unassoc_sta_link_metrics_response : ℕ
unassoc_sta_link_metrics_response = 0x8010

abbrev pub beacon_metrics_query : ℕ
beacon_metrics_query = 0x8011

abbrev pub beacon_metrics_response : ℕ
beacon_metrics_response = 0x8012

abbrev pub combined_infrastructure_metrics : ℕ
combined_infrastructure_metrics = 0x8013

abbrev pub client_steering_request : ℕ
client_steering_request = 0x8014

abbrev pub client_steering_btm_request : ℕ
client_steering_btm_request = 0x8015

abbrev pub client_assoc_control_request : ℕ
client_assoc_control_request = 0x8016

abbrev pub client_steering_complete : ℕ
client_steering_complete = 0x8017

abbrev pub higher_layer_data_message : ℕ
higher_layer_data_message = 0x8018

abbrev pub backhaul_steering_request : ℕ
backhaul_steering_request = 0x8019

abbrev pub backhaul_steering_response : ℕ
backhaul_steering_response = 0x801a

abbrev pub channel_scan_request : ℕ
channel_scan_request = 0x801b

abbrev pub channel_scan_response : ℕ
channel_scan_response = 0x801c

abbrev pub dpp_cce_indication_message : ℕ
dpp_cce_indication_message = 0x801d

abbrev pub rekey_request_1905 : ℕ
rekey_request_1905 = 0x801e

abbrev pub description_failure_1905 : ℕ
description_failure_1905 = 0x801f

abbrev pub cac_request : ℕ
cac_request = 0x8020

abbrev pub cac_termination : ℕ
cac_termination = 0x8021

abbrev pub client_disassociation_stats : ℕ
client_disassociation_stats = 0x8022

abbrev pub service_prioritization_stats : ℕ
service_prioritization_stats = 0x8023

abbrev pub error_response : ℕ
error_response = 0x8024

abbrev pub association_status_notification : ℕ
association_status_notification = 0x8025

abbrev pub tunneled_message : ℕ
tunneled_message = 0x8026

abbrev pub backhaul_sta_cap_query_message : ℕ
backhaul_sta_cap_query_message = 0x8027

abbrev pub backhaul_sta_cap_report_message : ℕ
backhaul_sta_cap_report_message = 0x8028

abbrev pub proxied_encap_dpp_message : ℕ
proxied_encap_dpp_message = 0x8029

abbrev pub direct_encap_dpp_message : ℕ
direct_encap_dpp_message = 0x802a

abbrev pub bss_reconfiguration_trigger_message : ℕ
bss_reconfiguration_trigger_message = 0x802b

abbrev pub bss_configuration_request_message : ℕ
bss_configuration_request_message = 0x802c

abbrev pub bss_configuration_response_message : ℕ
bss_configuration_response_message = 0x802d

abbrev pub bss_configuration_result_message : ℕ
bss_configuration_result_message = 0x802e

abbrev pub chirp_notification_message : ℕ
chirp_notification_message = 0x802f

abbrev pub encap_eapol_1905 : ℕ
encap_eapol_1905 = 0x8030

abbrev pub dpp_bootstraping_uri_notification : ℕ
dpp_bootstraping_uri_notification = 0x8031

abbrev pub dpp_bootstraping_uri_query : ℕ
dpp_bootstraping_uri_query = 0x8032

abbrev pub failed_connection_message : ℕ
failed_connection_message = 0x8033

abbrev pub dpp_uri_notification_message : ℕ
dpp_uri_notification_message = 0x8034

abbrev pub agent_list_message : ℕ
agent_list_message = 0x8035

abbrev pub qos_management_notification : ℕ
qos_management_notification = 0x8037

abbrev pub early_ap_cap_report_message : ℕ
early_ap_cap_report_message = 0x8043

abbrev pub ap_mld_configuration_request_message : ℕ
ap_mld_configuration_request_message = 0x8044

abbrev pub ap_mld_configuration_response_message : ℕ
ap_mld_configuration_response_message = 0x8045

abbrev pub bsta_mld_configuration_request_message : ℕ
bsta_mld_configuration_request_message = 0x8046

abbrev pub bsta_mld_configuration_response_message : ℕ
bsta_mld_configuration_response_message = 0x8047

abbrev pub afc_spectrum_inquiry_message : ℕ
afc_spectrum_inquiry_message = 0x8048

abbrev pub dev_send_1905_request : ℕ
dev_send_1905_request = 0x9000

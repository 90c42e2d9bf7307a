-- ===== src/Agent/Sends.antt =====
-- The `Send...` methods of src/agent.cpp that only log.
use ieee.Prelude.{[]}
use ieee.World.{M}
use ieee.Logger.{em_debug}

unfoldable pub send_topology_notification : M (Unit {0})
send_topology_notification = em_debug "Ieee1905Agent: Sending Topology Notification..." []

unfoldable pub send_topology_query : M (Unit {0})
send_topology_query = em_debug "Ieee1905Agent: Sending Topology Query..." []

unfoldable pub send_topology_response : M (Unit {0})
send_topology_response = em_debug "Ieee1905Agent: Sending Topology Response..." []

unfoldable pub send_vendor_specific : M (Unit {0})
send_vendor_specific = em_debug "Ieee1905Agent: Sending Vendor Specific..." []

unfoldable pub send_link_metric_query : M (Unit {0})
send_link_metric_query = em_debug "Ieee1905Agent: Sending Link Metric Query..." []

unfoldable pub send_link_metric_response : M (Unit {0})
send_link_metric_response = em_debug "Ieee1905Agent: Sending Link Metric Response..." []

unfoldable pub send_autoconfigration_search : M (Unit {0})
send_autoconfigration_search = em_debug "Ieee1905Agent: Sending Autoconfigration Search..." []

unfoldable pub send_autoconfigration_response : M (Unit {0})
send_autoconfigration_response = em_debug "Ieee1905Agent: Sending Autoconfigration Response..." []

unfoldable pub send_autoconfigration_wsc : M (Unit {0})
send_autoconfigration_wsc = em_debug "Ieee1905Agent: Sending Autoconfigration Wsc..." []

unfoldable pub send_autoconfigration_renew : M (Unit {0})
send_autoconfigration_renew = em_debug "Ieee1905Agent: Sending Autoconfigration Renew..." []

unfoldable pub send_push_button_event_notification : M (Unit {0})
send_push_button_event_notification =
    em_debug "Ieee1905Agent: Sending Push Button Event Notification..." []

unfoldable pub send_push_button_join_notification : M (Unit {0})
send_push_button_join_notification =
    em_debug "Ieee1905Agent: Sending Push Button Join Notification..." []

unfoldable pub send_higher_layer_query : M (Unit {0})
send_higher_layer_query = em_debug "Ieee1905Agent: Sending Higher Layer Query..." []

unfoldable pub send_higher_layer_response : M (Unit {0})
send_higher_layer_response = em_debug "Ieee1905Agent: Sending Higher Layer Response..." []

unfoldable pub send_interface_power_change_request : M (Unit {0})
send_interface_power_change_request =
    em_debug "Ieee1905Agent: Sending Interface Power Change Request..." []

unfoldable pub send_interface_power_change_response : M (Unit {0})
send_interface_power_change_response =
    em_debug "Ieee1905Agent: Sending Interface Power Change Response..." []

unfoldable pub send_generic_phy_query : M (Unit {0})
send_generic_phy_query = em_debug "Ieee1905Agent: Sending Generic Phy Query..." []

unfoldable pub send_generic_phy_response : M (Unit {0})
send_generic_phy_response = em_debug "Ieee1905Agent: Sending Generic Phy Response..." []

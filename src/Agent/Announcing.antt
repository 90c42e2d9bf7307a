-- ===== src/Agent/Announcing.antt =====
-- The `Send...` methods that only log, as one family.
use ieee.Prelude.{String, []}
use ieee.Prelude.{◌∷◌}
use ieee.World.{M, log, debug}
use ieee.World.Effects.{Logs}
use ieee.Logger.Lines.{em_debug-Logs}
use ieee.Agent.Sends.{
  send_topology_notification, send_topology_query, send_topology_response, send_vendor_specific,
  send_link_metric_query, send_link_metric_response, send_autoconfigration_search,
  send_autoconfigration_response, send_autoconfigration_wsc, send_autoconfigration_renew,
  send_push_button_event_notification, send_push_button_join_notification, send_higher_layer_query,
  send_higher_layer_response, send_interface_power_change_request,
  send_interface_power_change_response, send_generic_phy_query, send_generic_phy_response,
}

-- Which method.
pub data Announcement : Type 0 where
  topology_notification topology_query topology_response vendor_specific link_metric_query
        link_metric_response autoconfigration_search autoconfigration_response autoconfigration_wsc
        autoconfigration_renew push_button_event_notification push_button_join_notification
        higher_layer_query higher_layer_response interface_power_change_request
        interface_power_change_response generic_phy_query generic_phy_response :
      Announcement

abbrev pub announce : Announcement → M (Unit {0})
announce topology_notification = send_topology_notification
announce topology_query = send_topology_query
announce topology_response = send_topology_response
announce vendor_specific = send_vendor_specific
announce link_metric_query = send_link_metric_query
announce link_metric_response = send_link_metric_response
announce autoconfigration_search = send_autoconfigration_search
announce autoconfigration_response = send_autoconfigration_response
announce autoconfigration_wsc = send_autoconfigration_wsc
announce autoconfigration_renew = send_autoconfigration_renew
announce push_button_event_notification = send_push_button_event_notification
announce push_button_join_notification = send_push_button_join_notification
announce higher_layer_query = send_higher_layer_query
announce higher_layer_response = send_higher_layer_response
announce interface_power_change_request = send_interface_power_change_request
announce interface_power_change_response = send_interface_power_change_response
announce generic_phy_query = send_generic_phy_query
announce generic_phy_response = send_generic_phy_response

-- What it says that it sends.
abbrev pub announced : Announcement → String
announced topology_notification = "Ieee1905Agent: Sending Topology Notification..."
announced topology_query = "Ieee1905Agent: Sending Topology Query..."
announced topology_response = "Ieee1905Agent: Sending Topology Response..."
announced vendor_specific = "Ieee1905Agent: Sending Vendor Specific..."
announced link_metric_query = "Ieee1905Agent: Sending Link Metric Query..."
announced link_metric_response = "Ieee1905Agent: Sending Link Metric Response..."
announced autoconfigration_search = "Ieee1905Agent: Sending Autoconfigration Search..."
announced autoconfigration_response = "Ieee1905Agent: Sending Autoconfigration Response..."
announced autoconfigration_wsc = "Ieee1905Agent: Sending Autoconfigration Wsc..."
announced autoconfigration_renew = "Ieee1905Agent: Sending Autoconfigration Renew..."
announced push_button_event_notification =
    "Ieee1905Agent: Sending Push Button Event Notification..."
announced push_button_join_notification = "Ieee1905Agent: Sending Push Button Join Notification..."
announced higher_layer_query = "Ieee1905Agent: Sending Higher Layer Query..."
announced higher_layer_response = "Ieee1905Agent: Sending Higher Layer Response..."
announced interface_power_change_request =
    "Ieee1905Agent: Sending Interface Power Change Request..."
announced interface_power_change_response =
    "Ieee1905Agent: Sending Interface Power Change Response..."
announced generic_phy_query = "Ieee1905Agent: Sending Generic Phy Query..."
announced generic_phy_response = "Ieee1905Agent: Sending Generic Phy Response..."

-- Each logs its line, and does nothing else.
pub announce-Logs : (a : Announcement) → Logs (announce a) (log debug (announced a) [] ∷ [])
unfolding send_topology_notification send_topology_query send_topology_response send_vendor_specific
    send_link_metric_query send_link_metric_response send_autoconfigration_search
    send_autoconfigration_response send_autoconfigration_wsc send_autoconfigration_renew
    send_push_button_event_notification send_push_button_join_notification send_higher_layer_query
    send_higher_layer_response send_interface_power_change_request
    send_interface_power_change_response send_generic_phy_query send_generic_phy_response
announce-Logs topology_notification = em_debug-Logs _ []
announce-Logs topology_query = em_debug-Logs _ []
announce-Logs topology_response = em_debug-Logs _ []
announce-Logs vendor_specific = em_debug-Logs _ []
announce-Logs link_metric_query = em_debug-Logs _ []
announce-Logs link_metric_response = em_debug-Logs _ []
announce-Logs autoconfigration_search = em_debug-Logs _ []
announce-Logs autoconfigration_response = em_debug-Logs _ []
announce-Logs autoconfigration_wsc = em_debug-Logs _ []
announce-Logs autoconfigration_renew = em_debug-Logs _ []
announce-Logs push_button_event_notification = em_debug-Logs _ []
announce-Logs push_button_join_notification = em_debug-Logs _ []
announce-Logs higher_layer_query = em_debug-Logs _ []
announce-Logs higher_layer_response = em_debug-Logs _ []
announce-Logs interface_power_change_request = em_debug-Logs _ []
announce-Logs interface_power_change_response = em_debug-Logs _ []
announce-Logs generic_phy_query = em_debug-Logs _ []
announce-Logs generic_phy_response = em_debug-Logs _ []

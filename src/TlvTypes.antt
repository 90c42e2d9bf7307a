-- ===== src/TlvTypes.antt =====
-- The TLV types of include/ieee1905_1/tlv.h (namespace TlvTypes). A leading `_1905_` of the source
-- stands last in the name here.
use ieee.Prelude.{ℕ}

abbrev pub end_of_message : ℕ
end_of_message = 0

abbrev pub al_mac_address_type : ℕ
al_mac_address_type = 1

abbrev pub mac_address_type : ℕ
mac_address_type = 2

abbrev pub device_information_type : ℕ
device_information_type = 3

abbrev pub device_bridging_capabilities : ℕ
device_bridging_capabilities = 4

abbrev pub non_1905_neighbor_device_list : ℕ
non_1905_neighbor_device_list = 6

abbrev pub neighbor_device_list : ℕ
neighbor_device_list = 7

abbrev pub link_metric_query : ℕ
link_metric_query = 8

abbrev pub transmitter_link_metric : ℕ
transmitter_link_metric = 9

abbrev pub receiver_link_metric : ℕ
receiver_link_metric = 10

abbrev pub vendor_specific : ℕ
vendor_specific = 11

abbrev pub link_metric_result_code : ℕ
link_metric_result_code = 12

abbrev pub searched_role : ℕ
searched_role = 13

abbrev pub autoconfig_freq_band : ℕ
autoconfig_freq_band = 14

abbrev pub supported_role : ℕ
supported_role = 15

abbrev pub supported_freq_band : ℕ
supported_freq_band = 16

abbrev pub wsc : ℕ
wsc = 17

abbrev pub push_button_event_notification : ℕ
push_button_event_notification = 18

abbrev pub push_button_join_notification : ℕ
push_button_join_notification = 19

abbrev pub generic_phy_device_information : ℕ
generic_phy_device_information = 20

abbrev pub device_identification : ℕ
device_identification = 21

abbrev pub control_url : ℕ
control_url = 22

abbrev pub ipv4 : ℕ
ipv4 = 23

abbrev pub ipv6 : ℕ
ipv6 = 24

abbrev pub generic_phy_event_notification : ℕ
generic_phy_event_notification = 25

abbrev pub profile_version_1905 : ℕ
profile_version_1905 = 26

abbrev pub power_off_interface : ℕ
power_off_interface = 27

abbrev pub interface_power_change_information : ℕ
interface_power_change_information = 28

abbrev pub interface_power_change_status : ℕ
interface_power_change_status = 29

abbrev pub l2_neighbor_device : ℕ
l2_neighbor_device = 30

-- ===== src/LldpTlvTypes.antt =====
-- The TLV types of include/ieee1905_1/lldp.h (namespace LldpTlvTypes).
use ieee.Prelude.{ℕ}

abbrev pub end_of_lldpdu : ℕ
end_of_lldpdu = 0

abbrev pub chassis_id : ℕ
chassis_id = 1

abbrev pub port_id : ℕ
port_id = 2

abbrev pub ttl : ℕ
ttl = 3

abbrev pub port_desc : ℕ
port_desc = 4

abbrev pub system_name : ℕ
system_name = 5

abbrev pub system_desc : ℕ
system_desc = 6

abbrev pub capabilities : ℕ
capabilities = 7

abbrev pub mgmt_addr : ℕ
mgmt_addr = 8

abbrev pub organization_specific : ℕ
organization_specific = 127

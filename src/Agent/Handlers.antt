-- ===== src/Agent/Handlers.antt =====
-- What the handlers that `HandleCmdu` calls come to: a line to log, or nothing.
use ieee.Prelude.{
  ℕ, ◌≡◌, refl, arith, ◌==◌, ◌||◌, if◌then◌else◌, Bool, true, false, Bool-cases, inl, inr, String,
  Option, none, some, List, [], ◌∷◌, ◌++◌,
}
use ieee.CmduTypes.{
  topology_discovery, topology_notification, topology_query, topology_response, link_metric_query,
  link_metric_response, ap_autoconfiguration_search, ap_autoconfiguration_response,
  ap_autoconfiguration_wsc, ap_autoconfiguration_renew, vendor_specific, higher_layer_query,
  higher_layer_response, generic_phy_query, generic_phy_response, ap_capability_query,
  ap_capability_report, channel_preference_query, channel_preference_report,
  channel_selection_request, channel_selection_response, operating_channel_report,
  client_capability_query, client_capability_report, assoc_sta_link_metrics_query,
  assoc_sta_link_metrics_response, unassoc_sta_link_metrics_query,
  unassoc_sta_link_metrics_response, client_steering_request, client_steering_btm_request,
  client_assoc_control_request, client_steering_complete, backhaul_steering_request,
  backhaul_steering_response, channel_scan_request, channel_scan_response,
  ap_mld_configuration_request_message, ap_mld_configuration_response_message,
  bsta_mld_configuration_request_message, bsta_mld_configuration_response_message,
}
use ieee.Cmdu.{Cmdu}
use ieee.World.{M, Event, pure, log, debug}
use ieee.World.Effects.{Logs, Logs-pure}
use ieee.Logger.{em_debug}
use ieee.Logger.Lines.{em_debug-Logs}
use ieee.Agent.Switch.{switch}
use ieee.Agent.Dispatch.{ieee1905_cases, easymesh_cases}
use ieee.Agent.Process.{
  spdlog_debug, process_topology_discovery, process_topology_notification, process_topology_query,
  process_topology_response, process_link_metric_query, process_link_metric_response,
  process_autoconfiguration_search, process_autoconfiguration_response,
  process_autoconfiguration_wsc, process_autoconfiguration_renew, process_vendor_specific,
  process_higher_layer_query, process_higher_layer_response, process_generic_phy_query,
  process_generic_phy_response, process_ap_capability_query, process_ap_capability_report,
  process_channel_preference_query, process_channel_preference_report,
  process_channel_selection_request, process_channel_selection_response,
  process_operating_channel_report, process_client_capability_query,
  process_client_capability_report, process_assoc_sta_link_metrics_query,
  process_assoc_sta_link_metrics_response, process_unassoc_sta_link_metrics_query,
  process_unassoc_sta_link_metrics_response, process_client_steering_request,
  process_client_steering_btm_request, process_client_assoc_control_request,
  process_client_steering_complete, process_backhaul_steering_request,
  process_backhaul_steering_response, process_channel_scan_request, process_channel_scan_response,
  process_ap_mld_configuration_request, process_ap_mld_configuration_response,
  process_bsta_mld_configuration_request, process_bsta_mld_configuration_response,
}

abbrev pub Handler : Type 0
Handler = Cmdu → M (Unit {0})

-- The line that a message of IEEE 1905.1 leads to, by its type.
abbrev processing_texts : List (ℕ × String)
processing_texts =
    (topology_discovery, "Ieee1905Agent: Processing Topology Discovery Request.")
    ∷ (topology_notification, "Ieee1905Agent: Processing Topology Notification.")
    ∷ (topology_query, "Ieee1905Agent: Processing Topology Query.")
    ∷ (topology_response, "Ieee1905Agent: Processing Topology Response.")
    ∷ (link_metric_query, "Ieee1905Agent: Processing Link Metric Query.")
    ∷ (link_metric_response, "Ieee1905Agent: Processing Link Metric Response.")
    ∷ (ap_autoconfiguration_search, "Ieee1905Agent: Processing Autoconfiguration Search.")
    ∷ (ap_autoconfiguration_response, "Ieee1905Agent: Processing Autoconfiguration Response.")
    ∷ (ap_autoconfiguration_wsc, "Ieee1905Agent: Processing Autoconfiguration WSC.")
    ∷ (ap_autoconfiguration_renew, "Ieee1905Agent: Processing Autoconfiguration Renew.")
    ∷ (vendor_specific, "Ieee1905Agent: Processing Vendor Specific.")
    ∷ (higher_layer_query, "Ieee1905Agent: Processing Higher Layer Query.")
    ∷ (higher_layer_response, "Ieee1905Agent: Processing Higher Layer Response.")
    ∷ (generic_phy_query, "Ieee1905Agent: Processing Generic PHY Query.")
    ∷ (generic_phy_response, "Ieee1905Agent: Processing Generic PHY Response.")
    ∷ []

abbrev easymesh_types : List ℕ
easymesh_types =
    ap_capability_query ∷ ap_capability_report ∷ channel_preference_query
    ∷ channel_preference_report ∷ channel_selection_request ∷ channel_selection_response
    ∷ operating_channel_report ∷ client_capability_query ∷ client_capability_report
    ∷ assoc_sta_link_metrics_query ∷ assoc_sta_link_metrics_response
    ∷ unassoc_sta_link_metrics_query ∷ unassoc_sta_link_metrics_response ∷ client_steering_request
    ∷ client_steering_btm_request ∷ client_assoc_control_request ∷ client_steering_complete
    ∷ backhaul_steering_request ∷ backhaul_steering_response ∷ channel_scan_request
    ∷ channel_scan_response ∷ ap_mld_configuration_request_message
    ∷ ap_mld_configuration_response_message ∷ bsta_mld_configuration_request_message
    ∷ bsta_mld_configuration_response_message ∷ []

abbrev lookup {ℓ} : {A : Type ℓ} → ℕ → List (ℕ × A) → Option A
lookup n [] = none
lookup n ((k, a) ∷ m) = if n == k then some a else lookup n m

abbrev pub processing_text : ℕ → Option String
processing_text type = lookup type processing_texts

abbrev pub elem : ℕ → List ℕ → Bool
elem n [] = false
elem n (k ∷ ks) = n == k || elem n ks

abbrev pub is_some {ℓ} : {A : Type ℓ} → Option A → Bool
is_some none = false
is_some (some a) = true

abbrev keys {ℓ} : {A : Type ℓ} → List (ℕ × A) → List ℕ
keys [] = []
keys ((k, a) ∷ m) = k ∷ keys m

is_some-lookup {ℓ} :
    {A : Type ℓ} (n : ℕ) (m : List (ℕ × A)) → is_some (lookup n m) ≡ elem n (keys m)
is_some-lookup n [] = refl
is_some-lookup n ((k, a) ∷ m) = ground (arith, is_some-lookup n m)

abbrev pub processing_types : List ℕ
processing_types = keys processing_texts

pub is_some-processing_text : (t : ℕ) → is_some (processing_text t) ≡ elem t processing_types
is_some-processing_text t = is_some-lookup t processing_texts

abbrev pub is_easymesh : ℕ → Bool
is_easymesh type = elem type easymesh_types

abbrev log_cases : List (ℕ × String) → List (ℕ × Handler)
log_cases [] = []
log_cases ((k, s) ∷ m) = (k, λ c. em_debug s []) ∷ log_cases m

abbrev silent_cases : List ℕ → List (ℕ × Handler)
silent_cases [] = []
silent_cases (k ∷ ks) = (k, λ c. pure tt) ∷ silent_cases ks

ieee1905_cases-log_cases : ieee1905_cases ≡ log_cases processing_texts
unfolding process_topology_discovery process_topology_notification process_topology_query
    process_topology_response process_link_metric_query process_link_metric_response
    process_autoconfiguration_search process_autoconfiguration_response
    process_autoconfiguration_wsc process_autoconfiguration_renew process_vendor_specific
    process_higher_layer_query process_higher_layer_response process_generic_phy_query
    process_generic_phy_response
ieee1905_cases-log_cases = refl

easymesh_cases-silent_cases : easymesh_cases ≡ silent_cases easymesh_types
unfolding spdlog_debug process_ap_capability_query process_ap_capability_report
    process_channel_preference_query process_channel_preference_report
    process_channel_selection_request process_channel_selection_response
    process_operating_channel_report process_client_capability_query
    process_client_capability_report process_assoc_sta_link_metrics_query
    process_assoc_sta_link_metrics_response process_unassoc_sta_link_metrics_query
    process_unassoc_sta_link_metrics_response process_client_steering_request
    process_client_steering_btm_request process_client_assoc_control_request
    process_client_steering_complete process_backhaul_steering_request
    process_backhaul_steering_response process_channel_scan_request process_channel_scan_response
    process_ap_mld_configuration_request process_ap_mld_configuration_response
    process_bsta_mld_configuration_request process_bsta_mld_configuration_response
easymesh_cases-silent_cases = refl

-- The line for a text, or what the default logs.
abbrev pub text_or : Option String → List Event → List Event
text_or none lines = lines
text_or (some s) lines = log debug s [] ∷ []

switch-log_cases :
    (c : Cmdu) (t : ℕ) (texts : List (ℕ × String)) (default : Handler) (lines : List Event)
    → Logs (default c) lines
    → Logs (switch t (log_cases texts) default c) (text_or (lookup t texts) lines)
unfolding switch
switch-log_cases c t [] default lines h = h
switch-log_cases c t ((k, s) ∷ texts) default lines h = elim (Bool-cases (t == k)) [
  | inl e ↦ rw e (em_debug-Logs s [])
  | inr e ↦ rw e (switch-log_cases c t texts default lines h)
]

switch-silent_cases :
    (c : Cmdu) (t : ℕ) (types : List ℕ) (default : Handler) (lines : List Event)
    → Logs (default c) lines
    → Logs (switch t (silent_cases types) default c) (if elem t types then [] else lines)
unfolding switch
switch-silent_cases c t [] default lines h = h
switch-silent_cases c t (k ∷ types) default lines h = elim (Bool-cases (t == k)) [
  | inl e ↦ rw e Logs-pure
  | inr e ↦ rw e (switch-silent_cases c t types default lines h)
]

switch-append {ℓ} :
    {A : Type ℓ} (t : ℕ) (xs ys : List (ℕ × A)) (default : A)
    → switch t (xs ++ ys) default ≡ switch t xs (switch t ys default)
unfolding switch
switch-append t [] ys default = refl
switch-append t ((k, a) ∷ xs) ys default = ground (arith, switch-append t xs ys default)

-- The switch on the type with a default that logs `lines`.
pub switch-Logs :
    (c : Cmdu) (default : Handler) (lines : List Event)
    → Logs (default c) lines
    → Logs
        (switch c.type (ieee1905_cases ++ easymesh_cases) default c)
        (text_or (processing_text c.type) (if is_easymesh c.type then [] else lines))
switch-Logs c default lines h =
    rw
      (
        switch-append c.type ieee1905_cases easymesh_cases default,
        ieee1905_cases-log_cases,
        easymesh_cases-silent_cases,
      )
      (switch-log_cases c c.type processing_texts
        (switch c.type (silent_cases easymesh_types) default) _
        (switch-silent_cases c c.type easymesh_types default lines h))

-- ===== src/Error/Cme/Text.antt =====
-- The texts of CmeError (atat/src/error/cme_error.rs): `Display`, and `from_msg` of the feature
-- `string_errors`.
use atat.Base.{◌≡◌, refl, ◌⊎◌, List, [], ◌∷◌, Bytes, codes}
use atat.Error.Table.{find_text, MatchesTexts, find_text-MatchesTexts}
use atat.Error.Cme.{CmeError}

-- What `Display` writes.
unfoldable pub cme_display : CmeError → Bytes
cme_display CmeError.phone_failure = codes "Phone failure"
cme_display CmeError.no_connection = codes "No connection to phone"
cme_display CmeError.link_reserved = codes "Phone-adaptor link reserved"
cme_display CmeError.not_allowed = codes "Operation not allowed"
cme_display CmeError.not_supported = codes "Operation not supported"
cme_display CmeError.ph_sim_pin = codes "PH-SIM PIN required"
cme_display CmeError.ph_fsim_pin = codes "PH-FSIM PIN required"
cme_display CmeError.ph_fsim_puk = codes "PH-FSIM PUK required"
cme_display CmeError.sim_not_inserted = codes "SIM not inserted"
cme_display CmeError.sim_pin = codes "SIM PIN required"
cme_display CmeError.sim_puk = codes "SIM PUK required"
cme_display CmeError.sim_failure = codes "SIM failure"
cme_display CmeError.sim_busy = codes "SIM busy"
cme_display CmeError.sim_wrong = codes "SIM wrong"
cme_display CmeError.incorrect_password = codes "Incorrect password"
cme_display CmeError.sim_pin2 = codes "SIM PIN2 required"
cme_display CmeError.sim_puk2 = codes "SIM PUK2 required"
cme_display CmeError.memory_full = codes "Memory full"
cme_display CmeError.invalid_index = codes "Invalid index"
cme_display CmeError.not_found = codes "Not found"
cme_display CmeError.memory_failure = codes "Memory failure"
cme_display CmeError.text_too_long = codes "Text string too long"
cme_display CmeError.invalid_chars = codes "Invalid characters in text string"
cme_display CmeError.dial_string_too_long = codes "Dial string too long"
cme_display CmeError.dial_string_invalid = codes "Invalid characters in dial string"
cme_display CmeError.no_network = codes "No network service"
cme_display CmeError.network_timeout = codes "Network timeout"
cme_display CmeError.network_not_allowed = codes "Network not allowed - emergency calls only"
cme_display CmeError.network_pin = codes "Network personalization PIN required"
cme_display CmeError.network_puk = codes "Network personalization PUK required"
cme_display CmeError.network_subset_pin = codes "Network subset personalization PIN required"
cme_display CmeError.network_subset_puk = codes "Network subset personalization PUK required"
cme_display CmeError.service_pin = codes "Service provider personalization PIN required"
cme_display CmeError.service_puk = codes "Service provider personalization PUK required"
cme_display CmeError.corp_pin = codes "Corporate personalization PIN required"
cme_display CmeError.corp_puk = codes "Corporate personalization PUK required"
cme_display CmeError.hidden_key_required = codes "Hidden key required"
cme_display CmeError.eap_method_not_supported = codes "EAP method not supported"
cme_display CmeError.incorrect_parameters = codes "Incorrect parameters"
cme_display CmeError.command_disabled = codes "Command disabled"
cme_display CmeError.command_aborted = codes "Command aborted"
cme_display CmeError.not_attached_restricted = codes "Not attached] restricted"
cme_display CmeError.not_allowed_emergency_only = codes "Not allowed] emergency only"
cme_display CmeError.not_allowed_restricted = codes "Not allowed] restricted"
cme_display CmeError.fixed_dial_number_only = codes "Fixed dial number only"
cme_display CmeError.temporarily_out_of_service = codes "Temporarily out of service"
cme_display CmeError.language_or_alphabet_not_supported = codes "Language or alphabet not supported"
cme_display CmeError.unexpected_data_value = codes "Unexpected data value"
cme_display CmeError.system_failure = codes "System failure"
cme_display CmeError.data_missing = codes "Data missing"
cme_display CmeError.call_barred = codes "Call barred"
cme_display CmeError.message_waiting_indication_subscription_failure =
    codes "Message waiting indication subscription failure"
cme_display CmeError.unknown = codes "Unknown error"
cme_display CmeError.imsi_unknown_in_hss = codes "IMSI unknown in HLR/HSS"
cme_display CmeError.illegal_ue = codes "Illegal MS/UE"
cme_display CmeError.imsi_unknown_in_vlr = codes "IMSI unknown in VLR"
cme_display CmeError.imei_not_accepted = codes "IMEI not accepted"
cme_display CmeError.illegal_me = codes "Illegal ME"
cme_display CmeError.ps_services_not_allowed = codes "PS services not allowed"
cme_display CmeError.ps_and_non_ps_services_not_allowed = codes "PS and non-PS services not allowed"
cme_display CmeError.ue_identity_not_derived_from_network =
    codes "UE identity not derived from network"
cme_display CmeError.implicitly_detached = codes "Implicitly detached"
cme_display CmeError.plmn_not_allowed = codes "PLMN not allowed"
cme_display CmeError.area_not_allowed = codes "Location/tracking area not allowed"
cme_display CmeError.roaming_not_allowed_in_area =
    codes "Roaming not allowed in this location/tracking area"
cme_display CmeError.ps_services_not_allowed_in_plmn = codes "PS services not allowed in PLMN"
cme_display CmeError.no_cells_in_area = codes "No cells in location/tracking area"
cme_display CmeError.msc_temporarily_not_reachable = codes "MSC temporarily not reachable"
cme_display CmeError.network_failure_attach = codes "Network failure (attach)"
cme_display CmeError.cs_domain_unavailable = codes "CS domain unavailable"
cme_display CmeError.esm_failure = codes "ESM failure"
cme_display CmeError.congestion = codes "Congestion"
cme_display CmeError.mbms_bearer_capabilities_insufficient_for_service =
    codes "MBMS bearer capabilities insufficient for service"
cme_display CmeError.not_authorized_for_csg = codes "Not authorized for CSG"
cme_display CmeError.insufficient_resources = codes "Insufficient resources"
cme_display CmeError.missing_or_unknown_apn = codes "Missing or unknown APN"
cme_display CmeError.unknown_pdp_address_or_type = codes "Unknown PDP address or type"
cme_display CmeError.user_authentication_failed = codes "User authentication failed"
cme_display CmeError.activation_rejected_by_ggsn_or_gw = codes "Activation rejected by GGSN or GW"
cme_display CmeError.activation_rejected_unspecified = codes "Activation rejected (unspecified)"
cme_display CmeError.service_option_not_supported = codes "Service option not supported"
cme_display CmeError.service_option_not_subscribed = codes "Requested service option not subscribed"
cme_display CmeError.service_option_out_of_order = codes "Service option temporarily out of order"
cme_display CmeError.nsapi_or_pti_already_in_use = codes "NSAPI/PTI already in use"
cme_display CmeError.regular_deactivation = codes "Regular deactivation"
cme_display CmeError.qos_not_accepted = codes "QoS not accepted"
cme_display CmeError.call_cannot_be_identified = codes "Call cannot be identified"
cme_display CmeError.cs_service_temporarily_unavailable = codes "CS service temporarily unavailable"
cme_display CmeError.feature_not_supported = codes "Feature not supported"
cme_display CmeError.semantic_error_in_tft_operation = codes "Semantic error in TFT operation"
cme_display CmeError.syntactical_error_in_tft_operation = codes "Syntactical error in TFT operation"
cme_display CmeError.unknown_pdp_context = codes "Unknown PDP context"
cme_display CmeError.semantic_errors_in_packet_filter = codes "Semantic error in packet filter"
cme_display CmeError.syntactical_error_in_packet_filter = codes "Syntactical error in packet filter"
cme_display CmeError.pdp_context_without_tft_already_activated =
    codes "PDP context without TFT already activated"
cme_display CmeError.multicast_group_membership_timeout = codes "Multicast group membership timeout"
cme_display CmeError.gprs_unknown = codes "Unspecified GPRS error"
cme_display CmeError.pdp_auth_failure = codes "PDP authentication failure"
cme_display CmeError.invalid_mobile_class = codes "Invalid mobile class"
cme_display CmeError.last_pdn_disconnection_not_allowed_legacy =
    codes "Last PDN disconnection not allowed (legacy)"
cme_display CmeError.last_pdn_disconnection_not_allowed = codes "Last PDN disconnection not allowed"
cme_display CmeError.semantically_incorrect_message = codes "Semantically incorrect message"
cme_display CmeError.invalid_mandatory_information = codes "Invalid mandatory information"
cme_display CmeError.message_type_not_implemented = codes "Message type not implemented"
cme_display CmeError.conditional_ie_error = codes "Conditional IE error"
cme_display CmeError.unspecified_protocol_error = codes "Unspecified protocol error"
cme_display CmeError.operator_determined_barring = codes "Operator determined barring"
cme_display CmeError.maximum_number_of_bearers_reached =
    codes "Maximum number of PDP/bearer contexts reached"
cme_display CmeError.requested_apn_not_supported = codes "Requested APN not supported"
cme_display CmeError.request_rejected_bcm_violation = codes "Rejected BCM violation"
cme_display CmeError.unsupported_qci_or5_qi_value = codes "Unsupported QCI/5QI value"
cme_display CmeError.user_data_via_control_plane_congested =
    codes "User data via control plane congested"
cme_display CmeError.sms_provided_via_gprs_in_routing_area =
    codes "SMS provided via GPRS in routing area"
cme_display CmeError.invalid_pti_value = codes "Invalid PTI value"
cme_display CmeError.no_bearer_activated = codes "No bearer activated"
cme_display CmeError.message_not_compatible_with_protocol_state =
    codes "Message not compatible with protocol state"
cme_display CmeError.recovery_on_timer_expiry = codes "Recovery on timer expiry"
cme_display CmeError.invalid_transaction_id_value = codes "Invalid transaction ID value"
cme_display CmeError.service_option_not_authorized_in_plmn =
    codes "Service option not authorized in PLMN"
cme_display CmeError.network_failure_activation = codes "Network failure (activation)"
cme_display CmeError.reactivation_requested = codes "Reactivation requested"
cme_display CmeError.ipv4_only_allowed = codes "IPv4 only allowed"
cme_display CmeError.ipv6_only_allowed = codes "IPv6 only allowed"
cme_display CmeError.single_address_bearers_only_allowed =
    codes "Single address bearers only allowed"
cme_display CmeError.collision_with_network_initiated_request =
    codes "Collision with network initiated request"
cme_display CmeError.ipv4_v6_only_allowed = codes "IPv4v6 only allowed"
cme_display CmeError.non_ip_only_allowed = codes "Non-IP only allowed"
cme_display CmeError.bearer_handling_unsupported = codes "Bearer handling unsupported"
cme_display CmeError.apn_restriction_incompatible = codes "APN restriction incompatible"
cme_display CmeError.multiple_access_to_pdn_connection_not_allowed =
    codes "Multiple access to PDN connection not allowed"
cme_display CmeError.esm_information_not_received = codes "ESM information not received"
cme_display CmeError.pdn_connection_nonexistent = codes "PDN connection nonexistent"
cme_display CmeError.multiple_pdn_connection_same_apn_not_allowed =
    codes "Multiple PDN connection to same APN not allowed"
cme_display CmeError.severe_network_failure = codes "Severe network failure"
cme_display CmeError.insufficient_resources_for_slice_and_dnn =
    codes "Insufficient resources for slice and DNN"
cme_display CmeError.unsupported_ssc_mode = codes "Unsupported SSC mode"
cme_display CmeError.insufficient_resources_for_slice = codes "Insufficient resources for slice"
cme_display CmeError.message_type_not_compatible_with_protocol_state =
    codes "Message type not compatible with protocol state"
cme_display CmeError.ie_not_implemented = codes "IE not implemented"
cme_display CmeError.n1_mode_not_allowed = codes "N1 mode not allowed"
cme_display CmeError.restricted_service_area = codes "Restricted service area"
cme_display CmeError.ladn_unavailable = codes "LADN unavailable"
cme_display CmeError.missing_or_unknown_dnn_in_slice = codes "Missing or unknown DNN in slice"
cme_display CmeError.ngksi_already_in_use = codes "ngKSI already in use"
cme_display CmeError.payload_not_forwarded = codes "Payload not forwarded"
cme_display CmeError.non3_gpp_access_to5_gcn_not_allowed =
    codes "Non-3GPP access to 5GCN not allowed"
cme_display CmeError.serving_network_not_authorized = codes "Serving network not authorized"
cme_display CmeError.dnn_not_supported_in_slice = codes "DNN not supported in slice"
cme_display CmeError.insufficient_user_plane_resources_for_pdu_sessio =
    codes "Insufficient user plane resources for PDU session"
cme_display CmeError.out_of_ladn_service_area = codes "Out of LADN service area"
cme_display CmeError.pti_mismatch = codes "PTI mismatch"
cme_display CmeError.max_data_rate_for_user_plane_integrity_too_low =
    codes "Max data rate for user plane integrity too low"
cme_display CmeError.semantic_error_in_qos_operation = codes "Semantic error in QoS operation"
cme_display CmeError.syntactical_error_in_qos_operation = codes "Syntactical error in QoS operation"
cme_display CmeError.invalid_mapped_eps_bearer_identity = codes "Invalid mapped EPS bearer identity"
cme_display CmeError.redirection_to5_gcn_required = codes "Redirection to 5GCN required"
cme_display CmeError.redirection_to_epc_required = codes "Redirection to EPC required"
cme_display CmeError.temporarily_unauthorized_for_snpn = codes "Temporarily unauthorized for SNPN"
cme_display CmeError.permanently_unauthorized_for_snpn = codes "Permanently unauthorized for SNPN"
cme_display CmeError.ethernet_only_allowed = codes "Ethernet only allowed"
cme_display CmeError.unauthorized_for_cag = codes "Unauthorized for CAG"
cme_display CmeError.no_network_slices_available = codes "No network slices available"
cme_display CmeError.wireline_access_area_not_allowed = codes "Wireline access area not allowed"

-- The arms of `from_msg`, in order.
abbrev cme_messages : List (Bytes × CmeError)
cme_messages =
    (codes "Phone failure", CmeError.phone_failure)
    ∷ (codes "No connection to phone", CmeError.no_connection)
    ∷ (codes "Phone-adaptor link reserved", CmeError.link_reserved)
    ∷ (codes "Operation not allowed", CmeError.not_allowed)
    ∷ (codes "Operation not supported", CmeError.not_supported)
    ∷ (codes "SIM not inserted", CmeError.sim_not_inserted)
    ∷ (codes "SIM PIN required", CmeError.sim_pin)
    ∷ (codes "SIM PUK required", CmeError.sim_puk)
    ∷ (codes "SIM failure", CmeError.sim_failure)
    ∷ (codes "SIM busy", CmeError.sim_busy)
    ∷ (codes "SIM wrong", CmeError.sim_wrong)
    ∷ (codes "Incorrect password", CmeError.incorrect_password)
    ∷ (codes "Not found", CmeError.not_found)
    ∷ (codes "No network service", CmeError.no_network)
    ∷ (codes "Network timeout", CmeError.network_timeout)
    ∷ (codes "Incorrect parameters", CmeError.incorrect_parameters)
    ∷ []

unfoldable pub cme_from_msg : Bytes → CmeError
unfolding find_text
cme_from_msg s = find_text CmeError.unknown cme_messages s

cme_messages_match : MatchesTexts cme_display cme_messages
unfolding cme_display
cme_messages_match = (
  refl,
  (
    refl,
    (
      refl,
      (
        refl,
        (
          refl,
          (
            refl,
            (refl, (refl, (refl, (refl, (refl, (refl, (refl, (refl, (refl, (refl, tt)))))))))),
          ),
        ),
      ),
    ),
  ),
)

-- A text that `CmeError::from_msg` reads as an error is the text that `Display` writes for it, or it
-- is read as `Unknown`.
pub cme_display-cme_from_msg :
    (s : Bytes) → (cme_display (cme_from_msg s) ≡ s) ⊎ (cme_from_msg s ≡ CmeError.unknown)
unfolding cme_from_msg
cme_display-cme_from_msg s =
    find_text-MatchesTexts CmeError.unknown cme_display cme_messages cme_messages_match s

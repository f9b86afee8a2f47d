-- ===== src/Error/Cme.antt =====
-- `CmeError` of atat/src/error/cme_error.rs: the enumeration and its numbers (`as u16`). The child modules
-- have `From<u16>` and the texts.
pub mod From
pub mod Text
use atat.Base.{ℕ}

pub data CmeError : Type 0 where
  phone_failure no_connection link_reserved not_allowed not_supported ph_sim_pin : CmeError
  ph_fsim_pin ph_fsim_puk sim_not_inserted sim_pin sim_puk sim_failure sim_busy : CmeError
  sim_wrong incorrect_password sim_pin2 sim_puk2 memory_full invalid_index not_found : CmeError
  memory_failure text_too_long invalid_chars dial_string_too_long dial_string_invalid : CmeError
  no_network network_timeout network_not_allowed network_pin network_puk : CmeError
  network_subset_pin network_subset_puk service_pin service_puk corp_pin corp_puk : CmeError
  hidden_key_required eap_method_not_supported incorrect_parameters command_disabled : CmeError
  command_aborted not_attached_restricted not_allowed_emergency_only : CmeError
  not_allowed_restricted fixed_dial_number_only temporarily_out_of_service : CmeError
  language_or_alphabet_not_supported unexpected_data_value system_failure data_missing : CmeError
  call_barred message_waiting_indication_subscription_failure unknown : CmeError
  imsi_unknown_in_hss illegal_ue imsi_unknown_in_vlr imei_not_accepted illegal_me : CmeError
  ps_services_not_allowed ps_and_non_ps_services_not_allowed : CmeError
  ue_identity_not_derived_from_network implicitly_detached plmn_not_allowed : CmeError
  area_not_allowed roaming_not_allowed_in_area ps_services_not_allowed_in_plmn : CmeError
  no_cells_in_area msc_temporarily_not_reachable network_failure_attach : CmeError
  cs_domain_unavailable esm_failure congestion : CmeError
  mbms_bearer_capabilities_insufficient_for_service not_authorized_for_csg : CmeError
  insufficient_resources missing_or_unknown_apn unknown_pdp_address_or_type : CmeError
  user_authentication_failed activation_rejected_by_ggsn_or_gw : CmeError
  activation_rejected_unspecified service_option_not_supported : CmeError
  service_option_not_subscribed service_option_out_of_order nsapi_or_pti_already_in_use : CmeError
  regular_deactivation qos_not_accepted call_cannot_be_identified : CmeError
  cs_service_temporarily_unavailable feature_not_supported : CmeError
  semantic_error_in_tft_operation syntactical_error_in_tft_operation unknown_pdp_context : CmeError
  semantic_errors_in_packet_filter syntactical_error_in_packet_filter : CmeError
  pdp_context_without_tft_already_activated multicast_group_membership_timeout : CmeError
  gprs_unknown pdp_auth_failure invalid_mobile_class : CmeError
  last_pdn_disconnection_not_allowed_legacy last_pdn_disconnection_not_allowed : CmeError
  semantically_incorrect_message invalid_mandatory_information : CmeError
  message_type_not_implemented conditional_ie_error unspecified_protocol_error : CmeError
  operator_determined_barring maximum_number_of_bearers_reached : CmeError
  requested_apn_not_supported request_rejected_bcm_violation : CmeError
  unsupported_qci_or5_qi_value user_data_via_control_plane_congested : CmeError
  sms_provided_via_gprs_in_routing_area invalid_pti_value no_bearer_activated : CmeError
  message_not_compatible_with_protocol_state recovery_on_timer_expiry : CmeError
  invalid_transaction_id_value service_option_not_authorized_in_plmn : CmeError
  network_failure_activation reactivation_requested ipv4_only_allowed ipv6_only_allowed : CmeError
  single_address_bearers_only_allowed collision_with_network_initiated_request : CmeError
  ipv4_v6_only_allowed non_ip_only_allowed bearer_handling_unsupported : CmeError
  apn_restriction_incompatible multiple_access_to_pdn_connection_not_allowed : CmeError
  esm_information_not_received pdn_connection_nonexistent : CmeError
  multiple_pdn_connection_same_apn_not_allowed severe_network_failure : CmeError
  insufficient_resources_for_slice_and_dnn unsupported_ssc_mode : CmeError
  insufficient_resources_for_slice message_type_not_compatible_with_protocol_state : CmeError
  ie_not_implemented n1_mode_not_allowed restricted_service_area ladn_unavailable : CmeError
  missing_or_unknown_dnn_in_slice ngksi_already_in_use payload_not_forwarded : CmeError
  non3_gpp_access_to5_gcn_not_allowed serving_network_not_authorized : CmeError
  dnn_not_supported_in_slice insufficient_user_plane_resources_for_pdu_sessio : CmeError
  out_of_ladn_service_area pti_mismatch max_data_rate_for_user_plane_integrity_too_low : CmeError
  semantic_error_in_qos_operation syntactical_error_in_qos_operation : CmeError
  invalid_mapped_eps_bearer_identity redirection_to5_gcn_required : CmeError
  redirection_to_epc_required temporarily_unauthorized_for_snpn : CmeError
  permanently_unauthorized_for_snpn ethernet_only_allowed unauthorized_for_cag : CmeError
  no_network_slices_available wireline_access_area_not_allowed : CmeError

-- The discriminant, `e as u16`.
unfoldable pub cme_as_u16 : CmeError → ℕ
cme_as_u16 phone_failure = 0
cme_as_u16 no_connection = 1
cme_as_u16 link_reserved = 2
cme_as_u16 not_allowed = 3
cme_as_u16 not_supported = 4
cme_as_u16 ph_sim_pin = 5
cme_as_u16 ph_fsim_pin = 6
cme_as_u16 ph_fsim_puk = 7
cme_as_u16 sim_not_inserted = 10
cme_as_u16 sim_pin = 11
cme_as_u16 sim_puk = 12
cme_as_u16 sim_failure = 13
cme_as_u16 sim_busy = 14
cme_as_u16 sim_wrong = 15
cme_as_u16 incorrect_password = 16
cme_as_u16 sim_pin2 = 17
cme_as_u16 sim_puk2 = 18
cme_as_u16 memory_full = 20
cme_as_u16 invalid_index = 21
cme_as_u16 not_found = 22
cme_as_u16 memory_failure = 23
cme_as_u16 text_too_long = 24
cme_as_u16 invalid_chars = 25
cme_as_u16 dial_string_too_long = 26
cme_as_u16 dial_string_invalid = 27
cme_as_u16 no_network = 30
cme_as_u16 network_timeout = 31
cme_as_u16 network_not_allowed = 32
cme_as_u16 network_pin = 40
cme_as_u16 network_puk = 41
cme_as_u16 network_subset_pin = 42
cme_as_u16 network_subset_puk = 43
cme_as_u16 service_pin = 44
cme_as_u16 service_puk = 45
cme_as_u16 corp_pin = 46
cme_as_u16 corp_puk = 47
cme_as_u16 hidden_key_required = 48
cme_as_u16 eap_method_not_supported = 49
cme_as_u16 incorrect_parameters = 50
cme_as_u16 command_disabled = 51
cme_as_u16 command_aborted = 52
cme_as_u16 not_attached_restricted = 53
cme_as_u16 not_allowed_emergency_only = 54
cme_as_u16 not_allowed_restricted = 55
cme_as_u16 fixed_dial_number_only = 56
cme_as_u16 temporarily_out_of_service = 57
cme_as_u16 language_or_alphabet_not_supported = 58
cme_as_u16 unexpected_data_value = 59
cme_as_u16 system_failure = 60
cme_as_u16 data_missing = 61
cme_as_u16 call_barred = 62
cme_as_u16 message_waiting_indication_subscription_failure = 63
cme_as_u16 unknown = 100
cme_as_u16 imsi_unknown_in_hss = 102
cme_as_u16 illegal_ue = 103
cme_as_u16 imsi_unknown_in_vlr = 104
cme_as_u16 imei_not_accepted = 105
cme_as_u16 illegal_me = 106
cme_as_u16 ps_services_not_allowed = 107
cme_as_u16 ps_and_non_ps_services_not_allowed = 108
cme_as_u16 ue_identity_not_derived_from_network = 109
cme_as_u16 implicitly_detached = 110
cme_as_u16 plmn_not_allowed = 111
cme_as_u16 area_not_allowed = 112
cme_as_u16 roaming_not_allowed_in_area = 113
cme_as_u16 ps_services_not_allowed_in_plmn = 114
cme_as_u16 no_cells_in_area = 115
cme_as_u16 msc_temporarily_not_reachable = 116
cme_as_u16 network_failure_attach = 117
cme_as_u16 cs_domain_unavailable = 118
cme_as_u16 esm_failure = 119
cme_as_u16 congestion = 122
cme_as_u16 mbms_bearer_capabilities_insufficient_for_service = 124
cme_as_u16 not_authorized_for_csg = 125
cme_as_u16 insufficient_resources = 126
cme_as_u16 missing_or_unknown_apn = 127
cme_as_u16 unknown_pdp_address_or_type = 128
cme_as_u16 user_authentication_failed = 129
cme_as_u16 activation_rejected_by_ggsn_or_gw = 130
cme_as_u16 activation_rejected_unspecified = 131
cme_as_u16 service_option_not_supported = 132
cme_as_u16 service_option_not_subscribed = 133
cme_as_u16 service_option_out_of_order = 134
cme_as_u16 nsapi_or_pti_already_in_use = 135
cme_as_u16 regular_deactivation = 136
cme_as_u16 qos_not_accepted = 137
cme_as_u16 call_cannot_be_identified = 138
cme_as_u16 cs_service_temporarily_unavailable = 139
cme_as_u16 feature_not_supported = 140
cme_as_u16 semantic_error_in_tft_operation = 141
cme_as_u16 syntactical_error_in_tft_operation = 142
cme_as_u16 unknown_pdp_context = 143
cme_as_u16 semantic_errors_in_packet_filter = 144
cme_as_u16 syntactical_error_in_packet_filter = 145
cme_as_u16 pdp_context_without_tft_already_activated = 146
cme_as_u16 multicast_group_membership_timeout = 147
cme_as_u16 gprs_unknown = 148
cme_as_u16 pdp_auth_failure = 149
cme_as_u16 invalid_mobile_class = 150
cme_as_u16 last_pdn_disconnection_not_allowed_legacy = 151
cme_as_u16 last_pdn_disconnection_not_allowed = 171
cme_as_u16 semantically_incorrect_message = 172
cme_as_u16 invalid_mandatory_information = 173
cme_as_u16 message_type_not_implemented = 174
cme_as_u16 conditional_ie_error = 175
cme_as_u16 unspecified_protocol_error = 176
cme_as_u16 operator_determined_barring = 177
cme_as_u16 maximum_number_of_bearers_reached = 178
cme_as_u16 requested_apn_not_supported = 179
cme_as_u16 request_rejected_bcm_violation = 180
cme_as_u16 unsupported_qci_or5_qi_value = 181
cme_as_u16 user_data_via_control_plane_congested = 182
cme_as_u16 sms_provided_via_gprs_in_routing_area = 183
cme_as_u16 invalid_pti_value = 184
cme_as_u16 no_bearer_activated = 185
cme_as_u16 message_not_compatible_with_protocol_state = 186
cme_as_u16 recovery_on_timer_expiry = 187
cme_as_u16 invalid_transaction_id_value = 188
cme_as_u16 service_option_not_authorized_in_plmn = 189
cme_as_u16 network_failure_activation = 190
cme_as_u16 reactivation_requested = 191
cme_as_u16 ipv4_only_allowed = 192
cme_as_u16 ipv6_only_allowed = 193
cme_as_u16 single_address_bearers_only_allowed = 194
cme_as_u16 collision_with_network_initiated_request = 195
cme_as_u16 ipv4_v6_only_allowed = 196
cme_as_u16 non_ip_only_allowed = 197
cme_as_u16 bearer_handling_unsupported = 198
cme_as_u16 apn_restriction_incompatible = 199
cme_as_u16 multiple_access_to_pdn_connection_not_allowed = 200
cme_as_u16 esm_information_not_received = 201
cme_as_u16 pdn_connection_nonexistent = 202
cme_as_u16 multiple_pdn_connection_same_apn_not_allowed = 203
cme_as_u16 severe_network_failure = 204
cme_as_u16 insufficient_resources_for_slice_and_dnn = 205
cme_as_u16 unsupported_ssc_mode = 206
cme_as_u16 insufficient_resources_for_slice = 207
cme_as_u16 message_type_not_compatible_with_protocol_state = 208
cme_as_u16 ie_not_implemented = 209
cme_as_u16 n1_mode_not_allowed = 210
cme_as_u16 restricted_service_area = 211
cme_as_u16 ladn_unavailable = 212
cme_as_u16 missing_or_unknown_dnn_in_slice = 213
cme_as_u16 ngksi_already_in_use = 214
cme_as_u16 payload_not_forwarded = 215
cme_as_u16 non3_gpp_access_to5_gcn_not_allowed = 216
cme_as_u16 serving_network_not_authorized = 217
cme_as_u16 dnn_not_supported_in_slice = 218
cme_as_u16 insufficient_user_plane_resources_for_pdu_sessio = 219
cme_as_u16 out_of_ladn_service_area = 220
cme_as_u16 pti_mismatch = 221
cme_as_u16 max_data_rate_for_user_plane_integrity_too_low = 222
cme_as_u16 semantic_error_in_qos_operation = 223
cme_as_u16 syntactical_error_in_qos_operation = 224
cme_as_u16 invalid_mapped_eps_bearer_identity = 225
cme_as_u16 redirection_to5_gcn_required = 226
cme_as_u16 redirection_to_epc_required = 227
cme_as_u16 temporarily_unauthorized_for_snpn = 228
cme_as_u16 permanently_unauthorized_for_snpn = 229
cme_as_u16 ethernet_only_allowed = 230
cme_as_u16 unauthorized_for_cag = 231
cme_as_u16 no_network_slices_available = 232
cme_as_u16 wireline_access_area_not_allowed = 233

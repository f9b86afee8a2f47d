-- ===== src/Error/Cme/From.antt =====
-- `impl From<u16> for CmeError` of atat/src/error/cme_error.rs.
use atat.Base.{ℕ, ◌≡◌, refl, ◌⊎◌, List, [], ◌∷◌, arith}
use atat.Error.Table.{find_code, MatchesCodes, find_code-MatchesCodes}
use atat.Error.Cme.{CmeError, cme_as_u16}

-- The arms of the `match`, in order.
abbrev cme_codes : List (ℕ × CmeError)
cme_codes =
    (0, CmeError.phone_failure)
    ∷ (1, CmeError.no_connection)
    ∷ (2, CmeError.link_reserved)
    ∷ (3, CmeError.not_allowed)
    ∷ (4, CmeError.not_supported)
    ∷ (5, CmeError.ph_sim_pin)
    ∷ (6, CmeError.ph_fsim_pin)
    ∷ (7, CmeError.ph_fsim_puk)
    ∷ (10, CmeError.sim_not_inserted)
    ∷ (11, CmeError.sim_pin)
    ∷ (12, CmeError.sim_puk)
    ∷ (13, CmeError.sim_failure)
    ∷ (14, CmeError.sim_busy)
    ∷ (15, CmeError.sim_wrong)
    ∷ (16, CmeError.incorrect_password)
    ∷ (17, CmeError.sim_pin2)
    ∷ (18, CmeError.sim_puk2)
    ∷ (20, CmeError.memory_full)
    ∷ (21, CmeError.invalid_index)
    ∷ (22, CmeError.not_found)
    ∷ (23, CmeError.memory_failure)
    ∷ (24, CmeError.text_too_long)
    ∷ (25, CmeError.invalid_chars)
    ∷ (26, CmeError.dial_string_too_long)
    ∷ (27, CmeError.dial_string_invalid)
    ∷ (30, CmeError.no_network)
    ∷ (31, CmeError.network_timeout)
    ∷ (32, CmeError.network_not_allowed)
    ∷ (40, CmeError.network_pin)
    ∷ (41, CmeError.network_puk)
    ∷ (42, CmeError.network_subset_pin)
    ∷ (43, CmeError.network_subset_puk)
    ∷ (44, CmeError.service_pin)
    ∷ (45, CmeError.service_puk)
    ∷ (46, CmeError.corp_pin)
    ∷ (47, CmeError.corp_puk)
    ∷ (48, CmeError.hidden_key_required)
    ∷ (49, CmeError.eap_method_not_supported)
    ∷ (50, CmeError.incorrect_parameters)
    ∷ (51, CmeError.command_disabled)
    ∷ (52, CmeError.command_aborted)
    ∷ (53, CmeError.not_attached_restricted)
    ∷ (54, CmeError.not_allowed_emergency_only)
    ∷ (55, CmeError.not_allowed_restricted)
    ∷ (56, CmeError.fixed_dial_number_only)
    ∷ (57, CmeError.temporarily_out_of_service)
    ∷ (58, CmeError.language_or_alphabet_not_supported)
    ∷ (59, CmeError.unexpected_data_value)
    ∷ (60, CmeError.system_failure)
    ∷ (61, CmeError.data_missing)
    ∷ (62, CmeError.call_barred)
    ∷ (63, CmeError.message_waiting_indication_subscription_failure)
    ∷ (102, CmeError.imsi_unknown_in_hss)
    ∷ (103, CmeError.illegal_ue)
    ∷ (104, CmeError.imsi_unknown_in_vlr)
    ∷ (105, CmeError.imei_not_accepted)
    ∷ (106, CmeError.illegal_me)
    ∷ (107, CmeError.ps_services_not_allowed)
    ∷ (108, CmeError.ps_and_non_ps_services_not_allowed)
    ∷ (109, CmeError.ue_identity_not_derived_from_network)
    ∷ (110, CmeError.implicitly_detached)
    ∷ (111, CmeError.plmn_not_allowed)
    ∷ (112, CmeError.area_not_allowed)
    ∷ (113, CmeError.roaming_not_allowed_in_area)
    ∷ (114, CmeError.ps_services_not_allowed_in_plmn)
    ∷ (115, CmeError.no_cells_in_area)
    ∷ (116, CmeError.msc_temporarily_not_reachable)
    ∷ (117, CmeError.network_failure_attach)
    ∷ (118, CmeError.cs_domain_unavailable)
    ∷ (119, CmeError.esm_failure)
    ∷ (122, CmeError.congestion)
    ∷ (124, CmeError.mbms_bearer_capabilities_insufficient_for_service)
    ∷ (125, CmeError.not_authorized_for_csg)
    ∷ (126, CmeError.insufficient_resources)
    ∷ (127, CmeError.missing_or_unknown_apn)
    ∷ (128, CmeError.unknown_pdp_address_or_type)
    ∷ (129, CmeError.user_authentication_failed)
    ∷ (130, CmeError.activation_rejected_by_ggsn_or_gw)
    ∷ (131, CmeError.activation_rejected_unspecified)
    ∷ (132, CmeError.service_option_not_supported)
    ∷ (133, CmeError.service_option_not_subscribed)
    ∷ (134, CmeError.service_option_out_of_order)
    ∷ (135, CmeError.nsapi_or_pti_already_in_use)
    ∷ (136, CmeError.regular_deactivation)
    ∷ (137, CmeError.qos_not_accepted)
    ∷ (138, CmeError.call_cannot_be_identified)
    ∷ (139, CmeError.cs_service_temporarily_unavailable)
    ∷ (140, CmeError.feature_not_supported)
    ∷ (141, CmeError.semantic_error_in_tft_operation)
    ∷ (142, CmeError.syntactical_error_in_tft_operation)
    ∷ (143, CmeError.unknown_pdp_context)
    ∷ (144, CmeError.semantic_errors_in_packet_filter)
    ∷ (145, CmeError.syntactical_error_in_packet_filter)
    ∷ (146, CmeError.pdp_context_without_tft_already_activated)
    ∷ (147, CmeError.multicast_group_membership_timeout)
    ∷ (148, CmeError.gprs_unknown)
    ∷ (149, CmeError.pdp_auth_failure)
    ∷ (150, CmeError.invalid_mobile_class)
    ∷ (151, CmeError.last_pdn_disconnection_not_allowed_legacy)
    ∷ (171, CmeError.last_pdn_disconnection_not_allowed)
    ∷ (172, CmeError.semantically_incorrect_message)
    ∷ (173, CmeError.invalid_mandatory_information)
    ∷ (174, CmeError.message_type_not_implemented)
    ∷ (175, CmeError.conditional_ie_error)
    ∷ (176, CmeError.unspecified_protocol_error)
    ∷ (177, CmeError.operator_determined_barring)
    ∷ (178, CmeError.maximum_number_of_bearers_reached)
    ∷ (179, CmeError.requested_apn_not_supported)
    ∷ (180, CmeError.request_rejected_bcm_violation)
    ∷ (181, CmeError.unsupported_qci_or5_qi_value)
    ∷ (182, CmeError.user_data_via_control_plane_congested)
    ∷ (183, CmeError.sms_provided_via_gprs_in_routing_area)
    ∷ (184, CmeError.invalid_pti_value)
    ∷ (185, CmeError.no_bearer_activated)
    ∷ (186, CmeError.message_not_compatible_with_protocol_state)
    ∷ (187, CmeError.recovery_on_timer_expiry)
    ∷ (188, CmeError.invalid_transaction_id_value)
    ∷ (189, CmeError.service_option_not_authorized_in_plmn)
    ∷ (190, CmeError.network_failure_activation)
    ∷ (191, CmeError.reactivation_requested)
    ∷ (192, CmeError.ipv4_only_allowed)
    ∷ (193, CmeError.ipv6_only_allowed)
    ∷ (194, CmeError.single_address_bearers_only_allowed)
    ∷ (195, CmeError.collision_with_network_initiated_request)
    ∷ (196, CmeError.ipv4_v6_only_allowed)
    ∷ (197, CmeError.non_ip_only_allowed)
    ∷ (198, CmeError.bearer_handling_unsupported)
    ∷ (199, CmeError.apn_restriction_incompatible)
    ∷ (200, CmeError.multiple_access_to_pdn_connection_not_allowed)
    ∷ (201, CmeError.esm_information_not_received)
    ∷ (202, CmeError.pdn_connection_nonexistent)
    ∷ (203, CmeError.multiple_pdn_connection_same_apn_not_allowed)
    ∷ (204, CmeError.severe_network_failure)
    ∷ (205, CmeError.insufficient_resources_for_slice_and_dnn)
    ∷ (206, CmeError.unsupported_ssc_mode)
    ∷ (207, CmeError.insufficient_resources_for_slice)
    ∷ (208, CmeError.message_type_not_compatible_with_protocol_state)
    ∷ (209, CmeError.ie_not_implemented)
    ∷ (210, CmeError.n1_mode_not_allowed)
    ∷ (211, CmeError.restricted_service_area)
    ∷ (212, CmeError.ladn_unavailable)
    ∷ (213, CmeError.missing_or_unknown_dnn_in_slice)
    ∷ (214, CmeError.ngksi_already_in_use)
    ∷ (215, CmeError.payload_not_forwarded)
    ∷ (216, CmeError.non3_gpp_access_to5_gcn_not_allowed)
    ∷ (217, CmeError.serving_network_not_authorized)
    ∷ (218, CmeError.dnn_not_supported_in_slice)
    ∷ (219, CmeError.insufficient_user_plane_resources_for_pdu_sessio)
    ∷ (220, CmeError.out_of_ladn_service_area)
    ∷ (221, CmeError.pti_mismatch)
    ∷ (222, CmeError.max_data_rate_for_user_plane_integrity_too_low)
    ∷ (223, CmeError.semantic_error_in_qos_operation)
    ∷ (224, CmeError.syntactical_error_in_qos_operation)
    ∷ (225, CmeError.invalid_mapped_eps_bearer_identity)
    ∷ (226, CmeError.redirection_to5_gcn_required)
    ∷ (227, CmeError.redirection_to_epc_required)
    ∷ (228, CmeError.temporarily_unauthorized_for_snpn)
    ∷ (229, CmeError.permanently_unauthorized_for_snpn)
    ∷ (230, CmeError.ethernet_only_allowed)
    ∷ (231, CmeError.unauthorized_for_cag)
    ∷ (232, CmeError.no_network_slices_available)
    ∷ (233, CmeError.wireline_access_area_not_allowed)
    ∷ []

unfoldable pub cme_from : ℕ → CmeError
unfolding find_code
cme_from v = find_code CmeError.unknown cme_codes v

-- Every `CmeError` is read back from its number.
pub cme_from-cme_as_u16 : (e : CmeError) → cme_from (cme_as_u16 e) ≡ e
unfolding cme_from cme_as_u16
cme_from-cme_as_u16 CmeError.phone_failure = refl
cme_from-cme_as_u16 _ = refl

cme_codes_match : MatchesCodes cme_as_u16 cme_codes
unfolding cme_as_u16
cme_codes_match = omega arith

-- Every number is that of the `CmeError` it is read as, or is read as `Unknown`.
pub cme_as_u16-cme_from : (v : ℕ) → (cme_as_u16 (cme_from v) ≡ v) ⊎ (cme_from v ≡ CmeError.unknown)
unfolding cme_from
cme_as_u16-cme_from v =
    find_code-MatchesCodes CmeError.unknown cme_as_u16 cme_codes cme_codes_match v

-- ===== src/Error/Cms/Text.antt =====
-- The texts of CmsError (atat/src/error/cms_error.rs): `Display`, and `from_msg` of the feature
-- `string_errors`.
use atat.Base.{◌≡◌, refl, ◌⊎◌, List, [], ◌∷◌, Bytes, codes}
use atat.Error.Table.{find_text, MatchesTexts, find_text-MatchesTexts}
use atat.Error.Cms.{CmsError}

-- What `Display` writes.
unfoldable pub cms_display : CmsError → Bytes
cms_display CmsError.me_failure = codes "ME failure"
cms_display CmsError.sms_service_reserved = codes "SMS service reserved"
cms_display CmsError.not_allowed = codes "Operation not allowed"
cms_display CmsError.not_supported = codes "Operation not supported"
cms_display CmsError.invalid_pdu_parameter = codes "Invalid PDU mode parameter"
cms_display CmsError.invalid_text_parameter = codes "Invalid text mode parameter"
cms_display CmsError.sim_not_inserted = codes "SIM not inserted"
cms_display CmsError.sim_pin = codes "SIM PIN required"
cms_display CmsError.ph_sim_pin = codes "PH-SIM PIN required"
cms_display CmsError.sim_failure = codes "SIM failure"
cms_display CmsError.sim_busy = codes "SIM busy"
cms_display CmsError.sim_wrong = codes "SIM wrong"
cms_display CmsError.sim_puk = codes "SIM PUK required"
cms_display CmsError.sim_pin2 = codes "SIM PIN2 required"
cms_display CmsError.sim_puk2 = codes "SIM PUK2 required"
cms_display CmsError.memory_failure = codes "Memory failure"
cms_display CmsError.invalid_index = codes "Invalid index"
cms_display CmsError.memory_full = codes "Memory full"
cms_display CmsError.smsc_address_unknown = codes "SMSC address unknown"
cms_display CmsError.no_network = codes "No network"
cms_display CmsError.network_timeout = codes "Network timeout"
cms_display CmsError.no_cnma_ack_expected = codes "No CNMA acknowledgement expected"
cms_display CmsError.unknown = codes "Unknown"

-- The arms of `from_msg`, in order.
abbrev cms_messages : List (Bytes × CmsError)
cms_messages =
    (codes "ME failure", CmsError.me_failure)
    ∷ (codes "SMS service reserved", CmsError.sms_service_reserved)
    ∷ (codes "Operation not allowed", CmsError.not_allowed)
    ∷ (codes "Operation not supported", CmsError.not_supported)
    ∷ (codes "Invalid PDU mode parameter", CmsError.invalid_pdu_parameter)
    ∷ (codes "Invalid text mode parameter", CmsError.invalid_text_parameter)
    ∷ (codes "SIM not inserted", CmsError.sim_not_inserted)
    ∷ (codes "SIM PIN required", CmsError.sim_pin)
    ∷ (codes "SIM failure", CmsError.sim_failure)
    ∷ (codes "SIM busy", CmsError.sim_busy)
    ∷ (codes "SIM wrong", CmsError.sim_wrong)
    ∷ (codes "SIM PUK required", CmsError.sim_puk)
    ∷ (codes "Memory failure", CmsError.memory_failure)
    ∷ (codes "Invalid index", CmsError.invalid_index)
    ∷ (codes "Memory full", CmsError.memory_full)
    ∷ (codes "SMSC address unknown", CmsError.smsc_address_unknown)
    ∷ (codes "No network", CmsError.no_network)
    ∷ (codes "Network timeout", CmsError.network_timeout)
    ∷ []

unfoldable pub cms_from_msg : Bytes → CmsError
unfolding find_text
cms_from_msg s = find_text CmsError.unknown cms_messages s

cms_messages_match : MatchesTexts cms_display cms_messages
unfolding cms_display
cms_messages_match = (
  refl,
  (
    refl,
    (
      refl,
      (
        refl,
        (
          refl,
          (
            refl,
            (
              refl,
              (
                refl,
                (refl, (refl, (refl, (refl, (refl, (refl, (refl, (refl, (refl, (refl, tt)))))))))),
              ),
            ),
          ),
        ),
      ),
    ),
  ),
)

-- A text that `CmsError::from_msg` reads as an error is the text that `Display` writes for it, or it
-- is read as `Unknown`.
pub cms_display-cms_from_msg :
    (s : Bytes) → (cms_display (cms_from_msg s) ≡ s) ⊎ (cms_from_msg s ≡ CmsError.unknown)
unfolding cms_from_msg
cms_display-cms_from_msg s =
    find_text-MatchesTexts CmsError.unknown cms_display cms_messages cms_messages_match s

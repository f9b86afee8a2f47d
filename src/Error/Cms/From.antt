-- ===== src/Error/Cms/From.antt =====
-- `impl From<u16> for CmsError` of atat/src/error/cms_error.rs.
use atat.Base.{ℕ, ◌≡◌, refl, ◌⊎◌, List, [], ◌∷◌, arith}
use atat.Error.Table.{find_code, MatchesCodes, find_code-MatchesCodes}
use atat.Error.Cms.{CmsError, cms_as_u16}

-- The arms of the `match`, in order.
abbrev cms_codes : List (ℕ × CmsError)
cms_codes =
    (300, CmsError.me_failure)
    ∷ (301, CmsError.sms_service_reserved)
    ∷ (302, CmsError.not_allowed)
    ∷ (303, CmsError.not_supported)
    ∷ (304, CmsError.invalid_pdu_parameter)
    ∷ (305, CmsError.invalid_text_parameter)
    ∷ (310, CmsError.sim_not_inserted)
    ∷ (311, CmsError.sim_pin)
    ∷ (312, CmsError.ph_sim_pin)
    ∷ (313, CmsError.sim_failure)
    ∷ (314, CmsError.sim_busy)
    ∷ (315, CmsError.sim_wrong)
    ∷ (316, CmsError.sim_puk)
    ∷ (317, CmsError.sim_pin2)
    ∷ (318, CmsError.sim_puk2)
    ∷ (320, CmsError.memory_failure)
    ∷ (321, CmsError.invalid_index)
    ∷ (322, CmsError.memory_full)
    ∷ (330, CmsError.smsc_address_unknown)
    ∷ (331, CmsError.no_network)
    ∷ (332, CmsError.network_timeout)
    ∷ (340, CmsError.no_cnma_ack_expected)
    ∷ []

unfoldable pub cms_from : ℕ → CmsError
unfolding find_code
cms_from v = find_code CmsError.unknown cms_codes v

-- Every `CmsError` is read back from its number.
pub cms_from-cms_as_u16 : (e : CmsError) → cms_from (cms_as_u16 e) ≡ e
unfolding cms_from cms_as_u16
cms_from-cms_as_u16 CmsError.me_failure = refl
cms_from-cms_as_u16 _ = refl

cms_codes_match : MatchesCodes cms_as_u16 cms_codes
unfolding cms_as_u16
cms_codes_match = omega arith

-- Every number is that of the `CmsError` it is read as, or is read as `Unknown`.
pub cms_as_u16-cms_from : (v : ℕ) → (cms_as_u16 (cms_from v) ≡ v) ⊎ (cms_from v ≡ CmsError.unknown)
unfolding cms_from
cms_as_u16-cms_from v =
    find_code-MatchesCodes CmsError.unknown cms_as_u16 cms_codes cms_codes_match v

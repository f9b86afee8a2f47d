-- ===== src/Error/Cms.antt =====
-- `CmsError` of atat/src/error/cms_error.rs: the enumeration and its numbers (`as u16`). The child modules
-- have `From<u16>` and the texts.
pub mod From
pub mod Text
use atat.Base.{ℕ}

pub data CmsError : Type 0 where
  me_failure sms_service_reserved not_allowed not_supported invalid_pdu_parameter : CmsError
  invalid_text_parameter sim_not_inserted sim_pin ph_sim_pin sim_failure sim_busy : CmsError
  sim_wrong sim_puk sim_pin2 sim_puk2 memory_failure invalid_index memory_full : CmsError
  smsc_address_unknown no_network network_timeout no_cnma_ack_expected unknown : CmsError

-- The discriminant, `e as u16`.
unfoldable pub cms_as_u16 : CmsError → ℕ
cms_as_u16 me_failure = 300
cms_as_u16 sms_service_reserved = 301
cms_as_u16 not_allowed = 302
cms_as_u16 not_supported = 303
cms_as_u16 invalid_pdu_parameter = 304
cms_as_u16 invalid_text_parameter = 305
cms_as_u16 sim_not_inserted = 310
cms_as_u16 sim_pin = 311
cms_as_u16 ph_sim_pin = 312
cms_as_u16 sim_failure = 313
cms_as_u16 sim_busy = 314
cms_as_u16 sim_wrong = 315
cms_as_u16 sim_puk = 316
cms_as_u16 sim_pin2 = 317
cms_as_u16 sim_puk2 = 318
cms_as_u16 memory_failure = 320
cms_as_u16 invalid_index = 321
cms_as_u16 memory_full = 322
cms_as_u16 smsc_address_unknown = 330
cms_as_u16 no_network = 331
cms_as_u16 network_timeout = 332
cms_as_u16 no_cnma_ack_expected = 340
cms_as_u16 unknown = 500

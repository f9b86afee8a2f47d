-- ===== src/Error/Tests.antt =====
-- The device's error numbers and texts of atat/src/error/ at inputs.
use atat.Base.{◌≡◌, ◌⊎◌, codes}
use atat.Error.Cme.{CmeError, cme_as_u16}
use atat.Error.Cme.From.{cme_from, cme_from-cme_as_u16, cme_as_u16-cme_from}
use atat.Error.Cme.Text.{cme_display, cme_from_msg, cme_display-cme_from_msg}
use atat.Error.Cms.{CmsError, cms_as_u16}
use atat.Error.Cms.From.{cms_from, cms_from-cms_as_u16, cms_as_u16-cms_from}
use atat.Error.Cms.Text.{cms_display, cms_from_msg, cms_display-cms_from_msg}
use atat.Error.Connection.{
  ConnectionError, connection_as_u8, connection_from, connection_from-connection_as_u8,
}

cme_from-cme_as_u16_example : cme_from (cme_as_u16 CmeError.sim_pin) ≡ CmeError.sim_pin
cme_from-cme_as_u16_example = cme_from-cme_as_u16 CmeError.sim_pin

plmn_number : (cme_as_u16 (cme_from 11) ≡ 11) ⊎ (cme_from 11 ≡ CmeError.unknown)
plmn_number = cme_as_u16-cme_from 11

sim_pin_code : cms_from (cms_as_u16 CmsError.sim_pin) ≡ CmsError.sim_pin
sim_pin_code = cms_from-cms_as_u16 CmsError.sim_pin

pin2_number : (cms_as_u16 (cms_from 311) ≡ 311) ⊎ (cms_from 311 ≡ CmsError.unknown)
pin2_number = cms_as_u16-cms_from 311

cme_busy_text :
    (cme_display (cme_from_msg (codes "SIM busy")) ≡ codes "SIM busy")
    ⊎ (cme_from_msg (codes "SIM busy") ≡ CmeError.unknown)
cme_busy_text = cme_display-cme_from_msg (codes "SIM busy")

cms_busy_text :
    (cms_display (cms_from_msg (codes "SIM busy")) ≡ codes "SIM busy")
    ⊎ (cms_from_msg (codes "SIM busy") ≡ CmsError.unknown)
cms_busy_text = cms_display-cms_from_msg (codes "SIM busy")

busy_code : connection_from (connection_as_u8 ConnectionError.busy) ≡ ConnectionError.busy
busy_code = connection_from-connection_as_u8 ConnectionError.busy

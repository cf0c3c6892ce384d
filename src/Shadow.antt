-- ===== src/Shadow.antt =====
-- class ShadowValue and the memory state machine of class Detector, tsan/thread_sanitizer.cc.
pub mod Machine
pub mod FastPath
use data_race_test.Prelude.{Bool, ◌&&◌, ℤ, pos, eq_ℤ}

-- The sets of the last readers and the last writers, as SSIDs.
pub record ShadowValue : Type 0 where
  pub rd_ssid : ℤ
  pub wr_ssid : ℤ

abbrev pub new_value : ShadowValue
new_value = record { rd_ssid = pos 0; wr_ssid = pos 0 }

-- IsNew
unfoldable pub is_new : ShadowValue → Bool
is_new v = eq_ℤ v.rd_ssid (pos 0) && eq_ℤ v.wr_ssid (pos 0)

-- operator==
unfoldable pub same_value : ShadowValue → ShadowValue → Bool
same_value v w = eq_ℤ v.rd_ssid w.rd_ssid && eq_ℤ v.wr_ssid w.wr_ssid

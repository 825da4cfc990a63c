-- ===== src/MessageType.antt =====
-- `MessageType` of xcesp_l2tpv3d/avp.py: an `IntEnum`, so its members are numbers.
use xcesp_l2tpv3d.Common.{ℕ}

abbrev pub sccrq : ℕ
sccrq = 1

abbrev pub sccrp : ℕ
sccrp = 2

abbrev pub scccn : ℕ
scccn = 3

abbrev pub stop_ccn : ℕ
stop_ccn = 4

abbrev pub hello : ℕ
hello = 6

abbrev pub icrq : ℕ
icrq = 10

abbrev pub icrp : ℕ
icrp = 11

abbrev pub iccn : ℕ
iccn = 12

abbrev pub cdn : ℕ
cdn = 14

abbrev pub wen : ℕ
wen = 15

abbrev pub sli : ℕ
sli = 16

-- ===== src/SessionMessage/Errors.antt =====
-- The parsers of messages raise nothing but `ValueError`, whatever AVPs they are given.
use xcesp_l2tpv3d.Common.{Option, none, some}
use xcesp_l2tpv3d.Common.{List}
use xcesp_l2tpv3d.Exception.{Safe}
use xcesp_l2tpv3d.Avp.{Avp}
use xcesp_l2tpv3d.Attribute.Errors.{decode_remote_session_id-Safe}
use xcesp_l2tpv3d.TunnelMessage.Errors.{parser_rules}
use xcesp_l2tpv3d.SessionMessage.{remote_sid_of, parse_session_fields, parse_cdn_fields}

remote_sid_of-Safe : (o : Option Avp) → Safe (remote_sid_of o)
remote_sid_of-Safe none = record { only = tt }
remote_sid_of-Safe (some a) = decode_remote_session_id-Safe a

pub parse_session_fields-Safe : (avps : List Avp) → Safe (parse_session_fields avps)
unfolding parse_session_fields
parse_session_fields-Safe avps = search (parser_rules, remote_sid_of-Safe) depth 16

pub parse_cdn_fields-Safe : (avps : List Avp) → Safe (parse_cdn_fields avps)
unfolding parse_cdn_fields
parse_cdn_fields-Safe avps = search (parser_rules, remote_sid_of-Safe) depth 16

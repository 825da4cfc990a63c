-- ===== src/TunnelMessage/Errors.antt =====
-- The parsers of tunnel-level messages raise nothing but `ValueError`, whatever AVPs they are given.
use xcesp_l2tpv3d.Common.{ℕ, ◌≡◌, refl, Option, none, some, true, arith}
use xcesp_l2tpv3d.Common.{List}
use xcesp_l2tpv3d.Exception.{
  Error, Result, ok, err, ◌>>=◌, is_value_error, OnlyValueError, Safe, Safe-ok, Safe-bind,
  missing_router_id,
}
use xcesp_l2tpv3d.Avp.{Avp}
use xcesp_l2tpv3d.Attribute.Errors.{decoder_rules}
use xcesp_l2tpv3d.TunnelMessage.{
  required, optional_field, parse_sccrx_fields, parse_stopccn_fields, get_message_type,
}

pub required-Safe : (o : Option Avp) (e : Error) → is_value_error e ≡ true → Safe (required o e)
required-Safe none e h = record { only = h }
required-Safe (some a) e h = record { only = tt }

pub optional_field-Safe {ℓ} :
    {V : Type ℓ} (decode : Avp → Result V) (o : Option Avp)
    → ((a : Avp) → Safe (decode a))
    → Safe (optional_field decode o)
optional_field-Safe decode none h = record { only = tt }
optional_field-Safe decode (some a) h = Safe-bind (decode a) _ (h a) (λ v. record { only = tt })

pub ruleset parser_rules =
    (Safe-ok, Safe-bind, required-Safe, optional_field-Safe, decoder_rules, refl)

pub parse_sccrx_fields-Safe : (avps : List Avp) → Safe (parse_sccrx_fields avps)
unfolding parse_sccrx_fields
parse_sccrx_fields-Safe avps = search parser_rules depth 14

pub parse_stopccn_fields-Safe : (avps : List Avp) → Safe (parse_stopccn_fields avps)
unfolding parse_stopccn_fields
parse_stopccn_fields-Safe avps = search parser_rules depth 14

pub get_message_type-Safe : (avps : List Avp) → Safe (get_message_type avps)
unfolding get_message_type
get_message_type-Safe avps = search parser_rules depth 14

-- ===== src/SessionMessage/Call.antt =====
-- The mandatory AVPs that ICRP and ICCN share, and what the session parser reads of a message that
-- has them.
use xcesp_l2tpv3d.Common.{ℕ, ◌≡◌, refl, ap, ◌∙◌, true, false, Option, none, some}
use xcesp_l2tpv3d.Common.{List, [], ◌∷◌}
use xcesp_l2tpv3d.Exception.{ok}
use xcesp_l2tpv3d.Struct.{Bytes}
use xcesp_l2tpv3d.Avp.{Avp, find_avp}
use xcesp_l2tpv3d.AttrType
use xcesp_l2tpv3d.Attribute.Build.{ietf_avp}
use xcesp_l2tpv3d.Attribute.Decode.{
  decode_message_type, decode_local_session_id, decode_remote_session_id,
  decode_l2_specific_sublayer, decode_data_sequencing, decode_circuit_status,
  decode_assigned_cookie, decode_tx_connect_speed, decode_rx_connect_speed,
}
use xcesp_l2tpv3d.Attribute.RoundTrip.{Reads}
use xcesp_l2tpv3d.TunnelMessage.{find_ietf, optional_field, get_message_type}
use xcesp_l2tpv3d.SessionMessage.{CallArgs, parse_session_fields}
use xcesp_l2tpv3d.SessionMessage.Tail.{is_tail}

-- Six AVPs that the builders made for these numbers.
pub record Call (kind local_sid remote_sid : ℕ) (args : CallArgs) : Type 0 where
  pub mt : Avp
  pub local : Avp
  pub remote : Avp
  pub l2s : Avp
  pub ds : Avp
  pub cs : Avp
  pub mt_read : Reads AttrType.message_type decode_message_type kind mt
  pub local_read : Reads AttrType.local_session_id decode_local_session_id local_sid local
  pub remote_read : Reads AttrType.remote_session_id decode_remote_session_id remote_sid remote
  pub l2s_read :
      Reads AttrType.l2_specific_sublayer decode_l2_specific_sublayer args.l2_specific_sublayer l2s
  pub ds_read : Reads AttrType.data_sequencing decode_data_sequencing args.data_sequencing ds
  pub cs_read : Reads AttrType.circuit_status decode_circuit_status args.circuit_status cs

module _ {kind local_sid remote_sid : ℕ} {args : CallArgs}
    (call : Call kind local_sid remote_sid args) where
  abbrev pub mandatory : List Avp
  mandatory = call.mt ∷ call.local ∷ call.remote ∷ call.l2s ∷ call.ds ∷ call.cs ∷ []

  abbrev shaped : List Avp
  shaped =
      ietf_avp AttrType.message_type call.mt.value true
      ∷ ietf_avp AttrType.local_session_id call.local.value true
      ∷ ietf_avp AttrType.remote_session_id call.remote.value true
      ∷ ietf_avp AttrType.l2_specific_sublayer call.l2s.value true
      ∷ ietf_avp AttrType.data_sequencing call.ds.value true
      ∷ ietf_avp AttrType.circuit_status call.cs.value true
      ∷ []

  mandatory-shaped : mandatory ≡ shaped
  mandatory-shaped = cc (
    call.mt_read.shape, call.local_read.shape, call.remote_read.shape, call.l2s_read.shape,
    call.ds_read.shape, call.cs_read.shape,
  )

  finds : (t : ℕ) → find_ietf mandatory t ≡ find_ietf shaped t
  finds t = ap (λ l. find_ietf l t) mandatory-shaped

  -- None of the optional attributes is among them.
  pub no_cookie : find_ietf mandatory AttrType.assigned_cookie ≡ none
  unfolding find_avp
  no_cookie = finds AttrType.assigned_cookie

  pub no_tx : find_ietf mandatory AttrType.tx_connect_speed ≡ none
  unfolding find_avp
  no_tx = finds AttrType.tx_connect_speed

  pub no_rx : find_ietf mandatory AttrType.rx_connect_speed ≡ none
  unfolding find_avp
  no_rx = finds AttrType.rx_connect_speed

  -- A message that has them, and cookie and speeds behind them.
  pub parse_session_fields-call :
      (out : List Avp) (cookie : Option Bytes) (tx rx : Option ℕ)
      → ((t : ℕ) → is_tail t ≡ false → find_ietf out t ≡ find_ietf mandatory t)
      → optional_field decode_assigned_cookie (find_ietf out AttrType.assigned_cookie) ≡ ok cookie
      → optional_field decode_tx_connect_speed (find_ietf out AttrType.tx_connect_speed) ≡ ok tx
      → optional_field decode_rx_connect_speed (find_ietf out AttrType.rx_connect_speed) ≡ ok rx
      → (parse_session_fields out
          ≡ ok (record {
            local_sid = local_sid;
            remote_sid = remote_sid;
            pseudowire_type = none;
            l2_specific_sublayer = some args.l2_specific_sublayer;
            data_sequencing = some args.data_sequencing;
            circuit_status = some args.circuit_status;
            assigned_cookie = cookie;
            remote_end_id = none;
            tx_connect_speed = tx;
            rx_connect_speed = rx;
          }))
        × (get_message_type out ≡ ok (some kind))
  unfolding parse_session_fields find_avp get_message_type
  parse_session_fields-call out cookie tx rx keeps cookie_reads tx_reads rx_reads =
      let found = λ (t : ℕ) (n : is_tail t ≡ false). keeps t n ∙ finds t in
      (
        rw
            (
              found AttrType.local_session_id refl,
              found AttrType.remote_session_id refl,
              found AttrType.pseudowire_type refl,
              found AttrType.l2_specific_sublayer refl,
              found AttrType.data_sequencing refl,
              found AttrType.circuit_status refl,
              found AttrType.remote_end_id refl,
              call.local_read.reads,
              call.remote_read.reads,
              call.l2s_read.reads,
              call.ds_read.reads,
              call.cs_read.reads,
              cookie_reads,
              tx_reads,
              rx_reads,
            )
            refl,
        rw (found AttrType.message_type refl, call.mt_read.reads) refl,
      )

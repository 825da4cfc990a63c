-- ===== src/SessionMessage/Icrq.antt =====
-- The parser reads back what the builder of ICRQ was given.
use xcesp_l2tpv3d.Common.{ℕ, ◌≡◌, refl, ap, ◌∙◌, true, false, Option, some}
use xcesp_l2tpv3d.Common.{List, [], ◌∷◌, ◌==◌}
use xcesp_l2tpv3d.Exception.{ok, >>=-eq-ok}
use xcesp_l2tpv3d.Struct.{Bytes}
use xcesp_l2tpv3d.Avp.{Avp, find_avp}
use xcesp_l2tpv3d.AttrType
use xcesp_l2tpv3d.MessageType
use xcesp_l2tpv3d.Attribute.Build.{
  ietf_avp, build_message_type, build_local_session_id, build_remote_session_id,
  build_pseudowire_type, build_l2_specific_sublayer, build_data_sequencing, build_circuit_status,
  build_remote_end_id,
}
use xcesp_l2tpv3d.Attribute.Decode.{
  decode_message_type, decode_local_session_id, decode_remote_session_id, decode_pseudowire_type,
  decode_l2_specific_sublayer, decode_data_sequencing, decode_circuit_status,
  decode_assigned_cookie, decode_remote_end_id, decode_tx_connect_speed, decode_rx_connect_speed,
}
use xcesp_l2tpv3d.Attribute.RoundTrip.{
  Reads, message_type_read, local_session_id_read, remote_session_id_read, pseudowire_type_read,
  l2_specific_sublayer_read, data_sequencing_read, circuit_status_read,
}
use xcesp_l2tpv3d.TunnelMessage.{append_optional, find_ietf, optional_field, get_message_type}
use xcesp_l2tpv3d.SessionMessage.{CallArgs, build_icrq_avps, parse_session_fields}
use xcesp_l2tpv3d.SessionMessage.Find.{remote_end_id_ne, remote_end_id_self}
use xcesp_l2tpv3d.SessionMessage.Tail.{is_tail, append_tail-TailRead}

-- The mandatory AVPs that the builders made of an ICRQ, and what is read of a message that has them.
module _ {local_sid remote_sid pseudowire_type sublayer sequencing status : ℕ}
    (mt local remote pw l2s ds cs : Avp)
    (r_mt : Reads AttrType.message_type decode_message_type MessageType.icrq mt)
    (r_local : Reads AttrType.local_session_id decode_local_session_id local_sid local)
    (r_remote : Reads AttrType.remote_session_id decode_remote_session_id remote_sid remote)
    (r_pw : Reads AttrType.pseudowire_type decode_pseudowire_type pseudowire_type pw)
    (r_l2s : Reads AttrType.l2_specific_sublayer decode_l2_specific_sublayer sublayer l2s)
    (r_ds : Reads AttrType.data_sequencing decode_data_sequencing sequencing ds)
    (r_cs : Reads AttrType.circuit_status decode_circuit_status status cs) where
  abbrev shaped : List Avp
  shaped =
      ietf_avp AttrType.message_type mt.value true
      ∷ ietf_avp AttrType.local_session_id local.value true
      ∷ ietf_avp AttrType.remote_session_id remote.value true
      ∷ ietf_avp AttrType.pseudowire_type pw.value true
      ∷ ietf_avp AttrType.l2_specific_sublayer l2s.value true
      ∷ ietf_avp AttrType.data_sequencing ds.value true
      ∷ ietf_avp AttrType.circuit_status cs.value true
      ∷ []

  finds : (t : ℕ) → find_ietf (mt ∷ local ∷ remote ∷ pw ∷ l2s ∷ ds ∷ cs ∷ []) t ≡ find_ietf shaped t
  finds t =
      ap (λ l. find_ietf l t)
        (cc (
          r_mt.shape, r_local.shape, r_remote.shape, r_pw.shape, r_l2s.shape, r_ds.shape,
          r_cs.shape,
        ))

  parse_session_fields-request :
      (out : List Avp) (end_id cookie : Option Bytes) (tx rx : Option ℕ)
      → ((t : ℕ)
          → (AttrType.remote_end_id == t) ≡ false
          → is_tail t ≡ false
          → find_ietf out t ≡ find_ietf (mt ∷ local ∷ remote ∷ pw ∷ l2s ∷ ds ∷ cs ∷ []) t)
      → optional_field decode_remote_end_id (find_ietf out AttrType.remote_end_id) ≡ ok end_id
      → optional_field decode_assigned_cookie (find_ietf out AttrType.assigned_cookie) ≡ ok cookie
      → optional_field decode_tx_connect_speed (find_ietf out AttrType.tx_connect_speed) ≡ ok tx
      → optional_field decode_rx_connect_speed (find_ietf out AttrType.rx_connect_speed) ≡ ok rx
      → (parse_session_fields out
          ≡ ok (record {
            local_sid = local_sid;
            remote_sid = remote_sid;
            pseudowire_type = some pseudowire_type;
            l2_specific_sublayer = some sublayer;
            data_sequencing = some sequencing;
            circuit_status = some status;
            assigned_cookie = cookie;
            remote_end_id = end_id;
            tx_connect_speed = tx;
            rx_connect_speed = rx;
          }))
        × (get_message_type out ≡ ok (some MessageType.icrq))
  unfolding parse_session_fields find_avp get_message_type
  parse_session_fields-request out end_id cookie tx rx keeps end_id_reads cookie_reads tx_reads
        rx_reads =
      let found = λ (t : ℕ) (n1 : (AttrType.remote_end_id == t) ≡ false) (n2 : is_tail t ≡ false).
        keeps t n1 n2 ∙ finds t in
      (
        rw
            (
              found AttrType.local_session_id refl refl,
              found AttrType.remote_session_id refl refl,
              found AttrType.pseudowire_type refl refl,
              found AttrType.l2_specific_sublayer refl refl,
              found AttrType.data_sequencing refl refl,
              found AttrType.circuit_status refl refl,
              r_local.reads,
              r_remote.reads,
              r_pw.reads,
              r_l2s.reads,
              r_ds.reads,
              r_cs.reads,
              end_id_reads,
              cookie_reads,
              tx_reads,
              rx_reads,
            )
            refl,
        rw (found AttrType.message_type refl refl, r_mt.reads) refl,
      )

-- What the builder of ICRQ accepts, the session parser gives back: our session id, a remote id of 0,
-- the pseudowire type, the three negotiated numbers, and each optional field where it was given. The
-- message type is ICRQ.
pub parse_session_fields-build_icrq_avps :
    (local_sid pseudowire_type : ℕ) (remote_end_id : Option Bytes) (args : CallArgs)
    (out : List Avp)
    → build_icrq_avps local_sid pseudowire_type remote_end_id args ≡ ok out
    → (parse_session_fields out
        ≡ ok (record {
          local_sid = local_sid;
          remote_sid = 0;
          pseudowire_type = some pseudowire_type;
          l2_specific_sublayer = some args.l2_specific_sublayer;
          data_sequencing = some args.data_sequencing;
          circuit_status = some args.circuit_status;
          assigned_cookie = args.assigned_cookie;
          remote_end_id = remote_end_id;
          tx_connect_speed = args.tx_connect_speed;
          rx_connect_speed = args.rx_connect_speed;
        }))
      × (get_message_type out ≡ ok (some MessageType.icrq))
unfolding build_icrq_avps find_avp
parse_session_fields-build_icrq_avps local_sid pseudowire_type remote_end_id args out e0 =
    let (mt, x_mt, e1) = >>=-eq-ok (build_message_type MessageType.icrq) _ e0 in
    let (local, x_local, e2) = >>=-eq-ok (build_local_session_id local_sid) _ e1 in
    let (remote, x_remote, e3) = >>=-eq-ok (build_remote_session_id 0) _ e2 in
    let (pw, x_pw, e4) = >>=-eq-ok (build_pseudowire_type pseudowire_type) _ e3 in
    let (l2s, x_l2s, e5) = >>=-eq-ok (build_l2_specific_sublayer args.l2_specific_sublayer) _ e4 in
    let (ds, x_ds, e6) = >>=-eq-ok (build_data_sequencing args.data_sequencing) _ e5 in
    let (cs, x_cs, e7) = >>=-eq-ok (build_circuit_status args.circuit_status) _ e6 in
    let base = mt ∷ local ∷ remote ∷ pw ∷ l2s ∷ ds ∷ cs ∷ [] in
    let (s, y, e8) =
      >>=-eq-ok (append_optional (λ e. ok (build_remote_end_id e)) remote_end_id base) _ e7 in
    let r_mt = message_type_read MessageType.icrq mt x_mt in
    let r_local = local_session_id_read local_sid local x_local in
    let r_remote = remote_session_id_read 0 remote x_remote in
    let r_pw = pseudowire_type_read pseudowire_type pw x_pw in
    let r_l2s = l2_specific_sublayer_read args.l2_specific_sublayer l2s x_l2s in
    let r_ds = data_sequencing_read args.data_sequencing ds x_ds in
    let r_cs = circuit_status_read args.circuit_status cs x_cs in
    let there = finds mt local remote pw l2s ds cs r_mt r_local r_remote r_pw r_l2s r_ds r_cs in
    let past = λ (t : ℕ) (n : (AttrType.remote_end_id == t) ≡ false).
      remote_end_id_ne base s remote_end_id t n y in
    let r =
      append_tail-TailRead args.assigned_cookie args.tx_connect_speed args.rx_connect_speed s out
        (past AttrType.assigned_cookie refl ∙ there AttrType.assigned_cookie)
        (past AttrType.tx_connect_speed refl ∙ there AttrType.tx_connect_speed)
        (past AttrType.rx_connect_speed refl ∙ there AttrType.rx_connect_speed) e8 in
    parse_session_fields-request mt local remote pw l2s ds cs r_mt r_local r_remote r_pw r_l2s r_ds
      r_cs out remote_end_id args.assigned_cookie args.tx_connect_speed args.rx_connect_speed
      (λ t n1 n2. r.keeps t n2 ∙ past t n1)
      (ap (optional_field decode_remote_end_id) (r.keeps AttrType.remote_end_id refl)
        ∙ remote_end_id_self base s remote_end_id (there AttrType.remote_end_id) y)
      r.cookie_reads r.tx_reads r.rx_reads

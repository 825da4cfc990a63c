-- ===== src/Daemon/Demux.antt =====
-- `Daemon._dispatch_datagram` of xcesp_l2tpv3d/main.py.
use xcesp_l2tpv3d.Common.{
  ℕ, false, ◌≡◌, ◌≢◌, refl, sym, ap, ◌∙◌, Option, none, some, length, ltb, arith, le→ltb,
  Bool-cases, Option-cases, inl, inr,
}
use xcesp_l2tpv3d.Exception.{Result, ok, Result-cases}
use xcesp_l2tpv3d.Struct.{Bytes, unpack_u32-be32}
use xcesp_l2tpv3d.Crypto.{Crypto}
use xcesp_l2tpv3d.Message.{ControlMessage, encode_message}
use xcesp_l2tpv3d.Message.RoundTrip.{encode_message-eq-ok}
use xcesp_l2tpv3d.Dataplane.Interface.{Dataplane}
use xcesp_l2tpv3d.Tunnel.{Tunnel}
use xcesp_l2tpv3d.Tunnel.Effect.{State, Method}
use xcesp_l2tpv3d.Tunnel.Dispatch.{handle_datagram}
use xcesp_l2tpv3d.Tunnel.Fixed.{Fixes}
use xcesp_l2tpv3d.Tunnel.Identity.{handle_datagram-identity, identity}
use xcesp_l2tpv3d.Daemon.{Daemon, tunnel_at, dest_ccid, run_on, settle, dispatch_datagram}
use xcesp_l2tpv3d.Daemon.Table.{tunnel_at-put_tunnel, tunnel_at-put_tunnel_ne, tunnel_at_ccid}

module _ {S : Type 0} where
  -- A method of one tunnel leaves the others of the table alone, and puts back its own.
  settle_ne :
      {A : Type 0} (ccid : ℕ) (d : Daemon S) (r : State S × Result A)
      → ccid ≢ r.0.1.cfg.local_ccid
      → tunnel_at ccid (settle d r).0.tunnels ≡ tunnel_at ccid d.tunnels
  settle_ne ccid d ((s, t), r) h = tunnel_at-put_tunnel_ne ccid t d.tunnels h

  pub run_on_ne :
      {A : Type 0} (a : A) (ccid other : ℕ) (m : Method S A) (d : Daemon S)
      → Fixes identity m
      → other ≢ ccid
      → tunnel_at other (run_on a (tunnel_at ccid d.tunnels) m d).0.tunnels
        ≡ tunnel_at other d.tunnels
  run_on_ne a ccid other m d h ne =
      elim (Option-cases (tunnel_at ccid d.tunnels))
        as (λ x.
          tunnel_at other (run_on a (tunnel_at ccid d.tunnels) m d).0.tunnels
          ≡ tunnel_at other d.tunnels) [
            | inl e ↦ rw e refl
            | inr (t, e) ↦ rw e (
                settle_ne other d (m (d.shared, t)) (
                  rw
                    (
                      ap (λ i. i.0.local_ccid) (h.fixed (d.shared, t)),
                      tunnel_at_ccid ccid t d.tunnels e,
                    )
                    ne))
          ]

  settle_same :
      {A : Type 0} (ccid : ℕ) (d : Daemon S) (r : State S × Result A)
      → ccid ≡ r.0.1.cfg.local_ccid
      → tunnel_at ccid (settle d r).0.tunnels ≡ some r.0.1
  settle_same ccid d ((s, t), r) h = tunnel_at-put_tunnel ccid t d.tunnels h

  pub run_on_same :
      {A : Type 0} (a : A) (ccid : ℕ) (m : Method S A) (d : Daemon S) (t : Tunnel)
      → Fixes identity m
      → tunnel_at ccid d.tunnels ≡ some t
      → tunnel_at ccid (run_on a (some t) m d).0.tunnels ≡ some (m (d.shared, t)).0.1
  run_on_same a ccid m d t h e =
      settle_same ccid d (m (d.shared, t))
        (sym (ap (λ i. i.0.local_ccid) (h.fixed (d.shared, t)) ∙ tunnel_at_ccid ccid t d.tunnels e))

module _ ⦃c : Crypto⦄ where
  -- The length and the destination of an encoded message.
  addressed :
      (m : ControlMessage) (buf : Bytes)
      → encode_message none none m ≡ ok buf
      → (ltb (length buf) 12 ≡ false) × (dest_ccid buf ≡ ok m.control_connection_id)
  addressed m buf e =
      let (body, range, x, n, w) = encode_message-eq-ok none none m buf e in
      rw w (le→ltb 12 _ (omega arith), unpack_u32-be32 m.control_connection_id)

module _ {S : Type 0} ⦃c : Crypto⦄ ⦃dp : Dataplane S⦄ where
  -- What the datagram does, by the tunnel that has its id: that tunnel handles it, and the daemon
  -- holds what is left of it; without one nothing happens.
  abbrev pub Delivers : Bytes → ℕ → Daemon S → Option Tunnel → Type 0
  Delivers buf ccid d none = dispatch_datagram buf d ≡ (d, ok tt)
  Delivers buf ccid d (some t) =
      let (after, r) = dispatch_datagram buf d in
      let ((s, u), r') = handle_datagram buf (d.shared, t) in
      (after.shared ≡ s) × (tunnel_at ccid after.tunnels ≡ some u) × (r ≡ r')

  -- An encoded message is handled by the tunnel that has its connection id as the local one, and the
  -- daemon raises what that tunnel raises; it is dropped if there is no such tunnel.
  pub dispatch_datagram-Delivers :
      (m : ControlMessage) (buf : Bytes) (d : Daemon S)
      → encode_message none none m ≡ ok buf
      → Delivers buf m.control_connection_id d (tunnel_at m.control_connection_id d.tunnels)
  unfolding dispatch_datagram
  dispatch_datagram-Delivers m buf d e =
      let (long, dest) = addressed m buf e in
      elim (Option-cases (tunnel_at m.control_connection_id d.tunnels))
        as (λ x.
          Delivers buf m.control_connection_id d (tunnel_at m.control_connection_id d.tunnels)) [
            | inl h ↦ rw (h, dispatch_datagram, long, dest, h) refl
            | inr (t, h) ↦
                rw (h, dispatch_datagram, long, dest, h)
                  (
                    refl,
                    run_on_same tt m.control_connection_id (handle_datagram buf) d t
                        (handle_datagram-identity buf) h,
                    refl,
                  )
          ]

  -- No datagram, whatever its bytes, touches a tunnel other than the one whose id it carries.
  dispatch_datagram_others :
      (buf : Bytes) (d : Daemon S) (other : ℕ)
      → dest_ccid buf ≢ ok other
      → tunnel_at other (dispatch_datagram buf d).0.tunnels ≡ tunnel_at other d.tunnels
  unfolding dispatch_datagram
  dispatch_datagram_others buf d other ne =
      elim (Bool-cases (ltb (length buf) 12))
        as (λ x. tunnel_at other (dispatch_datagram buf d).0.tunnels ≡ tunnel_at other d.tunnels) [
          | inl short ↦ rw (dispatch_datagram, short) refl
          | inr long ↦
              elim (Result-cases (dest_ccid buf))
                as (λ x.
                  tunnel_at other (dispatch_datagram buf d).0.tunnels ≡ tunnel_at other d.tunnels) [
                    | inr (e, h) ↦ rw (dispatch_datagram, long, h) refl
                    | inl (ccid, h) ↦
                        rw (dispatch_datagram, long, h)
                          (run_on_ne tt ccid other (handle_datagram buf) d
                            (handle_datagram-identity buf) (λ same. ne (h ∙ ap ok (sym same))))
                  ]
        ]

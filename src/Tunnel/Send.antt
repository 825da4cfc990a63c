-- ===== src/Tunnel/Send.antt =====
-- `Tunnel._send` of xcesp_l2tpv3d/main.py, and what the other end reads.
use xcesp_l2tpv3d.Common.{
  ℕ, true, ◌≡◌, refl, sym, ap, ◌∙◌, Option, none, some, List, [], ◌∷◌, ◌++◌, length, inl, inr,
}
use xcesp_l2tpv3d.Common.{append-nil}
use xcesp_l2tpv3d.Exception.{Result, ok, >>=-eq-ok, Result-cases}
use xcesp_l2tpv3d.Struct.{Bytes}
use xcesp_l2tpv3d.Crypto.{Crypto}
use xcesp_l2tpv3d.Avp.{Avp, find_avp, vendor_ietf}
use xcesp_l2tpv3d.Avp.Plain.{HasByteValues}
use xcesp_l2tpv3d.AttrType
use xcesp_l2tpv3d.Auth.{digest_hash_number, digest_size}
use xcesp_l2tpv3d.Message.{ControlMessage, encode_message, decode_message}
use xcesp_l2tpv3d.Signing.Plain.{decode_message_of_encoded}
use xcesp_l2tpv3d.Signing.RoundTrip.{decode_and_verify-encode_signed}
use xcesp_l2tpv3d.Signing.Patch.{digest_avp}
use xcesp_l2tpv3d.Signing.{encode_signed, decode_and_verify}
use xcesp_l2tpv3d.Peer.{Peer, send}
use xcesp_l2tpv3d.Config.{TunnelConfigEntry}
use xcesp_l2tpv3d.TunnelFsm.Returns.{is_ok}
use xcesp_l2tpv3d.Tunnel.{Shared, Tunnel}
use xcesp_l2tpv3d.Tunnel.Effect.{State, ◌>>=◌}
use xcesp_l2tpv3d.Tunnel.Execute.{on_password, wire_of, send_avps}
use xcesp_l2tpv3d.Tunnel.Dispatch.{read_message}

-- The message that a peer sends for these AVPs.
abbrev pub outgoing : Peer → List Avp → ControlMessage
outgoing p avps = record {
  control_connection_id = p.remote_ccid;
  ns = p.ns_send;
  nr = p.nr_expect;
  avps = avps;
}

module _ ⦃c : Crypto⦄ where
  send_message :
      (avps : List Avp) (now : ℕ) (p q : Peer) (m : ControlMessage)
      → send avps now p ≡ ok (m, q)
      → m ≡ outgoing p avps
  unfolding send
  send_message [] now p q m e = cc
  send_message (a ∷ avps) now p q m e =
      let (encoded, x, e1) = >>=-eq-ok (encode_message none none (outgoing p (a ∷ avps))) _ e in cc

  -- What stands behind the AVPs of a message: a Message Digest AVP with a digest of the size of the
  -- hash under a password, and nothing without one.
  abbrev pub IsSignature : Option Bytes → ℕ → List Avp → Type 0
  IsSignature password hash_type signature =
      on_password password
        (λ secret.
          (digest : Bytes) × (digest_size hash_type ≡ ok (length digest))
          × (signature ≡ digest_avp hash_type digest ∷ []))
        (signature ≡ [])

  -- What goes out under a password, or none, is read back under the same one.
  read_back :
      (password : Option Bytes) (hash_type : ℕ) (m : ControlMessage) (wire : Bytes)
      → HasByteValues m.avps
      → find_avp m.avps AttrType.message_digest vendor_ietf ≡ none
      → on_password password
          (λ secret. encode_signed m hash_type secret)
          (encode_message none none m)
        ≡ ok wire
      → (signature : List Avp) × IsSignature password hash_type signature
        × (on_password password
              (λ secret. decode_and_verify wire hash_type secret)
              (decode_message none wire)
            ≡ ok (record m { avps = m.avps ++ signature }))
  read_back none hash_type m wire b fresh e =
      ([], refl, rw (append-nil m.avps) (decode_message_of_encoded m wire b e))
  read_back (some []) hash_type m wire b fresh e =
      ([], refl, rw (append-nil m.avps) (decode_message_of_encoded m wire b e))
  read_back (some (s ∷ secret)) hash_type m wire b fresh e =
      let (digest, size, accepted) =
        decode_and_verify-encode_signed m hash_type (s ∷ secret) wire b fresh e in
      (digest_avp hash_type digest ∷ [], (digest, size, refl), accepted)

  -- The parts of a call that returned: the message, the peer after it and the bytes.
  abbrev Sent : {S : Type 0} → List Avp → Shared S → Tunnel → State S × Result (Unit {0}) → Type 0
  Sent avps s t (u, r) =
      is_ok r ≡ true
      → (m : ControlMessage) × (wire : Bytes) × (send avps s.time t.peer ≡ ok (m, u.1.peer))
        × (wire_of t.cfg m ≡ ok wire)
        × (u.0.transport ≡ s.transport ++ (t.remote_addr, wire) ∷ [])

  module _ {S : Type 0} where
    send_avps-Sent :
        (avps : List Avp) (s : Shared S) (t : Tunnel) → Sent avps s t (send_avps avps (s, t))
    unfolding send_avps ◌>>=◌
    send_avps-Sent avps s t =
        elim (Result-cases (send avps s.time t.peer))
          as (λ x. Sent avps s t (send_avps avps (s, t))) [
            | inr (e, h) ↦ rw (send_avps, h) (λ returned. cc)
            | inl ((m, q), h) ↦
                elim (Result-cases (wire_of t.cfg m))
                  as (λ x. Sent avps s t (send_avps avps (s, t))) [
                    | inr (e, h2) ↦ rw (send_avps, h, h2) (λ returned. cc)
                    | inl (wire, h2) ↦ rw (send_avps, h, h2) (λ returned. (m, wire, refl, h2, refl))
                  ]
          ]

    -- If `_send` returns, one datagram has gone to the address of the peer, and a tunnel with the
    -- same password, or none, and the same digest reads from it the message with the peer's
    -- connection id, the next Ns, the Nr expected and the AVPs. Behind these stands one Message Digest
    -- AVP, with a digest of the size of the hash, if there is a password that is not empty, and
    -- nothing if not. The AVPs have byte values, and no Message Digest AVP is among them.
    pub read_message-send_avps :
        (avps : List Avp) (s : Shared S) (t : Tunnel) (other : TunnelConfigEntry)
        → other.password ≡ t.cfg.password
        → other.digest_alg ≡ t.cfg.digest_alg
        → HasByteValues avps
        → find_avp avps AttrType.message_digest vendor_ietf ≡ none
        → is_ok (send_avps avps (s, t)).1 ≡ true
        → (wire : Bytes) × (signature : List Avp) × IsSignature t.cfg.password
            (digest_hash_number t.cfg.digest_alg)
            signature
          × ((send_avps avps (s, t)).0.0.transport ≡ s.transport ++ (t.remote_addr, wire) ∷ [])
          × (read_message other wire
              ≡ ok (record (outgoing t.peer avps) { avps = avps ++ signature }))
    read_message-send_avps avps s t other password digest b fresh returned =
        let (m, wire, sent, encoded, there) = send_avps-Sent avps s t returned in
        let m_is = send_message avps s.time t.peer _ m sent in
        let (signature, signed, accepted) =
          read_back t.cfg.password (digest_hash_number t.cfg.digest_alg) (outgoing t.peer avps) wire
            b fresh (ap (λ k. wire_of t.cfg k) (sym m_is) ∙ encoded) in
        (wire, signature, signed, there, rw (password, digest) accepted)

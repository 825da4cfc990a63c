-- ===== src/Tunnel/Authentic.antt =====
-- `Tunnel.handle_datagram` of xcesp_l2tpv3d/main.py on datagrams that do not verify or decode.
use xcesp_l2tpv3d.Common.{ℕ, ◌≡◌, refl, Option, none, some, [], ◌∷◌, ◌⊎◌, inl, inr}
use mathlib.Core.Path.{subst}
use xcesp_l2tpv3d.Exception.{Result, ok, err, Result-cases, OnlyValueError}
use xcesp_l2tpv3d.Struct.{Bytes, IsBytes}
use xcesp_l2tpv3d.Crypto.{Crypto}
use xcesp_l2tpv3d.Auth.{digest_hash_number}
use xcesp_l2tpv3d.Message.{ControlMessage, decode_message}
use xcesp_l2tpv3d.Message.Decoded.{decode_message-OnlyValueError}
use xcesp_l2tpv3d.Signing.{decode_and_verify}
use xcesp_l2tpv3d.Signing.Errors.{decode_and_verify-OnlyValueError}
use xcesp_l2tpv3d.Signing.Verified.{Authentic, decode_and_verify-Authentic}
use xcesp_l2tpv3d.Dataplane.Interface.{Dataplane}
use xcesp_l2tpv3d.Config.{TunnelConfigEntry}
use xcesp_l2tpv3d.Tunnel.Effect.{State, ◌>>=◌}
use xcesp_l2tpv3d.Tunnel.Execute.{on_password}
use xcesp_l2tpv3d.Tunnel.Dispatch.{read_message, handle_message, handle_datagram}

module _ ⦃c : Crypto⦄ where
  read_message-OnlyValueError :
      (password : Option Bytes) (hash_type : ℕ) (buf : Bytes)
      → IsBytes buf
      → OnlyValueError (
          on_password password
            (λ secret. decode_and_verify buf hash_type secret)
            (decode_message none buf))
  read_message-OnlyValueError none hash_type buf b = decode_message-OnlyValueError none buf b
  read_message-OnlyValueError (some []) hash_type buf b = decode_message-OnlyValueError none buf b
  read_message-OnlyValueError (some (s ∷ secret)) hash_type buf b =
      decode_and_verify-OnlyValueError buf hash_type (s ∷ secret) b

  -- The datagram was let through: a message was read from it, and it carries the HMAC of itself
  -- under the password of the tunnel.
  abbrev pub Admitted : Bytes → TunnelConfigEntry → ControlMessage → Type 0
  Admitted buf cfg m =
      (read_message cfg buf ≡ ok m)
      × on_password cfg.password
          (λ secret. Authentic buf (digest_hash_number cfg.digest_alg) secret m) Unit

  on_password-Authentic :
      (password : Option Bytes) (hash_type : ℕ) (buf : Bytes) (m : ControlMessage)
      → IsBytes buf
      → on_password password
          (λ secret. decode_and_verify buf hash_type secret)
          (decode_message none buf)
        ≡ ok m
      → on_password password (λ secret. Authentic buf hash_type secret m) Unit
  on_password-Authentic none hash_type buf m b e = tt
  on_password-Authentic (some []) hash_type buf m b e = tt
  on_password-Authentic (some (s ∷ secret)) hash_type buf m b e =
      decode_and_verify-Authentic buf hash_type (s ∷ secret) m b e

module _ {S : Type 0} ⦃c : Crypto⦄ ⦃d : Dataplane S⦄ where
  -- What a tunnel does with a datagram: nothing, or what it does with the message it read.
  abbrev pub ReadsAs : Bytes → State S → Result ControlMessage → Type 0
  ReadsAs buf t (err e) = handle_datagram buf t ≡ (t, ok tt)
  ReadsAs buf t (ok m) = handle_datagram buf t ≡ handle_message m t

  reads :
      (buf : Bytes) (t : State S) (r : Result ControlMessage)
      → read_message t.1.cfg buf ≡ r
      → OnlyValueError r
      → ReadsAs buf t r
  unfolding handle_datagram ◌>>=◌
  reads buf t (ok m) e h = rw (handle_datagram, e) refl
  reads buf t (err x) e h = rw (handle_datagram, e, h) refl

  -- A tunnel either ignores a datagram, which then changes nothing and raises nothing, or handles a
  -- message that it read from it; if it has a password, the message is authentic under it.
  pub handle_datagram-Admitted :
      (buf : Bytes) (t : State S)
      → IsBytes buf
      → (handle_datagram buf t ≡ (t, ok tt))
        ⊎ ((m : ControlMessage) × Admitted buf t.1.cfg m
            × (handle_datagram buf t ≡ handle_message m t))
  handle_datagram-Admitted buf (s, t) b =
      let safe =
        read_message-OnlyValueError t.cfg.password (digest_hash_number t.cfg.digest_alg) buf b in
      elim (Result-cases (read_message t.cfg buf)) [
        | inl (m, e) ↦ inr (
          m,
          (e, on_password-Authentic t.cfg.password (digest_hash_number t.cfg.digest_alg) buf m b e),
          reads buf (s, t) (ok m) e tt,
        )
        | inr (x, e) ↦ inl (reads buf (s, t) (err x) e (subst (λ r. OnlyValueError r) e safe))
      ]

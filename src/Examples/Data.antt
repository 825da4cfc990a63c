-- ===== src/Examples/Data.antt =====
-- Data of the runs: an instance of the digests, and some messages.
use xcesp_l2tpv3d.Common.{
  ℕ, ◌+◌, ◌%◌, arith, true, false, [], ◌∷◌, replicate, length-replicate, All-replicate,
}
use xcesp_l2tpv3d.Struct.{Bytes, IsByte}
use xcesp_l2tpv3d.Crypto.{Crypto, hash_size}
use xcesp_l2tpv3d.Avp.{Avp}
use xcesp_l2tpv3d.AttrType
use xcesp_l2tpv3d.Message.{ControlMessage}

-- The sum of the bytes that are hashed, a weak checksum.
abbrev pub checksum : ℕ → Bytes → ℕ
checksum start [] = start % 256
checksum start (b ∷ bytes) = checksum (start + b) bytes

pub checksum-IsByte : (start : ℕ) (bytes : Bytes) → IsByte (checksum start bytes)
checksum-IsByte start [] = omega arith
checksum-IsByte start (b ∷ bytes) = checksum-IsByte (start + b) bytes

-- Digests of the documented sizes.
instance abbrev pub weak_digests : Crypto
weak_digests = record {
  digest = λ h input. replicate (hash_size h) (checksum 7 input);
  hmac = λ h key input. replicate (hash_size h) (checksum (checksum 7 key) input);
  length-digest = λ h input. length-replicate (hash_size h) (checksum 7 input);
  digest-IsBytes =
      λ h input. All-replicate IsByte (hash_size h) (checksum 7 input) (checksum-IsByte 7 input);
  length-hmac = λ h key input. length-replicate (hash_size h) (checksum (checksum 7 key) input);
  hmac-IsBytes = λ h key input.
      All-replicate IsByte (hash_size h) (checksum (checksum 7 key) input)
        (checksum-IsByte (checksum 7 key) input);
}

abbrev pub secret : Bytes
secret = 115 ∷ 51 ∷ []

abbrev pub vector : Bytes
vector = 1 ∷ 2 ∷ 3 ∷ 4 ∷ []

abbrev pub hello_avp : Avp
hello_avp = record {
  attribute_type = AttrType.message_type;
  value = 0 ∷ 6 ∷ [];
  mandatory = true;
  hidden = false;
  vendor_id = 0;
}

abbrev pub vector_avp : Avp
vector_avp = record {
  attribute_type = AttrType.random_vector;
  value = vector;
  mandatory = true;
  hidden = false;
  vendor_id = 0;
}

abbrev pub hidden_avp : Avp
hidden_avp = record {
  attribute_type = AttrType.host_name;
  value = 112 ∷ 101 ∷ [];
  mandatory = true;
  hidden = true;
  vendor_id = 0;
}

-- A message with a hidden AVP.
abbrev pub hidden_message : ControlMessage
hidden_message = record {
  control_connection_id = 7;
  ns = 1;
  nr = 2;
  avps = hello_avp ∷ vector_avp ∷ hidden_avp ∷ [];
}

abbrev pub hello_message : ControlMessage
hello_message = record { control_connection_id = 7; ns = 3; nr = 4; avps = hello_avp ∷ [] }

-- Its bytes on the wire.
abbrev pub hello_bytes : Bytes
hello_bytes =
    200 ∷ 3 ∷ 0 ∷ 20 ∷ 0 ∷ 0 ∷ 0 ∷ 7 ∷ 0 ∷ 3 ∷ 0 ∷ 4 ∷ 128 ∷ 8 ∷ 0 ∷ 0 ∷ 0 ∷ 0 ∷ 0 ∷ 6 ∷ []

abbrev pub hidden_avp_bytes : Bytes
hidden_avp_bytes =
    192 ∷ 22 ∷ 0 ∷ 0 ∷ 0 ∷ 7 ∷ 190 ∷ 188 ∷ 206 ∷ 219 ∷ 190 ∷ 190 ∷ 190 ∷ 190 ∷ 190 ∷ 190 ∷ 190 ∷ 190
    ∷ 190 ∷ 190 ∷ 190 ∷ 190 ∷ []

-- The bytes of the AVPs of `hidden_message`, and of the whole message.
abbrev pub hidden_body : Bytes
hidden_body =
    128 ∷ 8 ∷ 0 ∷ 0 ∷ 0 ∷ 0 ∷ 0 ∷ 6 ∷ 128 ∷ 10 ∷ 0 ∷ 0 ∷ 0 ∷ 36 ∷ 1 ∷ 2 ∷ 3 ∷ 4 ∷ hidden_avp_bytes

abbrev pub hidden_bytes : Bytes
hidden_bytes = 200 ∷ 3 ∷ 0 ∷ 52 ∷ 0 ∷ 0 ∷ 0 ∷ 7 ∷ 0 ∷ 1 ∷ 0 ∷ 2 ∷ hidden_body

-- The bytes of `hello_message`, signed.
abbrev pub signed_bytes : Bytes
signed_bytes =
    200
    ∷ 3
    ∷ 0
    ∷ 43
    ∷ 0
    ∷ 0
    ∷ 0
    ∷ 7
    ∷ 0
    ∷ 3
    ∷ 0
    ∷ 4
    ∷ 128
    ∷ 8
    ∷ 0
    ∷ 0
    ∷ 0
    ∷ 0
    ∷ 0
    ∷ 6
    ∷ 128
    ∷ 23
    ∷ 0
    ∷ 0
    ∷ 0
    ∷ 59
    ∷ 0
    ∷ replicate 16 18

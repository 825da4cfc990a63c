-- ===== src/Examples/Dataplane.antt =====
-- A run of the dataplane that runs `ip`.
use xcesp_l2tpv3d.Common.{ℕ, suc, ◌≡◌, refl, [], ◌∷◌}
use xcesp_l2tpv3d.Dataplane.{
  TunnelParams, MockDataplane, add_tunnel_call, udp, returned, add_tunnel, find_tunnel,
}
use xcesp_l2tpv3d.Dataplane.Ordered.{new_tunnel, serve}
use xcesp_l2tpv3d.Dataplane.IpCommand.{Subprocess, IpCommandDataplane}
use xcesp_l2tpv3d.Dataplane.Agreement.{AgreesOn, serve-AgreesOn}

-- A command that counts its calls, and always succeeds.
instance abbrev counter : Subprocess ℕ
counter = record { execute = λ argv calls. (suc calls, 0) }

abbrev params : TunnelParams
params = record {
  local_ccid = 7;
  remote_ccid = 8;
  local_address = 49 ∷ [];
  remote_address = 50 ∷ [];
  encap = udp;
  udp_sport = 1701;
  udp_dport = 1701;
}

abbrev empty_mock : MockDataplane
empty_mock = record { calls = []; tunnels = []; sessions = [] }

abbrev added_mock : MockDataplane
added_mock = record { calls = add_tunnel_call params ∷ []; tunnels = params ∷ []; sessions = [] }

abbrev empty_ip : IpCommandDataplane ℕ
empty_ip = record { binary = 105 ∷ 112 ∷ []; tunnels = []; sessions = []; world = 0 }

serve-new_tunnel : serve (new_tunnel params) empty_mock ≡ returned added_mock
unfolding add_tunnel find_tunnel
serve-new_tunnel = refl

serve-AgreesOn_example : AgreesOn (new_tunnel params) added_mock empty_ip
serve-AgreesOn_example =
    serve-AgreesOn (λ argv calls. refl) (new_tunnel params) empty_mock added_mock empty_ip
      (refl, refl) serve-new_tunnel

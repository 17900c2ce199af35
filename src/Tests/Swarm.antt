-- ===== src/Tests/Swarm.antt =====
-- A swarm that counts its requests, and a channel without a bound. They show that what is assumed of
-- `libp2p` and `tokio` can hold.
use edfs.Crates.{PeerId}
use edfs.Network.Channel.{CommandChannel, ChannelLaws}
use edfs.Network.Protocol.{SwarmCommand}
use edfs.Network.Swarm.{Libp2p, SwarmLaws}
use edfs.Prelude.{ℕ, ◌+◌, refl, true, ltb, some, List, [], ◌∷◌, ◌++◌, arith}

-- The next identifier and the connected peers; the peer itself is 0. A hash or a peer is one byte, and
-- the digest of bytes is those bytes.
abbrev pub sample_net : Libp2p
sample_net = record {
  Swarm = ℕ × List PeerId;
  local_peer_id = λ s. 0;
  connected_peers = λ s. s.1;
  send_request = λ s peer r. (s.0, (s.0 + 1, s.1));
  send_response = λ s channel r. s;
  publish = λ s bytes. s;
  dial = λ s addr. s;
  sha256 = λ bytes. bytes;
  hash_bytes = λ hash. hash ∷ [];
  to_bytes = λ peer. peer ∷ [];
  encode = λ operations. some [];
  decode = λ bytes. some [];
}

pub sample_swarm_laws : SwarmLaws sample_net
sample_swarm_laws = record {
  is_issued = λ s id. ltb id s.0;
  issued-send_request = λ s peer r id. ground arith;
  send_request_fresh = λ s peer r. ground arith;
  issued-publish = λ s bytes id. refl;
  issued-dial = λ s addr id. refl;
  local-publish = λ s bytes. refl;
  local-dial = λ s addr. refl;
  issued-send_response = λ s c r id. refl;
  connected-send_request = λ s peer r. refl;
  local-send_request = λ s peer r. refl;
  local-send_response = λ s c r. refl;
}

abbrev pub sample_channel : CommandChannel
sample_channel = record {
  Sender = List SwarmCommand;
  send = λ tx c. some (tx ++ c ∷ []);
  try_send = λ tx c. (true, tx ++ c ∷ []);
}

pub sample_channel_laws : ChannelLaws sample_channel
sample_channel_laws = record {
  sent = λ tx. tx;
  sent-try_send = λ tx c. refl;
  sent-send = λ tx tx' c e. ground arith;
}

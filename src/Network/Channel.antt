-- ===== src/Network/Channel.antt =====
-- The bounded channels of `tokio`, as a parameter: the senders that the network code keeps.
use edfs.Network.Protocol.{SwarmCommand}
use edfs.Prelude.{Bool, Option, some, List, ◌≡◌, [], ◌∷◌, ◌++◌, if◌then◌else◌}

-- `mpsc::Sender<SwarmCommand>`; `try_send` says whether the command was queued.
pub record CommandChannel : Type 1 where
  pub Sender : Type 0
  -- `send`, once it has waited for room; `none` where the receiver is gone.
  pub send : Sender → SwarmCommand → Option Sender
  pub try_send : Sender → SwarmCommand → Bool × Sender

-- What the documentation of `tokio` promises: a command is queued, behind the others, where the
-- call succeeds, and not queued where it fails.
pub record ChannelLaws (chan : CommandChannel) : Type 0 where
  pub sent : chan.Sender → List SwarmCommand
  pub sent-try_send :
      (tx : chan.Sender) (c : SwarmCommand)
      → sent (chan.try_send tx c).1
        ≡ (if (chan.try_send tx c).0 then sent tx ++ c ∷ [] else sent tx)
  pub sent-send :
      (tx tx' : chan.Sender) (c : SwarmCommand)
      → chan.send tx c ≡ some tx'
      → sent tx' ≡ sent tx ++ c ∷ []

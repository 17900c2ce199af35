-- ===== src/Network/Replication/Pulls.antt =====
-- src/network/handlers/replication.rs: what `rebalance` asks the network for.
use edfs.Config.{max_fetches_per_rebalance}
use edfs.Crates.{Crates, PeerId}
use edfs.Domain.{ChunkHash}
use edfs.FileSystem.Chunks.{promote_to_pinned}
use edfs.FileSystem.Reachable.{reachable_chunk_hashes}
use edfs.Network.Channel.{CommandChannel, ChannelLaws}
use edfs.Network.Fetcher.{Ctx}
use edfs.Network.Fetcher.Handling.{Holds, Holds-some}
use edfs.Network.Protocol.{SwarmCommand, fetch_command}
use edfs.Network.Replication.{current_members, designated_holders}
use edfs.Network.Replication.Handling.{
  Handler, Round, rebalance_one, rebalance_loop, rebalance_live, rebalance, promote, issue, block,
}
use edfs.Network.Replication.Rounds.{
  RoundStep, skipped, promoted, full, issued, rebalance_one-RoundStep,
}
use edfs.Network.Swarm.{Libp2p}
use edfs.Prelude.{
  ℕ, ◌≡◌, refl, ◌==◌, ◌+◌, ◌≤◌, ◌-◌, Bool, true, false, leb, Option, none, some, List, [], ◌∷◌,
  ◌++◌, mem, All, All-mono, All-append, arith, length, length-append, Bool-cases, Option-cases, inl,
  inr, subst, ◌∙◌, sym, ap,
}
use edfs.Storage
use mathlib.Core.List.{append-nil, append_assoc}
use edfs.Storage.Access.{promote_to_pinned-Answered}

module _ (crates : Crates) (net : Libp2p) (chan : CommandChannel) where
  -- A command that asks for a chunk to pin: a live one that `me` is to hold and that is not held.
  pub record IsPull (me : PeerId) (members : List PeerId) (live : List ChunkHash)
      (s : Storage.ChunkStorage) (c : SwarmCommand) : Type 0 where
    pub hash : ChunkHash
    pub is_fetch : c ≡ fetch_command hash none true
    pub is_live : mem hash live ≡ true
    pub is_designated : mem me (designated_holders crates net hash members) ≡ true
    pub is_absent : Storage.contains s hash ≡ false

  -- The commands that were queued between two states of a sender.
  pub record Pulls (laws : ChannelLaws chan) (me : PeerId) (members : List PeerId)
      (live : List ChunkHash) (s : Storage.ChunkStorage) (most : ℕ) (before after : chan.Sender)
      : Type 0 where
    pub commands : List SwarmCommand
    pub queued : laws.sent after ≡ laws.sent before ++ commands
    pub bounded : length commands ≤ most
    pub are_pulls : All (IsPull me members live s) commands

  contains-promote :
      (now : ℕ) (hash h : ChunkHash) (r : Round crates net chan)
      → Storage.contains (promote crates net chan now hash r).filesystem.storage h
        ≡ Storage.contains r.filesystem.storage h
  unfolding Storage.contains
  contains-promote now hash h r =
      let kept = (promote_to_pinned-Answered r.filesystem.storage hash).2 h in ground (arith, kept)

  swarm_tx-block :
      (now : ℕ) (hash : ChunkHash) (done : Bool) (h : Handler crates net chan)
      → (block crates net chan now hash done h).swarm_tx ≡ h.swarm_tx
  swarm_tx-block now hash true h = refl
  swarm_tx-block now hash false h = refl

  empty-Pulls :
      (laws : ChannelLaws chan) (me : PeerId) (members : List PeerId) (live : List ChunkHash)
      (s : Storage.ChunkStorage) (most : ℕ) (tx : chan.Sender)
      → Pulls laws me members live s most tx tx
  empty-Pulls laws me members live s most tx = record {
    commands = [];
    queued = sym (append-nil (laws.sent tx));
    bounded = omega arith;
    are_pulls = tt;
  }

  -- What a round leaves to the next.
  record Advanced (laws : ChannelLaws chan) (me : PeerId) (members : List PeerId)
      (live : List ChunkHash) (r r' : Round crates net chan) : Type 0 where
    pub commands : List SwarmCommand
    pub queued : laws.sent r'.handler.swarm_tx ≡ laws.sent r.handler.swarm_tx ++ commands
    pub counted : r'.issued ≡ r.issued + length commands
    pub within : r'.issued ≤ max_fetches_per_rebalance
    pub same_held :
        (h : ChunkHash)
        → Storage.contains r'.filesystem.storage h ≡ Storage.contains r.filesystem.storage h
    pub are_pulls : All (IsPull me members live r.filesystem.storage) commands

  issue-Advanced :
      (laws : ChannelLaws chan) (me : PeerId) (members : List PeerId) (live : List ChunkHash)
      (hash : ChunkHash) (r : Round crates net chan)
      → mem hash live ≡ true
      → mem me (designated_holders crates net hash members) ≡ true
      → Storage.contains r.filesystem.storage hash ≡ false
      → leb max_fetches_per_rebalance r.issued ≡ false
      → Advanced laws me members live r (issue crates net chan hash r)
  issue-Advanced laws me members live hash r m d a l =
      let c : SwarmCommand = fetch_command hash none true in
      let tx : chan.Sender = r.handler.swarm_tx in
      elim (Bool-cases (chan.try_send tx c).0) [
        | inl q ↦ record {
          commands = c ∷ [];
          queued = ground (arith, q, laws.sent-try_send tx c);
          counted = ground (arith, q);
          within = ground (arith, q);
          same_held = λ h. refl;
          are_pulls = (
            record { hash = hash; is_fetch = refl; is_live = m; is_designated = d; is_absent = a },
            tt,
          );
        }
        | inr q ↦ record {
          commands = [];
          queued = ground (arith, q, laws.sent-try_send tx c, append-nil (laws.sent tx));
          counted = ground (arith, q);
          within = ground (arith, q);
          same_held = λ h. refl;
          are_pulls = tt;
        }
      ]

  RoundStep-Advanced :
      (laws : ChannelLaws chan) (me : PeerId) (members : List PeerId) (live : List ChunkHash)
      (now : ℕ) (hash : ChunkHash) (r : Round crates net chan)
      (next : Option (Round crates net chan))
      → mem hash live ≡ true
      → r.issued ≤ max_fetches_per_rebalance
      → RoundStep crates net chan me members now hash r next
      → Holds (Advanced laws me members live r) next
  RoundStep-Advanced laws me members live now hash r _ m few skipped = record {
    commands = [];
    queued = sym (append-nil (laws.sent r.handler.swarm_tx));
    counted = omega arith;
    within = few;
    same_held = λ h. refl;
    are_pulls = tt;
  }
  RoundStep-Advanced laws me members live now hash r _ m few promoted = record {
    commands = [];
    queued =
        ap laws.sent
          (swarm_tx-block now hash (promote_to_pinned crates r.filesystem hash).0 r.handler)
        ∙ sym (append-nil (laws.sent r.handler.swarm_tx));
    counted = omega arith;
    within = few;
    same_held = λ h. contains-promote now hash h r;
    are_pulls = tt;
  }
  RoundStep-Advanced laws me members live now hash r _ m few full = tt
  RoundStep-Advanced laws me members live now hash r _ m few (issued d a l) =
      issue-Advanced laws me members live hash r m d a l

  -- Two stretches of rounds in a row.
  Advanced-Pulls :
      (laws : ChannelLaws chan) (me : PeerId) (members : List PeerId) (live : List ChunkHash)
      (r r' : Round crates net chan) (tx : chan.Sender)
      → Advanced laws me members live r r'
      → Pulls laws me members live r'.filesystem.storage
          (max_fetches_per_rebalance - r'.issued)
          r'.handler.swarm_tx
          tx
      → Pulls laws me members live r.filesystem.storage
          (max_fetches_per_rebalance - r.issued)
          r.handler.swarm_tx
          tx
  Advanced-Pulls laws me members live r r' tx a p = record {
    commands = a.commands ++ p.commands;
    queued =
        p.queued ∙ ap (λ sent. sent ++ p.commands) a.queued ∙ append_assoc _ a.commands p.commands;
    bounded = omega (arith, p.bounded, a.counted, a.within, length-append a.commands p.commands);
    are_pulls =
        All-append (IsPull me members live r.filesystem.storage) a.commands p.commands a.are_pulls (
          All-mono (IsPull me members live r'.filesystem.storage)
            (IsPull me members live r.filesystem.storage) p.commands
            (λ c i. record {
              hash = i.hash;
              is_fetch = i.is_fetch;
              is_live = i.is_live;
              is_designated = i.is_designated;
              is_absent = sym (a.same_held i.hash) ∙ i.is_absent;
            })
            p.are_pulls);
  }

  rebalance_loop-Pulls :
      (laws : ChannelLaws chan) (me : PeerId) (members : List PeerId) (now : ℕ)
      (whole live : List ChunkHash) (r : Round crates net chan)
      → ((h : ChunkHash) → mem h live ≡ true → mem h whole ≡ true)
      → r.issued ≤ max_fetches_per_rebalance
      → Pulls laws me members whole r.filesystem.storage
          (max_fetches_per_rebalance - r.issued)
          r.handler.swarm_tx
          (rebalance_loop crates net chan me members now live r).handler.swarm_tx
  unfolding rebalance_loop
  rebalance_loop-Pulls laws me members now whole [] r inside few =
      empty-Pulls laws me members whole r.filesystem.storage (max_fetches_per_rebalance - r.issued)
        r.handler.swarm_tx
  rebalance_loop-Pulls laws me members now whole (hash ∷ live) r inside few =
      let next : Option (Round crates net chan) =
        rebalance_one crates net chan me members now hash r in
      let steps : Holds (Advanced laws me members whole r) next =
        RoundStep-Advanced laws me members whole now hash r next (inside hash (ground arith)) few
          (rebalance_one-RoundStep crates net chan me members now hash r) in
      elim (Option-cases next) [
        | inl n ↦
            rw (rebalance_loop, n)
              (empty-Pulls laws me members whole r.filesystem.storage
                (max_fetches_per_rebalance - r.issued) r.handler.swarm_tx)
        | inr (r', e) ↦
            let a : Advanced laws me members whole r r' =
              Holds-some (Advanced laws me members whole r) next r' steps e in
            rw (rebalance_loop, e)
              (Advanced-Pulls laws me members whole r r'
                (rebalance_loop crates net chan me members now live r').handler.swarm_tx a
                (rebalance_loop-Pulls laws me members now whole live r'
                  (λ h m. inside h (ground arith)) a.within))
      ]

  -- `rebalance` queues at most `max_fetches_per_rebalance` commands behind those of the channel, each to
  -- fetch and pin a live chunk that is not held and that this peer is designated to hold.
  pub rebalance-Pulls :
      (laws : ChannelLaws chan) (fuel now : ℕ) (h : Handler crates net chan) (ctx : Ctx crates net)
      (live : List ChunkHash) (after : Handler crates net chan × Ctx crates net)
      → reachable_chunk_hashes crates fuel ctx.filesystem ≡ some live
      → rebalance crates net chan fuel now h ctx ≡ some after
      → Pulls laws
          (net.local_peer_id ctx.swarm)
          (current_members crates net ctx.swarm)
          live
          ctx.filesystem.storage
          max_fetches_per_rebalance
          h.swarm_tx
          after.0.swarm_tx
  unfolding rebalance
  rebalance-Pulls laws fuel now h ctx live after found done =
      let me : PeerId = net.local_peer_id ctx.swarm in
      let members : List PeerId = current_members crates net ctx.swarm in
      let Goal : Handler crates net chan × Ctx crates net → Type 0 = λ a.
        Pulls laws me members live ctx.filesystem.storage max_fetches_per_rebalance h.swarm_tx
          a.0.swarm_tx in
      elim (Bool-cases (length members == 1)) [
        | inl alone ↦
            let same : (h, ctx) ≡ after = ground (arith, alone) in
            subst Goal same (
              empty-Pulls laws me members live ctx.filesystem.storage max_fetches_per_rebalance
                h.swarm_tx)
        | inr others ↦
            let same : rebalance_live crates net chan now h ctx live ≡ after =
              ground (arith, others, found) in
            subst Goal same (
              rebalance_loop-Pulls laws me members now live live
                (record { issued = 0; handler = h; filesystem = ctx.filesystem }) (λ h m. m)
                (omega arith))
      ]

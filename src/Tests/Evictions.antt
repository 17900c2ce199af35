-- ===== src/Tests/Evictions.antt =====
-- A pinned chunk that two other peers are to hold, asked for and evicted; and one that is to be fetched.
use edfs.Crates.{PeerId}
use edfs.FileSystem.{FileSystem}
use edfs.FileSystem.Reachable.{
  reachable_chunk_hashes, search_loop, visit_all, visit_child, note_child,
}
use edfs.Hrw.{top_peers, sort, insert, hrw_score}
use edfs.Network.Fetcher.{Ctx}
use edfs.Network.Protocol.{response, held_chunks, fetch_command}
use edfs.Network.Replication.{
  or_default, all_in, retain_confirmed, confirm_all, ask_holders, candidates_in, questions,
  completed_in, probe_peer, probe_all,
}
use edfs.Network.Replication.Handling.{
  Handler, new, rebalance_one, rebalance_loop, rebalance, probe_eviction_candidates, evict_all,
  evict_confirmed, note_held, handle, tick_rebalance, tick_eviction, tick,
}
use edfs.Network.Replication.History as Evictions
use edfs.Network.Replication.History.{note_held_safe}
use edfs.Network.Replication.Eviction.{IsHeldElsewhere}
use edfs.Network.Replication.Pulls.{Pulls, rebalance-Pulls}
use edfs.Prelude.Map
use edfs.Prelude.Map.{Map}
use edfs.Storage
use edfs.Storage.{ChunkEntry}
use edfs.Tests.Reachable.{fs}
use edfs.Tests.Reads.{bytes}
use edfs.Tests.Samples.{Nodes, sample_crates}
use edfs.Tests.Swarm.{sample_net, sample_swarm_laws, sample_channel, sample_channel_laws}
use edfs.Tree
use edfs.Prelude.{◌≡◌, ◌⊎◌, refl, none, some, true, [], ◌∷◌, set_extend, chunks_on}

abbrev State : Type 0
State = Handler sample_crates sample_net sample_channel × Ctx sample_crates sample_net

abbrev holding : FileSystem Nodes
holding = record fs {
  storage = record {
    chunks = (773, record { bytes = bytes; pinned = true }) ∷ [];
    cache_lru = [];
    pinned_bytes = 2;
    cached_bytes = 0;
    max_pinned_bytes = 10;
    max_cached_bytes = 20;
  };
}

abbrev alone : Ctx sample_crates sample_net
alone = record { swarm = (0, 1 ∷ 2 ∷ []); filesystem = holding; answered = [] }

abbrev fresh : Handler sample_crates sample_net sample_channel
fresh = new sample_crates sample_net sample_channel 0 []

abbrev probing : State
probing = (
  record {
    swarm_tx = [];
    next_rebalance = 5_000;
    next_eviction = 30_000;
    blocked_until = [];
    confirmed_holders = [];
    pending_probes = (0, 2) ∷ (1, 1) ∷ [];
  },
  record alone { swarm = (2, 1 ∷ 2 ∷ []) },
)

probes : tick sample_crates sample_net sample_channel 2 0 fresh alone ≡ some probing
unfolding new tick tick_rebalance tick_eviction rebalance rebalance_loop rebalance_one
    probe_eviction_candidates candidates_in questions ask_holders retain_confirmed probe_all
    probe_peer chunks_on Map.get Map.insert top_peers sort insert hrw_score reachable_chunk_hashes
    search_loop visit_all visit_child note_child Tree.metadata Tree.children_of set_extend
    Storage.is_pinned Storage.is_cached Storage.pinned_hashes Storage.pinned_in
probes = refl

abbrev half_confirmed : State
half_confirmed = (
  record probing.0 { confirmed_holders = (773, 2 ∷ []) ∷ []; pending_probes = (1, 1) ∷ [] },
  probing.1,
)

first_confirms :
    handle sample_crates sample_net sample_channel 2 0
      (response 0 (held_chunks (773 ∷ [])))
      probing.0
      probing.1
    ≡ some half_confirmed
unfolding note_held evict_confirmed evict_all completed_in all_in confirm_all Map.get Map.insert
    Map.remove top_peers sort insert hrw_score reachable_chunk_hashes search_loop visit_all
    visit_child note_child Tree.metadata Tree.children_of set_extend
first_confirms = refl

abbrev evicted : State
evicted = (
  record half_confirmed.0 { confirmed_holders = []; pending_probes = [] },
  record half_confirmed.1 {
    filesystem = record holding {
      storage = record holding.storage { chunks = []; pinned_bytes = 0 };
    };
  },
)

second_confirms :
    note_held sample_crates sample_net sample_channel 2 1
      (773 ∷ [])
      half_confirmed.0
      half_confirmed.1
    ≡ some evicted
unfolding note_held evict_confirmed evict_all completed_in all_in confirm_all Map.get Map.insert
    Map.remove top_peers sort insert hrw_score reachable_chunk_hashes search_loop visit_all
    visit_child note_child Tree.metadata Tree.children_of set_extend Storage.is_pinned Storage.evict
second_confirms = refl

abbrev Reached : State → Type 0
Reached state =
    Evictions.History sample_crates sample_net sample_channel sample_swarm_laws 0 state.0 state.1

begun : Reached half_confirmed
begun =
    Evictions.handled probing.0 probing.1 2 0 (response 0 (held_chunks (773 ∷ []))) half_confirmed
      (Evictions.ticked fresh alone 2 0 probing (Evictions.start 0 [] alone refl) probes)
      first_confirms

note_held_safe_example :
    (Map.get 773 [] ≡ Map.get 773 holding.storage.chunks)
    ⊎ ((peer : PeerId) × (Map.get 1 ((1, 1) ∷ []) ≡ some peer)
        × IsHeldElsewhere sample_crates sample_net sample_channel 2 773
            (or_default (Map.get 773 (confirm_all peer (773 ∷ []) ((773, 2 ∷ []) ∷ []))))
            half_confirmed.1)
note_held_safe_example =
    note_held_safe sample_crates sample_net sample_channel sample_swarm_laws 0 2 1 (773 ∷ [])
      half_confirmed.0 half_confirmed.1 evicted 773 begun second_confirms

-- Two members, who both are to hold the chunk, and this one does not yet.
abbrev lacking : Ctx sample_crates sample_net
lacking = record { swarm = (0, 1 ∷ []); filesystem = fs; answered = [] }

abbrev pulling : State
pulling = (record fresh { swarm_tx = fetch_command 773 none true ∷ [] }, lacking)

searched : reachable_chunk_hashes sample_crates 2 fs ≡ some (773 ∷ [])
unfolding reachable_chunk_hashes search_loop visit_all visit_child note_child Tree.metadata
    Tree.children_of Map.get set_extend
searched = refl

pulls : rebalance sample_crates sample_net sample_channel 2 0 fresh lacking ≡ some pulling
unfolding new rebalance rebalance_loop rebalance_one Map.get top_peers sort insert hrw_score
    reachable_chunk_hashes search_loop visit_all visit_child note_child Tree.metadata
    Tree.children_of set_extend Storage.is_pinned Storage.is_cached Storage.new
pulls = refl

rebalance-Pulls_example :
    Pulls sample_crates sample_net sample_channel sample_channel_laws 0
      (1 ∷ 0 ∷ [])
      (773 ∷ [])
      fs.storage
      64
      []
      (fetch_command 773 none true ∷ [])
unfolding new
rebalance-Pulls_example =
    rebalance-Pulls sample_crates sample_net sample_channel sample_channel_laws 2 0 fresh lacking
      (773 ∷ []) pulling searched pulls

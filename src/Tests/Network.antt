-- ===== src/Tests/Network.antt =====
-- A batch that a bridge sends, and a tick of a dispatcher.
use mathlib.Core.List.{Memᴰ}
use edfs.Crates.{NodeOperation}
use edfs.Domain.{directory}
use edfs.Network.Bridge.{Arrival, arrived, deadline, run}
use edfs.Network.Bridge.Batches.{Sent, run-Sent}
use edfs.Network.Dispatcher.{
  State, Outside, received, handle_replication, handle_chunks, handle_all, tick_sync,
  tick_replication, tick_all, dispatch, tick,
}
use edfs.Network.Dispatcher.Histories.{Both, tick-Both}
use edfs.Network.Exchange.{sync_tick}
use edfs.Network.Fetcher
use edfs.Network.Fetcher.{
  fetch_chunk, walk_down, next_targets, untried, send_all, send_pull, is_blocked,
}
use edfs.Network.Fetcher.History
use edfs.Network.Protocol.{SwarmCommand, fetch_command}
use edfs.Network.Replication.Handling
use edfs.Network.Replication.History as Evictions
use edfs.Hrw.{top_peers, sort, insert, hrw_score}
use edfs.FileSystem.Chunks.{operation_ids, operations_missing_from}
use edfs.Hlc
use edfs.Hlc.{pack}
use edfs.Network.Exchange.{sync_handle}
use edfs.Network.Exchange.Agreement.{exchange_complete}
use edfs.Network.Fetcher.{Ctx}
use edfs.Network.Protocol.{response, missing_operations}
use edfs.Tests.Exchange.{made_there, two-AreDistinct}
use edfs.Tests.Files
use edfs.Tests.Samples.{Nodes, sample_laws, sample_log_laws, sample_union_law}
use edfs.Tree
use edfs.Tree.{NodeTree}
use edfs.Tree.Clock
use edfs.Tree.Clock.{Grown, move_and_apply_later}
use edfs.Prelude.{◌↔◌, ◌⊎◌, inl, ◌≤◌, ◌<◌, All}
use edfs.Network.Dispatcher.Runs
use edfs.Network.Dispatcher.Runs.{run_conserved}
use edfs.Network.Fetcher.Sound.{is_idle}
use edfs.Network.Fetcher.Waiters.{waiting, answered_to}
use edfs.Prelude.{◌+◌, count}
use edfs.Prelude.Map
use edfs.Tests.Fetches.{idle, fetching}
use edfs.Tests.Samples.{sample_crates}
use edfs.Tests.Swarm.{sample_net, sample_swarm_laws, sample_channel, sample_channel_laws}
use edfs.Prelude.{◌≡◌, refl, some, false, List, [], ◌∷◌, inr, arith, Bool}

abbrev operation : NodeOperation
operation = record {
  actor_id = 1;
  counter = 3;
  parent_id = 0;
  metadata = directory "d";
  child_id = 8;
}

abbrev arrivals : List Arrival
arrivals = arrived (operation ∷ []) ∷ arrived (operation ∷ operation ∷ []) ∷ deadline ∷ []

run-Sent_example :
    (after : List SwarmCommand × Bool) × (run sample_channel 3 arrivals [] ≡ some after)
    × Sent sample_channel sample_channel_laws (operation ∷ operation ∷ operation ∷ []) [] after
run-Sent_example = run-Sent sample_channel sample_channel_laws 3 arrivals [] (omega arith)

abbrev outside : Outside
outside = record { fuel = 2; now = 0; now_at = λ o. 0; random = λ n. 0 }

abbrev started : State sample_crates sample_net sample_channel
started = (
  record {
    sync = record { last_sync = 0 };
    chunks = Fetcher.new;
    replication = Handling.new sample_crates sample_net sample_channel 1 [];
  },
  idle,
)

abbrev going : State sample_crates sample_net sample_channel
going = (record started.0 { chunks = fetching }, record idle { swarm = (2, 1 ∷ 2 ∷ []) })

goes :
    tick sample_crates sample_net sample_channel outside
      (received (some (fetch_command 773 (some 50) false)))
      started
    ≡ some (inr going)
unfolding tick dispatch handle_all handle_chunks handle_replication tick_all tick_sync
    tick_replication sync_tick Handling.new Handling.tick Handling.tick_rebalance
    Handling.tick_eviction Fetcher.new fetch_chunk walk_down next_targets untried top_peers sort
    insert hrw_score send_all send_pull is_blocked Map.get Map.insert
goes = refl

tick-Both_example : Both sample_crates sample_net sample_channel sample_swarm_laws 0 (50 ∷ []) going
tick-Both_example =
    tick-Both sample_crates sample_net sample_channel sample_swarm_laws 0 outside
      (received (some (fetch_command 773 (some 50) false))) [] started going
      (History.start idle refl, Evictions.start 1 [] idle refl) goes

abbrev peers_tree : NodeTree Nodes
peers_tree =
    Tree.apply_operations sample_crates (λ o. 7) (Tree.new sample_crates 1) (operation ∷ [])

grown : Grown sample_crates sample_laws sample_log_laws peers_tree
grown =
    Clock.applied (Tree.new sample_crates 1) (λ o. 7) (operation ∷ []) (Clock.start 1)
      (λ o. omega arith) (omega arith, tt)

move_and_apply_later_example :
    All (λ l. l.counter ≤ pack peers_tree.clock) (operation ∷ [])
    × All
        (λ l.
          l.counter
          < (Tree.move_and_apply sample_crates 9 peers_tree 8 0 (directory "e")).0.counter)
        (operation ∷ [])
unfolding Tree.apply_operations Tree.new Tree.observe_all Hlc.observe Hlc.new
move_and_apply_later_example =
    move_and_apply_later sample_crates sample_laws sample_log_laws peers_tree 9 8 0 (directory "e")
      grown (omega arith) (omega arith)

abbrev ahead : Ctx sample_crates sample_net
ahead = record idle { filesystem = Files.fs }

-- The peer that asks has an operation of its own, made at the same value of its clock.
abbrev behind : Ctx sample_crates sample_net
behind = record idle {
  filesystem = record Files.fs {
    tree =
        Tree.apply_operations sample_crates (λ o. 7) (Tree.new sample_crates 2) (made_there ∷ []);
  };
}

exchange_complete_example :
    Memᴰ Files.empty_a
      (sync_handle sample_crates sample_net
        (λ o. 7)
        (response 4 (
          missing_operations (
            operations_missing_from sample_crates ahead.filesystem
              (operation_ids sample_crates behind.filesystem))))
        behind).filesystem.tree.tree.log
    ↔ (Memᴰ Files.empty_a (made_there ∷ []) ⊎ Memᴰ Files.empty_a (Files.empty_a ∷ []))
unfolding Tree.apply_operations Tree.new
exchange_complete_example =
    exchange_complete sample_crates sample_net sample_union_law (λ o. 7) 4 behind ahead
      Files.empty_a
      (two-AreDistinct made_there Files.empty_a (inl (λ e. omega (arith, e)))
        (inl (λ e. omega (arith, e))))

run_conserved_example :
    (waiting 50 fetching + answered_to 50 [] ≡ count 50 (50 ∷ []))
    × (is_idle (Map.get 773 fetching.sessions) ≡ false)
run_conserved_example =
    run_conserved sample_crates sample_net sample_channel sample_swarm_laws 0 50 773 (50 ∷ []) going
      (Runs.ticked outside (received (some (fetch_command 773 (some 50) false))) [] started going
        (Runs.start (record { last_sync = 0 }) 1 [] idle refl refl) goes)

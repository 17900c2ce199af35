-- ===== src/Tests/Fetches.antt =====
-- A chunk that two peers are asked for, and the answer of one of them.
use edfs.Hrw.{top_peers, sort, insert, hrw_score}
use edfs.Network.Fetcher.{
  ChunkFetcher, FetchSession, Ctx, new, fetch_chunk, walk_down, next_targets, untried, send_all,
  send_pull, is_blocked, drop_requests,
}
use edfs.Network.Fetcher.Responses.{handle, handle_response, complete}
use edfs.Network.Fetcher.History
use edfs.Network.Fetcher.History.{history_conserved, history-Sound, history_answered}
use edfs.Network.Fetcher.Sound.{Sound}
use edfs.Network.Fetcher.Storing.{handle-IsValid}
use edfs.Network.Fetcher.Targets.{next_targets_complete}
use edfs.Network.Fetcher.Verified.{Received, handle_response-Received}
use edfs.Network.Fetcher.Waiters.{waiting, answered_to}
use edfs.Network.Protocol.{ChunkReply, command, fetch_command, response, chunk_content}
use edfs.Prelude.Map
use edfs.Storage
use edfs.Storage.Accounts.{IsValid, new-IsValid}
use edfs.Tests.Reachable.{fs}
use edfs.Tests.Reads.{bytes}
use edfs.Tests.Samples.{sample_crates}
use edfs.Tests.Swarm.{sample_net, sample_swarm_laws}
use edfs.Prelude.{
  ◌≡◌, refl, ◌+◌, some, false, List, [], ◌∷◌, count, length, mem, ◌≤◌, ◌≢◌, ◌⊎◌, arith, true,
}

abbrev pub idle : Ctx sample_crates sample_net
idle = record { swarm = (0, 1 ∷ 2 ∷ []); filesystem = fs; answered = [] }

abbrev pub session : FetchSession
session = record {
  waiters = 50 ∷ [];
  attempts = (0, 2) ∷ (1, 1) ∷ [];
  tried = 1 ∷ 2 ∷ [];
  pin = false;
}

abbrev pub fetching : ChunkFetcher
fetching = record {
  sessions = (773, session) ∷ [];
  requests = (0, 773) ∷ (1, 773) ∷ [];
  blocked_until = [];
}

abbrev asked : Ctx sample_crates sample_net
asked = record idle { swarm = (2, 1 ∷ 2 ∷ []) }

abbrev answered : Ctx sample_crates sample_net
answered = record asked {
  filesystem = record fs {
    storage = Storage.cache fs.storage (record { hash = 773; bytes = bytes });
  };
  answered = (50, some bytes) ∷ [];
}

fetch_starts :
    handle sample_crates sample_net 0 (command (fetch_command 773 (some 50) false)) new idle
    ≡ some (fetching, asked)
unfolding new fetch_chunk walk_down next_targets untried top_peers sort insert hrw_score send_all
    send_pull is_blocked Map.get Map.insert
fetch_starts = refl

fetch_ends :
    handle sample_crates sample_net 0 (response 1 (chunk_content bytes)) fetching asked
    ≡ some (new, answered)
unfolding new handle_response complete drop_requests Map.get Map.remove
fetch_ends = refl

abbrev Reached : List ChunkReply → ChunkFetcher → Ctx sample_crates sample_net → Type 0
Reached = History.History sample_crates sample_net sample_swarm_laws

begun : Reached (50 ∷ []) fetching asked
begun =
    History.handled [] new idle 0 (command (fetch_command 773 (some 50) false)) (fetching, asked)
      (History.start idle refl) fetch_starts

ended : Reached (50 ∷ []) new answered
ended =
    History.handled (50 ∷ []) fetching asked 0 (response 1 (chunk_content bytes)) (new, answered)
      begun fetch_ends

history_conserved_example : waiting 50 fetching + answered_to 50 [] ≡ count 50 (50 ∷ [])
history_conserved_example =
    history_conserved sample_crates sample_net sample_swarm_laws 50 (50 ∷ []) fetching asked begun

history-Sound_example : Sound sample_crates sample_net sample_swarm_laws fetching (2, 1 ∷ 2 ∷ [])
history-Sound_example =
    history-Sound sample_crates sample_net sample_swarm_laws (50 ∷ []) fetching asked begun

history_answered_example : answered_to 50 ((50, some bytes) ∷ []) ≡ count 50 (50 ∷ [])
unfolding new Map.get
history_answered_example =
    history_answered sample_crates sample_net sample_swarm_laws 50 (50 ∷ []) new answered ended
      (λ id. refl)

handle_response-Received_example :
    Received sample_crates sample_net 773 session bytes asked (new, answered)
unfolding new handle_response complete drop_requests Map.get Map.remove
handle_response-Received_example =
    handle_response-Received sample_crates sample_net 0 1 773 session bytes fetching asked
      (new, answered) refl refl fetch_ends

next_targets_complete_example :
    (length (next_targets sample_crates sample_net 773 (1 ∷ 2 ∷ []) (2 ∷ []) 3) ≤ 3)
    × ((mem 1 (next_targets sample_crates sample_net 773 (1 ∷ 2 ∷ []) (2 ∷ []) 3) ≡ false)
        ⊎ ((mem 1 (1 ∷ 2 ∷ []) ≡ true) × (mem 1 (2 ∷ []) ≡ false)))
    × ((next_targets sample_crates sample_net 773 (1 ∷ 2 ∷ []) (2 ∷ []) 3 ≢ [])
        ⊎ (mem 1 (1 ∷ 2 ∷ []) ≡ false)
        ⊎ (mem 1 (2 ∷ []) ≡ true))
next_targets_complete_example =
    next_targets_complete sample_crates sample_net 773 (1 ∷ 2 ∷ []) (2 ∷ []) 3 1 (omega arith)

handle-IsValid_example :
    (after : ChunkFetcher × Ctx sample_crates sample_net) × (handle sample_crates sample_net 0
        (response 1 (chunk_content bytes))
        fetching
        asked
      ≡ some after)
    × IsValid after.1.filesystem.storage
handle-IsValid_example =
    handle-IsValid sample_crates sample_net 0 (response 1 (chunk_content bytes)) fetching asked
      (new-IsValid 10)

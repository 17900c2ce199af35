-- ===== src/Network/Bridge/Batches.antt =====
-- src/network/network_bridge.rs: what the task of a `NetworkBridge` sends is what it received, in order,
-- in commands of a bounded size.
use edfs.Crates.{NodeOperation}
use edfs.Network.Bridge.{max_batch_operations, Arrival, arrived, deadline, gather, send_batch, run}
use edfs.Network.Channel.{CommandChannel, ChannelLaws}
use edfs.Network.Protocol.{SwarmCommand, broadcast_operations, fetch_command}
use edfs.Prelude.{
  ℕ, zero, suc, ◌≡◌, refl, ◌≤◌, Bool, true, false, ltb, min, some, List, [], ◌∷◌, ◌++◌, length,
  take, drop, length-take, length-drop, take-append-drop, Option-cases, Bool-cases, inl, inr, arith,
  All, All-append, sym, ap, ◌∙◌, subst, ◌⊎◌,
}
use mathlib.Core.List.{append-nil, append_assoc}

abbrev pub operations_of : SwarmCommand → List NodeOperation
operations_of (broadcast_operations operations) = operations
operations_of (fetch_command hash reply pin) = []

-- The operations of some commands, and of some arrivals, in order.
abbrev pub sent_operations : List SwarmCommand → List NodeOperation
sent_operations [] = []
sent_operations (c ∷ cs) = operations_of c ++ sent_operations cs

abbrev pub arrived_operations : List Arrival → List NodeOperation
arrived_operations [] = []
arrived_operations (deadline ∷ later) = arrived_operations later
arrived_operations (arrived operations ∷ later) = operations ++ arrived_operations later

-- A command that broadcasts some operations, and not too many.
pub record IsBatch (c : SwarmCommand) : Type 0 where
  pub operations : List NodeOperation
  pub is_broadcast : c ≡ broadcast_operations operations
  pub is_filled : 1 ≤ length operations
  pub bounded : length operations ≤ max_batch_operations

sent_operations-append :
    (cs ds : List SwarmCommand)
    → sent_operations (cs ++ ds) ≡ sent_operations cs ++ sent_operations ds
sent_operations-append [] ds = refl
sent_operations-append (c ∷ cs) ds =
    ap (λ xs. operations_of c ++ xs) (sent_operations-append cs ds)
    ∙ sym (append_assoc (operations_of c) (sent_operations cs) (sent_operations ds))

-- Nothing that arrives while a batch is gathered is lost or moved.
gather_lem :
    (batch : List NodeOperation) (later : List Arrival)
    → ((gather batch later).0 ++ arrived_operations (gather batch later).1
        ≡ batch ++ arrived_operations later)
      × (length (gather batch later).1 ≤ length later)
unfolding gather
gather_lem batch [] = (refl, omega arith)
gather_lem batch (deadline ∷ later) = elim (Bool-cases (ltb (length batch) max_batch_operations)) [
  | inl e ↦ rw (gather, e) (refl, omega arith)
  | inr e ↦ rw (gather, e) (refl, omega arith)
]
gather_lem batch (arrived operations ∷ later) =
    elim (Bool-cases (ltb (length batch) max_batch_operations)) [
      | inl e ↦
          let (same, shorter) = gather_lem (batch ++ operations) later in
          rw (gather, e)
            (same ∙ append_assoc batch operations (arrived_operations later), omega arith)
      | inr e ↦ rw (gather, e) (refl, omega arith)
    ]

module _ (chan : CommandChannel) (laws : ChannelLaws chan) where
  -- What was sent between two states of a sender: commands that are batches, of all of `expected` where
  -- the channel stayed open, and of a first part of it where it was closed.
  pub record Sent (expected : List NodeOperation) (before : chan.Sender)
      (after : chan.Sender × Bool) : Type 0 where
    pub commands : List SwarmCommand
    pub unsent : List NodeOperation
    pub queued : laws.sent after.0 ≡ laws.sent before ++ commands
    pub are_batches : All IsBatch commands
    pub in_order : sent_operations commands ++ unsent ≡ expected
    pub ended : (after.1 ≡ true) ⊎ (unsent ≡ [])

  unsent_yet :
      (expected : List NodeOperation) (tx : chan.Sender) (closed : Bool)
      → (closed ≡ true) ⊎ (expected ≡ [])
      → Sent expected tx (tx, closed)
  unsent_yet expected tx closed e = record {
    commands = [];
    unsent = expected;
    queued = sym (append-nil (laws.sent tx));
    are_batches = tt;
    in_order = refl;
    ended = e;
  }

  -- One stretch after another, where the channel stayed open in the first.
  append-Sent :
      (xs ys : List NodeOperation) (tx tx' : chan.Sender) (after : chan.Sender × Bool)
      → Sent xs tx (tx', false)
      → Sent ys tx' after
      → Sent (xs ++ ys) tx after
  append-Sent xs ys tx tx' after a b =
      let none_left : a.unsent ≡ [] = elim a.ended [
        | inl t ↦ absurd (ground (arith, t))
        | inr e ↦ e
      ] in
      let whole : sent_operations a.commands ≡ xs =
        sym (append-nil (sent_operations a.commands))
        ∙ ap (λ u. sent_operations a.commands ++ u) (sym none_left)
        ∙ a.in_order in
      record {
        commands = a.commands ++ b.commands;
        unsent = b.unsent;
        queued =
            b.queued
            ∙ ap (λ sent. sent ++ b.commands) a.queued
            ∙ append_assoc (laws.sent tx) a.commands b.commands;
        are_batches = All-append IsBatch a.commands b.commands a.are_batches b.are_batches;
        in_order =
            ap (λ sent. sent ++ b.unsent) (sent_operations-append a.commands b.commands)
            ∙ append_assoc (sent_operations a.commands) (sent_operations b.commands) b.unsent
            ∙ ap (λ sent. sent_operations a.commands ++ sent) b.in_order
            ∙ ap (λ sent. sent ++ ys) whole;
        ended = b.ended;
      }

  -- Nothing more is sent once the channel is closed.
  closed-Sent :
      (xs ys : List NodeOperation) (tx tx' : chan.Sender)
      → Sent xs tx (tx', true)
      → Sent (xs ++ ys) tx (tx', true)
  closed-Sent xs ys tx tx' a = record {
    commands = a.commands;
    unsent = a.unsent ++ ys;
    queued = a.queued;
    are_batches = a.are_batches;
    in_order =
        sym (append_assoc (sent_operations a.commands) a.unsent ys)
        ∙ ap (λ sent. sent ++ ys) a.in_order;
    ended = inl refl;
  }

  one-Sent :
      (operations : List NodeOperation) (tx tx' : chan.Sender)
      → 1 ≤ length operations
      → length operations ≤ max_batch_operations
      → chan.send tx (broadcast_operations operations) ≡ some tx'
      → Sent operations tx (tx', false)
  one-Sent operations tx tx' filled bounded s = record {
    commands = broadcast_operations operations ∷ [];
    unsent = [];
    queued = laws.sent-send tx tx' (broadcast_operations operations) s;
    are_batches = (
      record {
        operations = operations;
        is_broadcast = refl;
        is_filled = filled;
        bounded = bounded;
      },
      tt,
    );
    in_order = append-nil (operations ++ []) ∙ append-nil operations;
    ended = inr refl;
  }

  send_batch-Sent :
      (fuel : ℕ) (batch : List NodeOperation) (tx : chan.Sender)
      → length batch ≤ fuel
      → (after : chan.Sender × Bool) × (send_batch chan fuel batch tx ≡ some after)
        × Sent batch tx after
  unfolding send_batch
  send_batch-Sent zero [] tx enough = ((tx, false), refl, unsent_yet [] tx false (inr refl))
  send_batch-Sent (suc fuel) [] tx enough = ((tx, false), refl, unsent_yet [] tx false (inr refl))
  send_batch-Sent zero (o ∷ batch) tx enough = absurd (omega arith)
  send_batch-Sent (suc fuel) (o ∷ batch) tx enough =
      let count : ℕ = min (length (o ∷ batch)) max_batch_operations in
      let first : List NodeOperation = take count (o ∷ batch) in
      let rest : List NodeOperation = drop count (o ∷ batch) in
      let taken : length first ≡ min count (length (o ∷ batch)) = length-take count (o ∷ batch) in
      let filled : 1 ≤ length first = omega (arith, taken) in
      let bounded : length first ≤ max_batch_operations = omega (arith, taken) in
      let less : length rest ≤ fuel = omega (arith, length-drop count (o ∷ batch)) in
      elim (Option-cases (chan.send tx (broadcast_operations first))) [
        | inl n ↦ rw (send_batch, n) ((tx, true), refl, unsent_yet (o ∷ batch) tx true (inl refl))
        | inr (tx', s) ↦
            let (after, e, sent) = send_batch-Sent fuel rest tx' less in
            rw (send_batch, s)
              (
                after,
                e,
                subst (λ all. Sent all tx after) (take-append-drop count (o ∷ batch))
                    (append-Sent first rest tx tx' after (one-Sent first tx tx' filled bounded s)
                      sent),
              )
      ]

  -- Given fuel for all that arrives, the task sends all the operations that arrived, in order, in
  -- commands that broadcast between one and `max_batch_operations` of them, or, where the channel was
  -- closed, a first part of them.
  pub run-Sent :
      (fuel : ℕ) (arrivals : List Arrival) (tx : chan.Sender)
      → length arrivals ≤ fuel
      → (after : chan.Sender × Bool) × (run chan fuel arrivals tx ≡ some after)
        × Sent (arrived_operations arrivals) tx after
  unfolding run
  run-Sent zero [] tx enough = ((tx, false), refl, unsent_yet [] tx false (inr refl))
  run-Sent (suc fuel) [] tx enough = ((tx, false), refl, unsent_yet [] tx false (inr refl))
  run-Sent zero (a ∷ later) tx enough = absurd (omega arith)
  run-Sent (suc fuel) (deadline ∷ later) tx enough = run-Sent fuel later tx (omega arith)
  run-Sent (suc fuel) (arrived first ∷ later) tx enough =
      let (batch, later') = gather first later in
      let (same, shorter) = gather_lem first later in
      let less : length later' ≤ fuel = omega (arith, shorter) in
      let ((tx', closed), e, sent) = send_batch-Sent (length batch) batch tx (omega arith) in
      elim (Bool-cases closed) [
        | inl c ↦
            let ending : Sent batch tx (tx', true) = subst (λ b. Sent batch tx (tx', b)) c sent in
            rw (run, e, c)
              (
                (tx', true),
                refl,
                subst (λ all. Sent all tx (tx', true)) same
                    (closed-Sent batch (arrived_operations later') tx tx' ending),
              )
        | inr c ↦
            let going : Sent batch tx (tx', false) = subst (λ b. Sent batch tx (tx', b)) c sent in
            let (after, e', rest) = run-Sent fuel later' tx' less in
            rw (run, e, c)
              (
                after,
                e',
                subst (λ all. Sent all tx after) same
                    (append-Sent batch (arrived_operations later') tx tx' after going rest),
              )
      ]

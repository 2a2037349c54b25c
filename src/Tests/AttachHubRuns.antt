-- ===== src/Tests/AttachHubRuns.antt =====
-- Runs of internal/harness/attachhub.go on the model, and the theorems at them.
use llm_bridge_server.Prelude.{ℕ, ◌≡◌, refl, List, [], ◌∷◌, Option, none, some, pos}
use llm_bridge_server.AttachHub.Ring.{
  copy_at, write_part, write_all, append_ring, snapshot_ring, ring_cap_of,
}
use llm_bridge_server.AttachHub.Recent.{recent}
use llm_bridge_server.AttachHub.Hub.{
  AttachHub, new_attach_hub, Action, outputs, attaches, detaches, receives, types, act_all, act,
  broadcast, attach, detach, write, send_all, has_client, remove_client, any_client, receive_frame,
}
use llm_bridge_server.AttachHub.Writer.{HasWriter}
use llm_bridge_server.AttachHub.Streams.{AllCaughtUp}
use llm_bridge_server.AttachHub.Faithful.{output_of, act_all-IsFaithful, act_all-HasWriter}

-- A ring of four bytes that a second write wraps.
abbrev two_writes : List Action
two_writes = outputs (1 ∷ 2 ∷ 3 ∷ []) ∷ outputs (4 ∷ 5 ∷ []) ∷ []

abbrev snapshot_of : Option AttachHub → List ℕ
snapshot_of none = []
snapshot_of (some h) = snapshot_ring h.ring

wraps : snapshot_of (act_all two_writes (new_attach_hub (pos 4))) ≡ 2 ∷ 3 ∷ 4 ∷ 5 ∷ []
unfolding act_all act broadcast append_ring write_all write_part copy_at snapshot_ring send_all
    new_attach_hub ring_cap_of
wraps = refl

-- Two clients attach, the writer types and leaves, and the other is promoted.
abbrev handover : List Action
handover =
    outputs (1 ∷ 2 ∷ 3 ∷ [])
    ∷ attaches
    ∷ attaches
    ∷ outputs (4 ∷ 5 ∷ [])
    ∷ types 0 (9 ∷ [])
    ∷ receives 1
    ∷ detaches 0 0
    ∷ types 1 (8 ∷ [])
    ∷ []

abbrev typed_of : Option AttachHub → List ℕ
typed_of none = []
typed_of (some h) = h.typed

both_typed : typed_of (act_all handover (new_attach_hub (pos 4))) ≡ 9 ∷ 8 ∷ []
unfolding act_all act broadcast append_ring write_all write_part copy_at snapshot_ring send_all
    new_attach_hub ring_cap_of attach detach write has_client remove_client any_client receive_frame
both_typed = refl

act_all-IsFaithful_example :
    (h : AttachHub) × (act_all handover (new_attach_hub (pos 4)) ≡ some h)
    × (snapshot_ring h.ring ≡ recent h.ring_cap (output_of handover))
    × AllCaughtUp (output_of handover) h.clients
act_all-IsFaithful_example = act_all-IsFaithful (pos 4) handover

act_all-HasWriter_example :
    (h : AttachHub) × (act_all handover (new_attach_hub (pos 4)) ≡ some h)
    × HasWriter h.clients h.writer
act_all-HasWriter_example = act_all-HasWriter (pos 4) handover

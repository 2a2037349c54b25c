-- ===== src/AttachHub/Faithful.antt =====
-- AttachHub of internal/harness/attachhub.go over its actions: its replay, its streams, its writer.
use mathlib.Core.Path.{subst}
use mathlib.Core.List.{append-nil, append_assoc}
use llm_bridge_server.Prelude.{
  ℕ, ◌-◌, ◌<◌, ◌≡◌, refl, ◌∙◌, sym, ap, not, ◌||◌, ◌==◌, List, [], ◌∷◌, ◌++◌, some, arith,
  Bool-cases, inl, inr, length, take, take-append-drop, ℤ, pos, negsuc,
}
use llm_bridge_server.AttachHub.Ring.{snapshot_ring, ring_cap_of}
use llm_bridge_server.AttachHub.Recent.{recent}
use llm_bridge_server.AttachHub.Replay.{Holds, unwritten, append_ring-Holds, Holds-snapshot}
use llm_bridge_server.AttachHub.Hub.{
  AttachHub, new_attach_hub, has_client, is_writer, send_all, broadcast, attach, detach, write,
  resize, begin_shutdown, finish_shutdown, receive_frame, Action, outputs, attaches, detaches,
  receives, types, resizes, begins_shutdown, finishes_shutdown, act, act_all,
}
use llm_bridge_server.AttachHub.Writer.{HasWriter, IsHeld, act_all-IsHeld}
use llm_bridge_server.AttachHub.Streams.{
  joined, AllCaughtUp, send_all-AllCaughtUp, receive_frame-AllCaughtUp, remove_client-AllCaughtUp,
  append-AllCaughtUp,
}

-- The ring holds the end of the output, and so was given every client that kept up.
pub record IsFaithful (h : AttachHub) (output : List ℕ) : Type 0 where
  pub replay : Holds h.ring_cap h.ring output
  pub streams : AllCaughtUp output h.clients

-- The output that the actions carry.
unfoldable pub output_of : List Action → List ℕ
output_of [] = []
output_of (outputs bytes ∷ actions) = bytes ++ output_of actions
output_of (a ∷ actions) = output_of actions

abbrev pub bytes_of : Action → List ℕ
bytes_of (outputs bytes) = bytes
bytes_of _ = []

attach-IsFaithful :
    (h : AttachHub) (output : List ℕ) → IsFaithful h output → IsFaithful (attach h).0 output
unfolding attach AllCaughtUp joined
attach-IsFaithful h output k = elim (Bool-cases h.closed) [
  | inl e ↦ rw e (record { replay = k.replay; streams = k.streams })
  | inr e ↦
      let n = length output - h.ring_cap in
      let fresh : (before : List ℕ) × (before ++ (snapshot_ring h.ring ++ []) ≡ output) = (
        take n output,
        ap (λ l. take n output ++ l) (append-nil (snapshot_ring h.ring) ∙ Holds-snapshot k.replay)
            ∙ (unfold recent in take-append-drop n output),
      ) in
      rw e (record {
        replay = k.replay;
        streams = append-AllCaughtUp output h.clients _ k.streams (λ none_dropped. fresh, tt);
      })
]

detach-IsFaithful :
    (choice id : ℕ) (h : AttachHub) (output : List ℕ)
    → IsFaithful h output
    → IsFaithful (detach choice id h) output
unfolding detach
detach-IsFaithful choice id h output k = elim (Bool-cases (has_client id h.clients)) [
  | inr e ↦ rw e k
  | inl e ↦ rw e (record {
    replay = k.replay;
    streams = remove_client-AllCaughtUp output id h.clients k.streams;
  })
]

broadcast-IsFaithful :
    (bytes : List ℕ) (h : AttachHub) (output : List ℕ)
    → IsFaithful h output
    → (h' : AttachHub) × (broadcast bytes h ≡ some h') × IsFaithful h' (output ++ bytes)
unfolding broadcast
broadcast-IsFaithful bytes h output k =
    let (ring', run, holds) = append_ring-Holds h.ring_cap bytes k.replay in
    (
      record h { ring = ring'; clients = send_all bytes h.clients },
      rw (run, broadcast) refl,
      record { replay = holds; streams = send_all-AllCaughtUp output bytes h.clients k.streams },
    )

write-IsFaithful :
    (id : ℕ) (bytes : List ℕ) (h : AttachHub) (output : List ℕ)
    → IsFaithful h output
    → IsFaithful (write id bytes h) output
unfolding write
write-IsFaithful id bytes h output k = elim (Bool-cases (is_writer id h.writer)) [
  | inl e ↦ rw e (record { replay = k.replay; streams = k.streams })
  | inr e ↦ rw e k
]

resize-IsFaithful :
    (id rows cols : ℕ) (h : AttachHub) (output : List ℕ)
    → IsFaithful h output
    → IsFaithful (resize id rows cols h) output
unfolding resize
resize-IsFaithful id rows cols h output k =
    elim (Bool-cases (rows == 0 || cols == 0 || not (is_writer id h.writer))) [
      | inl e ↦ rw e k
      | inr e ↦ rw e (record { replay = k.replay; streams = k.streams })
    ]

finish_shutdown-IsFaithful :
    (h : AttachHub) (output : List ℕ) → IsFaithful h output → IsFaithful (finish_shutdown h) output
unfolding finish_shutdown AllCaughtUp
finish_shutdown-IsFaithful h output k = elim (Bool-cases h.closed) [
  | inl e ↦ rw e (record { replay = k.replay; streams = tt })
  | inr e ↦ rw e (record { replay = k.replay; streams = k.streams })
]

act-IsFaithful :
    (a : Action) (h : AttachHub) (output : List ℕ)
    → IsFaithful h output
    → (h' : AttachHub) × (act a h ≡ some h') × IsFaithful h' (output ++ bytes_of a)
unfolding act
act-IsFaithful (outputs bytes) h output k = broadcast-IsFaithful bytes h output k
act-IsFaithful attaches h output k =
    ((attach h).0, refl, rw (append-nil output) (attach-IsFaithful h output k))
act-IsFaithful (detaches choice id) h output k =
    (detach choice id h, refl, rw (append-nil output) (detach-IsFaithful choice id h output k))
act-IsFaithful (receives id) h output k = (
  record h { clients = receive_frame id h.clients },
  refl,
  rw (append-nil output) (record {
    replay = k.replay;
    streams = receive_frame-AllCaughtUp output id h.clients k.streams;
  }),
)
act-IsFaithful (types id bytes) h output k =
    (write id bytes h, refl, rw (append-nil output) (write-IsFaithful id bytes h output k))
act-IsFaithful (resizes id rows cols) h output k = (
  resize id rows cols h,
  refl,
  rw (append-nil output) (resize-IsFaithful id rows cols h output k),
)
act-IsFaithful begins_shutdown h output k = (
  begin_shutdown h,
  refl,
  rw (append-nil output) (record { replay = k.replay; streams = k.streams }),
)
act-IsFaithful finishes_shutdown h output k =
    (finish_shutdown h, refl, rw (append-nil output) (finish_shutdown-IsFaithful h output k))

output_of-cons :
    (a : Action) (actions : List Action) → output_of (a ∷ actions) ≡ bytes_of a ++ output_of actions
unfolding output_of
output_of-cons (outputs bytes) actions = refl
output_of-cons attaches actions = refl
output_of-cons (detaches choice id) actions = refl
output_of-cons (receives id) actions = refl
output_of-cons (types id bytes) actions = refl
output_of-cons (resizes id rows cols) actions = refl
output_of-cons begins_shutdown actions = refl
output_of-cons finishes_shutdown actions = refl

act_all-IsFaithful_from :
    (actions : List Action) (h : AttachHub) (output : List ℕ)
    → IsFaithful h output
    → (h' : AttachHub) × (act_all actions h ≡ some h') × IsFaithful h' (output ++ output_of actions)
unfolding act_all output_of
act_all-IsFaithful_from [] h output k = (h, refl, rw (append-nil output) k)
act_all-IsFaithful_from (a ∷ actions) h output k =
    let (g, one, faithful) = act-IsFaithful a h output k in
    let (h', run, rest) = act_all-IsFaithful_from actions g (output ++ bytes_of a) faithful in
    let joins : (output ++ bytes_of a) ++ output_of actions ≡ output ++ output_of (a ∷ actions) =
      append_assoc output (bytes_of a) (output_of actions)
      ∙ ap (λ l. output ++ l) (sym (output_of-cons a actions)) in
    (h', rw (one, act_all) run, subst (IsFaithful h') joins rest)

ring_cap_of_pos : (n : ℤ) → 0 < ring_cap_of n
unfolding ring_cap_of
ring_cap_of_pos (pos n) = ground arith
ring_cap_of_pos (negsuc n) = omega arith

-- Whatever the pump, the clients and the child's exit do to a hub, it comes to a state in which its
-- ring replays the last ring_cap bytes of the output, and in which the snapshot of each attached
-- client that dropped no frame, with the frames sent to it since, is the end of the output: without
-- a gap, without a byte twice.
pub act_all-IsFaithful :
    (ring_buffer_bytes : ℤ) (actions : List Action)
    → (h : AttachHub) × (act_all actions (new_attach_hub ring_buffer_bytes) ≡ some h)
      × (snapshot_ring h.ring ≡ recent h.ring_cap (output_of actions))
      × AllCaughtUp (output_of actions) h.clients
unfolding new_attach_hub AllCaughtUp
act_all-IsFaithful n actions =
    let start : IsFaithful (new_attach_hub n) [] = record {
      replay = unwritten (ring_cap_of_pos n);
      streams = tt;
    } in
    let (h, run, k) = act_all-IsFaithful_from actions (new_attach_hub n) [] start in
    (h, run, Holds-snapshot k.replay, k.streams)

-- In every state that a new hub comes to the writer is one of the attached clients, and where there
-- is no writer nobody is attached.
pub act_all-HasWriter :
    (ring_buffer_bytes : ℤ) (actions : List Action)
    → (h : AttachHub) × (act_all actions (new_attach_hub ring_buffer_bytes) ≡ some h)
      × HasWriter h.clients h.writer
unfolding new_attach_hub
act_all-HasWriter n actions =
    let (h, run, ring, streams) = act_all-IsFaithful n actions in
    let start : IsHeld (new_attach_hub n) = record {
      attached = λ w v. absurd (cc v);
      vacant = λ v. refl;
    } in
    (h, run, act_all-IsHeld actions (new_attach_hub n) h run start)

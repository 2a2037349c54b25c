-- ===== src/AttachHub/Hub.antt =====
-- AttachHub of internal/harness/attachhub.go: its clients, its writer and what reaches the terminal.
-- A client's pointer is the number of its Attach. The sends of a broadcast follow its critical
-- section; since one pump makes them all they are one step with it.
use llm_bridge_server.Prelude.{
  ℕ, suc, ◌%◌, Bool, true, false, not, ◌||◌, ◌==◌, List, [], ◌∷◌, ◌++◌, Option, none, some, length,
  get_elem?, ltb, if◌then◌else◌, ℤ,
}
use llm_bridge_server.AttachHub.Ring.{Ring, empty_ring, ring_cap_of, append_ring, snapshot_ring}

-- pty.Winsize, the two fields that the code sets.
pub record Winsize : Type 0 where
  pub rows : ℕ
  pub cols : ℕ

-- The capacity of `out`.
abbrev pub out_frames : ℕ
out_frames = 64

-- AttachClient. `out` is its channel's buffer. The last three fields record what Attach gave it,
-- what it has taken from the channel, and how many frames it was too slow for.
pub record AttachClient : Type 0 where
  pub id : ℕ
  pub out : List (List ℕ)
  pub snapshot : List ℕ
  pub received : List (List ℕ)
  pub dropped : ℕ

-- AttachHub, with the pty that it writes to: the bytes typed and the size set.
pub record AttachHub : Type 0 where
  pub ring_cap : ℕ
  pub ring : Ring
  pub last_size : Winsize
  pub clients : List AttachClient
  pub writer : Option ℕ
  pub closed : Bool
  pub next_client : ℕ
  pub typed : List ℕ
  pub pty_size : Option Winsize

-- NewAttachHub
unfoldable pub new_attach_hub : ℤ → AttachHub
new_attach_hub ring_buffer_bytes = record {
  ring_cap = ring_cap_of ring_buffer_bytes;
  ring = empty_ring;
  last_size = record { rows = 24; cols = 80 };
  clients = [];
  writer = none;
  closed = false;
  next_client = 0;
  typed = [];
  pty_size = none;
}

unfoldable pub has_client : ℕ → List AttachClient → Bool
has_client id [] = false
has_client id (c ∷ cs) = c.id == id || has_client id cs

unfoldable pub remove_client : ℕ → List AttachClient → List AttachClient
remove_client id [] = []
remove_client id (c ∷ cs) = let rest = remove_client id cs in if c.id == id then rest else c ∷ rest

abbrev pub is_writer : ℕ → Option ℕ → Bool
is_writer id none = false
is_writer id (some w) = w == id

-- The first key of an iteration over the clients, in Go's random order.
unfoldable pub any_client : ℕ → List AttachClient → Option ℕ
any_client choice [] = none
any_client choice (c ∷ cs) = elim (get_elem? (c ∷ cs) (choice % suc (length cs))) [
  | none ↦ some c.id
  | some d ↦ some d.id
]

-- `select` on a client's channel: a full one drops the frame.
unfoldable pub send_frame : List ℕ → AttachClient → AttachClient
send_frame frame c =
    if ltb (length c.out) out_frames
    then record c { out = c.out ++ frame ∷ [] }
    else record c { dropped = suc c.dropped }

unfoldable pub send_all : List ℕ → List AttachClient → List AttachClient
unfolding send_frame
send_all frame [] = []
send_all frame (c ∷ cs) = send_frame frame c ∷ send_all frame cs

-- broadcast; `none` where appendRing runs out of fuel.
unfoldable pub broadcast : List ℕ → AttachHub → Option AttachHub
unfolding send_all
broadcast bytes h = elim (append_ring h.ring_cap bytes h.ring) [
  | none ↦ none
  | some ring' ↦ some (record h { ring = ring'; clients = send_all bytes h.clients })
]

-- Attach: the client, its snapshot and the size, or ErrAttachClosed.
unfoldable pub attach : AttachHub → AttachHub × Option (ℕ × List ℕ × Winsize)
attach h = if h.closed then (h, none) else (
  record h {
    clients =
        h.clients
        ++ record {
          id = h.next_client;
          out = [];
          snapshot = snapshot_ring h.ring;
          received = [];
          dropped = 0;
        }
          ∷ [];
    writer = elim (h.writer) [ none ↦ some h.next_client | some w ↦ some w ];
    next_client = suc h.next_client;
  },
  some (h.next_client, snapshot_ring h.ring, h.last_size),
)

-- Detach
unfoldable pub detach : ℕ → ℕ → AttachHub → AttachHub
unfolding remove_client any_client
detach choice id h = if not (has_client id h.clients) then h else record h {
  clients = remove_client id h.clients;
  writer =
      if is_writer id h.writer then any_client choice (remove_client id h.clients) else h.writer;
}

-- Write, on a pty that takes it all.
unfoldable pub write : ℕ → List ℕ → AttachHub → AttachHub
write id bytes h = if is_writer id h.writer then record h { typed = h.typed ++ bytes } else h

-- Resize
unfoldable pub resize : ℕ → ℕ → ℕ → AttachHub → AttachHub
resize id rows cols h =
    if rows == 0 || cols == 0 || not (is_writer id h.writer) then h else record h {
      last_size = record { rows = rows; cols = cols };
      pty_size = some (record { rows = rows; cols = cols });
    }

-- shutdown, before its critical section and in it.
abbrev pub begin_shutdown : AttachHub → AttachHub
begin_shutdown h = record h { closed = true }

unfoldable pub finish_shutdown : AttachHub → AttachHub
finish_shutdown h = if h.closed then record h { clients = []; writer = none } else h

-- The client takes a frame from Out().
unfoldable pub take_frame : AttachClient → AttachClient
take_frame c = elim (c.out) [
  | [] ↦ c
  | frame ∷ out ↦ record c { out = out; received = c.received ++ frame ∷ [] }
]

unfoldable pub receive_frame : ℕ → List AttachClient → List AttachClient
unfolding take_frame
receive_frame id [] = []
receive_frame id (c ∷ cs) =
    let rest = receive_frame id cs in (if c.id == id then take_frame c else c) ∷ rest

-- What the read pump, the attached clients and the child's exit do to a hub.
pub data Action : Type 0 where
  outputs : List ℕ → Action
  attaches : Action
  detaches : ℕ → ℕ → Action
  receives : ℕ → Action
  types : ℕ → List ℕ → Action
  resizes : ℕ → ℕ → ℕ → Action
  begins_shutdown finishes_shutdown : Action

unfoldable pub act : Action → AttachHub → Option AttachHub
unfolding broadcast attach detach receive_frame write resize finish_shutdown
act (outputs bytes) h = broadcast bytes h
act attaches h = some (attach h).0
act (detaches choice id) h = some (detach choice id h)
act (receives id) h = some (record h { clients = receive_frame id h.clients })
act (types id bytes) h = some (write id bytes h)
act (resizes id rows cols) h = some (resize id rows cols h)
act begins_shutdown h = some (begin_shutdown h)
act finishes_shutdown h = some (finish_shutdown h)

-- The actions in the order of the hub's lock.
unfoldable pub act_all : List Action → AttachHub → Option AttachHub
unfolding act
act_all [] h = some h
act_all (a ∷ actions) h = elim (act a h) [ none ↦ none | some h' ↦ act_all actions h' ]

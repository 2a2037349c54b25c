-- ===== src/AttachHub/Ring.antt =====
-- The ring buffer of internal/harness/attachhub.go: appendRing and snapshotRing.
use llm_bridge_server.Prelude.{
  ℕ, zero, suc, ◌+◌, ◌-◌, ◌*◌, min, Bool, true, false, ◌==◌, List, [], ◌∷◌, ◌++◌, Option, none,
  some, length, take, drop, replicate, leb, if◌then◌else◌, ℤ, pos, negsuc,
}

-- defaultPTYRingBufferBytes
abbrev pub default_pty_ring_buffer_bytes : ℕ
default_pty_ring_buffer_bytes = 64 * 1024

-- ringCap, as NewAttachHub chooses it.
unfoldable pub ring_cap_of : ℤ → ℕ
ring_cap_of (pos n) = if n == 0 then default_pty_ring_buffer_bytes else n
ring_cap_of (negsuc n) = default_pty_ring_buffer_bytes

-- The ring fields of AttachHub; `ring` is nil before the first write.
pub record Ring : Type 0 where
  pub ring : Option (List ℕ)
  pub ring_pos : ℕ
  pub ring_full : Bool

abbrev pub empty_ring : Ring
empty_ring = record { ring = none; ring_pos = 0; ring_full = false }

-- How many bytes `copy(ring[at:], b)` copies.
abbrev pub copied : List ℕ → ℕ → List ℕ → ℕ
copied ring at b = min (length ring - at) (length b)

-- `ring` after `copy(ring[at:], b)`.
unfoldable pub copy_at : List ℕ → ℕ → List ℕ → List ℕ
copy_at ring at b = take at ring ++ (take (copied ring at b) b ++ drop (at + copied ring at b) ring)

-- `if h.ring == nil { h.ring = make([]byte, h.ringCap) }`
abbrev pub buffer_of : ℕ → Ring → List ℕ
buffer_of cap r = elim (r.ring) [ none ↦ replicate cap 0 | some ring ↦ ring ]

-- The body of appendRing's loop, on the buffer, for the part of `b` that it writes.
unfoldable pub write_part : ℕ → List ℕ → ℕ → Bool → List ℕ → Ring
unfolding copy_at
write_part cap ring at full b =
    let at' = at + copied ring at b in
    if leb cap at'
    then record { ring = some (copy_at ring at b); ring_pos = 0; ring_full = true }
    else record { ring = some (copy_at ring at b); ring_pos = at'; ring_full = full }

-- appendRing's loop; `none` means that the fuel ran out.
unfoldable pub write_all : ℕ → ℕ → List ℕ → Ring → Option Ring
unfolding write_part
write_all fuel cap [] r = some r
write_all zero cap (x ∷ b) r = none
write_all (suc fuel) cap (x ∷ b) r =
    let ring = buffer_of cap r in
    write_all fuel cap (drop (copied ring r.ring_pos (x ∷ b)) (x ∷ b))
      (write_part cap ring r.ring_pos r.ring_full (x ∷ b))

-- appendRing. A write shorter than the buffer takes two rounds at most.
unfoldable pub append_ring : ℕ → List ℕ → Ring → Option Ring
unfolding write_all copy_at
append_ring cap b r =
    if cap == 0
    then some r
    else if leb cap (length b)
    then some (record {
      ring = some (copy_at (buffer_of cap r) 0 (drop (length b - cap) b));
      ring_pos = 0;
      ring_full = true;
    })
    else write_all 2 cap b (record r { ring = some (buffer_of cap r) })

-- snapshotRing
unfoldable pub snapshot_ring : Ring → List ℕ
snapshot_ring r = elim (r.ring) [
  | none ↦ []
  | some ring ↦
      if r.ring_full then drop r.ring_pos ring ++ take r.ring_pos ring else take r.ring_pos ring
]

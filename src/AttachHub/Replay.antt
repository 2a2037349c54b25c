-- ===== src/AttachHub/Replay.antt =====
-- The ring buffer of internal/harness/attachhub.go against the output that went through it.
use mathlib.Core.List.{append-nil, append_assoc}
use llm_bridge_server.Prelude.{
  ℕ, zero, suc, ◌+◌, ◌-◌, ◌≤◌, ◌<◌, ◌==◌, ◌≡◌, refl, ap, ◌∙◌, sym, Bool, true, false, List, [], ◌∷◌,
  ◌++◌, some, length, take, drop, replicate, length-drop, length-replicate, arith, leb, Bool-cases,
  inl, inr, take-append-drop,
}
use llm_bridge_server.AttachHub.Ring.{
  Ring, empty_ring, copied, copy_at, write_part, write_all, append_ring, snapshot_ring,
}
use llm_bridge_server.AttachHub.Recent.{recent, recent_suffix, drop_all}
use llm_bridge_server.AttachHub.Rounds.{
  take_whole, ring_at, IsRecorded, copy_at_split, part-IsRecorded, wrap-IsRecorded,
}

-- A ring, allocated or not, that holds the last `cap` bytes of the output.
pub data Holds (cap : ℕ) : Ring → List ℕ → Type 0 where
  unwritten : 0 < cap → Holds cap empty_ring []
  written :
      {buffer : List ℕ} {at : ℕ} {full : Bool} {output : List ℕ}
      → IsRecorded cap buffer at full output
      → Holds cap (ring_at buffer at full) output

write_part-Holds :
    (cap at : ℕ) (buffer b output : List ℕ) (full : Bool)
    → IsRecorded cap buffer at full output
    → Holds cap (write_part cap buffer at full b) (output ++ take (copied buffer at b) b)
unfolding write_part
write_part-Holds cap at buffer b output full h =
    let n = copied buffer at b in
    elim (Bool-cases (leb cap (at + n))) [
      | inl end ↦ rw end (
          written (
            wrap-IsRecorded cap at n buffer b output full h refl
              (ground (arith, h.sized, h.within))))
      | inr below ↦
          rw below (written (part-IsRecorded cap at n buffer b output full h refl (ground arith)))
    ]

write_all-nil : (fuel cap : ℕ) (b : List ℕ) (r : Ring) → b ≡ [] → write_all fuel cap b r ≡ some r
unfolding write_all
write_all-nil zero cap [] r e = refl
write_all-nil (suc fuel) cap [] r e = refl
write_all-nil fuel cap (x ∷ b) r e = absurd (cc e)

-- A round that takes all that is left.
last_round :
    (fuel cap at : ℕ) (buffer b output : List ℕ) (full : Bool)
    → IsRecorded cap buffer at full output
    → at + length b ≤ cap
    → (r : Ring) × (write_all (suc fuel) cap b (ring_at buffer at full) ≡ some r)
      × Holds cap r (output ++ b)
unfolding write_all
last_round fuel cap at buffer [] output full h fits =
    (ring_at buffer at full, refl, rw (append-nil output) (written h))
last_round fuel cap at buffer (x ∷ b) output full h fits =
    let n = copied buffer at (x ∷ b) in
    let whole : length (x ∷ b) ≤ n = omega (arith, h.sized) in
    let taken = take_whole n (x ∷ b) whole in
    let left = drop_all n (x ∷ b) whole in
    (
      write_part cap buffer at full (x ∷ b),
      write_all-nil fuel cap (drop n (x ∷ b)) (write_part cap buffer at full (x ∷ b)) left,
      rw (ap (λ l. output ++ l) taken) at (write_part-Holds cap at buffer (x ∷ b) output full h),
    )

two_rounds :
    (cap at : ℕ) (buffer b output : List ℕ) (full : Bool)
    → IsRecorded cap buffer at full output
    → length b < cap
    → (r : Ring) × (write_all 2 cap b (ring_at buffer at full) ≡ some r) × Holds cap r (output ++ b)
unfolding write_all write_part
two_rounds cap at buffer [] output full h small =
    (ring_at buffer at full, refl, rw (append-nil output) (written h))
two_rounds cap at buffer (x ∷ b) output full h small =
    elim (Bool-cases (leb (at + suc (length b)) cap)) [
      | inl fits ↦ last_round 1 cap at buffer (x ∷ b) output full h (ground arith)
      | inr over ↦
          let n = copied buffer at (x ∷ b) in
          let ends : at + n ≡ cap = ground (arith, h.sized, h.within) in
          let turned = wrap-IsRecorded cap at n buffer (x ∷ b) output full h refl ends in
          let (r, run, holds) =
            last_round 0 cap 0 (copy_at buffer at (x ∷ b)) (drop n (x ∷ b))
              (output ++ take n (x ∷ b)) true turned
              (omega (arith, small, length-drop n (x ∷ b))) in
          let reached : leb cap (at + n) ≡ true = ground arith in
          let joined : (output ++ take n (x ∷ b)) ++ drop n (x ∷ b) ≡ output ++ x ∷ b =
            append_assoc output (take n (x ∷ b)) (drop n (x ∷ b))
            ∙ ap (λ l. output ++ l) (take-append-drop n (x ∷ b)) in
          (r, rw (reached, write_all) run, rw joined at holds)
    ]

-- A chunk that fills the buffer replaces it.
overwrites :
    (cap : ℕ) (buffer b output : List ℕ)
    → 0 < cap
    → length buffer ≡ cap
    → cap ≤ length b
    → IsRecorded cap (copy_at buffer 0 (drop (length b - cap) b)) 0 true (output ++ b)
unfolding snapshot_ring
overwrites cap buffer b output p sized h =
    let tail = drop (length b - cap) b in
    let long : length tail ≡ cap = omega (arith, length-drop (length b - cap) b) in
    let now : copy_at buffer 0 tail ≡ tail =
      copy_at_split buffer 0 cap tail (omega arith)
      ∙ rw (drop_all (0 + cap) buffer (omega arith), take_whole cap tail (omega arith))
          (append-nil tail) in
    rw now (record {
      sized = long;
      within = p;
      recorded =
          append-nil tail
          ∙ sym (recent_suffix cap (output ++ take (length b - cap) b) tail long)
          ∙ ap (recent cap) (
              append_assoc output (take (length b - cap) b) tail
              ∙ ap (λ l. output ++ l) (take-append-drop (length b - cap) b));
    })

buffer_append :
    (cap at : ℕ) (buffer b output : List ℕ) (full : Bool)
    → IsRecorded cap buffer at full output
    → (r : Ring) × (append_ring cap b (ring_at buffer at full) ≡ some r) × Holds cap r (output ++ b)
unfolding append_ring
buffer_append cap at buffer b output full h =
    let room : (cap == 0) ≡ false = ground (arith, h.within) in
    elim (Bool-cases (leb cap (length b))) [
      | inl large ↦ (
        ring_at (copy_at buffer 0 (drop (length b - cap) b)) 0 true,
        rw (room, large) refl,
        written (overwrites cap buffer b output (omega (arith, h.within)) h.sized (ground arith)),
      )
      | inr small ↦
          let (r, run, holds) = two_rounds cap at buffer b output full h (ground arith) in
          (r, rw (room, small) run, holds)
    ]

fresh-IsRecorded : (cap : ℕ) → 0 < cap → IsRecorded cap (replicate cap 0) 0 false []
unfolding snapshot_ring recent
fresh-IsRecorded cap p = record {
  sized = length-replicate cap 0;
  within = p;
  recorded = sym (drop_all (0 - cap) [] (omega arith));
}

-- The first write allocates.
allocates :
    (cap : ℕ) (b : List ℕ)
    → 0 < cap
    → append_ring cap b empty_ring ≡ append_ring cap b (ring_at (replicate cap 0) 0 false)
unfolding append_ring
allocates cap b p = let room : (cap == 0) ≡ false = ground arith in rw room refl

pub append_ring-Holds :
    (cap : ℕ) (b : List ℕ) {r : Ring} {output : List ℕ}
    → Holds cap r output
    → (r' : Ring) × (append_ring cap b r ≡ some r') × Holds cap r' (output ++ b)
unfolding append_ring
append_ring-Holds cap b (written {buffer} {at} {full} {output} h) =
    buffer_append cap at buffer b output full h
append_ring-Holds cap b (unwritten p) =
    let (r, run, holds) =
      buffer_append cap 0 (replicate cap 0) b [] false (fresh-IsRecorded cap p) in
    (r, allocates cap b p ∙ run, holds)

pub Holds-snapshot :
    {cap : ℕ} {r : Ring} {output : List ℕ}
    → Holds cap r output
    → snapshot_ring r ≡ recent cap output
unfolding snapshot_ring recent
Holds-snapshot {cap} (unwritten p) = sym (drop_all (0 - cap) [] (omega arith))
Holds-snapshot (written h) = h.recorded

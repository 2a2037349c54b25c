-- ===== src/AttachHub/Rounds.antt =====
-- One round of the loop of appendRing in internal/harness/attachhub.go, on an allocated ring.
use mathlib.Core.List.{append-nil, append_assoc}
use llm_bridge_server.Prelude.{
  ℕ, zero, suc, ◌+◌, ◌≤◌, ◌<◌, ◌≡◌, refl, ap, ◌∙◌, sym, Bool, true, false, List, [], ◌∷◌, ◌++◌,
  some, length, take, drop, length-append, length-drop, length-take, arith, take-append-drop,
}
use llm_bridge_server.AttachHub.Ring.{Ring, copied, copy_at, snapshot_ring}
use llm_bridge_server.AttachHub.Recent.{
  recent, recent_short, recent_suffix, recent-append, drop_front, take_front, drop-drop, drop_all,
}

abbrev pub ring_at : List ℕ → ℕ → Bool → Ring
ring_at buffer at full = record { ring = some buffer; ring_pos = at; ring_full = full }

pub take_whole : {A : Type 0} (n : ℕ) (xs : List A) → length xs ≤ n → take n xs ≡ xs
take_whole zero [] h = refl
take_whole zero (x ∷ xs) h = absurd (omega arith)
take_whole (suc n) [] h = refl
take_whole (suc n) (x ∷ xs) h = ap (λ l. x ∷ l) (take_whole n xs (omega arith))

-- An allocated ring that holds the last `cap` bytes of the output.
pub record IsRecorded (cap : ℕ) (buffer : List ℕ) (at : ℕ) (full : Bool) (output : List ℕ)
    : Type 0 where
  pub sized : length buffer ≡ cap
  pub within : at < cap
  pub recorded : snapshot_ring (ring_at buffer at full) ≡ recent cap output

abbrev front : List ℕ → ℕ → ℕ → List ℕ → List ℕ
front buffer at n b = take at buffer ++ take n b

-- What the loop has written lies before the new position, what it has not behind it.
pub copy_at_split :
    (buffer : List ℕ) (at n : ℕ) (b : List ℕ)
    → copied buffer at b ≡ n
    → copy_at buffer at b ≡ front buffer at n b ++ drop (at + n) buffer
unfolding copy_at
copy_at_split buffer at n b h =
    rw h (sym (append_assoc (take at buffer) (take n b) (drop (at + n) buffer)))

length-front :
    (buffer : List ℕ) (at n : ℕ) (b : List ℕ)
    → at ≤ length buffer
    → n ≤ length b
    → length (front buffer at n b) ≡ at + n
length-front buffer at n b h k =
    omega (arith, length-append (take at buffer) (take n b), length-take at buffer, length-take n b)

-- The bytes of a full ring in their order, after a write of n more.
full_write :
    (cap at n : ℕ) (buffer b output : List ℕ)
    → IsRecorded cap buffer at true output
    → n ≤ length b
    → at + n ≤ cap
    → drop (at + n) buffer ++ front buffer at n b ≡ recent cap (output ++ take n b)
unfolding snapshot_ring
full_write cap at n buffer b output h k fits =
    let behind = drop at buffer in
    let f = front buffer at n b in
    let long = length-front buffer at n b (omega (arith, h.sized, h.within)) k in
    let same : drop n behind ≡ drop (at + n) buffer = drop-drop at n buffer in
    let sized : length (drop n behind ++ f) ≡ cap = omega (
      arith,
      long,
      length-append (drop n behind) f,
      length-drop n behind,
      length-drop at buffer,
      h.sized,
    ) in
    ap (λ l. l ++ f) (sym same)
    ∙ sym (recent_suffix cap (take n behind) (drop n behind ++ f) sized)
    ∙ ap (recent cap) (
        sym (append_assoc (take n behind) (drop n behind) f)
        ∙ ap (λ l. l ++ f) (take-append-drop n behind)
        ∙ sym (append_assoc behind (take at buffer) (take n b)))
    ∙ ap (λ l. recent cap (l ++ take n b)) h.recorded
    ∙ recent-append cap output (take n b)

-- The same while the ring has not wrapped.
first_write :
    (cap at n : ℕ) (buffer b output : List ℕ)
    → IsRecorded cap buffer at false output
    → n ≤ length b
    → at + n ≤ cap
    → front buffer at n b ≡ recent cap (output ++ take n b)
unfolding snapshot_ring
first_write cap at n buffer b output h k fits =
    let long = length-front buffer at n b (omega (arith, h.sized, h.within)) k in
    sym (recent_short cap (front buffer at n b) (omega (arith, long)))
    ∙ ap (λ l. recent cap (l ++ take n b)) h.recorded
    ∙ recent-append cap output (take n b)

length-copy_at :
    (buffer : List ℕ) (at n : ℕ) (b : List ℕ)
    → copied buffer at b ≡ n
    → at ≤ length buffer
    → length (copy_at buffer at b) ≡ length buffer
length-copy_at buffer at n b h k =
    let long = length-front buffer at n b k (omega (arith, h)) in
    ap length (copy_at_split buffer at n b h)
    ∙ omega (
      arith,
      long,
      h,
      length-append (front buffer at n b) (drop (at + n) buffer),
      length-drop (at + n) buffer,
    )

-- What a round leaves in the ring, by whether it had wrapped before.
part_recorded :
    (cap at n : ℕ) (buffer b output : List ℕ) (full : Bool)
    → IsRecorded cap buffer at full output
    → copied buffer at b ≡ n
    → at + n ≤ cap
    → snapshot_ring (ring_at (copy_at buffer at b) (at + n) full) ≡ recent cap (output ++ take n b)
unfolding snapshot_ring
part_recorded cap at n buffer b output true h e fits =
    let long = length-front buffer at n b (omega (arith, h.sized, h.within)) (omega (arith, e)) in
    rw
      (
        copy_at_split buffer at n b e,
        drop_front (at + n) (front buffer at n b) (drop (at + n) buffer) long,
        take_front (at + n) (front buffer at n b) (drop (at + n) buffer) long,
      )
      (full_write cap at n buffer b output h (omega (arith, e)) fits)
part_recorded cap at n buffer b output false h e fits =
    let long = length-front buffer at n b (omega (arith, h.sized, h.within)) (omega (arith, e)) in
    rw
      (
        copy_at_split buffer at n b e,
        take_front (at + n) (front buffer at n b) (drop (at + n) buffer) long,
      )
      (first_write cap at n buffer b output h (omega (arith, e)) fits)

-- A ring whose position is at its end reads as one that has wrapped.
wrapped :
    (buffer : List ℕ) (at : ℕ) (full : Bool)
    → length buffer ≡ at
    → snapshot_ring (ring_at buffer 0 true) ≡ snapshot_ring (ring_at buffer at full)
unfolding snapshot_ring
wrapped buffer at true h =
    rw (drop_all at buffer (omega arith), take_whole at buffer (omega arith)) (append-nil buffer)
wrapped buffer at false h = rw (take_whole at buffer (omega arith)) (append-nil buffer)

-- A round that stays below the end of the buffer.
pub part-IsRecorded :
    (cap at n : ℕ) (buffer b output : List ℕ) (full : Bool)
    → IsRecorded cap buffer at full output
    → copied buffer at b ≡ n
    → at + n < cap
    → IsRecorded cap (copy_at buffer at b) (at + n) full (output ++ take n b)
part-IsRecorded cap at n buffer b output full h e fits = record {
  sized = length-copy_at buffer at n b e (omega (arith, h.sized, h.within)) ∙ h.sized;
  within = fits;
  recorded = part_recorded cap at n buffer b output full h e (omega arith);
}

-- A round that reaches it wraps.
pub wrap-IsRecorded :
    (cap at n : ℕ) (buffer b output : List ℕ) (full : Bool)
    → IsRecorded cap buffer at full output
    → copied buffer at b ≡ n
    → at + n ≡ cap
    → IsRecorded cap (copy_at buffer at b) 0 true (output ++ take n b)
wrap-IsRecorded cap at n buffer b output full h e ends =
    let sized = length-copy_at buffer at n b e (omega (arith, h.sized, h.within)) ∙ h.sized in
    record {
      sized = sized;
      within = omega (arith, h.within);
      recorded =
          wrapped (copy_at buffer at b) (at + n) full (omega (arith, sized))
          ∙ part_recorded cap at n buffer b output full h e (omega arith);
    }

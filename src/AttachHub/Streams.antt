-- ===== src/AttachHub/Streams.antt =====
-- What each client of AttachHub (internal/harness/attachhub.go) is sent, against the output.
use mathlib.Core.List.{append-nil, append_assoc}
use llm_bridge_server.Prelude.{
  ℕ, ◌≡◌, refl, ◌∙◌, sym, ap, ◌==◌, List, [], ◌∷◌, ◌++◌, arith, Bool-cases, inl, inr, length, ltb,
}
use llm_bridge_server.AttachHub.Hub.{
  AttachClient, remove_client, send_frame, send_all, take_frame, receive_frame, out_frames,
}

unfoldable pub joined : List (List ℕ) → List ℕ
joined [] = []
joined (x ∷ xs) = x ++ joined xs

joined-append : (xs ys : List (List ℕ)) → joined (xs ++ ys) ≡ joined xs ++ joined ys
unfolding joined
joined-append [] ys = refl
joined-append (x ∷ xs) ys =
    ap (λ l. x ++ l) (joined-append xs ys) ∙ sym (append_assoc x (joined xs) (joined ys))

-- All that a client was given: its snapshot, the frames it took, and those in its channel.
abbrev pub stream_of : AttachClient → List ℕ
stream_of c = c.snapshot ++ joined (c.received ++ c.out)

-- A client that has dropped no frame was given the end of the output.
abbrev pub IsCaughtUp : List ℕ → AttachClient → Type 0
IsCaughtUp output c = c.dropped ≡ 0 → (before : List ℕ) × (before ++ stream_of c ≡ output)

unfoldable pub AllCaughtUp : List ℕ → List AttachClient → Type 0
AllCaughtUp output [] = Unit
AllCaughtUp output (c ∷ cs) = IsCaughtUp output c × AllCaughtUp output cs

send_frame-IsCaughtUp :
    (output frame : List ℕ) (c : AttachClient)
    → IsCaughtUp output c
    → IsCaughtUp (output ++ frame) (send_frame frame c)
unfolding send_frame joined
send_frame-IsCaughtUp output frame c h = elim (Bool-cases (ltb (length c.out) out_frames)) [
  | inr full ↦ rw full (λ none_dropped. absurd (omega (arith, none_dropped)))
  | inl room ↦ rw room (λ none_dropped.
      let (before, e) = h none_dropped in
      let longer : joined (c.received ++ (c.out ++ frame ∷ []))
          ≡ joined (c.received ++ c.out) ++ frame =
        ap joined (sym (append_assoc c.received c.out (frame ∷ [])))
        ∙ joined-append (c.received ++ c.out) (frame ∷ [])
        ∙ ap (λ l. joined (c.received ++ c.out) ++ l) (append-nil frame) in
      (
        before,
        ap (λ l. before ++ (c.snapshot ++ l)) longer
            ∙ ap (λ l. before ++ l)
                (sym (append_assoc c.snapshot (joined (c.received ++ c.out)) frame))
            ∙ sym (append_assoc before (stream_of c) frame)
            ∙ ap (λ l. l ++ frame) e,
      ))
]

pub send_all-AllCaughtUp :
    (output frame : List ℕ) (cs : List AttachClient)
    → AllCaughtUp output cs
    → AllCaughtUp (output ++ frame) (send_all frame cs)
unfolding AllCaughtUp send_all
send_all-AllCaughtUp output frame [] h = tt
send_all-AllCaughtUp output frame (c ∷ cs) h =
    (send_frame-IsCaughtUp output frame c h.0, send_all-AllCaughtUp output frame cs h.1)

take_frame-IsCaughtUp :
    (output : List ℕ) (c : AttachClient) (out : List (List ℕ))
    → c.out ≡ out
    → IsCaughtUp output c
    → IsCaughtUp output (take_frame c)
unfolding take_frame
take_frame-IsCaughtUp output c [] e h = rw e (λ none_dropped.
    let (before, p) = h none_dropped in
    (before, ap (λ l. before ++ (c.snapshot ++ joined (c.received ++ l))) (sym e) ∙ p))
take_frame-IsCaughtUp output c (frame ∷ out) e h = rw e (λ none_dropped.
    let (before, p) = h none_dropped in
    (
      before,
      ap (λ l. before ++ (c.snapshot ++ joined l))
            (append_assoc c.received (frame ∷ []) out ∙ ap (λ l. c.received ++ l) (sym e))
          ∙ p,
    ))

pub receive_frame-AllCaughtUp :
    (output : List ℕ) (id : ℕ) (cs : List AttachClient)
    → AllCaughtUp output cs
    → AllCaughtUp output (receive_frame id cs)
unfolding AllCaughtUp receive_frame
receive_frame-AllCaughtUp output id [] h = tt
receive_frame-AllCaughtUp output id (c ∷ cs) h = elim (Bool-cases (c.id == id)) [
  | inl e ↦
      rw e
        (take_frame-IsCaughtUp output c c.out refl h.0, receive_frame-AllCaughtUp output id cs h.1)
  | inr e ↦ rw e (h.0, receive_frame-AllCaughtUp output id cs h.1)
]

pub remove_client-AllCaughtUp :
    (output : List ℕ) (id : ℕ) (cs : List AttachClient)
    → AllCaughtUp output cs
    → AllCaughtUp output (remove_client id cs)
unfolding AllCaughtUp remove_client
remove_client-AllCaughtUp output id [] h = tt
remove_client-AllCaughtUp output id (c ∷ cs) h = elim (Bool-cases (c.id == id)) [
  | inl e ↦ rw e (remove_client-AllCaughtUp output id cs h.1)
  | inr e ↦ rw e (h.0, remove_client-AllCaughtUp output id cs h.1)
]

pub append-AllCaughtUp :
    (output : List ℕ) (cs ds : List AttachClient)
    → AllCaughtUp output cs
    → AllCaughtUp output ds
    → AllCaughtUp output (cs ++ ds)
unfolding AllCaughtUp
append-AllCaughtUp output [] ds h k = k
append-AllCaughtUp output (c ∷ cs) ds h k = (h.0, append-AllCaughtUp output cs ds h.1 k)

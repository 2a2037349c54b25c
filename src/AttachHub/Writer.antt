-- ===== src/AttachHub/Writer.antt =====
-- The writer of AttachHub (internal/harness/attachhub.go), step by step.
use mathlib.Core.Path.{subst}
use llm_bridge_server.Prelude.{
  ℕ, zero, suc, ◌≡◌, refl, ◌∙◌, sym, ap, true, false, not, ◌||◌, ◌==◌, List, [], ◌∷◌, ◌++◌, Option,
  none, some, arith, Bool-cases, Option-cases, inl, inr, length, get_elem?, if◌then◌else◌, ◌%◌,
}
use llm_bridge_server.AttachHub.Ring.{append_ring}
use llm_bridge_server.AttachHub.Hub.{
  AttachClient, AttachHub, has_client, remove_client, is_writer, any_client, send_frame, send_all,
  broadcast, attach, detach, write, resize, finish_shutdown, take_frame, receive_frame, Action,
  outputs, attaches, detaches, receives, types, resizes, begins_shutdown, finishes_shutdown, act,
  act_all,
}

-- The writer is an attached client, and where nobody is the writer nobody is attached.
pub record HasWriter (clients : List AttachClient) (writer : Option ℕ) : Type 0 where
  pub attached : (w : ℕ) → writer ≡ some w → has_client w clients ≡ true
  pub vacant : writer ≡ none → clients ≡ []

has_client-append :
    (id : ℕ) (cs ds : List AttachClient)
    → has_client id (cs ++ ds) ≡ (has_client id cs || has_client id ds)
unfolding has_client
has_client-append id [] ds = refl
has_client-append id (c ∷ cs) ds = let rest = has_client-append id cs ds in ground arith

has_client-send_all :
    (id : ℕ) (frame : List ℕ) (cs : List AttachClient)
    → has_client id (send_all frame cs) ≡ has_client id cs
unfolding has_client send_all send_frame
has_client-send_all id frame [] = refl
has_client-send_all id frame (c ∷ cs) = let rest = has_client-send_all id frame cs in ground arith

has_client-receive_frame :
    (id by : ℕ) (cs : List AttachClient) → has_client id (receive_frame by cs) ≡ has_client id cs
unfolding has_client receive_frame take_frame
has_client-receive_frame id by [] = refl
has_client-receive_frame id by (c ∷ cs) =
    let rest = has_client-receive_frame id by cs in ground arith

has_client-remove_client :
    (id gone : ℕ) (cs : List AttachClient)
    → (gone == id) ≡ false
    → has_client id (remove_client gone cs) ≡ has_client id cs
unfolding has_client remove_client
has_client-remove_client id gone [] h = refl
has_client-remove_client id gone (c ∷ cs) h =
    let rest = has_client-remove_client id gone cs h in ground arith

get_elem?-has_client :
    (i : ℕ) (cs : List AttachClient) (d : AttachClient)
    → get_elem? cs i ≡ some d
    → has_client d.id cs ≡ true
unfolding has_client
get_elem?-has_client i [] d h = absurd (cc h)
get_elem?-has_client zero (c ∷ cs) d h = ground arith
get_elem?-has_client (suc i) (c ∷ cs) d h = let rest = get_elem?-has_client i cs d h in ground arith

any_client_attached :
    (choice w : ℕ) (cs : List AttachClient) → any_client choice cs ≡ some w → has_client w cs ≡ true
unfolding any_client has_client
any_client_attached choice w [] h = absurd (cc h)
any_client_attached choice w (c ∷ cs) h =
    elim (Option-cases (get_elem? (c ∷ cs) (choice % suc (length cs)))) [
      | inl e ↦ ground arith
      | inr (d, e) ↦
          let found = get_elem?-has_client (choice % suc (length cs)) (c ∷ cs) d e in
          let chosen : d.id ≡ w = ground arith in
          ap (λ i. has_client i (c ∷ cs)) (sym chosen) ∙ found
    ]

any_client_vacant : (choice : ℕ) (cs : List AttachClient) → any_client choice cs ≡ none → cs ≡ []
unfolding any_client
any_client_vacant choice [] h = refl
any_client_vacant choice (c ∷ cs) h =
    elim (Option-cases (get_elem? (c ∷ cs) (choice % suc (length cs)))) [
      | inl e ↦ absurd (ground arith)
      | inr (d, e) ↦ absurd (ground arith)
    ]

attach-HasWriter :
    (h : AttachHub)
    → HasWriter h.clients h.writer
    → HasWriter (attach h).0.clients (attach h).0.writer
unfolding attach has_client
attach-HasWriter h k = elim (Bool-cases h.closed) [
  | inl e ↦ rw e k
  | inr e ↦ rw e (record {
    attached = λ w at. rw (has_client-append w h.clients) (elim (Option-cases h.writer) [
      | inl v ↦ ground arith
      | inr (w', v) ↦ let old = k.attached w' v in ground arith
    ]);
    vacant = λ at.
        absurd (elim (Option-cases h.writer) [ inl v ↦ ground arith | inr (w', v) ↦ ground arith ]);
  })
]

-- The writer once `id` has left.
abbrev promoted : ℕ → ℕ → AttachHub → Option ℕ
promoted choice id h =
    if is_writer id h.writer then any_client choice (remove_client id h.clients) else h.writer

detach_attached :
    (choice id w : ℕ) (h : AttachHub)
    → HasWriter h.clients h.writer
    → promoted choice id h ≡ some w
    → has_client w (remove_client id h.clients) ≡ true
detach_attached choice id w h k e = elim (Bool-cases (is_writer id h.writer)) [
  | inl ours ↦ any_client_attached choice w (remove_client id h.clients) (rw ours at e)
  | inr other ↦
      let still : h.writer ≡ some w = rw other at e in
      let theirs : (w == id) ≡ false = rw still at other in
      has_client-remove_client w id h.clients (ground arith) ∙ k.attached w still
]

detach_vacant :
    (choice id : ℕ) (h : AttachHub)
    → HasWriter h.clients h.writer
    → promoted choice id h ≡ none
    → remove_client id h.clients ≡ []
unfolding remove_client
detach_vacant choice id h k e = elim (Bool-cases (is_writer id h.writer)) [
  | inl ours ↦ any_client_vacant choice (remove_client id h.clients) (rw ours at e)
  | inr other ↦ ap (remove_client id) (k.vacant (rw other at e))
]

detach-HasWriter :
    (choice id : ℕ) (h : AttachHub)
    → HasWriter h.clients h.writer
    → HasWriter (detach choice id h).clients (detach choice id h).writer
unfolding detach
detach-HasWriter choice id h k = elim (Bool-cases (has_client id h.clients)) [
  | inr e ↦ rw e k
  | inl e ↦ rw e (record {
    attached = λ w e₁. detach_attached choice id w h k e₁;
    vacant = λ e₁. detach_vacant choice id h k e₁;
  })
]

abbrev pub IsHeld : AttachHub → Type 0
IsHeld h = HasWriter h.clients h.writer

becomes : {g h : AttachHub} → IsHeld g → some g ≡ some h → IsHeld h
becomes {g} {h} k e = let same : g ≡ h = cc in subst IsHeld same k

broadcast-IsHeld :
    (bytes : List ℕ) (h h' : AttachHub) → broadcast bytes h ≡ some h' → IsHeld h → IsHeld h'
unfolding broadcast send_all
broadcast-IsHeld bytes h h' e k = elim (Option-cases (append_ring h.ring_cap bytes h.ring)) [
  | inl p ↦ absurd (ground arith)
  | inr (ring', p) ↦
      let after : AttachHub = record h { ring = ring'; clients = send_all bytes h.clients } in
      let held : IsHeld after = record {
        attached = λ w v. has_client-send_all w bytes h.clients ∙ k.attached w v;
        vacant = λ v. ap (send_all bytes) (k.vacant v);
      } in
      let ends : some after ≡ some h' = ground arith in becomes held ends
]

finish_shutdown-IsHeld : (h : AttachHub) → IsHeld h → IsHeld (finish_shutdown h)
unfolding finish_shutdown
finish_shutdown-IsHeld h k = elim (Bool-cases h.closed) [
  | inl e ↦ rw e (record { attached = λ w v. absurd (cc v); vacant = λ v. refl })
  | inr e ↦ rw e k
]

write-IsHeld : (id : ℕ) (bytes : List ℕ) (h : AttachHub) → IsHeld h → IsHeld (write id bytes h)
unfolding write
write-IsHeld id bytes h k = elim (Bool-cases (is_writer id h.writer)) [
  | inl e ↦ rw e (record { attached = k.attached; vacant = k.vacant })
  | inr e ↦ rw e k
]

resize-IsHeld : (id rows cols : ℕ) (h : AttachHub) → IsHeld h → IsHeld (resize id rows cols h)
unfolding resize
resize-IsHeld id rows cols h k =
    elim (Bool-cases (rows == 0 || cols == 0 || not (is_writer id h.writer))) [
      | inl e ↦ rw e k
      | inr e ↦ rw e (record { attached = k.attached; vacant = k.vacant })
    ]

receive_frame-IsHeld :
    (id : ℕ) (h : AttachHub) → IsHeld h → IsHeld (record h { clients = receive_frame id h.clients })
unfolding receive_frame
receive_frame-IsHeld id h k = record {
  attached = λ w v. has_client-receive_frame w id h.clients ∙ k.attached w v;
  vacant = λ v. ap (receive_frame id) (k.vacant v);
}

step-IsHeld : (a : Action) (h h' : AttachHub) → act a h ≡ some h' → IsHeld h → IsHeld h'
unfolding act
step-IsHeld (outputs bytes) h h' e k = broadcast-IsHeld bytes h h' e k
step-IsHeld attaches h h' e k = becomes (attach-HasWriter h k) e
step-IsHeld (detaches choice id) h h' e k = becomes (detach-HasWriter choice id h k) e
step-IsHeld (receives id) h h' e k = becomes (receive_frame-IsHeld id h k) e
step-IsHeld (types id bytes) h h' e k = becomes (write-IsHeld id bytes h k) e
step-IsHeld (resizes id rows cols) h h' e k = becomes (resize-IsHeld id rows cols h k) e
step-IsHeld begins_shutdown h h' e k =
    becomes (record { attached = k.attached; vacant = k.vacant }) e
step-IsHeld finishes_shutdown h h' e k = becomes (finish_shutdown-IsHeld h k) e

pub act_all-IsHeld :
    (actions : List Action) (h h' : AttachHub) → act_all actions h ≡ some h' → IsHeld h → IsHeld h'
unfolding act_all
act_all-IsHeld [] h h' e k = becomes k e
act_all-IsHeld (a ∷ actions) h h' e k = elim (Option-cases (act a h)) [
  | inl p ↦ absurd (ground arith)
  | inr (g, p) ↦ act_all-IsHeld actions g h' (rw (p, act_all) at e) (step-IsHeld a h g p k)
]

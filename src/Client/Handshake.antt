-- ===== src/Client/Handshake.antt =====
-- The hand-over of a text to the client process, in every order of its threads' turns.
use gateway_v.Base.{
  ℕ, ap, arith, ◌≡◌, refl, sym, ◌∙◌, Bool, true, false, Option, none, some, List, [], ◌∷◌, ◌++◌,
  ◌⊎◌, inl, inr, Option-cases, Bool-cases, ◌||◌, ◌&&◌, if◌then◌else◌, ◌==◌, if-both,
}
use gateway_v.Text.{Bytes, c_string, strncmp_eq, atoi, tokens}
use mathlib.Core.Path.{subst}
use gateway_v.Node.{codes, add_device_cmd, remove_device_cmd, mode_manual, mode_auto}
use gateway_v.Client.{
  Client, received_buffer, read_times, post, recv_id, recv_manual, recv_command, recv_turn,
  send_turn, sig_usr, connect, disconnect,
}

-- "exit" comes in while the sender sleeps.
abbrev pub cuts_off : Client → Option Bytes → Bool
cuts_off c none = false
cuts_off c (some content) = c.asleep && strncmp_eq (received_buffer content) (codes "exit") 4

-- A turn of a running thread, or of the loop that accepts connections while none runs; the Boolean
-- says whether it cancels a sender that sleeps.
pub data Step : Bool → Client → Client → Type 0 where
  sends : {c : Client} → c.sender ≡ true → Step false c (send_turn c)
  receives :
      {c c' : Client} (past : Bytes) (content : Option Bytes)
      → c.receiver ≡ true
      → recv_turn past c content ≡ some c'
      → Step (cuts_off c content) c c'
  accepts : {c : Client} → c.sender ≡ false → c.receiver ≡ false → Step false c (connect c)
  leaves : {c : Client} → c.sender ≡ false → c.receiver ≡ false → Step false c (disconnect c)

-- Turns from c0 on, and whether one of them cancelled a sender that slept.
pub data Steps (c0 : Client) : Bool → Client → Type 0 where
  start : Steps c0 false c0
  step :
      {c c' : Client} {cut more : Bool}
      → Steps c0 cut c
      → Step more c c'
      → Steps c0 (cut || more) c'

-- The text of c0 was written once, and the flag is down.
abbrev pub Written : Client → Client → Type 0
Written c0 c =
    (c.ready_flag ≡ false) × (c.sent ≡ c0.sent ++ (c_string c0.command.data_to_send ∷ []))

-- The text of c0 is waiting, or it was written once; then it is acknowledged, or the sender sleeps, or
-- it was cancelled in its sleep.
pub record IsHandedOver (c0 : Client) (cut : Bool) (c : Client) : Type 0 where
  pub same_text : c.command.data_to_send ≡ c0.command.data_to_send
  pub written :
      ((c.ready_flag ≡ true) × (c.sent ≡ c0.sent))
      ⊎ (Written c0 c × ((c.command.ack ≡ 1) ⊎ (c.asleep ≡ true) ⊎ (cut ≡ true)))

-- What a turn of the receiver leaves alone: the text, the flag and what was written; and the
-- acknowledgement and the sleep, unless it acknowledges or cuts the sender off.
abbrev Keeps : Bool → Client → Client → Type 0
Keeps cut c c' =
    (c'.command.data_to_send ≡ c.command.data_to_send)
    × (c'.ready_flag ≡ c.ready_flag)
    × (c'.sent ≡ c.sent)
    × (((c'.command.ack ≡ c.command.ack) × (c'.asleep ≡ c.asleep))
        ⊎ (c'.command.ack ≡ 1)
        ⊎ (cut ≡ true))

or-left : (a b : Bool) → a ≡ true → (a || b) ≡ true
or-left a b h = rw h refl

or-right : (a b : Bool) → b ≡ true → (a || b) ≡ true
or-right true b h = refl
or-right false b h = h

Keeps-IsHandedOver :
    {c0 c c' : Client} (cut more : Bool)
    → Keeps more c c'
    → IsHandedOver c0 cut c
    → IsHandedOver c0 (cut || more) c'
Keeps-IsHandedOver cut more k h = record {
  same_text = k.0 ∙ h.same_text;
  written = elim (h.written) [
    | inl w ↦ inl (k.1 ∙ w.0, k.2 ∙ w.1)
    | inr w ↦ inr (
      (k.1 ∙ w.0.0, k.2 ∙ w.0.1),
      elim k.3 [
        | inl same ↦ elim w.1 [
          | inl e ↦ inl (same.0 ∙ e)
          | inr (inl e) ↦ inr (inl (same.1 ∙ e))
          | inr (inr e) ↦ inr (inr (or-left cut more e))
        ]
        | inr (inl e) ↦ inl e
        | inr (inr e) ↦ inr (inr (or-right cut more e))
      ],
    )
  ];
}

-- The same of a turn that may fail.
KeepsIf : Bool → Client → Option Client → Type 0
KeepsIf cut c none = Unit
KeepsIf cut c (some c') = Keeps cut c c'

recv_id-KeepsIf :
    (c : Client) (request : ℕ) (args : List Bytes) → KeepsIf false c (recv_id c request args)
unfolding KeepsIf recv_id post
recv_id-KeepsIf c request [] = tt
recv_id-KeepsIf c request (token ∷ rest) = (refl, refl, refl, inl (refl, refl))

recv_manual-KeepsIf : (c : Client) (args : List Bytes) → KeepsIf false c (recv_manual c args)
unfolding KeepsIf recv_manual post
recv_manual-KeepsIf c [] = tt
recv_manual-KeepsIf c (token ∷ rest) = elim (Option-cases (read_times rest)) [
  | inl e ↦ rw e tt
  | inr (times, e) ↦ rw e (refl, refl, refl, inl (refl, refl))
]

recv_command-KeepsIf : (c : Client) (args : List Bytes) → KeepsIf false c (recv_command c args)
unfolding KeepsIf recv_command
recv_command-KeepsIf c [] = tt
recv_command-KeepsIf c (token ∷ args) =
    if-both (λ o. KeepsIf false c o) (atoi token == add_device_cmd)
      (recv_id-KeepsIf c add_device_cmd args)
      (if-both (λ o. KeepsIf false c o) (atoi token == remove_device_cmd)
        (recv_id-KeepsIf c remove_device_cmd args)
        (if-both (λ o. KeepsIf false c o) (atoi token == mode_auto)
          (recv_id-KeepsIf c mode_auto args)
          (if-both (λ o. KeepsIf false c o) (atoi token == mode_manual) (recv_manual-KeepsIf c args)
            (refl, refl, refl, inl (refl, refl)))))

weaker : (cut : Bool) (c : Client) (o : Option Client) → KeepsIf false c o → KeepsIf cut c o
unfolding KeepsIf
weaker cut c none h = tt
weaker cut c (some c') h = (
  h.0,
  h.1,
  h.2,
  elim h.3 [ inl same ↦ inl same | inr (inl e) ↦ inr (inl e) | inr (inr e) ↦ absurd (cc) ],
)

if-false {ℓ} : {A : Type ℓ} (b : Bool) (x y : A) → b ≡ false → (if b then x else y) ≡ y
if-false b x y e = rw e refl

recv_turn-KeepsIf :
    (past : Bytes) (c : Client) (content : Option Bytes)
    → KeepsIf (cuts_off c content) c (recv_turn past c content)
unfolding KeepsIf recv_turn
recv_turn-KeepsIf past c none = (refl, refl, refl, inr (inl refl))
recv_turn-KeepsIf past c (some content) =
    elim (Bool-cases (strncmp_eq (received_buffer content) (codes "exit") 4)) [
      | inl e ↦ elim (Bool-cases c.asleep) [
        | inl on ↦ rw (e, on) (refl, refl, refl, inr (inr refl))
        | inr off ↦ rw (e, off) (refl, refl, refl, inl (refl, refl))
      ]
      | inr e ↦ rw e (
          weaker (c.asleep && false) c (recv_command c (tokens (received_buffer content ++ past)))
            (recv_command-KeepsIf c (tokens (received_buffer content ++ past))))
    ]

idle : (c : Client) → c.asleep ≡ false → c.ready_flag ≡ false → send_turn c ≡ c
unfolding send_turn
idle c off down = if-false c.asleep _ _ off ∙ if-false c.ready_flag _ c down

wakes :
    (c : Client)
    → c.asleep ≡ true
    → send_turn c ≡ record c { command = record c.command { ack = 1 }; asleep = false }
unfolding send_turn
wakes c on = ground arith

-- A turn of the sender.
send_turn-IsHandedOver :
    (c0 c : Client) (cut : Bool) → IsHandedOver c0 cut c → IsHandedOver c0 cut (send_turn c)
unfolding send_turn
send_turn-IsHandedOver c0 c cut h = elim (Bool-cases c.asleep) [
  | inl on ↦ rw on (record {
    same_text = h.same_text;
    written = elim (h.written) [ inl w ↦ inl w | inr w ↦ inr (w.0, inl refl) ];
  })
  | inr off ↦ elim (h.written) [
    | inl w ↦
        rw (off, w.0)
          (record {
            same_text = h.same_text;
            written = inr ((refl, rw (w.1, h.same_text) refl), inr (inl refl));
          })
    | inr w ↦ subst (λ c'. IsHandedOver c0 cut c') (sym (idle c off w.0.0)) h
  ]
]

-- Two turns of the sender.
sent_twice :
    (c0 c : Client) (cut : Bool)
    → IsHandedOver c0 cut c
    → Written c0 (send_turn (send_turn c))
      × (((send_turn (send_turn c)).command.ack ≡ 1) ⊎ (cut ≡ true))
unfolding send_turn
sent_twice c0 c cut h = elim (Bool-cases c.asleep) [
  | inl on ↦ elim (h.written) [
    | inl w ↦ rw (on, w.0) ((refl, rw (w.1, h.same_text) refl), inl refl)
    | inr w ↦
        let woken = record c { command = record c.command { ack = 1 }; asleep = false } in
        subst (λ c'. Written c0 c' × ((c'.command.ack ≡ 1) ⊎ (cut ≡ true)))
          (sym (ap send_turn (wakes c on) ∙ idle woken refl w.0.0)) ((w.0.0, w.0.1), inl refl)
  ]
  | inr off ↦ elim (h.written) [
    | inl w ↦ rw (off, w.0) ((refl, rw (w.1, h.same_text) refl), inl refl)
    | inr w ↦
        subst (λ c'. Written c0 c' × ((c'.command.ack ≡ 1) ⊎ (cut ≡ true)))
          (sym (ap send_turn (idle c off w.0.0) ∙ idle c off w.0.0))
          (
            (w.0.0, w.0.1),
            elim w.1 [ inl e ↦ inl e | inr (inl e) ↦ absurd (cc) | inr (inr e) ↦ inr e ],
          )
  ]
]

or-false : (b : Bool) → (b || false) ≡ b
or-false true = refl
or-false false = refl

Step-IsHandedOver :
    {c0 c c' : Client} {cut more : Bool}
    → Step more c c'
    → IsHandedOver c0 cut c
    → IsHandedOver c0 (cut || more) c'
unfolding KeepsIf connect disconnect post
Step-IsHandedOver {c0 = c0} {c = c} {cut = cut} (sends on) h =
    subst (λ b. IsHandedOver c0 b (send_turn c)) (sym (or-false cut))
      (send_turn-IsHandedOver c0 c cut h)
Step-IsHandedOver {c = c} {cut = cut} (receives past content on e) h =
    Keeps-IsHandedOver cut (cuts_off c content)
      (subst (λ o. KeepsIf (cuts_off c content) c o) e (recv_turn-KeepsIf past c content)) h
Step-IsHandedOver {cut = cut} (accepts s r) h =
    Keeps-IsHandedOver cut false (refl, refl, refl, inl (refl, refl)) h
Step-IsHandedOver {cut = cut} (leaves s r) h =
    Keeps-IsHandedOver cut false (refl, refl, refl, inl (refl, refl)) h

Steps-IsHandedOver :
    {c0 c : Client} {cut : Bool} → Steps c0 cut c → IsHandedOver c0 false c0 → IsHandedOver c0 cut c
Steps-IsHandedOver start h = h
Steps-IsHandedOver (step run s) h = Step-IsHandedOver s (Steps-IsHandedOver run h)

-- After SIGUSR2 for a text, in every order of the threads' turns, with a turn of the sender for its
-- write and one for its acknowledgement, connections that end and new ones included: the text is
-- waiting and nothing was written, or it was written exactly once, the flag is down, and it is
-- acknowledged unless the sender still sleeps or an "exit" cancelled it in its sleep. After two more
-- turns of the sender it is written exactly once, the flag is down, and it is acknowledged unless an
-- "exit" cancelled the sender in its sleep.
pub steps-IsHandedOver :
    (c0 c : Client) (cut : Bool)
    → Steps (sig_usr c0) cut c
    → IsHandedOver (sig_usr c0) cut c
      × Written (sig_usr c0) (send_turn (send_turn c))
      × (((send_turn (send_turn c)).command.ack ≡ 1) ⊎ (cut ≡ true))
unfolding sig_usr
steps-IsHandedOver c0 c cut run =
    let h = Steps-IsHandedOver run (record { same_text = refl; written = inl (refl, refl) }) in
    let (written, acknowledged) = sent_twice (record c0 { ready_flag = true }) c cut h in
    (h, written, acknowledged)

-- ===== src/Client/Commands.antt =====
-- The texts of the client's commands, and what recv_msg makes of them.
use gateway_v.Base.{
  ℕ, suc, ◌+◌, ◌-◌, ◌*◌, ◌≤◌, ◌<◌, ◌≡◌, refl, ap, ◌∙◌, false, Option, none, some, List, [], ◌∷◌,
  ◌++◌, map, arith, length, replicate, All, length-append, ◌⊎◌, inl, inr,
}
use mathlib.Core.List.{append_assoc}
use mathlib.Core.Path.{ap₂}
use gateway_v.Base.Word.{IsU32}
use gateway_v.Text.{Bytes, atoi, tokens, tokens_from, print_int, dec_digits, strncmp_eq}
use gateway_v.Text.Decimal.{atoi-print_int, length-print_int, print_int-IsPlain, print_int-ne-nil}
use gateway_v.Text.Tokens.{tokens_from-last, tokens_from-append, emit_token-ne-nil}
use gateway_v.Node.{TimeSet, add_device_cmd, remove_device_cmd, mode_manual, mode_auto, codes}
use gateway_v.Gateway.Request.{join_ints}
use gateway_v.Client.{
  Client, buffer_size, received_buffer, read_times, post, recv_id, recv_manual, recv_command,
  recv_turn,
}

-- strtok gives back the numbers of a text that has a space between them.
tokens-join_ints :
    (l : List ℕ) (x : ℕ) (past : Bytes)
    → tokens (join_ints x l ++ (0 ∷ past)) ≡ map print_int (x ∷ l)
unfolding tokens
tokens-join_ints [] x past =
    tokens_from-last [] (print_int x) past (print_int-IsPlain x)
    ∙ emit_token-ne-nil (print_int x) [] (print_int-ne-nil x)
tokens-join_ints (y ∷ l) x past =
    rw
      (
        append_assoc (print_int x) (32 ∷ join_ints y l) (0 ∷ past),
        tokens_from-append [] (print_int x) (join_ints y l ++ (0 ∷ past)) (print_int-IsPlain x),
        emit_token-ne-nil (print_int x) (tokens_from [] (join_ints y l ++ (0 ∷ past)))
            (print_int-ne-nil x),
      )
      (ap (λ t. print_int x ∷ t) (tokens-join_ints l y past))

length-join_ints : (l : List ℕ) (x : ℕ) → length (join_ints x l) ≤ 11 + 12 * length l
length-join_ints [] x = length-print_int x
length-join_ints (y ∷ l) x = omega (
  arith,
  length-append (print_int x) (32 ∷ join_ints y l),
  length-print_int x,
  length-join_ints l y,
)

-- The buffer holds a text that is shorter than it, and a zero byte behind that.
received_buffer_eq :
    (s : Bytes)
    → length s < buffer_size
    → received_buffer s ≡ s ++ (0 ∷ replicate (buffer_size - length s - 1) 0)
received_buffer_eq s h =
    let e : buffer_size - length s ≡ suc (buffer_size - length s - 1) = omega arith in
    ap (λ n. s ++ replicate n 0) e

tokens-received_buffer :
    (l : List ℕ) (x : ℕ) (past : Bytes)
    → length (join_ints x l) < buffer_size
    → tokens (received_buffer (join_ints x l) ++ past) ≡ map print_int (x ∷ l)
tokens-received_buffer l x past h = rw (received_buffer_eq (join_ints x l) h) (
    ap tokens (
      append_assoc (join_ints x l) (0 ∷ replicate (buffer_size - length (join_ints x l) - 1) 0)
        past)
    ∙ tokens-join_ints l x (replicate (buffer_size - length (join_ints x l) - 1) 0 ++ past))

recv_turn-numbers :
    (past : Bytes) (c : Client) (x : ℕ) (l : List ℕ)
    → length (join_ints x l) < buffer_size
    → strncmp_eq (received_buffer (join_ints x l)) (codes "exit") 4 ≡ false
    → recv_turn past c (some (join_ints x l)) ≡ recv_command c (map print_int (x ∷ l))
unfolding recv_turn
recv_turn-numbers past c x l h e = rw (e, tokens-received_buffer l x past h) refl

-- A text whose first number is the type of a command is not "exit".
not_exit :
    (x y : ℕ) (l : List ℕ)
    → (x ≡ add_device_cmd) ⊎ (x ≡ remove_device_cmd) ⊎ (x ≡ mode_auto) ⊎ (x ≡ mode_manual)
    → strncmp_eq (received_buffer (join_ints x (y ∷ l))) (codes "exit") 4 ≡ false
unfolding strncmp_eq print_int dec_digits
not_exit x y l (inl e) = rw e refl
not_exit x y l (inr (inl e)) = rw e refl
not_exit x y l (inr (inr (inl e))) = rw e refl
not_exit x y l (inr (inr (inr e))) = rw e refl

-- The command to add or to remove a node, or to set it to automatic operation, as the client writes
-- it: the request and the id are stored and posted to the parent process.
pub recv_turn-id :
    (past : Bytes) (c : Client) (request id : ℕ)
    → IsU32 id
    → (request ≡ add_device_cmd) ⊎ (request ≡ remove_device_cmd) ⊎ (request ≡ mode_auto)
    → recv_turn past c (some (join_ints request (id ∷ [])))
      ≡ some (post c (record c.command { request = request; id_to_handler = id }))
unfolding recv_command recv_id
recv_turn-id past c request id h kind =
    let short : length (join_ints request (id ∷ [])) < buffer_size =
      omega (arith, length-join_ints (id ∷ []) request) in
    recv_turn-numbers past c request (id ∷ []) short (
      not_exit request id []
        (elim kind [ inl e ↦ inl e | inr (inl e) ↦ inr (inl e) | inr (inr e) ↦ inr (inr (inl e)) ]))
    ∙ elim kind [
      | inl e ↦ rw (e, atoi-print_int add_device_cmd (omega arith), atoi-print_int id h) refl
      | inr (inl e) ↦
          rw (e, atoi-print_int remove_device_cmd (omega arith), atoi-print_int id h) refl
      | inr (inr e) ↦ rw (e, atoi-print_int mode_auto (omega arith), atoi-print_int id h) refl
    ]

-- The sixteen times in the order of their text.
abbrev pub times_list : TimeSet → List ℕ
times_list t =
    t.h_start_0 ∷ t.m_start_0 ∷ t.h_stop_0 ∷ t.m_stop_0 ∷ t.h_start_50 ∷ t.m_start_50 ∷ t.h_stop_50
    ∷ t.m_stop_50 ∷ t.h_start_75 ∷ t.m_start_75 ∷ t.h_stop_75 ∷ t.m_stop_75 ∷ t.h_start_100
    ∷ t.m_start_100 ∷ t.h_stop_100 ∷ t.m_stop_100 ∷ []

map-atoi : (l : List ℕ) → All IsU32 l → map atoi (map print_int l) ≡ l
map-atoi [] h = refl
map-atoi (x ∷ l) h = ap₂ (λ y rest. y ∷ rest) (atoi-print_int x h.0) (map-atoi l h.1)

-- What read_times makes of sixteen numbers.
times_of : List ℕ → Option TimeSet
times_of (a ∷ b ∷ c ∷ d ∷ e ∷ f ∷ g ∷ h ∷ i ∷ j ∷ k ∷ l ∷ m ∷ n ∷ o ∷ p ∷ _) = some (record {
  h_start_0 = a;
  m_start_0 = b;
  h_stop_0 = c;
  m_stop_0 = d;
  h_start_50 = e;
  m_start_50 = f;
  h_stop_50 = g;
  m_stop_50 = h;
  h_start_75 = i;
  m_start_75 = j;
  h_stop_75 = k;
  m_stop_75 = l;
  h_start_100 = m;
  m_start_100 = n;
  h_stop_100 = o;
  m_stop_100 = p;
})
times_of _ = none

read_times-times_list :
    (t : TimeSet) → All IsU32 (times_list t) → read_times (map print_int (times_list t)) ≡ some t
unfolding read_times times_of
read_times-times_list t h = ap times_of (map-atoi (times_list t) h)

-- The command for manual operation as the client writes it, an id and sixteen times: they are stored
-- and posted to the parent process.
pub recv_turn-manual :
    (past : Bytes) (c : Client) (id : ℕ) (t : TimeSet)
    → IsU32 id
    → All IsU32 (times_list t)
    → recv_turn past c (some (join_ints mode_manual (id ∷ times_list t)))
      ≡ some (post c (record c.command { request = mode_manual; id_to_handler = id; user_set = t }))
unfolding recv_command recv_manual
recv_turn-manual past c id t h u =
    let short : length (join_ints mode_manual (id ∷ times_list t)) < buffer_size =
      omega (arith, length-join_ints (id ∷ times_list t) mode_manual) in
    recv_turn-numbers past c mode_manual (id ∷ times_list t) short
      (not_exit mode_manual id (times_list t) (inr (inr (inr refl))))
    ∙ rw (atoi-print_int mode_manual (omega arith), atoi-print_int id h, read_times-times_list t u)
        refl
